-- ===== src/Node/Keys.antt =====
-- node/helpers.go: the pair of keys of a node, and the file that it can be kept in. The encoders of
-- gopkg.in/yaml.v3 and encoding/base64 are parameters.
pub mod Files
mod Tests
use zeronet.Prelude.{ℕ, String, Bool, true, false, List, Option, none, some, if◌then◌else◌}
use zeronet.Go.{Result, ok, err}
use zeronet.Go.SyncMap.{load, store, string_key}
use zeronet.Node.Noise.{DhKey}
use Prim.Native.String.{◌++◌}

pub record Key : Type 0 where
  pub public : String
  pub private : String

-- `yaml_encode` gives the text that the encoder writes, whether or not it ends with an error.
pub record KeyFormats : Type 0 where
  pub encode_base64 : List ℕ → String
  pub decode_base64 : String → Option (List ℕ)
  pub yaml_encode : Key → String × Option String
  pub yaml_decode : String → Option Key

-- The files of the machine by their paths, the variable `HOME`, the error that `os.Create` ends with, and
-- whether a file that exists can be opened.
pub record Disk : Type 0 where
  pub files : List (String × String)
  pub home : String
  pub create_error : Option String
  pub opens : Bool

pub data LoadError : Type 0 where
  file_not_found decoding_file decoding_private_key decoding_public_key : LoadError

-- `noise.GenerateKeypair` with what the random source gives it.
unfoldable pub generate_new_keypair : Result String DhKey → Result String DhKey
generate_new_keypair (err e) = err e
generate_new_keypair (ok keypair) = ok keypair

abbrev pub key_path : Disk → String
key_path d = d.home ++ "/overlay.keypair"

module _ (F : KeyFormats) where
  unfoldable pub decode_key_pair : Key → Result LoadError DhKey
  decode_key_pair key = elim (F.decode_base64 key.private) [
    | none ↦ err decoding_private_key
    | some priv ↦ elim (F.decode_base64 key.public) [
      | none ↦ err decoding_public_key
      | some public ↦ ok (record { public = public; private = priv })
    ]
  ]

  unfoldable pub load_key_from_disk : Disk → Result LoadError DhKey
  load_key_from_disk d = elim (load (key_path d) d.files) [
    | none ↦ err file_not_found
    | some text ↦
        if d.opens
        then elim (F.yaml_decode text) [ none ↦ err decoding_file | some key ↦ decode_key_pair key ]
        else err file_not_found
  ]

  unfoldable pub key_of : DhKey → Key
  key_of k = record { public = F.encode_base64 k.public; private = F.encode_base64 k.private }

  -- `os.Create` empties a file that is there.
  unfoldable pub store_key_to_disk : DhKey → Disk → Disk × Option String
  store_key_to_disk k d = elim d.create_error [
    | some e ↦ (d, some e)
    | none ↦
        let (text, error) = F.yaml_encode (key_of k) in
        (record d { files = store (key_path d) text d.files }, error)
  ]
