-- ===== src/Node/Keys/Files.antt =====
-- A pair of keys that is stored is loaded again.
use zeronet.Prelude.{
  ℕ, String, true, List, Option, none, some, ◌≡◌, ◌≢◌, refl, arith, Option-cases, inl, inr, ◌⊎◌, ap,
  sym, ◌∙◌,
}
use zeronet.Go.{ok}
use zeronet.Go.SyncMap.{load, store, string_key, load-store, load-store_other}
use zeronet.Node.Noise.{DhKey}
use zeronet.Node.Keys.{
  Key, KeyFormats, Disk, key_path, key_of, decode_key_pair, load_key_from_disk, store_key_to_disk,
}

-- What the encoders promise: what they write is read back.
pub record RoundTrips (F : KeyFormats) : Type 0 where
  pub base64 : (b : List ℕ) → F.decode_base64 (F.encode_base64 b) ≡ some b
  pub yaml :
      (k : Key) (text : String) → F.yaml_encode k ≡ (text, none) → F.yaml_decode text ≡ some k

module _ (F : KeyFormats) (R : RoundTrips F) where
  decode_key_pair-key_of : (k : DhKey) → decode_key_pair F (key_of F k) ≡ ok k
  unfolding decode_key_pair key_of
  decode_key_pair-key_of k = rw (decode_key_pair, R.base64 k.private) (rw (R.base64 k.public) refl)

  -- The disk when `os.Create` has succeeded and the encoder has written.
  abbrev written : DhKey → Disk → Disk
  written k d = record d { files = store (key_path d) (F.yaml_encode (key_of F k)).0 d.files }

  store-cases :
      (k : DhKey) (d : Disk)
      → ((e : String) × (d.create_error ≡ some e) × (store_key_to_disk F k d ≡ (d, some e)))
        ⊎ ((d.create_error ≡ none)
            × (store_key_to_disk F k d ≡ (written k d, (F.yaml_encode (key_of F k)).1)))
  unfolding store_key_to_disk
  store-cases k d = elim (Option-cases d.create_error) [
    | inl h ↦ inr (h, rw h refl)
    | inr (e, h) ↦ inl (e, h, rw h refl)
  ]

  loads_written :
      (k : DhKey) (d : Disk)
      → (F.yaml_encode (key_of F k)).1 ≡ none
      → d.opens ≡ true
      → load_key_from_disk F (written k d) ≡ ok k
  unfolding load_key_from_disk
  loads_written k d e o =
      let text : String = (F.yaml_encode (key_of F k)).0 in
      let back : F.yaml_decode text ≡ some (key_of F k) =
        R.yaml (key_of F k) text (λ i. (text, e i)) in
      rw (load_key_from_disk, load-store (key_path d) text d.files)
        (rw (o, back) (decode_key_pair-key_of k))

  -- What a call of `StoreKeyToDisk` can come to: the pair is stored, and is loaded again; the file cannot be created,
  -- and nothing changes; or the encoder fails, and the file holds what it has written.
  pub Stored : DhKey → Disk → Disk → Option String → Type 0
  Stored k d d' error =
      ((error ≡ none) × (load_key_from_disk F d' ≡ ok k))
      ⊎ ((e : String) × (error ≡ some e) × (d.create_error ≡ some e) × (d' ≡ d))
      ⊎ ((e : String) × (error ≡ some e)
          × ((F.yaml_encode (key_of F k)).1 ≡ some e)
          × (load (key_path d) d'.files ≡ some (F.yaml_encode (key_of F k)).0))

  -- If files can be opened, a pair that is stored without an error is loaded again, and no other file is touched.
  -- With an error, either the file could not be created and nothing has changed, or the encoder has failed, and
  -- the file holds what the encoder has written and nothing of a pair that was stored before.
  pub load_key_from_disk-store_key_to_disk :
      (k : DhKey) (d d' : Disk) (error : Option String) (path : String)
      → d.opens ≡ true
      → store_key_to_disk F k d ≡ (d', error)
      → key_path d ≢ path
      → Stored k d d' error × (load path d'.files ≡ load path d.files)
  unfolding Stored
  load_key_from_disk-store_key_to_disk k d d' error path o e other = go (store-cases k d)
    where
      text : String
      text = (F.yaml_encode (key_of F k)).0

      after :
          (x : Option String)
          → (F.yaml_encode (key_of F k)).1 ≡ x
          → error ≡ x
          → written k d ≡ d'
          → Stored k d d' error
      after none f g same = inl (g, ap (load_key_from_disk F) (sym same) ∙ loads_written k d f o)
      after (some y) f g same = inr (
          inr (
            y,
            g,
            f,
            ap (λ t. load (key_path d) t.files) (sym same) ∙ load-store (key_path d) text d.files,
          ))

      go :
          ((x : String) × (d.create_error ≡ some x) × (store_key_to_disk F k d ≡ (d, some x)))
            ⊎ ((d.create_error ≡ none)
                × (store_key_to_disk F k d ≡ (written k d, (F.yaml_encode (key_of F k)).1)))
          → Stored k d d' error × (load path d'.files ≡ load path d.files)
      go (inl (x, f, g)) =
          let same : (d ≡ d') × (some x ≡ error) = ground arith in
          (inr (inl (x, sym same.1, f, sym same.0)), ap (λ d. load path d.files) (sym same.0))
      go (inr (f, g)) =
          let same : (written k d ≡ d') × ((F.yaml_encode (key_of F k)).1 ≡ error) = ground arith in
          (
            after (F.yaml_encode (key_of F k)).1 refl (sym same.1) same.0,
            ap (λ d. load path d.files) (sym same.0) ∙ load-store_other text d.files other,
          )
