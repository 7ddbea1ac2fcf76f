-- ===== src/Node/Keys/Tests.antt =====
-- A pair of keys and its file, with encoders for which the promises hold.
use Prim.Native.Char.{code}
use zeronet.Prelude.{
  ℕ, zero, suc, ◌+◌, ◌≡◌, refl, String, true, List, [], ◌∷◌, Option, none, some, arith, ap, ◌∙◌,
  ◌==◌, ◌&&◌, str_eq, eq_iff, if◌then◌else◌, ◌≢◌,
}
use zeronet.Go.SyncMap.{store, string_key, delete, load}
use zeronet.Node.Noise.{DhKey}
use zeronet.Node.Keys.{Key, KeyFormats, Disk, key_of, store_key_to_disk}
use zeronet.Node.Keys.Files.{RoundTrips, load_key_from_disk-store_key_to_disk, Stored}

-- A byte as so many ones and a comma.
abbrev ones : ℕ → String → String
ones zero s = String.◌∷◌ "," s
ones (suc n) s = String.◌∷◌ "1" (ones n s)

abbrev in_ones : List ℕ → String
in_ones [] = ""
in_ones (n ∷ b) = ones n (in_ones b)

abbrev cons_to : ℕ → Option (List ℕ) → Option (List ℕ)
cons_to n none = none
cons_to n (some b) = some (n ∷ b)

abbrev from_ones : ℕ → String → Option (List ℕ)
from_ones n String.[] = some []
from_ones n (String.◌∷◌ c s) =
    let next = from_ones (suc n) s in
    let rest = from_ones 0 s in if code c == 44 then cons_to n rest else next

from_ones-ones : (m n : ℕ) (s : String) → from_ones m (ones n s) ≡ cons_to (m + n) (from_ones 0 s)
from_ones-ones m zero s =
    let same : m ≡ m + 0 = omega arith in ap (λ k. cons_to k (from_ones 0 s)) same
from_ones-ones m (suc n) s =
    let same : suc m + n ≡ m + suc n = omega arith in
    from_ones-ones (suc m) n s ∙ ap (λ k. cons_to k (from_ones 0 s)) same

from_ones-in_ones : (b : List ℕ) → from_ones 0 (in_ones b) ≡ some b
from_ones-in_ones [] = refl
from_ones-in_ones (n ∷ b) =
    let same : 0 + n ≡ n = omega arith in
    from_ones-ones 0 n (in_ones b) ∙ (λ i. cons_to (same i) (from_ones-in_ones b i))

abbrev pair : DhKey
pair = record { public = 2 ∷ 1 ∷ []; private = 3 ∷ [] }

abbrev text_key : Key
text_key = record { public = in_ones pair.public; private = in_ones pair.private }

abbrev encoded : Key → String × Option String
encoded k =
    if str_eq k.public text_key.public && str_eq k.private text_key.private
    then ("PublicKey: 11,1, PrivateKey: 111,", none)
    else ("", some "unsupported")

abbrev decoded : String → Option Key
decoded t = if str_eq t "PublicKey: 11,1, PrivateKey: 111," then some text_key else none

abbrev formats : KeyFormats
formats = record {
  encode_base64 = in_ones;
  decode_base64 = from_ones 0;
  yaml_encode = encoded;
  yaml_decode = decoded;
}

reads_back : (k : Key) (text : String) → encoded k ≡ (text, none) → decoded text ≡ some k
reads_back k text e = ground (
  arith,
  eq_iff k.public text_key.public,
  eq_iff k.private text_key.private,
  eq_iff text "PublicKey: 11,1, PrivateKey: 111,",
)

promises : RoundTrips formats
promises = record { base64 = from_ones-in_ones; yaml = reads_back }

abbrev disk : Disk
disk = record {
  files = ("/root/notes", "text") ∷ [];
  home = "/root";
  create_error = none;
  opens = true;
}

abbrev disk_after : Disk
disk_after = record disk {
  files =
      ("/root/overlay.keypair", "PublicKey: 11,1, PrivateKey: 111,") ∷ ("/root/notes", "text") ∷ [];
}

paths_differ : ◌≢◌ {A = String} "/root/overlay.keypair" "/root/notes"
paths_differ = ground (arith, eq_iff "/root/overlay.keypair" "/root/notes")

stores : store_key_to_disk formats pair disk ≡ (disk_after, none)
unfolding store_key_to_disk key_of store delete
stores = refl

load_key_from_disk-store_key_to_disk_example :
    Stored formats promises pair disk disk_after none
    × (load "/root/notes" disk_after.files ≡ load "/root/notes" disk.files)
load_key_from_disk-store_key_to_disk_example =
    load_key_from_disk-store_key_to_disk formats promises pair disk disk_after none "/root/notes"
      refl stores paths_differ
