-- ===== src/Go.antt =====
-- What a call of Go code may come to: it returns, it panics or ends the process, or it waits for a
-- lock or a channel.
pub mod SyncMap
pub mod Strings
use zeronet.Prelude.{◌≡◌, ◌≢◌, ◌⊎◌, inl, inr, refl, Option, none, some}

pub data Panic : Type 0 where
  nil_pointer slice_bounds unlock_of_unlocked wrong_counter out_of_sequence : Panic
  closed_channel failed exits : Panic

pub data Outcome {ℓ} (A : Type ℓ) : Type ℓ where
  done : A → Outcome A
  panics : Panic → Outcome A
  blocks : Outcome A

-- A value and an error, of which a caller reads one.
pub data Result {ℓ κ} (E : Type ℓ) (A : Type κ) : Type (ℓ ⊔ κ) where
  ok : A → Result E A
  err : E → Result E A

infixl 5 ◌>>=◌ ◌>>◌
abbrev pub ◌>>=◌ {ℓ κ} : {A : Type ℓ} {B : Type κ} → Outcome A → (A → Outcome B) → Outcome B
done a >>= f = f a
panics e >>= f = panics e
blocks >>= f = blocks

abbrev pub ◌>>◌ {ℓ} : {B : Type ℓ} → Outcome (Unit {0}) → Outcome B → Outcome B
m >> k = m >>= λ _. k

-- A pointer that is followed.
abbrev pub deref {ℓ} : {A : Type ℓ} → Option A → Outcome A
deref none = panics nil_pointer
deref (some a) = done a

-- `if err != nil { panic(err) }`
abbrev pub or_panic {ℓ} : {A : Type ℓ} → Panic → Option A → Outcome A
or_panic e none = panics e
or_panic e (some a) = done a

-- Inversion of a successful call in a sequence of two.
pub >>=-eq-done {ℓ κ} :
    {A : Type ℓ} {B : Type κ} (m : Outcome A) (f : A → Outcome B) {b : B}
    → (m >>= f) ≡ done b
    → (a : A) × (m ≡ done a) × (f a ≡ done b)
>>=-eq-done (done a) f h = (a, refl, h)
>>=-eq-done (panics e) f h = cc
>>=-eq-done blocks f h = cc

-- A call returns, or it does not.
pub Outcome-cases {ℓ} :
    {A : Type ℓ} (m : Outcome A) → ((a : A) × (m ≡ done a)) ⊎ ((a : A) → m ≢ done a)
Outcome-cases (done a) = inl (a, refl)
Outcome-cases (panics e) = inr λ a h. cc
Outcome-cases blocks = inr λ a h. cc
