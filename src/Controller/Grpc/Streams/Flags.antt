-- ===== src/Controller/Grpc/Streams/Flags.antt =====
-- What a step of a stream does to the channels: which of them are received from, and how many there are.
use mathlib.Core.Path.{subst}
use zeronet.Prelude.{
  ℕ, zero, suc, ◌≡◌, ◌≢◌, refl, List, [], ◌∷◌, ◌++◌, Bool, false, Option, none, some, length, arith,
  ap, Bool-cases, inl, inr, ◌==◌,
}
use zeronet.Go.{done}
use zeronet.Go.SyncMap.{nat_key}
use zeronet.Controller.Channels.{
  Channel, Update, send, close, change_at, channel_at, receive, shut, open_channel,
}
use zeronet.Controller.Grpc.Stream.{receiving}
use zeronet.Controller.Grpc.Streams.{visit}

-- Whether a channel is received from.
abbrev pub flag : ℕ → List Channel → Bool
flag n [] = false
flag zero (x ∷ xs) = x.receiving
flag (suc n) (x ∷ xs) = flag n xs

pub flag-open : (m : ℕ) (xs : List Channel) → flag m (xs ++ open_channel ∷ []) ≡ flag m xs
flag-open zero [] = refl
flag-open (suc m) [] = refl
flag-open zero (x ∷ xs) = refl
flag-open (suc m) (x ∷ xs) = flag-open m xs

flag-change_at :
    (f : Channel → Channel)
    → ((x : Channel) → (f x).receiving ≡ x.receiving)
    → (n m : ℕ) (xs : List Channel) → flag m (change_at n f xs) ≡ flag m xs
flag-change_at f h n m [] = refl
flag-change_at f h zero zero (x ∷ xs) = h x
flag-change_at f h zero (suc m) (x ∷ xs) = refl
flag-change_at f h (suc n) zero (x ∷ xs) = refl
flag-change_at f h (suc n) (suc m) (x ∷ xs) = flag-change_at f h n m xs

pub flag-receiving_other :
    (b : Bool) (n m : ℕ) (xs : List Channel)
    → m ≢ n
    → flag m (change_at n (receiving b) xs) ≡ flag m xs
flag-receiving_other b n m [] d = refl
flag-receiving_other b zero zero (x ∷ xs) d = absurd (d refl)
flag-receiving_other b zero (suc m) (x ∷ xs) d = refl
flag-receiving_other b (suc n) zero (x ∷ xs) d = refl
flag-receiving_other b (suc n) (suc m) (x ∷ xs) d =
    flag-receiving_other b n m xs (λ e. d (ap suc e))

pub flag-receiving_false :
    (n : ℕ) (xs : List Channel) → flag n (change_at n (receiving false) xs) ≡ false
flag-receiving_false n [] = refl
flag-receiving_false zero (x ∷ xs) = refl
flag-receiving_false (suc n) (x ∷ xs) = flag-receiving_false n xs

pub length-change_at :
    (f : Channel → Channel) (n : ℕ) (xs : List Channel) → length (change_at n f xs) ≡ length xs
length-change_at f n [] = refl
length-change_at f zero (x ∷ xs) = refl
length-change_at f (suc n) (x ∷ xs) = ap suc (length-change_at f n xs)

-- The channels keep their number and the flags.
pub record Same (xs ys : List Channel) : Type 0 where
  pub number : length ys ≡ length xs
  pub flags : (m : ℕ) → flag m ys ≡ flag m xs

pub Same-refl : (xs : List Channel) → Same xs xs
Same-refl xs = record { number = refl; flags = λ m. refl }

send-Same : (n : ℕ) (u : Update) (xs ys : List Channel) → send n u xs ≡ done ys → Same xs ys
unfolding send
send-Same n u xs ys e = go (channel_at xs n) refl
  where
    go : (o : Option Channel) → channel_at xs n ≡ o → Same xs ys
    go none f = ground arith
    go (some x) f =
        let same : change_at n (receive u) xs ≡ ys = ground arith in
        subst (Same xs) same (record {
          number = length-change_at (receive u) n xs;
          flags = λ m. flag-change_at (receive u) (λ x. refl) n m xs;
        })

pub close-Same : (n : ℕ) (xs ys : List Channel) → close n xs ≡ done ys → Same xs ys
unfolding close
close-Same n xs ys e = go (channel_at xs n) refl
  where
    go : (o : Option Channel) → channel_at xs n ≡ o → Same xs ys
    go none f = ground arith
    go (some x) f =
        let same : change_at n shut xs ≡ ys = ground arith in
        subst (Same xs) same (record {
          number = length-change_at shut n xs;
          flags = λ m. flag-change_at shut (λ x. refl) n m xs;
        })

pub visit-Same :
    (id : ℕ) (e : ℕ × ℕ) (u : Update) (xs ys : List Channel)
    → visit id e u xs ≡ done ys
    → Same xs ys
visit-Same id (k, n) u xs ys e = elim (Bool-cases (k == id)) [
  | inl b ↦ let same : xs ≡ ys = ground arith in subst (Same xs) same (Same-refl xs)
  | inr b ↦ send-Same n u xs ys (ground arith)
]
