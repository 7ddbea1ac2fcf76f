-- ===== src/Controller/Auth/Cache.antt =====
-- Which tokens `ValidateAccessToken` takes, and what becomes of the cache of users.
use mathlib.Core.Path.{subst}
use zeronet.Prelude.{◌≡◌, refl, String, true, Option, some, none, List, arith, ◌≢◌, ◌⊎◌, inl, inr}
use zeronet.Go.{Result, ok, err}
use zeronet.Go.SyncMap.{load, store, string_key, load-store, load-store_other}
use zeronet.Controller.Auth.{
  Idp, Cache, UserInfo, contains_text, get_user_info, get_user, validate_audience,
  validate_access_token,
}

-- The cache `c'` names `user` for the subject of the token, and is `c` for the others.
pub Named : (I : Idp) → (c c' : Cache) → I.Token → String → Type 0
Named I c c' t user =
    (sub : String) × (info : UserInfo) × (I.subject t ≡ ok sub)
    × (load sub c' ≡ some info)
    × (info.email ≡ user)
    × ((s : String) → sub ≢ s → load s c' ≡ load s c)

-- A token that names `user` while the cache goes from `c` to `c'`.
pub Accepted : (I : Idp) → String → String → (c c' : Cache) → String → Type 0
Accepted I audience token c c' user =
    (t : I.Token) × (audiences : List String) × (I.parse_token token ≡ ok t)
    × (I.valid t ≡ true)
    × (I.audience t ≡ ok audiences)
    × (contains_text audiences audience ≡ true)
    × Named I c c' t user

module _ (I : Idp) where
  get_user-fetched :
      (c c' : Cache) (t : I.Token) (sub user : String)
      → I.subject t ≡ ok sub
      → load sub c ≡ none
      → get_user I c t ≡ (c', ok user)
      → Named I c c' t user
  unfolding get_user Named
  get_user-fetched c c' t sub user u l h = go (get_user_info I t) refl
    where
      go : (r : Result String UserInfo) → get_user_info I t ≡ r → Named I c c' t user
      go (err e) g = ground arith
      go (ok info) g =
          let same : store sub info c ≡ c' = ground arith in
          (
            sub,
            info,
            u,
            subst (λ d. load sub d ≡ some info) same (load-store sub info c),
            ground arith,
            λ s d. subst (λ m. load s m ≡ load s c) same (load-store_other info c d),
          )

  get_user-Named :
      (c c' : Cache) (t : I.Token) (user : String)
      → get_user I c t ≡ (c', ok user)
      → Named I c c' t user
  unfolding get_user Named
  get_user-Named c c' t user h = subject (I.subject t) refl
    where
      lookup :
          (sub : String)
          → I.subject t ≡ ok sub
          → (o : Option UserInfo) → load sub c ≡ o
          → Named I c c' t user
      lookup sub u none l = get_user-fetched c c' t sub user u l h
      lookup sub u (some info) l =
          let same : c ≡ c' = ground arith in
          (
            sub,
            info,
            u,
            subst (λ d. load sub d ≡ some info) same l,
            ground arith,
            λ s d. subst (λ m. load s m ≡ load s c) same refl,
          )

      subject : (r : Result String String) → I.subject t ≡ r → Named I c c' t user
      subject (err e) u = ground arith
      subject (ok sub) u = lookup sub u (load sub c) refl

  get_user-err : (c c' : Cache) (t : I.Token) (e : String) → get_user I c t ≡ (c', err e) → c' ≡ c
  unfolding get_user
  get_user-err c c' t e h = ground arith

  -- `ValidateAccessToken` names a user only for a token that parses with the provider's keys, is
  -- valid and has the audience among its own; the user is the email address that the cache then holds
  -- for the token's subject, and no other subject's entry has changed. When it names none, the cache
  -- is as it was.
  pub validate_access_token_lem :
      (audience token : String) (c c' : Cache) (r : Result String String)
      → validate_access_token I audience c token ≡ (c', r)
      → ((user : String) × (r ≡ ok user) × Accepted I audience token c c' user)
        ⊎ ((e : String) × (r ≡ err e) × (c' ≡ c))
  unfolding validate_access_token validate_audience Accepted
  validate_access_token_lem audience token c c' r h = named r h
    where
      parse :
          (user : String)
          → validate_access_token I audience c token ≡ (c', ok user)
          → (p : Result String I.Token) → I.parse_token token ≡ p
          → Accepted I audience token c c' user
      parse user h (err e) u = ground arith
      parse user h (ok t) u = go (I.audience t) refl
        where
          go :
              (a : Result String (List String))
              → I.audience t ≡ a
              → Accepted I audience token c c' user
          go (err e) v = ground arith
          go (ok audiences) v =
              let named : get_user I c t ≡ (c', ok user) = ground arith in
              (t, audiences, u, ground arith, v, ground arith, get_user-Named c c' t user named)

      refused :
          (e : String)
          → validate_access_token I audience c token ≡ (c', err e)
          → (p : Result String I.Token) → I.parse_token token ≡ p
          → c' ≡ c
      refused e h (err f) u = ground arith
      refused e h (ok t) u = ground (arith, get_user-err c c' t e)

      named :
          (r : Result String String)
          → validate_access_token I audience c token ≡ (c', r)
          → ((user : String) × (r ≡ ok user) × Accepted I audience token c c' user)
            ⊎ ((e : String) × (r ≡ err e) × (c' ≡ c))
      named (ok user) h = inl (user, refl, parse user h (I.parse_token token) refl)
      named (err e) h = inr (e, refl, refused e h (I.parse_token token) refl)
