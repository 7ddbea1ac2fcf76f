-- ===== src/Controller/Interceptors.antt =====
-- controller/middleware/interceptors.go: what stands before a call.
use zeronet.Prelude.{
  String, [], ◌∷◌, Bool, Option, none, some, if◌then◌else◌, ◌||◌, str_eq, ◌≡◌, List, true, false,
  ◌↔◌, ◌⊎◌, inl, arith, inr, Bool-cases, refl, Option-cases,
}
use zeronet.Go.{Result, ok, err}
use zeronet.Controller.Gateway.{Metadata}
use zeronet.Controller.Jwt.{
  JwtLibrary, JwtError, parse_jwt_with_claims, is_jwt_expired, Claims,
  is_jwt_expired-parse_jwt_with_claims,
}

unfoldable pub method_bypass : String → Bool
method_bypass method =
    str_eq method "/proto.ControllerService/GetPKCEAuthInfo"
    || str_eq method "/proto.ControllerService/LoginPeer"

-- The refusals, all of them with the code of `Unauthenticated`.
pub data Refusal : Type 0 where
  metadata_missing token_missing : Refusal
  token_refused : JwtError → Refusal

module _ (J : JwtLibrary) where
  unfoldable pub authorize_jwt : String → Metadata → Option Refusal
  authorize_jwt method md = if method_bypass method then none else values md
    where
      values : Metadata → Option Refusal
      values none = some metadata_missing
      values (some []) = some token_missing
      values (some (token ∷ rest)) = elim (parse_jwt_with_claims J token) [
        | err e ↦ some (token_refused e)
        | ok claims ↦ none
      ]

  -- The interceptor around a handler.
  unfoldable pub unary_auth {ℓ κ} :
      {Req : Type ℓ} {Resp : Type κ}
      → (Req → Result Refusal Resp)
      → String
      → Metadata
      → Req
      → Result Refusal Resp
  unary_auth handler method md req = elim (authorize_jwt method md) [
    | some e ↦ err e
    | none ↦ handler req
  ]

  -- The call is let through.
  pub Allowed : String → Metadata → Type 0
  Allowed method md =
      (method_bypass method ≡ true)
      ⊎ ((token : String) × (rest : List String) × (md ≡ some (token ∷ rest))
          × (is_jwt_expired J token ≡ false))

  token-Allowed :
      (method token : String) (rest : List String) (md : Metadata)
      → method_bypass method ≡ false
      → md ≡ some (token ∷ rest)
      → (authorize_jwt method md ≡ none) ↔ (is_jwt_expired J token ≡ false)
  unfolding authorize_jwt
  token-Allowed method token rest md b e =
      let (to, from) = is_jwt_expired-parse_jwt_with_claims J token in
      (
        λ f. from (go (parse_jwt_with_claims J token) refl f),
        λ f. let (claims, g) = to f in ground arith,
      )
    where
      go :
          (r : Result JwtError Claims)
          → parse_jwt_with_claims J token ≡ r
          → authorize_jwt method md ≡ none
          → (claims : Claims) × (parse_jwt_with_claims J token ≡ ok claims)
      go (ok claims) g f = (claims, g)
      go (err x) g f = ground arith

  authorize_jwt-Allowed :
      (method : String) (md : Metadata) → ((authorize_jwt method md ≡ none) ↔ Allowed method md)
  unfolding authorize_jwt Allowed
  authorize_jwt-Allowed method md = elim (Bool-cases (method_bypass method)) [
    | inl b ↦ (λ f. inl b, λ a. ground arith)
    | inr b ↦ checked md refl b
  ]
    where
      checked :
          (m : Metadata)
          → md ≡ m
          → method_bypass method ≡ false
          → (authorize_jwt method md ≡ none) ↔ Allowed method md
      checked none e b = (λ f. ground arith, λ a. other a)
        where
          other : Allowed method md → authorize_jwt method md ≡ none
          other (inl c) = ground arith
          other (inr (token, rest, f, g)) = ground arith
      checked (some []) e b = (λ f. ground arith, λ a. other a)
        where
          other : Allowed method md → authorize_jwt method md ≡ none
          other (inl c) = ground arith
          other (inr (token, rest, f, g)) = ground arith
      checked (some (token ∷ rest)) e b =
          let (to, from) = token-Allowed method token rest md b e in
          (λ f. inr (token, rest, e, to f), λ a. other from a)
        where
          other :
              (is_jwt_expired J token ≡ false → authorize_jwt method md ≡ none)
              → Allowed method md
              → authorize_jwt method md ≡ none
          other from (inl c) = ground arith
          other from (inr (token', rest', f, g)) = from (ground arith)

  -- The interceptor hands a call to its handler, and returns what that returns, if the method needs no token or
  -- `IsJwtExpired` does not say that the first token of the metadata has expired; it refuses any other call, and
  -- does not run the handler.
  pub unary_auth-Allowed {ℓ κ} :
      {Req : Type ℓ} {Resp : Type κ} (handler : Req → Result Refusal Resp) (method : String)
      (md : Metadata) (req : Req)
      → (Allowed method md → unary_auth handler method md req ≡ handler req)
        × (¬ Allowed method md → (e : Refusal) × (unary_auth handler method md req ≡ err e))
  unfolding unary_auth
  unary_auth-Allowed handler method md req =
      let (to, from) = authorize_jwt-Allowed method md in
      (
        λ a. rw (from a, unary_auth) refl,
        λ no. elim (Option-cases (authorize_jwt method md)) [
          | inl none_ ↦ absurd (no (to none_))
          | inr (e, f) ↦ (e, rw (f, unary_auth) refl)
        ],
      )
