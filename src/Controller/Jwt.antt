-- ===== src/Controller/Jwt.antt =====
-- controller/auth/jwt.go and controller/middleware/interceptors.go: tokens that the controller signs itself,
-- and the interceptors that check them before a call.
use zeronet.Prelude.{
  ℕ, String, Bool, true, Option, none, some, if◌then◌else◌, not, ◌+◌, ◌*◌, ◌≡◌, false, ◌↔◌, arith,
  refl,
}
use zeronet.Go.{Result, ok, err}
use zeronet.Controller.Types.{hour}

pub record Claims : Type 0 where
  pub machine_id : String
  pub expires_at : ℕ
  pub issued_at : ℕ
  pub not_before : ℕ
  pub issuer : String

-- github.com/golang-jwt/jwt: the token that carries the claims, signed with HS256, and what a text parses to
-- under the key of the source, with whether the token is valid.
pub record JwtLibrary : Type 0 where
  pub signed_string : (key : String) → Claims → Option String
  pub parse_with_claims : (key token : String) → Option (Claims × Bool)

abbrev pub days_token_valid : ℕ
days_token_valid = 30

abbrev pub jwt_signing_key : String
jwt_signing_key = "SECRETKEY"

pub data JwtError : Type 0 where
  parsing token_invalid : JwtError

module _ (J : JwtLibrary) where
  abbrev pub get_expire_date : ℕ → ℕ
  get_expire_date now = now + 24 * hour * days_token_valid

  unfoldable pub generate_jwt_with_claims : ℕ → String → Option String
  generate_jwt_with_claims now user = J.signed_string jwt_signing_key (record {
    machine_id = user;
    expires_at = get_expire_date now;
    issued_at = now;
    not_before = now;
    issuer = "zeronet-controller";
  })

  unfoldable pub parse_jwt_with_claims : String → Result JwtError Claims
  parse_jwt_with_claims token = elim (J.parse_with_claims jwt_signing_key token) [
    | none ↦ err parsing
    | some (claims, valid) ↦ if not valid then err token_invalid else ok claims
  ]

  unfoldable pub is_jwt_expired : String → Bool
  is_jwt_expired token = elim (J.parse_with_claims jwt_signing_key token) [
    | none ↦ true
    | some (claims, valid) ↦ not valid
  ]

  -- `IsJwtExpired` says that a token has not expired exactly when `ParseJwtWithClaims` gives its claims.
  pub is_jwt_expired-parse_jwt_with_claims :
      (token : String)
      → (is_jwt_expired token ≡ false)
        ↔ ((claims : Claims) × (parse_jwt_with_claims token ≡ ok claims))
  unfolding is_jwt_expired parse_jwt_with_claims
  is_jwt_expired-parse_jwt_with_claims token = go (J.parse_with_claims jwt_signing_key token) refl
    where
      go :
          (o : Option (Claims × Bool))
          → J.parse_with_claims jwt_signing_key token ≡ o
          → (is_jwt_expired token ≡ false)
            ↔ ((claims : Claims) × (parse_jwt_with_claims token ≡ ok claims))
      go none e = (λ f. ground arith, λ x. let (c, f) = x in ground arith)
      go (some (claims, true)) e = (λ f. (claims, ground arith), λ x. ground arith)
      go (some (claims, false)) e = (λ f. ground arith, λ x. let (c, f) = x in ground arith)
