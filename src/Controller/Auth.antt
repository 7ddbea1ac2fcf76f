-- ===== src/Controller/Auth.antt =====
-- controller/auth/oauth.go: what an access token is worth, and the cache of users. The libraries that
-- parse tokens and keys, and the endpoint of the identity provider, are parameters.
pub mod Cache
pub mod Sweep
pub mod Config
use zeronet.Controller.Types.{hour}
use zeronet.Prelude.{
  ℕ, ◌-◌, ◌≡◌, String, Bool, true, false, Option, some, none, List, [], ◌∷◌, leb, str_eq,
  if◌then◌else◌, ◌||◌,
}
use zeronet.Go.{Result, ok, err}
use zeronet.Go.SyncMap.{load, store, string_key}
use Prim.Native.String.{◌++◌}

pub record UserInfo : Type 0 where
  pub name : String
  pub given_name : String
  pub family_name : String
  pub email : String
  pub nickname : String
  pub updated_at : ℕ

-- One hour.
unfoldable pub needs_refresh : ℕ → UserInfo → Bool
needs_refresh now u = leb hour (now - u.updated_at)

-- The members of a JSON object that `UserInfo` has fields for; a missing one is empty.
pub record Body : Type 0 where
  pub name : String
  pub given_name : String
  pub family_name : String
  pub email : String
  pub nickname : String

-- A request over HTTP: it fails, or the body of the response decodes or not, whatever the status is.
pub data Reply : Type 0 where
  unreachable : String → Reply
  answered : Result String Body → Reply

-- `jwt.Parse` with the keys of the provider, the claims of a token that it parsed, and what the
-- provider's endpoint answers to a request with the token.
pub record Idp : Type 1 where
  pub Token : Type 0
  pub parse_token : String → Result String Token
  pub valid : Token → Bool
  pub subject : Token → Result String String
  pub audience : Token → Result String (List String)
  pub userinfo : Token → Reply

abbrev pub Cache : Type 0
Cache = List (String × UserInfo)

abbrev pub contains_text : List String → String → Bool
contains_text [] t = false
contains_text (s ∷ ss) t = str_eq s t || contains_text ss t

-- The decoder leaves `UpdatedAt` alone, which is the zero time.
abbrev decoded : Body → UserInfo
decoded b = record {
  name = b.name;
  given_name = b.given_name;
  family_name = b.family_name;
  email = b.email;
  nickname = b.nickname;
  updated_at = 0;
}

-- The check of every entry of the cache, at one tick of the timer.
unfoldable pub user_info_cache_routine : ℕ → Cache → Cache
user_info_cache_routine now [] = []
user_info_cache_routine now ((sub, u) ∷ c) =
    let rest = user_info_cache_routine now c in
    if needs_refresh now u then rest else (sub, u) ∷ rest

module _ (I : Idp) where
  unfoldable pub get_user_info : I.Token → Result String UserInfo
  get_user_info t = elim (I.userinfo t) [
    | unreachable e ↦ err e
    | answered (err e) ↦ err e
    | answered (ok b) ↦ ok (decoded b)
  ]

  unfoldable pub validate_audience : String → I.Token → Option String
  validate_audience audience t = elim (I.audience t) [
    | err e ↦ some e
    | ok audiences ↦ if contains_text audiences audience then none else some "invalid audience"
  ]

  unfoldable pub get_user : Cache → I.Token → Cache × Result String String
  get_user c t = elim (I.subject t) [
    | err e ↦ (c, err e)
    | ok sub ↦ elim (load sub c) [
      | some u ↦ (c, ok u.email)
      | none ↦ elim (get_user_info t) [
        | err e ↦ (c, err "error retrieving user info from idp userinfo endpoint")
        | ok u ↦ (store sub u c, ok u.email)
      ]
    ]
  ]

  unfoldable pub validate_access_token : String → Cache → String → Cache × Result String String
  validate_access_token audience c token = elim (I.parse_token token) [
    | err e ↦ (c, err ("error parsing access token: " ++ e))
    | ok t ↦
        if I.valid t
        then elim (validate_audience audience t) [ some e ↦ (c, err e) | none ↦ get_user c t ]
        else (c, err "access token is invalid")
  ]
