-- ===== src/Controller/Auth/Sweep.antt =====
-- What the timer leaves in the cache of users.
use mathlib.Core.Path.{subst}
use zeronet.Prelude.{
  ℕ, ◌≤◌, ◌≡◌, refl, String, List, [], ◌∷◌, arith, All, Bool-cases, str_eq, inl, inr, ◌⊎◌, Option,
  sym, some, none,
}
use zeronet.Go.{Result, ok, err}
use zeronet.Go.SyncMap.{load, store, delete, string_key}
use zeronet.Controller.Types.{hour}
use zeronet.Controller.Auth.{
  Idp, Cache, UserInfo, needs_refresh, user_info_cache_routine, get_user_info, get_user,
  validate_access_token,
}

-- Every entry of the cache has the zero time as that of its last update.
abbrev Undated : Cache → Type 0
Undated c = All (λ (e : String × UserInfo). e.1.updated_at ≡ 0) c

Undated-delete : (sub : String) (c : Cache) → Undated c → Undated (delete sub c)
unfolding delete
Undated-delete sub [] h = tt
Undated-delete sub ((s, u) ∷ c) (d, h) = elim (Bool-cases (str_eq s sub)) [
  | inl e ↦ rw e (Undated-delete sub c h)
  | inr e ↦ rw e (d, Undated-delete sub c h)
]

user_info_cache_routine-Undated :
    (now : ℕ) (c : Cache) → hour ≤ now → Undated c → user_info_cache_routine now c ≡ []
unfolding user_info_cache_routine needs_refresh
user_info_cache_routine-Undated now [] h d = refl
user_info_cache_routine-Undated now ((s, u) ∷ c) h (d, ds) =
    ground (arith, user_info_cache_routine-Undated now c h ds)

module _ (I : Idp) where
  get_user_info-undated : (t : I.Token) (u : UserInfo) → get_user_info I t ≡ ok u → u.updated_at ≡ 0
  unfolding get_user_info
  get_user_info-undated t u h = ground arith

  get_user-cache :
      (c : Cache) (t : I.Token)
      → ((get_user I c t).0 ≡ c)
        ⊎ ((sub : String) × (u : UserInfo) × (get_user_info I t ≡ ok u)
            × ((get_user I c t).0 ≡ store sub u c))
  unfolding get_user
  get_user-cache c t = go (I.subject t) refl (get_user_info I t) refl
    where
      go :
          (r : Result String String)
          → I.subject t ≡ r
          → (g : Result String UserInfo) → get_user_info I t ≡ g
          → ((get_user I c t).0 ≡ c)
            ⊎ ((sub : String) × (u : UserInfo) × (get_user_info I t ≡ ok u)
                × ((get_user I c t).0 ≡ store sub u c))
      go (err e) p g q = inl (ground arith)
      go (ok sub) p (err e) q = inl (ground arith)
      go (ok sub) p (ok u) q = hit (load sub c) refl
        where
          hit :
              (o : Option UserInfo)
              → load sub c ≡ o
              → ((get_user I c t).0 ≡ c)
                ⊎ ((sub : String) × (u : UserInfo) × (get_user_info I t ≡ ok u)
                    × ((get_user I c t).0 ≡ store sub u c))
          hit none l = inr (sub, u, q, ground arith)
          hit (some v) l = inl (ground arith)

  get_user-Undated : (c : Cache) (t : I.Token) → Undated c → Undated (get_user I c t).0
  unfolding store
  get_user-Undated c t h = elim (get_user-cache c t) [
    | inl e ↦ rw e h
    | inr (sub, u, g, e) ↦ rw e (get_user_info-undated t u g, Undated-delete sub c h)
  ]

  validate-Undated :
      (audience token : String) (c : Cache)
      → Undated c
      → Undated (validate_access_token I audience c token).0
  unfolding validate_access_token
  validate-Undated audience token c h = go (I.parse_token token) refl
    where
      go :
          (p : Result String I.Token)
          → I.parse_token token ≡ p
          → Undated (validate_access_token I audience c token).0
      go (err e) u = subst Undated (ground arith) h
      go (ok t) u = elim (same t u) [
        | inl e ↦ subst Undated (sym e) h
        | inr e ↦ subst Undated (sym e) (get_user-Undated c t h)
      ]
        where
          same :
              (t : I.Token)
              → I.parse_token token ≡ ok t
              → ((validate_access_token I audience c token).0 ≡ c)
                ⊎ ((validate_access_token I audience c token).0 ≡ (get_user I c t).0)
          same t u = ground arith

  -- The cache after a number of tokens was validated.
  unfoldable pub validations : String → List String → Cache → Cache
  validations audience [] c = c
  validations audience (token ∷ tokens) c =
      validations audience tokens (validate_access_token I audience c token).0

  -- Whatever tokens were validated since the server started, and however recently, the timer empties
  -- the cache, since no entry has the time at which it was fetched. The clock is at least an hour past
  -- the zero time.
  pub user_info_cache_routine-validations :
      (audience : String) (tokens : List String) (now : ℕ)
      → hour ≤ now
      → user_info_cache_routine now (validations audience tokens []) ≡ []
  unfolding validations
  user_info_cache_routine-validations audience tokens now h =
      user_info_cache_routine-Undated now (validations audience tokens []) h (undated tokens [] tt)
    where
      undated :
          (tokens : List String) (c : Cache) → Undated c → Undated (validations audience tokens c)
      undated [] c d = d
      undated (token ∷ tokens) c d = undated tokens _ (validate-Undated audience token c d)
