-- ===== src/Controller/GatewayTests.antt =====
-- The calls of the web API, and the interceptor, on a controller with one peer.
use zeronet.Prelude.{ℕ, ◌≡◌, ◌≢◌, refl, true, some, none, [], ◌∷◌, ◌⊎◌, All, str_eq, if◌then◌else◌}
use zeronet.Go.{done, Result, ok, err}
use zeronet.Go.SyncMap.{load, nat_key}
use zeronet.Controller.Types.{Peer}
use zeronet.Controller.Store.Table.{table}
use zeronet.Controller.Ipam.Unary.{netip}
use zeronet.Controller.Channels.{peer_forced_logout_event}
use zeronet.Controller.Server
use zeronet.Controller.Server.{logout_peer}
use zeronet.Go.SyncMap.{store, delete}
use zeronet.Controller.Auth.{validate_access_token, validate_audience, get_user, get_user_info}
use zeronet.Controller.Grpc.{GrpcServer, Status, unauthenticated}
use zeronet.Controller.Grpc.Tests.{plain, grpc, emptied}
use zeronet.Controller.Tests.{idp, known}
use zeronet.Controller.Gateway.{Metadata, delete_peer, authorize, extract_token_metadata}
use zeronet.Controller.Gateway.Authorization.{Authorized, delete_peer-Authorized}
use zeronet.Controller.Jwt.{JwtLibrary, Claims}
use zeronet.Controller.Interceptors.{Allowed, Refusal, unary_auth, unary_auth-Allowed}

abbrev bearer : Metadata
bearer = some ("Bearer token" ∷ [])

extracted : extract_token_metadata bearer ≡ ok "token"
unfolding extract_token_metadata
extracted = refl

abbrev after : GrpcServer table idp netip plain
after = record grpc { controller = emptied; cache = known }

abbrev fine : Result Status (Unit {0})
fine = ok tt

removes : delete_peer table idp netip plain 9 1 bearer grpc ≡ done (after, fine)
unfolding delete_peer authorize extract_token_metadata validate_access_token validate_audience
    get_user get_user_info load store delete Server.delete_peer logout_peer peer_forced_logout_event
removes = refl

delete_peer-Authorized_example :
    ((e : Status) × (fine ≡ err e)
      × (e.code ≡ unauthenticated)
      × (after.controller ≡ grpc.controller))
    ⊎ (Authorized table idp netip plain grpc bearer
        × (fine ≡ ok tt → All (λ (p : Peer). p.id ≢ 1) after.controller.db))
delete_peer-Authorized_example =
    delete_peer-Authorized table idp netip plain 9 1 bearer grpc after fine removes

abbrev claims : Claims
claims = record {
  machine_id = "1";
  expires_at = 9;
  issued_at = 5;
  not_before = 5;
  issuer = "zeronet-controller";
}

abbrev handler : ℕ → Result Refusal ℕ
handler n = ok n

-- A library for which one text is a token that is valid.
abbrev jwt : JwtLibrary
jwt = record {
  signed_string = λ key claims. some "token";
  parse_with_claims = λ key token. if str_eq token "token" then some (claims, true) else none;
}

unary_auth-Allowed_example :
    (Allowed jwt "Punch" (some ("token" ∷ []))
      → unary_auth jwt handler "Punch" (some ("token" ∷ [])) 3 ≡ handler 3)
    × (¬ Allowed jwt "Punch" (some ("token" ∷ []))
        → (e : Refusal) × (unary_auth jwt handler "Punch" (some ("token" ∷ [])) 3 ≡ err e))
unary_auth-Allowed_example = unary_auth-Allowed jwt handler "Punch" (some ("token" ∷ [])) 3
