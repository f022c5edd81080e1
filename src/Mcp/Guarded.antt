-- ===== src/Mcp/Guarded.antt =====
-- crates/shapeport-mcp/src/lib.rs: the requests that reach a server on a public address.
use shapeport.Prelude.{
  ◌≡◌, ◌↔◌, refl, ap, Bool, true, false, not, ◌&&◌, Text, text_eq_iff, codes, Option, none, some,
  ◌++◌,
}
use shapeport.Config.{RuntimeConfig}
use shapeport.Security.{strip_prefix}
use shapeport.Security.Digests.{strip_iff}
use shapeport.Mcp.Auth.{
  SocketAddr, Guard, HttpConfig, Server, Request, guard_of, build_http_config, served, serve_http,
  is_expected, check_bearer, lets_in, reaches,
}

abbrev bearer_scheme : Text
bearer_scheme = codes "Bearer "

expected_iff :
    (found : Option Text) (token : Text) → (is_expected found token ≡ true) ↔ (found ≡ some token)
expected_iff none token = (λ h. cc h, λ h. cc h)
expected_iff (some provided) token =
    (λ h. ap some ((text_eq_iff provided token).0 h), λ h. (text_eq_iff provided token).1 (cc h))

check_bearer_iff :
    (header : Option Text) (token : Text)
    → (check_bearer header token ≡ true) ↔ (header ≡ some (bearer_scheme ++ token))
unfolding check_bearer
check_bearer_iff none token = (λ h. cc h, λ h. cc h)
check_bearer_iff (some header) token =
    let stripped = strip_iff bearer_scheme header token in
    let expected = expected_iff (strip_prefix bearer_scheme header) token in
    (λ h. ap some (stripped.0 (expected.0 h)), λ h. expected.1 (stripped.1 (cc h)))

both_iff : (a b : Bool) (P : Type 0) → ((a ≡ true) ↔ P) → (a && b ≡ true) ↔ (P × (b ≡ true))
both_iff true b P e = (λ h. (e.0 refl, h), λ p. p.1)
both_iff false b P e = (λ h. cc h, λ p. e.1 p.0)

served-guard_of :
    (loopback : Bool) (set : Option Text) (http : HttpConfig) (server : Server)
    → loopback ≡ false
    → served (guard_of (not loopback) set) http ≡ some server
    → (token : Text) × (set ≡ some token)
      × (server ≡ record { guard = Guard.bearer token; http = http })
unfolding guard_of
served-guard_of true set http server outside h = cc outside
served-guard_of false none http server outside h = cc h
served-guard_of false (some token) http server outside h = (token, refl, cc h)

-- A server that starts on an address that is no loopback has a configured token, and a request
-- reaches it exactly when its Authorization header is `Bearer ` and that token, and `rmcp` accepts its
-- `Host` and `Origin` under the configuration that `build_http_config` makes for the address.
pub serve_http-Guarded :
    (validates : HttpConfig → Request → Bool) (bind : SocketAddr) (config : RuntimeConfig)
    (server : Server)
    → bind.is_loopback ≡ false
    → serve_http bind config ≡ some server
    → (token : Text) × (config.mcp.bearer_token ≡ some token)
      × ((request : Request)
          → (reaches validates server request ≡ true) ↔ (
              (request.authorization ≡ some (bearer_scheme ++ token))
              × (validates (build_http_config bind config) request ≡ true)))
unfolding reaches lets_in serve_http
serve_http-Guarded validates bind config server outside h =
    let (token, set, same) =
      served-guard_of bind.is_loopback config.mcp.bearer_token (build_http_config bind config)
        server outside h in
    (
      token,
      set,
      λ request. rw same (
          both_iff (check_bearer request.authorization token)
            (validates (build_http_config bind config) request)
            (request.authorization ≡ some (bearer_scheme ++ token))
            (check_bearer_iff request.authorization token)),
    )
