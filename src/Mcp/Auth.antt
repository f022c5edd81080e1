-- ===== src/Mcp/Auth.antt =====
-- crates/shapeport-mcp/src/lib.rs: who may call the HTTP server. The transport (axum, rmcp) is left out.
use shapeport.Prelude.{
  Text, text_eq, codes, Bool, not, ◌&&◌, Option, none, some, List, [], ◌∷◌, is_empty, if◌then◌else◌,
}
use shapeport.Config.{RuntimeConfig}
use shapeport.Security.{strip_prefix}

-- A `SocketAddr`, by what `std::net` says of it.
pub record SocketAddr : Type 0 where
  pub ip_text : Text
  pub text : Text
  pub is_loopback : Bool
  pub is_unspecified : Bool

-- The layer around the router: none, or `auth_bearer` with its token.
pub data Guard : Type 0 where
  unguarded : Guard
  bearer : Text → Guard

-- The guard of `serve_http`, or none where it refuses to start.
unfoldable pub guard_of : Bool → Option Text → Option Guard
guard_of Bool.true none = none
guard_of Bool.true (some token) = some (Guard.bearer token)
guard_of Bool.false token = some Guard.unguarded

-- The end of `check_bearer`, by what follows the scheme.
abbrev pub is_expected : Option Text → Text → Bool
is_expected none expected = Bool.false
is_expected (some provided) expected = text_eq provided expected

-- `check_bearer`, on the Authorization header if it is there and a text; false is 401.
unfoldable pub check_bearer : Option Text → Text → Bool
unfolding strip_prefix text_eq
check_bearer none expected = Bool.false
check_bearer (some header) expected = is_expected (strip_prefix (codes "Bearer ") header) expected

-- Whether the layer passes a request with that Authorization header on.
unfoldable pub lets_in : Guard → Option Text → Bool
unfolding check_bearer
lets_in Guard.unguarded header = Bool.true
lets_in (Guard.bearer token) header = check_bearer header token

-- The validation of `Host`: rmcp's default names, none, or these names.
pub data AllowedHosts : Type 0 where
  defaults disabled : AllowedHosts
  listed : List Text → AllowedHosts

unfoldable pub configure_allowed_hosts : SocketAddr → AllowedHosts
configure_allowed_hosts bind =
    if bind.is_loopback
    then AllowedHosts.defaults
    else if bind.is_unspecified
    then AllowedHosts.disabled
    else AllowedHosts.listed
        (codes "localhost" ∷ codes "127.0.0.1" ∷ codes "::1" ∷ bind.ip_text ∷ bind.text ∷ [])

pub record HttpConfig : Type 0 where
  pub allowed_origins : Option (List Text)
  pub allowed_hosts : AllowedHosts

unfoldable pub build_http_config : SocketAddr → RuntimeConfig → HttpConfig
unfolding configure_allowed_hosts
build_http_config bind config = record {
  allowed_origins =
      (if is_empty config.mcp.origin_allowlist then none else some config.mcp.origin_allowlist);
  allowed_hosts = configure_allowed_hosts bind;
}

-- What `serve_http` serves: `StreamableHttpService` with its configuration, behind the guard.
pub record Server : Type 0 where
  pub guard : Guard
  pub http : HttpConfig

abbrev pub served : Option Guard → HttpConfig → Option Server
served none http = none
served (some guard) http = some (record { guard = guard; http = http })

-- None is the refusal to start; that binding the address may fail is left out.
unfoldable pub serve_http : SocketAddr → RuntimeConfig → Option Server
unfolding guard_of build_http_config
serve_http bind config =
    served (guard_of (not bind.is_loopback) config.mcp.bearer_token) (build_http_config bind config)

-- The headers that decide whether a request is served; each if it is there and a text.
pub record Request : Type 0 where
  pub authorization : Option Text
  pub host : Option Text
  pub origin : Option Text

-- Whether a request reaches a tool. The layer comes first; `validates` is the check of `Host` and
-- `Origin` by the `rmcp` crate, for its configuration.
unfoldable pub reaches : (HttpConfig → Request → Bool) → Server → Request → Bool
unfolding lets_in
reaches validates server request =
    lets_in server.guard request.authorization && validates server.http request
