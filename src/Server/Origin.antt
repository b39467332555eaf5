-- ===== src/Server/Origin.antt =====
-- The origin of the portal (src/lib.rs): `AppState::default`, and the predicate of the CORS layer.
pub mod Laws
pub mod Fragment
use ftnl_backend_api_rs.Base.{ℕ, Bool, List, Option, none, some}
use ftnl_backend_api_rs.Text.{Str, codes, bytes, str_eq}
use ftnl_backend_api_rs.Server.{AppState}
use ftnl_backend_api_rs.Server.Table.{new_state}

-- `env::var("FTNL_PORTAL_ORIGIN").unwrap_or_else(…)`, of what the environment holds.
unfoldable pub default_origin : Option Str → Str
default_origin none = codes "http://127.0.0.1:3000"
default_origin (some origin) = origin

-- `AppState::default`
unfoldable pub default_state : Option Str → AppState
default_state variable = new_state (default_origin variable)

-- `origin.as_bytes() == allowed_origin.as_bytes()`: may a page of this origin read the answers?
unfoldable pub origin_is_allowed : AppState → List ℕ → Bool
origin_is_allowed s origin = str_eq origin (bytes s.portal_origin)
