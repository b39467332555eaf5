-- ===== src/Server/Handlers/Creation.antt =====
-- Which requests `create_tunnel` of src/lib.rs takes, and what it takes for a field that is missing.
use ftnl_backend_api_rs.Base.{
  ℕ, List, [], ◌∷◌, Option, none, some, ◌*◌, ◌^◌, ◌<◌, ◌≤◌, ◌≡◌, ◌↔◌, ok, arith, length,
}
use ftnl_backend_api_rs.Text.{Str, codes, len}
use ftnl_backend_api_rs.Server.{default_max_files, default_max_file_bytes, default_expires_seconds}
use ftnl_backend_api_rs.Server.Handlers.{CreateTunnelRequest, validate_create}

-- A request to create a tunnel is valid exactly when its application identifier has 1 to 128 bytes, it
-- asks for 1 to 100 files of 1 byte to 5 GiB each, for 60 to 3600 seconds, and names 1 to 32 patterns.
pub validate_create_iff :
    (request : CreateTunnelRequest)
    → (validate_create request ≡ ok tt) ↔ (
        (0 < len request.application_id)
        × (len request.application_id ≤ 128)
        × (0 < request.max_files)
        × (request.max_files ≤ 100)
        × (0 < request.max_file_bytes)
        × (request.max_file_bytes ≤ 5 * 1024 ^ 3)
        × (60 ≤ request.expires_in_seconds)
        × (request.expires_in_seconds ≤ 3600)
        × (0 < length request.accept)
        × (length request.accept ≤ 32))
unfolding validate_create
validate_create_iff request = (λ h. ground arith, λ h. ground arith)

-- `default_accept`
unfoldable pub default_accept : List Str
default_accept = codes "image/*" ∷ []

-- A request with the fields that it may leave out.
pub record CreateTunnelBody : Type 0 where
  pub application_id : Str
  pub accept : Option (List Str)
  pub max_files : Option ℕ
  pub max_file_bytes : Option ℕ
  pub expires_in_seconds : Option ℕ

abbrev unwrap_or {ℓ} : {A : Type ℓ} → Option A → A → A
unwrap_or none a = a
unwrap_or (some b) a = b

-- `#[serde(default = …)]`
unfoldable pub with_defaults : CreateTunnelBody → CreateTunnelRequest
with_defaults body = record {
  application_id = body.application_id;
  accept = unwrap_or body.accept default_accept;
  max_files = unwrap_or body.max_files default_max_files;
  max_file_bytes = unwrap_or body.max_file_bytes default_max_file_bytes;
  expires_in_seconds = unwrap_or body.expires_in_seconds default_expires_seconds;
}

-- A request that names nothing but the application is valid exactly when that name has 1 to 128 bytes.
pub bare_request_iff :
    (body : CreateTunnelBody)
    → body.accept ≡ none
    → body.max_files ≡ none
    → body.max_file_bytes ≡ none
    → body.expires_in_seconds ≡ none
    → (validate_create (with_defaults body) ≡ ok tt)
      ↔ ((0 < len body.application_id) × (len body.application_id ≤ 128))
unfolding with_defaults default_accept
bare_request_iff body a f b e =
    let (valid, bounds) = validate_create_iff (with_defaults body) in
    (λ h. ((valid h).0, (valid h).1), λ (named, short). bounds (ground (arith, named, short)))
