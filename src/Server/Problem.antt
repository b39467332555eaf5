-- ===== src/Server/Problem.antt =====
-- What a client sees of an error: `Display` and `IntoResponse` of `ApiError` (src/lib.rs).
pub mod Laws
use ftnl_backend_api_rs.Base.{ℕ, ◌++◌}
use ftnl_backend_api_rs.Text.{Str, codes}
use ftnl_backend_api_rs.Server.{
  ApiError, invalid, invalid_range, upload_conflict, unauthorized, not_found, expired, conflict,
  too_large, unsupported_media, status_code,
}

-- `#[error(…)]`
unfoldable pub error_text : ApiError → Str
error_text (invalid detail) = codes "invalid request: " ++ detail
error_text (invalid_range detail) = codes "invalid upload range: " ++ detail
error_text (upload_conflict detail) = codes "upload offset conflict: " ++ detail
error_text unauthorized = codes "capability is missing or invalid"
error_text not_found = codes "tunnel or file was not found"
error_text expired = codes "tunnel has expired"
error_text conflict = codes "resource state conflicts with this operation"
error_text too_large = codes "declared upload is too large"
error_text unsupported_media = codes "media type is not accepted"

unfoldable pub title : ApiError → Str
title (invalid detail) = codes "Invalid request"
title (invalid_range detail) = codes "Invalid request"
title (upload_conflict detail) = codes "Upload offset conflict"
title unauthorized = codes "Unauthorized capability"
title not_found = codes "Not found"
title expired = codes "Tunnel expired"
title conflict = codes "State conflict"
title too_large = codes "File too large"
title unsupported_media = codes "Unsupported media type"

unfoldable pub code : ApiError → Str
code (invalid detail) = codes "invalid_request"
code (invalid_range detail) = codes "invalid_request"
code (upload_conflict detail) = codes "upload_offset_conflict"
code unauthorized = codes "unauthorized"
code not_found = codes "not_found"
code expired = codes "tunnel_expired"
code conflict = codes "state_conflict"
code too_large = codes "file_too_large"
code unsupported_media = codes "unsupported_media_type"

pub record Problem : Type 0 where
  pub kind : Str
  pub title : Str
  pub status : ℕ  -- u16
  pub detail : Str
  pub code : Str

-- The body of `into_response`; its `status` is also the status of the response.
unfoldable pub into_response : ApiError → Problem
into_response error = record {
  kind = codes "https://file-tunnel.dev/problems/" ++ code error;
  title = title error;
  status = status_code error;
  detail = error_text error;
  code = code error;
}
