-- ===== src/Server/Table/Arrival.antt =====
-- A request as it comes to one tunnel, the upload included (src/lib.rs).
pub mod Credentials
pub mod Closed
use ftnl_backend_api_rs.Base.{ℕ, List, Option, Result, ok, err}
use ftnl_backend_api_rs.Server.{Platform, Tunnel, ApiError, Stamp}
use ftnl_backend_api_rs.Server.Transfers.{UploadResponse, upload_file}
use ftnl_backend_api_rs.Server.Table.{Call, Response, serve}

-- Every route of `app` on one tunnel. An upload looks at the tunnel twice, and carries what its first
-- look found: `before`, the tunnel at the instant `first`.
pub data Arrival : Type 0 where
  locked : Call → Arrival
  upload :
      (before : Tunnel) (authorization : Option (List ℕ)) (file_id : ℕ)
      (content_range : Option (List ℕ)) (body : List (Option (List ℕ))) (first second : ℕ)
      (progress available : Stamp)
      → Arrival

abbrev pub upload_answer : Result UploadResponse ApiError → Result Response ApiError
upload_answer (err e) = err e
upload_answer (ok response) = ok (Response.progress response)

-- What the request makes of the tunnel that it finds, at its second look if it is an upload.
unfoldable pub arrive : Platform → ℕ → Arrival → Tunnel → Tunnel × Result Response ApiError
arrive platform tunnel_id (locked c) t = serve platform tunnel_id c t
arrive platform tunnel_id (upload before a file_id header body first second progress available) t =
    (
      (upload_file platform before t a file_id header body first second progress available).0,
      upload_answer
          (upload_file platform before t a file_id header body first second progress available).1,
    )
