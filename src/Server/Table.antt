-- ===== src/Server/Table.antt =====
-- The table of tunnels of src/lib.rs (`AppState`), and the requests of `app` on it. A request holds the
-- lock from its look-up to its end, `upload_file` excepted: see Table/World.antt.
pub mod Isolation
pub mod World
pub mod Arrival
pub mod Evolution
pub mod Closed
pub mod Credentials
pub mod Soundness
pub mod Invariant
use ftnl_backend_api_rs.Base.{ℕ, List, [], Option, none, some, Result, ok, err, get, put}
use ftnl_backend_api_rs.Text.{Str}
use ftnl_backend_api_rs.Server.{
  Platform, Tunnel, FileDescriptor, AppState, ApiError, not_found, Stamp, same_id,
}
use ftnl_backend_api_rs.Server.Access.{bearer_hash}
use ftnl_backend_api_rs.Server.Handlers.{
  CreateTunnelRequest, CreateTunnelResponse, DeclareFileRequest, EventTicketResponse, Reading,
  create_tunnel, claim_tunnel, cancel_tunnel, declare_file, create_event_ticket, connect_events,
}
use ftnl_backend_api_rs.Server.Transfers.{UploadResponse, Download, upload_status, download_file}
use ftnl_backend_api_rs.Server.Snapshot.{TunnelSnapshot, get_tunnel}

-- `AppState::new`
unfoldable pub new_state : Str → AppState
new_state portal_origin = record { tunnels = []; portal_origin = portal_origin }

-- The routes of `app` on one tunnel but the upload, with what the extractors read of the request, the
-- clock readings and the random numbers.
pub data Call : Type 0 where
  claim : (secret : Str) (at : Reading) → Call
  snapshot : (authorization : Option (List ℕ)) (now : ℕ) → Call
  cancel : (authorization : Option (List ℕ)) (at : Reading) → Call
  declare : (authorization : Option (List ℕ)) (request : DeclareFileRequest) (at : Reading) → Call
  status : (file_id : ℕ) (authorization : Option (List ℕ)) (now : ℕ) → Call
  download : (file_id : ℕ) (authorization : Option (List ℕ)) (now : ℕ) (stamp : Stamp) → Call
  mint : (authorization : Option (List ℕ)) (at : Reading) → Call
  connect : (ticket : Str) (now : ℕ) → Call

pub data Request : Type 0 where
  create : (request : CreateTunnelRequest) (tunnel_id : ℕ) (pairing desk : Reading) → Request
  call : (tunnel_id : ℕ) → Call → Request

pub data Response : Type 0 where
  created : CreateTunnelResponse → Response
  claimed : (phone_capability : Str) (expires_at : ℕ) → Response
  snapshot_of : TunnelSnapshot → Response
  no_content : Response
  declared : FileDescriptor → Response
  progress : UploadResponse → Response
  content : Download → Response
  ticket_for : EventTicketResponse → Response
  feed : Response

-- `tunnels.get_mut(&tunnel_id).ok_or(ApiError::NotFound)?`, and what the handler does then.
abbrev pub on_found :
    {A : Type 0}
    → AppState
    → ℕ
    → (Tunnel → Tunnel × Result A ApiError)
    → Option Tunnel
    → AppState × Result A ApiError
on_found s tunnel_id handler none = (s, err not_found)
on_found s tunnel_id handler (some t) =
    (record s { tunnels = put same_id tunnel_id (handler t).0 s.tunnels }, (handler t).1)

unfoldable pub with_tunnel :
    {A : Type 0}
    → AppState
    → ℕ
    → (Tunnel → Tunnel × Result A ApiError)
    → AppState × Result A ApiError
with_tunnel s tunnel_id handler = on_found s tunnel_id handler (get same_id tunnel_id s.tunnels)

-- A handler whose errors all come before its first assignment.
abbrev pub respond :
    {A : Type 0}
    → Tunnel
    → (A → Response)
    → Result (Tunnel × A) ApiError
    → Tunnel × Result Response ApiError
respond t answer (err e) = (t, err e)
respond t answer (ok (t', a)) = (t', ok (answer a))

-- A handler that only reads.
abbrev pub reply :
    {A : Type 0} → Tunnel → (A → Response) → Result A ApiError → Tunnel × Result Response ApiError
reply t answer (err e) = (t, err e)
reply t answer (ok a) = (t, ok (answer a))

abbrev pub insert_created :
    AppState
    → ℕ
    → Result (Tunnel × CreateTunnelResponse) ApiError
    → AppState × Result Response ApiError
insert_created s tunnel_id (err e) = (s, err e)
insert_created s tunnel_id (ok (t, response)) =
    (record s { tunnels = put same_id tunnel_id t s.tunnels }, ok (created response))

-- A step that comes before the look-up.
abbrev pub after {κ} :
    {A : Type 0} {B : Type κ}
    → AppState
    → Result B ApiError
    → AppState × Result A ApiError
    → AppState × Result A ApiError
after s (err e) rest = (s, err e)
after s (ok b) rest = rest

abbrev pub supplied_hash : Result (List ℕ) ApiError → Result (Option (List ℕ)) ApiError
supplied_hash (err e) = err e
supplied_hash (ok digest) = ok (some digest)

abbrev pub opened : Result (Unit {0}) ApiError → Result Response ApiError
opened (err e) = err e
opened (ok _) = ok feed

module _ (platform : Platform) where
  -- What the handler does with the tunnel that it finds.
  unfoldable pub serve : ℕ → Call → Tunnel → Tunnel × Result Response ApiError
  serve tunnel_id (claim secret at) t =
      respond t (λ capability. claimed capability t.expires_at) (claim_tunnel platform t secret at)
  serve tunnel_id (snapshot authorization now) t =
      reply t snapshot_of (get_tunnel platform t tunnel_id authorization now)
  serve tunnel_id (cancel authorization at) t =
      respond t (λ _. no_content) (cancel_tunnel platform t authorization at)
  serve tunnel_id (declare authorization request at) t =
      respond t declared (declare_file platform t authorization request at)
  serve tunnel_id (status file_id authorization now) t =
      reply t progress (upload_status platform t authorization file_id now)
  serve tunnel_id (download file_id authorization now stamp) t =
      respond t content (download_file platform t authorization file_id now stamp)
  serve tunnel_id (mint authorization at) t =
      respond t ticket_for (create_event_ticket platform t authorization at)
  serve tunnel_id (connect ticket now) t =
      ((connect_events platform t ticket now).0, opened (connect_events platform t ticket now).1)

  -- `bearer_hash(&headers)?`, where the handler begins with it.
  abbrev pub credential : Call → Result (Option (List ℕ)) ApiError
  credential (claim secret at) = ok none
  credential (snapshot authorization now) = supplied_hash (bearer_hash platform authorization)
  credential (cancel authorization at) = supplied_hash (bearer_hash platform authorization)
  credential (declare authorization request at) = supplied_hash (bearer_hash platform authorization)
  credential (status file_id authorization now) = supplied_hash (bearer_hash platform authorization)
  credential (download file_id authorization now stamp) =
      supplied_hash (bearer_hash platform authorization)
  credential (mint authorization at) = supplied_hash (bearer_hash platform authorization)
  credential (connect ticket now) = ok none

  unfoldable pub handle : AppState → Request → AppState × Result Response ApiError
  handle s (create request tunnel_id pairing desk) =
      insert_created s tunnel_id
        (create_tunnel platform s.portal_origin request tunnel_id pairing desk)
  handle s (call tunnel_id c) = after s (credential c) (with_tunnel s tunnel_id (serve tunnel_id c))
