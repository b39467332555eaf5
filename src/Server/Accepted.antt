-- ===== src/Server/Accepted.antt =====
-- What an accepted call tells of the tunnel, and the tunnel that it leaves.
use ftnl_backend_api_rs.Base.{
  ℕ, ◌+◌, ◌<◌, ◌≤◌, true, List, [], Option, none, some, length, ◌≡◌, ◌≢◌, ok, arith, put, get, inl,
  inr, Option-cases,
}
use ftnl_backend_api_rs.Text.{Str, codes}
use ftnl_backend_api_rs.Protocol.{TunnelStatus, permits}
use ftnl_backend_api_rs.Protocol.Quint.{InTransfer, IsLive}
use ftnl_backend_api_rs.Resumable.Upload.{is_complete}
use ftnl_backend_api_rs.Declaration.{validate_declaration}
use ftnl_backend_api_rs.Server.{
  Platform, Digest, StoredFile, FileDescriptor, Tunnel, Stamp, publish, same_id, same_digest,
  seconds, event_ticket_seconds,
}
use ftnl_backend_api_rs.Server.Access.{
  ensure_active, authorize, token, token_hash, require_desktop, require_phone, require_either,
}
use ftnl_backend_api_rs.Server.Transfers.{
  Upload, Download, download_file, close_if_done, with_file, mark_downloaded, find_upload,
  receive_upload, requested_range,
}
use ftnl_backend_api_rs.Server.Handlers.{
  CreateTunnelRequest, CreateTunnelResponse, new_response, create_tunnel, new_tunnel,
  validate_create, live_ticket, Reading, DeclareFileRequest, EventTicketResponse, claim_tunnel,
  cancel_tunnel, declare_file, create_event_ticket, policy, declaration, declared_file,
}

pub create_accepted :
    (platform : Platform) (portal_origin : Str) (request : CreateTunnelRequest) (id : ℕ)
    (pairing desk : Reading) {r : Tunnel × CreateTunnelResponse}
    → create_tunnel platform portal_origin request id pairing desk ≡ ok r
    → (r ≡ (
      new_tunnel platform request id pairing desk,
      new_response platform portal_origin request id pairing desk,
    ))
      × (0 < request.max_files)
      × (request.max_files ≤ 100)
      × (request.max_file_bytes ≤ 5_368_709_120)
      × (60 ≤ request.expires_in_seconds)
      × (request.expires_in_seconds ≤ 3600)
unfolding create_tunnel validate_create
create_accepted platform portal_origin request id pairing desk h = ground arith

module _ (platform : Platform) (t : Tunnel) where
  pub ticket_found :
      (ticket : Str) (now : ℕ) {found : Digest × ℕ}
      → live_ticket platform t ticket now ≡ ok found
      → IsLive t.status
        × (now < t.expires_at)
        × (get same_digest found.0 t.event_tickets ≡ some found.1)
  unfolding ensure_active authorize permits
  ticket_found ticket now h = ground arith

  pub claim_accepted :
      (secret : Str) (at : Reading) {r : Tunnel × Str}
      → claim_tunnel platform t secret at ≡ ok r
      → (t.status ≡ TunnelStatus.waiting)
        × (at.now < t.expires_at)
        × (t.pairing_hash ≢ none)
        × (r.0
            ≡ publish
                (record t {
                  phone_hash = some (token_hash platform (token platform at.first at.second));
                  pairing_hash = none;
                  status = TunnelStatus.connected;
                })
                (codes "tunnel.connected")
                none
                none
                none
                at.stamp)
  unfolding claim_tunnel ensure_active authorize permits
  claim_accepted secret at h = ground arith

  pub cancel_accepted :
      (authorization : Option (List ℕ)) (at : Reading) {r : Tunnel × Unit {0}}
      → cancel_tunnel platform t authorization at ≡ ok r
      → IsLive t.status
        × (at.now < t.expires_at)
        × (r.0
            ≡ publish
                (record t { status = TunnelStatus.cancelled; files = []; event_tickets = [] })
                (codes "tunnel.cancelled")
                none
                none
                none
                at.stamp)
  unfolding cancel_tunnel ensure_active require_desktop authorize permits
  cancel_accepted authorization at h = ground arith

  pub declare_accepted :
      (authorization : Option (List ℕ)) (request : DeclareFileRequest) (at : Reading)
      {r : Tunnel × FileDescriptor}
      → declare_file platform t authorization request at ≡ ok r
      → InTransfer t.status
        × (at.now < t.expires_at)
        × (validate_declaration (policy t) (declaration request) ≡ ok tt)
        × (r.0
            ≡ publish
                (record t {
                  files = put same_id at.first (declared_file request at.first at.now) t.files;
                })
                (codes "file.declared")
                (some at.first)
                (some 0)
                none
                at.stamp)
  unfolding declare_file ensure_active require_phone authorize permits
  declare_accepted authorization request at h = ground arith

  pub ticket_accepted :
      (authorization : Option (List ℕ)) (at : Reading) {r : Tunnel × EventTicketResponse}
      → create_event_ticket platform t authorization at ≡ ok r
      → IsLive t.status
        × (at.now < t.expires_at)
        × (r.0 ≡ record t {
          event_tickets =
              put same_digest
                (token_hash platform (token platform at.first at.second))
                (at.now + seconds event_ticket_seconds)
                t.event_tickets;
        })
  unfolding create_event_ticket ensure_active require_either authorize permits
  ticket_accepted authorization at h = ground arith

  pub download_found :
      (authorization : Option (List ℕ)) (file_id now : ℕ) (stamp : Stamp) {r : Tunnel × Download}
      → download_file platform t authorization file_id now stamp ≡ ok r
      → (stored : StoredFile) × (get same_id file_id t.files ≡ some stored)
  unfolding download_file
  download_found authorization file_id now stamp h =
      elim (Option-cases (get same_id file_id t.files)) [
        | inl n ↦ absurd (ground arith)
        | inr found ↦ found
      ]

  pub download_accepted :
      (authorization : Option (List ℕ)) (file_id now : ℕ) (stamp : Stamp) (stored : StoredFile)
      {r : Tunnel × Download}
      → get same_id file_id t.files ≡ some stored
      → download_file platform t authorization file_id now stamp ≡ ok r
      → (is_complete stored.upload ≡ true)
        × InTransfer t.status
        × (now < t.expires_at)
        × (r.1.content ≡ stored.upload.bytes)
        × (r.0
            ≡ publish
                (close_if_done (with_file t file_id (mark_downloaded stored)))
                (codes "file.downloaded")
                (some file_id)
                (some (length stored.upload.bytes))
                none
                stamp)
  unfolding download_file ensure_active require_desktop authorize permits
  download_accepted authorization file_id now stamp stored e h = ground arith

  pub find_accepted :
      (supplied : Digest) (file_id now : ℕ) {stored : StoredFile}
      → find_upload platform t supplied file_id now ≡ ok stored
      → InTransfer t.status × (now < t.expires_at) × (get same_id file_id t.files ≡ some stored)
  unfolding ensure_active require_phone authorize permits
  find_accepted supplied file_id now h = ground arith

  pub receive_found :
      (authorization : Option (List ℕ)) (file_id : ℕ) (content_range : Option (List ℕ))
      (body : List (Option (List ℕ))) (now : ℕ) {u : Upload}
      → receive_upload platform t authorization file_id content_range body now ≡ ok u
      → (stored : StoredFile) × (get same_id file_id t.files ≡ some stored)
  unfolding receive_upload
  receive_found authorization file_id content_range body now h =
      elim (Option-cases (get same_id file_id t.files)) [
        | inl n ↦ absurd (ground arith)
        | inr found ↦ found
      ]

  pub receive_accepted :
      (authorization : Option (List ℕ)) (file_id : ℕ) (content_range : Option (List ℕ))
      (body : List (Option (List ℕ))) (now : ℕ) (stored : StoredFile) {u : Upload}
      → get same_id file_id t.files ≡ some stored
      → receive_upload platform t authorization file_id content_range body now ≡ ok u
      → requested_range platform content_range stored.descriptor.size_bytes ≡ ok u.range
  unfolding receive_upload
  receive_accepted authorization file_id content_range body now stored e h = ground arith
