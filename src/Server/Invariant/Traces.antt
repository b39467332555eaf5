-- ===== src/Server/Invariant/Traces.antt =====
-- The tunnels that calls of the handlers of src/lib.rs lead to, in any order and with any arguments.
use ftnl_backend_api_rs.Base.{ℕ, List, Option, some, ok, ◌≡◌, ap, ◌∙◌, length, get, All-get, ==_iff}
use mathlib.Core.Path.{subst}
use ftnl_backend_api_rs.Text.{Str}
use ftnl_backend_api_rs.Server.{Platform, Tunnel, Stamp, FileDescriptor, StoredFile, same_id}
use ftnl_backend_api_rs.Server.Handlers.{
  CreateTunnelRequest, CreateTunnelResponse, DeclareFileRequest, EventTicketResponse, Reading,
  create_tunnel, claim_tunnel, cancel_tunnel, declare_file, create_event_ticket, connect_events,
}
use ftnl_backend_api_rs.Server.Transfers.{Download, upload_file, download_file}
use ftnl_backend_api_rs.Server.Invariant.{IsSound, FileIsSound}
use ftnl_backend_api_rs.Server.Accepted.{download_found, download_accepted}
use ftnl_backend_api_rs.Server.Invariant.Calls.{
  create_tunnel-IsSound, claim_tunnel-IsSound, cancel_tunnel-IsSound, declare_file-IsSound,
  create_event_ticket-IsSound, connect_events-IsSound, download_file-IsSound,
}
use ftnl_backend_api_rs.Server.Invariant.Uploads.{upload_file-IsSound}

-- An upload may have taken its first look at any tunnel that was reached. A call of another handler
-- that is refused changes nothing; `connect_events` and `upload_file` return the tunnel either way.
pub data Reached (platform : Platform) : Tunnel → Type 0 where
  created :
      {t : Tunnel} (portal_origin : Str) (request : CreateTunnelRequest) (id : ℕ)
      (pairing desk : Reading) {response : CreateTunnelResponse}
      → create_tunnel platform portal_origin request id pairing desk ≡ ok (t, response)
      → Reached platform t
  claimed :
      {s t : Tunnel} (secret : Str) (at : Reading) {capability : Str}
      → Reached platform s
      → claim_tunnel platform s secret at ≡ ok (t, capability)
      → Reached platform t
  cancelled :
      {s t : Tunnel} (authorization : Option (List ℕ)) (at : Reading)
      → Reached platform s
      → cancel_tunnel platform s authorization at ≡ ok (t, tt)
      → Reached platform t
  declared :
      {s t : Tunnel} (authorization : Option (List ℕ)) (request : DeclareFileRequest) (at : Reading)
      {descriptor : FileDescriptor}
      → Reached platform s
      → declare_file platform s authorization request at ≡ ok (t, descriptor)
      → Reached platform t
  uploaded :
      {before s t : Tunnel} (authorization : Option (List ℕ)) (file_id : ℕ)
      (content_range : Option (List ℕ)) (body : List (Option (List ℕ))) (first second : ℕ)
      (progress available : Stamp)
      → Reached platform before
      → Reached platform s
      → (upload_file platform before s authorization file_id content_range body first second
          progress available).0
        ≡ t
      → Reached platform t
  downloaded :
      {s t : Tunnel} (authorization : Option (List ℕ)) (file_id now : ℕ) (stamp : Stamp)
      {download : Download}
      → Reached platform s
      → download_file platform s authorization file_id now stamp ≡ ok (t, download)
      → Reached platform t
  minted :
      {s t : Tunnel} (authorization : Option (List ℕ)) (at : Reading)
      {response : EventTicketResponse}
      → Reached platform s
      → create_event_ticket platform s authorization at ≡ ok (t, response)
      → Reached platform t
  redeemed :
      {s t : Tunnel} (ticket : Str) (now : ℕ)
      → Reached platform s
      → (connect_events platform s ticket now).0 ≡ t
      → Reached platform t

-- Whatever calls are made, and however uploads overlap with other calls, a tunnel is sound: each file
-- holds no more than its declared size, within the limit of the tunnel, its descriptor counts the
-- committed bytes, and an available or downloaded file is there in full; there are no more files than
-- allowed; the tunnel has the digest of the pairing secret until it has that of the phone's
-- capability, and not after; a complete tunnel has files, all downloaded, and no event tickets; a
-- cancelled one has neither; no two event tickets have one digest.
pub Reached-IsSound : (platform : Platform) {t : Tunnel} → Reached platform t → IsSound t
Reached-IsSound p {t} (created portal_origin request id pairing desk {response} e) =
    create_tunnel-IsSound p portal_origin request id pairing desk {r = (t, response)} e
Reached-IsSound p {t} (claimed {s} secret at {capability} h e) =
    claim_tunnel-IsSound p s secret at {r = (t, capability)} e (Reached-IsSound p h)
Reached-IsSound p {t} (cancelled {s} authorization at h e) =
    cancel_tunnel-IsSound p s authorization at {r = (t, tt)} e (Reached-IsSound p h)
Reached-IsSound p {t} (declared {s} authorization request at {descriptor} h e) =
    declare_file-IsSound p s authorization request at {r = (t, descriptor)} e (Reached-IsSound p h)
Reached-IsSound p (uploaded {before} {s} a file_id c body first second progress available b h e) =
    subst IsSound e (
      upload_file-IsSound p before s a file_id c body first second progress available
        (Reached-IsSound p b) (Reached-IsSound p h))
Reached-IsSound p {t} (downloaded {s} authorization file_id now stamp {download} h e) =
    download_file-IsSound p s authorization file_id now stamp {r = (t, download)} e
      (Reached-IsSound p h)
Reached-IsSound p {t} (minted {s} authorization at {response} h e) =
    create_event_ticket-IsSound p s authorization at {r = (t, response)} e (Reached-IsSound p h)
Reached-IsSound p (redeemed {s} ticket now h e) =
    subst IsSound e (connect_events-IsSound p s ticket now (Reached-IsSound p h))

-- A download of a reached tunnel serves the bytes of a stored file, as many as were declared for it.
pub download_serves_whole :
    (platform : Platform) {t : Tunnel} (authorization : Option (List ℕ)) (file_id now : ℕ)
    (stamp : Stamp) (r : Tunnel × Download)
    → Reached platform t
    → download_file platform t authorization file_id now stamp ≡ ok r
    → (stored : StoredFile) × (get same_id file_id t.files ≡ some stored)
      × (r.1.content ≡ stored.upload.bytes)
      × (length r.1.content ≡ stored.descriptor.size_bytes)
download_serves_whole p {t} authorization file_id now stamp r h e =
    let (stored, found) = download_found p t authorization file_id now stamp {r = r} e in
    let (done, _, _, content, _) =
      download_accepted p t authorization file_id now stamp stored {r = r} found e in
    let s = Reached-IsSound p h in
    let sound =
      All-get same_id (FileIsSound t.max_file_bytes) file_id t.files stored s.files_sound found in
    (stored, found, content, ap length content ∙ (==_iff _ _).0 done ∙ sound.sized)
