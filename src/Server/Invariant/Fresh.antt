-- ===== src/Server/Invariant/Fresh.antt =====
-- In the phase of connection nothing was uploaded yet: each file is as it was declared, unless it has
-- no bytes.
use mathlib.Core.Path.{subst}
use ftnl_backend_api_rs.Base.{
  ℕ, Bool, true, false, not, ◌&&◌, List, [], Option, some, ◌≡◌, ◌⊎◌, refl, sym, ap, Result, ok, err,
  inl, inr, arith, Bool-cases, get, values, All, All-get, All-put,
}
use ftnl_backend_api_rs.Text.{Str}
use ftnl_backend_api_rs.Protocol.{waiting, connected}
use ftnl_backend_api_rs.Resumable.Upload.{
  AppendOutcome, UploadBuffer, UploadError, append, is_complete,
}
use ftnl_backend_api_rs.Server.{
  Platform, Digest, FileStatus, FileDescriptor, StoredFile, Tunnel, Stamp, ApiError, publish,
  same_id,
}
use ftnl_backend_api_rs.Server.Handlers.{
  CreateTunnelRequest, CreateTunnelResponse, create_tunnel, DeclareFileRequest, EventTicketResponse,
  Reading, claim_tunnel, cancel_tunnel, declare_file, declared_file, create_event_ticket,
  connect_events, live_ticket, redeem,
}
use ftnl_backend_api_rs.Server.Transfers.{
  Upload, Download, download_file, with_file, close_if_done, mark_downloaded, finish_append,
  after_outcome, announce_progress, announce_available, store_found, store_upload, find_upload,
}
use ftnl_backend_api_rs.Server.Accepted.{
  create_accepted, claim_accepted, cancel_accepted, declare_accepted, ticket_accepted,
  download_found, download_accepted, find_accepted,
}
use ftnl_backend_api_rs.Server.Invariant.{
  FileIsSound, StatusAgrees, PhaseAgrees, IsSound, is_some, all_downloaded,
}

abbrev pub FileIsFresh : StoredFile → Type 0
FileIsFresh f = (f.descriptor.size_bytes ≡ 0) ⊎ (f.descriptor.status ≡ FileStatus.declared)

abbrev pub IsFresh : Tunnel → Type 0
IsFresh t = t.status ≡ connected → All FileIsFresh (values t.files)

-- A fresh file that is complete has no bytes.
pub complete-FileIsFresh :
    (limit : ℕ) (f : StoredFile)
    → FileIsSound limit f
    → FileIsFresh f
    → is_complete f.upload ≡ true
    → f.descriptor.size_bytes ≡ 0
complete-FileIsFresh limit f s (inl e) done = e
complete-FileIsFresh limit f s (inr e) done =
    let untouched = subst (λ x. StatusAgrees x f) e s.agrees in ground (arith, s.sized, untouched)

module _ (t : Tunnel) (fresh : IsFresh t) where
  put-IsFresh :
      (file_id : ℕ) (f : StoredFile)
      → (t.status ≡ connected → FileIsFresh f)
      → IsFresh (with_file t file_id f)
  put-IsFresh file_id f h e = All-put same_id FileIsFresh file_id f t.files (fresh e) (h e)

  stored-IsFresh :
      (file_id : ℕ) (stored : StoredFile)
      → get same_id file_id t.files ≡ some stored
      → t.status ≡ connected
      → FileIsFresh stored
  stored-IsFresh file_id stored found e =
      All-get same_id FileIsFresh file_id t.files stored (fresh e) found

close_if_done-IsFresh : (t : Tunnel) → IsFresh t → IsFresh (close_if_done t)
close_if_done-IsFresh t fresh = elim (Bool-cases (all_downloaded t.files)) [
  | inl e ↦ rw e (λ h. absurd (ground arith))
  | inr e ↦ rw e fresh
]

announced-IsFresh :
    (t u : Tunnel) (file_id : ℕ) (o : AppendOutcome) (replayed became_complete : Bool)
    (progress available : Stamp)
    → o.replayed ≡ replayed
    → (replayed ≡ true → IsFresh u)
    → IsFresh (
        announce_available
          (announce_progress u file_id o progress)
          file_id
          o
          became_complete
          available)
unfolding publish
announced-IsFresh t u file_id o true true progress available e fresh = rw e (fresh refl)
announced-IsFresh t u file_id o true false progress available e fresh = rw e (fresh refl)
announced-IsFresh t u file_id o false true progress available e fresh =
    rw e (λ h. absurd (ground arith))
announced-IsFresh t u file_id o false false progress available e fresh =
    rw e (λ h. absurd (ground arith))

module _ (t : Tunnel) (s : IsSound t) (fresh : IsFresh t) where
  finish_append-IsFresh :
      (file_id : ℕ) (stored : StoredFile) (progress available : Stamp)
      (p : UploadBuffer × Result AppendOutcome UploadError)
      → get same_id file_id t.files ≡ some stored
      → IsFresh (finish_append t file_id stored progress available p).0
  finish_append-IsFresh file_id stored progress available (u, err e) found =
      put-IsFresh t fresh file_id (record stored { upload = u })
        (stored-IsFresh t fresh file_id stored found)
  finish_append-IsFresh file_id stored progress available (u, ok o) found =
      let became_complete = not (is_complete stored.upload) && o.complete in
      announced-IsFresh t (with_file t file_id (after_outcome stored u o)) file_id o o.replayed
        became_complete progress available refl
        (λ replayed.
          put-IsFresh t fresh file_id (after_outcome stored u o)
            (λ e. rw replayed (stored-IsFresh t fresh file_id stored found e)))

  marked-IsFresh :
      (file_id : ℕ) (stored : StoredFile)
      → get same_id file_id t.files ≡ some stored
      → is_complete stored.upload ≡ true
      → IsFresh (with_file t file_id (mark_downloaded stored))
  marked-IsFresh file_id stored found done =
      put-IsFresh t fresh file_id (mark_downloaded stored) (λ e. inl (
        complete-FileIsFresh t.max_file_bytes stored
          (All-get same_id (FileIsSound t.max_file_bytes) file_id t.files stored s.files_sound
            found)
          (stored-IsFresh t fresh file_id stored found e) done))

  waiting-files : t.status ≡ waiting → t.files ≡ []
  waiting-files e =
      (subst (λ x. PhaseAgrees x (is_some t.phone_hash) t.files t.event_tickets) e s.phase).1

module _ (platform : Platform) (t : Tunnel) (s : IsSound t) (fresh : IsFresh t) where
  pub claim_tunnel-IsFresh :
      (secret : Str) (at : Reading) (r : Tunnel × Str)
      → claim_tunnel platform t secret at ≡ ok r
      → IsFresh r.0
  unfolding publish
  claim_tunnel-IsFresh secret at r h =
      let (waits, _, _, e) = claim_accepted platform t secret at {r = r} h in
      subst IsFresh (sym e) (λ c.
        subst (λ files. All FileIsFresh (values files)) (sym (waiting-files t s fresh waits)) tt)

  pub cancel_tunnel-IsFresh :
      (authorization : Option (List ℕ)) (at : Reading) (r : Tunnel × Unit {0})
      → cancel_tunnel platform t authorization at ≡ ok r
      → IsFresh r.0
  unfolding publish
  cancel_tunnel-IsFresh authorization at r h =
      let (_, _, e) = cancel_accepted platform t authorization at {r = r} h in
      subst IsFresh (sym e) (λ c. tt)

  pub declare_file-IsFresh :
      (authorization : Option (List ℕ)) (request : DeclareFileRequest) (at : Reading)
      (r : Tunnel × FileDescriptor)
      → declare_file platform t authorization request at ≡ ok r
      → IsFresh r.0
  unfolding publish
  declare_file-IsFresh authorization request at r h =
      let (_, _, _, e) = declare_accepted platform t authorization request at {r = r} h in
      subst IsFresh (sym e)
        (put-IsFresh t fresh at.first (declared_file request at.first at.now) (λ c. inr refl))

  pub create_event_ticket-IsFresh :
      (authorization : Option (List ℕ)) (at : Reading) (r : Tunnel × EventTicketResponse)
      → create_event_ticket platform t authorization at ≡ ok r
      → IsFresh r.0
  create_event_ticket-IsFresh authorization at r h =
      let (_, _, e) = ticket_accepted platform t authorization at {r = r} h in
      subst IsFresh (sym e) fresh

  redeem-IsFresh : (now : ℕ) (found : Result (Digest × ℕ) ApiError) → IsFresh (redeem t now found).0
  redeem-IsFresh now (err e) = fresh
  redeem-IsFresh now (ok x) = fresh

  pub connect_events-IsFresh :
      (ticket : Str) (now : ℕ) → IsFresh (connect_events platform t ticket now).0
  unfolding connect_events
  connect_events-IsFresh ticket now = redeem-IsFresh now (live_ticket platform t ticket now)

  pub download_file-IsFresh :
      (authorization : Option (List ℕ)) (file_id now : ℕ) (stamp : Stamp) (r : Tunnel × Download)
      → download_file platform t authorization file_id now stamp ≡ ok r
      → IsFresh r.0
  unfolding publish
  download_file-IsFresh authorization file_id now stamp r h =
      let (stored, found) = download_found platform t authorization file_id now stamp {r = r} h in
      let (done, _, _, _, e) =
        download_accepted platform t authorization file_id now stamp stored {r = r} found h in
      subst IsFresh (sym e) (
        close_if_done-IsFresh (with_file t file_id (mark_downloaded stored))
          (marked-IsFresh t s fresh file_id stored found done))

  store_found-IsFresh :
      (file_id : ℕ) (upload : Upload) (now : ℕ) (progress available : Stamp)
      (found : Result StoredFile ApiError)
      → find_upload platform t upload.supplied file_id now ≡ found
      → IsFresh (store_found t file_id upload progress available found).0
  store_found-IsFresh file_id upload now progress available (err e) h = fresh
  store_found-IsFresh file_id upload now progress available (ok stored) h =
      let (_, _, there) =
        find_accepted platform t upload.supplied file_id now {stored = stored} h in
      finish_append-IsFresh t s fresh file_id stored progress available
        (append stored.upload upload.range upload.bytes) there

  pub store_upload-IsFresh :
      (file_id : ℕ) (upload : Upload) (now : ℕ) (progress available : Stamp)
      → IsFresh (store_upload platform t file_id upload now progress available).0
  unfolding store_upload
  store_upload-IsFresh file_id upload now progress available =
      store_found-IsFresh file_id upload now progress available
        (find_upload platform t upload.supplied file_id now) refl

pub create_tunnel-IsFresh :
    (platform : Platform) (portal_origin : Str) (request : CreateTunnelRequest) (id : ℕ)
    (pairing desk : Reading) (r : Tunnel × CreateTunnelResponse)
    → create_tunnel platform portal_origin request id pairing desk ≡ ok r
    → IsFresh r.0
create_tunnel-IsFresh platform portal_origin request id pairing desk r h =
    let (e, _, _, _, _, _) =
      create_accepted platform portal_origin request id pairing desk {r = r} h in
    subst IsFresh (ap (λ p. p.0) (sym e)) (λ c. tt)
