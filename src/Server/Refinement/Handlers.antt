-- ===== src/Server/Refinement/Handlers.antt =====
-- Each request moves the control state of a sound tunnel as the specification allows.
use mathlib.Core.Path.{subst}
use ftnl_backend_api_rs.Base.{
  ℕ, false, List, Option, some, ◌≡◌, refl, sym, ap, Result, ok, err, inl, inr, arith, get,
}
use ftnl_backend_api_rs.Text.{Str}
use ftnl_backend_api_rs.Protocol.{connected, transferring}
use ftnl_backend_api_rs.Resumable.Upload.{append, is_complete}
use ftnl_backend_api_rs.Server.{
  Platform, Digest, StoredFile, FileDescriptor, Tunnel, Stamp, ApiError, publish, same_id,
}
use ftnl_backend_api_rs.Server.Handlers.{
  DeclareFileRequest, EventTicketResponse, Reading, claim_tunnel, cancel_tunnel, declare_file,
  create_event_ticket, connect_events, live_ticket, redeem,
}
use ftnl_backend_api_rs.Server.Transfers.{
  Upload, Download, download_file, store_found, store_upload, find_upload,
}
use ftnl_backend_api_rs.Server.Accepted.{
  claim_accepted, cancel_accepted, declare_accepted, ticket_accepted, download_found,
  download_accepted, find_accepted,
}
use ftnl_backend_api_rs.Server.Invariant.{IsSound}
use ftnl_backend_api_rs.Server.Table.{Call, serve}
use ftnl_backend_api_rs.Server.Table.Evolution.{respond_keeps, reply_keeps}
use ftnl_backend_api_rs.Server.Refinement.{control, Allows, Follows}
use ftnl_backend_api_rs.Server.Refinement.Phases.{
  stays, same_control, waiting-control, to_cancelled, finish_append-Follows, close_if_done-Follows,
  Follows-by,
}
use ftnl_backend_api_rs.Server.Refinement.Moves.{claims}

-- In a tunnel that no upload has reached yet no file is complete, as a file of no bytes would be.
abbrev pub Untouched : Tunnel → Type 0
Untouched t =
    t.status ≡ connected
    → (file_id : ℕ) (stored : StoredFile) → get same_id file_id t.files ≡ some stored
    → is_complete stored.upload ≡ false

module _ (platform : Platform) (t : Tunnel) (s : IsSound t) where
  claim-Follows :
      (secret : Str) (reading : Reading) (r : Tunnel × Str)
      → claim_tunnel platform t secret reading ≡ ok r
      → Follows t r.0
  unfolding publish
  claim-Follows secret reading r h =
      let (waits, _, _, e) = claim_accepted platform t secret reading {r = r} h in
      Follows-by t r.0 (waiting-control t s waits) (ap control e) claims

  cancel-Follows :
      (authorization : Option (List ℕ)) (reading : Reading) (r : Tunnel × Unit {0})
      → cancel_tunnel platform t authorization reading ≡ ok r
      → Follows t r.0
  unfolding publish
  cancel-Follows authorization reading r h =
      let (live, _, e) = cancel_accepted platform t authorization reading {r = r} h in
      to_cancelled t s live r.0 (ap control e)

  declare-Follows :
      (authorization : Option (List ℕ)) (request : DeclareFileRequest) (reading : Reading)
      (r : Tunnel × FileDescriptor)
      → declare_file platform t authorization request reading ≡ ok r
      → Follows t r.0
  unfolding publish
  declare-Follows authorization request reading r h =
      let (_, _, _, e) = declare_accepted platform t authorization request reading {r = r} h in
      same_control t s r.0 (ap control e)

  mint-Follows :
      (authorization : Option (List ℕ)) (reading : Reading) (r : Tunnel × EventTicketResponse)
      → create_event_ticket platform t authorization reading ≡ ok r
      → Follows t r.0
  mint-Follows authorization reading r h =
      let (_, _, e) = ticket_accepted platform t authorization reading {r = r} h in
      same_control t s r.0 (ap control e)

  redeem-Follows :
      (now : ℕ) (found : Result (Digest × ℕ) ApiError) → Follows t (redeem t now found).0
  redeem-Follows now (err e) = stays t s
  redeem-Follows now (ok x) = same_control t s (redeem t now (ok x)).0 refl

  download-Follows :
      (authorization : Option (List ℕ)) (file_id now : ℕ) (stamp : Stamp) (r : Tunnel × Download)
      → Untouched t
      → download_file platform t authorization file_id now stamp ≡ ok r
      → Follows t r.0
  unfolding publish
  download-Follows authorization file_id now stamp r untouched h =
      let (stored, found) = download_found platform t authorization file_id now stamp {r = r} h in
      let (done, transfer, _, _, e) =
        download_accepted platform t authorization file_id now stamp stored {r = r} found h in
      let moving : t.status ≡ transferring = elim transfer [
        | inl c ↦ absurd (ground (arith, untouched c file_id stored found))
        | inr m ↦ m
      ] in
      subst (Allows (control t)) (sym (ap control e))
        (close_if_done-Follows t s stored file_id moving)

  store_found-Follows :
      (file_id now : ℕ) (u : Upload) (progress available : Stamp)
      (found : Result StoredFile ApiError)
      → find_upload platform t u.supplied file_id now ≡ found
      → Follows t (store_found t file_id u progress available found).0
  store_found-Follows file_id now u progress available (err e) h = stays t s
  store_found-Follows file_id now u progress available (ok stored) h =
      let (transfer, _, _) = find_accepted platform t u.supplied file_id now {stored = stored} h in
      finish_append-Follows t s file_id stored progress available
        (append stored.upload u.range u.bytes) transfer

  pub serve-Follows :
      Untouched t → (tunnel_id : ℕ) (c : Call) → Follows t (serve platform tunnel_id c t).0
  unfolding serve connect_events
  serve-Follows untouched id (Call.claim secret reading) =
      respond_keeps (Follows t) t (stays t s) _ _ (claim-Follows secret reading)
  serve-Follows untouched id (Call.snapshot a now) = reply_keeps (Follows t) t (stays t s) _ _
  serve-Follows untouched id (Call.cancel a reading) =
      respond_keeps (Follows t) t (stays t s) _ _ (cancel-Follows a reading)
  serve-Follows untouched id (Call.declare a r reading) =
      respond_keeps (Follows t) t (stays t s) _ _ (declare-Follows a r reading)
  serve-Follows untouched id (Call.status file_id a now) = reply_keeps (Follows t) t (stays t s) _ _
  serve-Follows untouched id (Call.download file_id a now stamp) =
      respond_keeps (Follows t) t (stays t s) _ _
        (λ r. download-Follows a file_id now stamp r untouched)
  serve-Follows untouched id (Call.mint a reading) =
      respond_keeps (Follows t) t (stays t s) _ _ (mint-Follows a reading)
  serve-Follows untouched id (Call.connect ticket now) =
      redeem-Follows now (live_ticket platform t ticket now)

  pub store_upload-Follows :
      (file_id now : ℕ) (u : Upload) (progress available : Stamp)
      → Follows t (store_upload platform t file_id u now progress available).0
  unfolding store_upload
  store_upload-Follows file_id now u progress available =
      store_found-Follows file_id now u progress available
        (find_upload platform t u.supplied file_id now) refl
