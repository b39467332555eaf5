-- ===== src/Server/History/Calls.antt =====
-- Each handler of src/lib.rs only appends to the events of a tunnel.
use mathlib.Core.Path.{subst}
use ftnl_backend_api_rs.Base.{
  ℕ, ◌≤◌, arith, Bool, true, false, List, Option, ◌≡◌, refl, ap, sym, Result, ok, err, inl, inr,
  Bool-cases,
}
use ftnl_backend_api_rs.Text.{Str}
use ftnl_backend_api_rs.Protocol.{TunnelStatus}
use ftnl_backend_api_rs.Protocol.Quint.{InTransfer}
use ftnl_backend_api_rs.Resumable.Upload.{AppendOutcome, UploadBuffer, UploadError, append}
use ftnl_backend_api_rs.Server.{
  Platform, Digest, StoredFile, FileDescriptor, Tunnel, Stamp, ApiError, publish,
}
use ftnl_backend_api_rs.Server.Handlers.{
  CreateTunnelRequest, CreateTunnelResponse, DeclareFileRequest, EventTicketResponse, Reading,
  create_tunnel, claim_tunnel, cancel_tunnel, declare_file, create_event_ticket, connect_events,
  live_ticket, redeem,
}
use ftnl_backend_api_rs.Server.Transfers.{
  Upload, Download, download_file, with_file, close_if_done, mark_downloaded, finish_append,
  after_outcome, announce_progress, announce_available, store_found, store_upload, find_upload,
}
use ftnl_backend_api_rs.Server.Accepted.{
  create_accepted, claim_accepted, cancel_accepted, declare_accepted, ticket_accepted,
  download_found, download_accepted, find_accepted,
}
use ftnl_backend_api_rs.Server.Invariant.{all_downloaded}
use ftnl_backend_api_rs.Server.History.{
  IsNumbered, Extends, Extends-refl, Extends-trans, Extends-assign, rank, rank-le, publish-Extends,
}

-- Fields are assigned, then one event is published.
assign_publish :
    (t t' : Tunnel) (kind : Str) (file_id bytes_transferred : Option ℕ) (reason_code : Option Str)
    (stamp : Stamp)
    → Extends t t'
    → Extends t (publish t' kind file_id bytes_transferred reason_code stamp)
assign_publish t t' kind file_id bytes_transferred reason_code stamp h =
    Extends-trans t t' _ h (publish-Extends t' kind file_id bytes_transferred reason_code stamp)

close_if_done-Extends : (t t' : Tunnel) → Extends t t' → Extends t (close_if_done t')
close_if_done-Extends t t' h = elim (Bool-cases (all_downloaded t'.files)) [
  | inl e ↦ rw e (Extends-trans t t' _ h (Extends-assign t' _ _ _ _ _ (rank-le t'.status)))
  | inr e ↦ rw e h
]

announce_progress-Extends :
    (t t' : Tunnel) (file_id at : ℕ) (complete replayed : Bool) (stamp : Stamp)
    → rank t'.status ≤ 2
    → Extends t t'
    → Extends t (
        announce_progress t' file_id
          (record { offset = at; complete = complete; replayed = replayed })
          stamp)
announce_progress-Extends t t' file_id at complete true stamp r h = h
announce_progress-Extends t t' file_id at complete false stamp r h =
    assign_publish t _ _ _ _ _ stamp
      (Extends-trans t t' _ h (Extends-assign t' TunnelStatus.transferring _ _ _ _ r))

announce_available-Extends :
    (t t' : Tunnel) (file_id : ℕ) (o : AppendOutcome) (became_complete : Bool) (stamp : Stamp)
    → Extends t t'
    → Extends t (announce_available t' file_id o became_complete stamp)
announce_available-Extends t t' file_id o true stamp h = assign_publish t t' _ _ _ _ stamp h
announce_available-Extends t t' file_id o false stamp h = h

finish_append-Extends :
    (t : Tunnel) (file_id : ℕ) (stored : StoredFile) (progress available : Stamp)
    (p : UploadBuffer × Result AppendOutcome UploadError)
    → rank t.status ≤ 2
    → Extends t (finish_append t file_id stored progress available p).0
finish_append-Extends t file_id stored progress available (u, err e) r =
    Extends-assign t t.status _ _ _ _ (omega arith)
finish_append-Extends t file_id stored progress available (u, ok o) r =
    announce_available-Extends t _ file_id o _ available (
      announce_progress-Extends t (with_file t file_id (after_outcome stored u o)) file_id o.offset
        o.complete o.replayed progress r (Extends-assign t t.status _ _ _ _ (omega arith)))

redeem-Extends :
    (t : Tunnel) (now : ℕ) (found : Result (Digest × ℕ) ApiError) → Extends t (redeem t now found).0
redeem-Extends t now (err e) = Extends-refl t
redeem-Extends t now (ok found) = Extends-assign t t.status _ _ _ _ (omega arith)

InTransfer-rank : (status : TunnelStatus) → InTransfer status → rank status ≤ 2
InTransfer-rank status h = ground arith

module _ (platform : Platform) where
  pub create_tunnel-IsNumbered :
      (portal_origin : Str) (request : CreateTunnelRequest) (id : ℕ) (pairing desk : Reading)
      (r : Tunnel × CreateTunnelResponse)
      → create_tunnel platform portal_origin request id pairing desk ≡ ok r
      → IsNumbered r.0 × (r.0.id ≡ id)
  create_tunnel-IsNumbered portal_origin request id pairing desk r h =
      let (e, _, _, _, _, _) =
        create_accepted platform portal_origin request id pairing desk {r = r} h in
      subst (λ (t : Tunnel). IsNumbered t × (t.id ≡ id)) (ap (λ p. p.0) (sym e))
        (record { in_order = tt; counted = refl }, refl)

  module _ (t : Tunnel) where
    pub claim_tunnel-Extends :
        (secret : Str) (at : Reading) (r : Tunnel × Str)
        → claim_tunnel platform t secret at ≡ ok r
        → Extends t r.0
    claim_tunnel-Extends secret at r h =
        subst (Extends t) (sym (claim_accepted platform t secret at {r = r} h).3) (
          assign_publish t _ _ _ _ _ at.stamp (
            Extends-assign t TunnelStatus.connected _ _ _ _
              (omega (arith, ap rank (claim_accepted platform t secret at {r = r} h).0))))

    pub cancel_tunnel-Extends :
        (authorization : Option (List ℕ)) (at : Reading) (r : Tunnel × Unit {0})
        → cancel_tunnel platform t authorization at ≡ ok r
        → Extends t r.0
    cancel_tunnel-Extends authorization at r h =
        subst (Extends t) (sym (cancel_accepted platform t authorization at {r = r} h).2) (
          assign_publish t _ _ _ _ _ at.stamp
            (Extends-assign t TunnelStatus.cancelled _ _ _ _ (rank-le t.status)))

    pub declare_file-Extends :
        (authorization : Option (List ℕ)) (request : DeclareFileRequest) (at : Reading)
        (r : Tunnel × FileDescriptor)
        → declare_file platform t authorization request at ≡ ok r
        → Extends t r.0
    declare_file-Extends authorization request at r h =
        subst (Extends t) (sym (declare_accepted platform t authorization request at {r = r} h).3)
          (assign_publish t _ _ _ _ _ at.stamp (Extends-assign t t.status _ _ _ _ (omega arith)))

    pub create_event_ticket-Extends :
        (authorization : Option (List ℕ)) (at : Reading) (r : Tunnel × EventTicketResponse)
        → create_event_ticket platform t authorization at ≡ ok r
        → Extends t r.0
    create_event_ticket-Extends authorization at r h =
        subst (Extends t) (sym (ticket_accepted platform t authorization at {r = r} h).2)
          (Extends-assign t t.status _ _ _ _ (omega arith))

    pub connect_events-Extends :
        (ticket : Str) (now : ℕ) → Extends t (connect_events platform t ticket now).0
    unfolding connect_events
    connect_events-Extends ticket now = redeem-Extends t now (live_ticket platform t ticket now)

    pub download_file-Extends :
        (authorization : Option (List ℕ)) (file_id now : ℕ) (stamp : Stamp) (r : Tunnel × Download)
        → download_file platform t authorization file_id now stamp ≡ ok r
        → Extends t r.0
    download_file-Extends authorization file_id now stamp r h =
        let (stored, found) = download_found platform t authorization file_id now stamp {r = r} h in
        let (_, _, _, _, e) =
          download_accepted platform t authorization file_id now stamp stored {r = r} found h in
        subst (Extends t) (sym e) (
          assign_publish t _ _ _ _ _ stamp (
            close_if_done-Extends t (with_file t file_id (mark_downloaded stored))
              (Extends-assign t t.status _ _ _ _ (omega arith))))

    store_found-Extends :
        (file_id : ℕ) (upload : Upload) (now : ℕ) (progress available : Stamp)
        (found : Result StoredFile ApiError)
        → find_upload platform t upload.supplied file_id now ≡ found
        → Extends t (store_found t file_id upload progress available found).0
    store_found-Extends file_id upload now progress available (err e) h = Extends-refl t
    store_found-Extends file_id upload now progress available (ok stored) h =
        finish_append-Extends t file_id stored progress available
          (append stored.upload upload.range upload.bytes)
          (InTransfer-rank t.status
            (find_accepted platform t upload.supplied file_id now {stored = stored} h).0)

    pub store_upload-Extends :
        (file_id : ℕ) (upload : Upload) (now : ℕ) (progress available : Stamp)
        → Extends t (store_upload platform t file_id upload now progress available).0
    unfolding store_upload
    store_upload-Extends file_id upload now progress available =
        store_found-Extends file_id upload now progress available _ refl
