-- ===== src/Server/Invariant/Calls.antt =====
-- Each handler of src/lib.rs keeps a tunnel sound.
use mathlib.Core.Path.{subst}
use ftnl_backend_api_rs.Base.{
  ℕ, Bool, true, List, [], Option, some, ◌≡◌, ◌≢◌, refl, ap, sym, Result, ok, err, arith, inl, inr,
  Bool-cases, length-put-le, length-put_found, put-ne-nil, IsDistinct, put-IsDistinct,
  delete-IsDistinct, All-put, All-get, get,
}
use ftnl_backend_api_rs.Text.{Str}
use ftnl_backend_api_rs.Text.Laws.{str_eq_iff}
use ftnl_backend_api_rs.Protocol.{TunnelStatus}
use ftnl_backend_api_rs.Protocol.Quint.{InTransfer, IsLive}
use ftnl_backend_api_rs.Declaration.Decision.{validate_declaration_iff}
use ftnl_backend_api_rs.Server.{
  same_digest, Platform, Digest, StoredFile, FileDescriptor, Tunnel, Stamp, ApiError, same_id,
}
use ftnl_backend_api_rs.Server.Handlers.{
  CreateTunnelRequest, CreateTunnelResponse, DeclareFileRequest, EventTicketResponse, Reading,
  create_tunnel, claim_tunnel, cancel_tunnel, declare_file, create_event_ticket, connect_events,
  live_ticket, redeem, policy, declaration, declared_file,
}
use ftnl_backend_api_rs.Server.Transfers.{
  Download, download_file, with_file, close_if_done, mark_downloaded,
}
use ftnl_backend_api_rs.Server.Accepted.{
  create_accepted, ticket_found, claim_accepted, cancel_accepted, declare_accepted, ticket_accepted,
  download_found, download_accepted,
}
use ftnl_backend_api_rs.Server.Invariant.{
  IsSound, FileIsSound, PhaseAgrees, all_downloaded, is_some, publish-IsSound,
}
use ftnl_backend_api_rs.Server.Invariant.Files.{declared-FileIsSound, downloaded-FileIsSound}

InTransfer-phone :
    (s : TunnelStatus) (phone : Bool) (files : List (ℕ × StoredFile)) (tickets : List (Digest × ℕ))
    → InTransfer s
    → PhaseAgrees s phone files tickets
    → phone ≡ true
InTransfer-phone TunnelStatus.connected phone files tickets h p = p
InTransfer-phone TunnelStatus.transferring phone files tickets h p = p
InTransfer-phone TunnelStatus.waiting phone files tickets h p = absurd (ground arith)
InTransfer-phone TunnelStatus.complete phone files tickets h p = p.0
InTransfer-phone TunnelStatus.cancelled phone files tickets h p = absurd (ground arith)
InTransfer-phone TunnelStatus.expired phone files tickets h p = absurd p

-- While files are transferred, the status says nothing of files and tickets.
phone-PhaseAgrees :
    (s : TunnelStatus) (phone : Bool) (files : List (ℕ × StoredFile)) (tickets : List (Digest × ℕ))
    → InTransfer s
    → phone ≡ true
    → PhaseAgrees s phone files tickets
phone-PhaseAgrees TunnelStatus.connected phone files tickets h p = p
phone-PhaseAgrees TunnelStatus.transferring phone files tickets h p = p
phone-PhaseAgrees TunnelStatus.waiting phone files tickets h p = absurd (ground arith)
phone-PhaseAgrees TunnelStatus.complete phone files tickets h p = absurd (ground arith)
phone-PhaseAgrees TunnelStatus.cancelled phone files tickets h p = absurd (ground arith)
phone-PhaseAgrees TunnelStatus.expired phone files tickets h p = absurd (ground arith)

-- A live tunnel may have any tickets.
IsLive-tickets :
    (s : TunnelStatus) (phone : Bool) (files : List (ℕ × StoredFile))
    (tickets more : List (Digest × ℕ))
    → IsLive s
    → PhaseAgrees s phone files tickets
    → PhaseAgrees s phone files more
IsLive-tickets TunnelStatus.waiting phone files tickets more h p = p
IsLive-tickets TunnelStatus.connected phone files tickets more h p = p
IsLive-tickets TunnelStatus.transferring phone files tickets more h p = p
IsLive-tickets TunnelStatus.complete phone files tickets more h p = absurd (ground arith)
IsLive-tickets TunnelStatus.cancelled phone files tickets more h p = absurd (ground arith)
IsLive-tickets TunnelStatus.expired phone files tickets more h p = absurd p

pub IsSound-phone : (t : Tunnel) → IsSound t → InTransfer t.status → is_some t.phone_hash ≡ true
IsSound-phone t s h = InTransfer-phone t.status _ t.files t.event_tickets h s.phase

pub with_file-IsSound :
    (t : Tunnel) (file_id : ℕ) (stored new_file : StoredFile)
    → get same_id file_id t.files ≡ some stored
    → InTransfer t.status
    → FileIsSound t.max_file_bytes new_file
    → IsSound t
    → IsSound (with_file t file_id new_file)
with_file-IsSound t file_id stored new_file e h f s = record {
  files_sound =
      All-put same_id (FileIsSound t.max_file_bytes) file_id new_file t.files s.files_sound f;
  limit_fits = s.limit_fits;
  tickets_distinct = s.tickets_distinct;
  file_limit =
      omega (arith, length-put_found same_id file_id new_file stored t.files e, s.file_limit);
  exchange = s.exchange;
  phase = phone-PhaseAgrees t.status _ _ t.event_tickets h (IsSound-phone t s h);
}

close_if_done-IsSound :
    (t : Tunnel) → IsSound t → InTransfer t.status → t.files ≢ [] → IsSound (close_if_done t)
close_if_done-IsSound t s h ne = elim (Bool-cases (all_downloaded t.files)) [
  | inl e ↦ rw e (record {
    files_sound = s.files_sound;
    limit_fits = s.limit_fits;
    tickets_distinct = tt;
    file_limit = s.file_limit;
    exchange = s.exchange;
    phase = (IsSound-phone t s h, ne, e, refl);
  })
  | inr e ↦ rw e s
]

module _ (platform : Platform) where
  pub create_tunnel-IsSound :
      (portal_origin : Str) (request : CreateTunnelRequest) (id : ℕ) (pairing desk : Reading)
      {r : Tunnel × CreateTunnelResponse}
      → create_tunnel platform portal_origin request id pairing desk ≡ ok r
      → IsSound r.0
  create_tunnel-IsSound portal_origin request id pairing desk {r} h =
      let (e, _, _, bound, _, _) =
        create_accepted platform portal_origin request id pairing desk {r = r} h in
      subst IsSound (ap (λ p. p.0) (sym e)) (record {
        files_sound = tt;
        limit_fits = omega (arith, bound);
        tickets_distinct = tt;
        file_limit = omega arith;
        exchange = refl;
        phase = (refl, refl);
      })

  pub claim_tunnel-IsSound :
      (t : Tunnel) (secret : Str) (at : Reading) {r : Tunnel × Str}
      → claim_tunnel platform t secret at ≡ ok r
      → IsSound t
      → IsSound r.0
  claim_tunnel-IsSound t secret at {r} h s =
      subst IsSound (sym (claim_accepted platform t secret at {r = r} h).3) (
        publish-IsSound _ _ _ _ _ at.stamp (record {
          files_sound = s.files_sound;
          limit_fits = s.limit_fits;
          tickets_distinct = s.tickets_distinct;
          file_limit = s.file_limit;
          exchange = refl;
          phase = refl;
        }))

  pub cancel_tunnel-IsSound :
      (t : Tunnel) (authorization : Option (List ℕ)) (at : Reading) {r : Tunnel × Unit {0}}
      → cancel_tunnel platform t authorization at ≡ ok r
      → IsSound t
      → IsSound r.0
  cancel_tunnel-IsSound t authorization at {r} h s =
      subst IsSound (sym (cancel_accepted platform t authorization at {r = r} h).2) (
        publish-IsSound _ _ _ _ _ at.stamp (record {
          files_sound = tt;
          limit_fits = s.limit_fits;
          tickets_distinct = tt;
          file_limit = omega arith;
          exchange = s.exchange;
          phase = (refl, refl);
        }))

  pub declare_file-IsSound :
      (t : Tunnel) (authorization : Option (List ℕ)) (request : DeclareFileRequest) (at : Reading)
      {r : Tunnel × FileDescriptor}
      → declare_file platform t authorization request at ≡ ok r
      → IsSound t
      → IsSound r.0
  declare_file-IsSound t authorization request at {r} h s =
      let (transfer, _, valid, e) =
        declare_accepted platform t authorization request at {r = r} h in
      let (_, room, fits, _, _) =
        (validate_declaration_iff (policy t) (declaration request)).0 valid in
      subst IsSound (sym e) (
        publish-IsSound _ _ _ _ _ at.stamp (record {
          files_sound =
              All-put same_id (FileIsSound t.max_file_bytes) at.first
                (declared_file request at.first at.now) t.files s.files_sound
                (declared-FileIsSound t.max_file_bytes request at.first at.now fits);
          limit_fits = s.limit_fits;
          tickets_distinct = s.tickets_distinct;
          file_limit = omega (
            arith,
            length-put-le same_id at.first (declared_file request at.first at.now) t.files,
            room,
          );
          exchange = s.exchange;
          phase =
              phone-PhaseAgrees t.status _ _ t.event_tickets transfer (IsSound-phone t s transfer);
        }))

  with_tickets-IsSound :
      (t : Tunnel) (tickets : List (Digest × ℕ))
      → IsLive t.status
      → IsDistinct same_digest tickets
      → IsSound t
      → IsSound (record t { event_tickets = tickets })
  with_tickets-IsSound t tickets live d s = record {
    files_sound = s.files_sound;
    limit_fits = s.limit_fits;
    tickets_distinct = d;
    file_limit = s.file_limit;
    exchange = s.exchange;
    phase = IsLive-tickets t.status _ t.files t.event_tickets tickets live s.phase;
  }

  pub create_event_ticket-IsSound :
      (t : Tunnel) (authorization : Option (List ℕ)) (at : Reading)
      {r : Tunnel × EventTicketResponse}
      → create_event_ticket platform t authorization at ≡ ok r
      → IsSound t
      → IsSound r.0
  create_event_ticket-IsSound t authorization at {r} h s =
      let (live, _, e) = ticket_accepted platform t authorization at {r = r} h in
      subst IsSound (sym e) (
        with_tickets-IsSound t _ live
          (put-IsDistinct same_digest str_eq_iff _ _ t.event_tickets s.tickets_distinct) s)

  redeem-IsSound :
      (t : Tunnel) (ticket : Str) (now : ℕ) (found : Result (Digest × ℕ) ApiError)
      → live_ticket platform t ticket now ≡ found
      → IsSound t
      → IsSound (redeem t now found).0
  redeem-IsSound t ticket now (err e) h s = s
  redeem-IsSound t ticket now (ok found) h s =
      with_tickets-IsSound t _ (ticket_found platform t ticket now {found = found} h).0
        (delete-IsDistinct same_digest str_eq_iff found.0 t.event_tickets s.tickets_distinct) s

  pub connect_events-IsSound :
      (t : Tunnel) (ticket : Str) (now : ℕ)
      → IsSound t
      → IsSound (connect_events platform t ticket now).0
  unfolding connect_events
  connect_events-IsSound t ticket now s =
      redeem-IsSound t ticket now (live_ticket platform t ticket now) refl s

  pub download_file-IsSound :
      (t : Tunnel) (authorization : Option (List ℕ)) (file_id now : ℕ) (stamp : Stamp)
      {r : Tunnel × Download}
      → download_file platform t authorization file_id now stamp ≡ ok r
      → IsSound t
      → IsSound r.0
  download_file-IsSound t authorization file_id now stamp {r} h s =
      let (stored, found) = download_found platform t authorization file_id now stamp {r = r} h in
      let (done, transfer, _, _, e) =
        download_accepted platform t authorization file_id now stamp stored {r = r} found h in
      let sound =
        All-get same_id (FileIsSound t.max_file_bytes) file_id t.files stored s.files_sound found in
      subst IsSound (sym e) (
        publish-IsSound _ _ _ _ _ stamp (
          close_if_done-IsSound (with_file t file_id (mark_downloaded stored))
            (with_file-IsSound t file_id stored (mark_downloaded stored) found transfer
              (downloaded-FileIsSound t.max_file_bytes stored done sound) s)
            transfer (put-ne-nil same_id file_id (mark_downloaded stored) t.files)))
