-- ===== src/Server/Table/Closed.antt =====
-- A tunnel that is complete, cancelled or past its expiry (src/lib.rs).
use ftnl_backend_api_rs.Base.{
  ℕ, ◌≤◌, ◌<◌, Bool, true, false, Option, List, ◌≡◌, ◌⊎◌, refl, Result, ok, err, arith, inl,
  >>=-eq-ok,
}
use ftnl_backend_api_rs.Protocol.{TunnelStatus}
use ftnl_backend_api_rs.Protocol.Quint.{InTransfer, IsLive}
use ftnl_backend_api_rs.Server.{Platform, Digest, Tunnel, StoredFile, ApiError, Stamp}
use ftnl_backend_api_rs.Server.Access.{bearer_hash}
use ftnl_backend_api_rs.Server.Handlers.{live_ticket, redeem, connect_events}
use ftnl_backend_api_rs.Server.Transfers.{
  Upload, UploadResponse, store_upload, store_found, find_upload, upload_status,
}
use ftnl_backend_api_rs.Server.Accepted.{
  claim_accepted, cancel_accepted, declare_accepted, ticket_accepted, ticket_found, find_accepted,
  download_found, download_accepted,
}
use ftnl_backend_api_rs.Server.Table.{Call, Response, respond, reply, opened, serve}

abbrev pub IsFinal : TunnelStatus → Type 0
IsFinal s = (s ≡ TunnelStatus.complete) ⊎ (s ≡ TunnelStatus.cancelled) ⊎ (s ≡ TunnelStatus.expired)

abbrev pub IsClosed : Tunnel → ℕ → Type 0
IsClosed t now = IsFinal t.status ⊎ (t.expires_at ≤ now)

-- When the call reads the clock for its checks.
abbrev pub instant : Call → ℕ
instant (Call.claim secret at) = at.now
instant (Call.snapshot a now) = now
instant (Call.cancel a at) = at.now
instant (Call.declare a r at) = at.now
instant (Call.status file_id a now) = now
instant (Call.download file_id a now stamp) = now
instant (Call.mint a at) = at.now
instant (Call.connect ticket now) = now

abbrev pub is_snapshot : Call → Bool
is_snapshot (Call.snapshot a now) = true
is_snapshot _ = false

module _ (t : Tunnel) (now : ℕ) (closed : IsClosed t now) where
  not_live : IsLive t.status → now < t.expires_at → ⊥
  not_live live soon = ground arith

  pub not_transfer : InTransfer t.status → now < t.expires_at → ⊥
  not_transfer transfer soon = ground arith

-- Nothing changed, and an error is answered.
abbrev pub Refuses : {A : Type 0} → Tunnel → Tunnel × Result A ApiError → Type 0
Refuses t answer = (e : ApiError) × (answer ≡ (t, err e))

respond-Refuses :
    {A : Type 0} (t : Tunnel) (answer : A → Response) (r : Result (Tunnel × A) ApiError)
    → ((x : Tunnel × A) → r ≡ ok x → ⊥)
    → Refuses t (respond t answer r)
respond-Refuses t answer (err e) k = (e, refl)
respond-Refuses t answer (ok x) k = absurd (k x refl)

reply-Refuses :
    {A : Type 0} (t : Tunnel) (answer : A → Response) (r : Result A ApiError)
    → ((x : A) → r ≡ ok x → ⊥)
    → Refuses t (reply t answer r)
reply-Refuses t answer (err e) k = (e, refl)
reply-Refuses t answer (ok x) k = absurd (k x refl)

redeem-Refuses :
    (t : Tunnel) (now : ℕ) (found : Result (Digest × ℕ) ApiError)
    → ((x : Digest × ℕ) → found ≡ ok x → ⊥)
    → Refuses {A = Response} t ((redeem t now found).0, opened (redeem t now found).1)
redeem-Refuses t now (err e) k = (e, refl)
redeem-Refuses t now (ok x) k = absurd (k x refl)

module _ (platform : Platform) (t : Tunnel) where
  status-InTransfer :
      (a : Option (List ℕ)) (file_id now : ℕ) (x : UploadResponse)
      → upload_status platform t a file_id now ≡ ok x
      → InTransfer t.status × (now < t.expires_at)
  unfolding upload_status
  status-InTransfer a file_id now x h =
      let (supplied, _, h1) = >>=-eq-ok (bearer_hash platform a) _ h in
      let (stored, found, _) = >>=-eq-ok (find_upload platform t supplied file_id now) _ h1 in
      let (transfer, soon, _) =
        find_accepted platform t supplied file_id now {stored = stored} found in
      (transfer, soon)

  -- Such a tunnel refuses every call but the snapshot.
  pub closed-Refuses :
      (tunnel_id : ℕ) (c : Call)
      → IsClosed t (instant c)
      → is_snapshot c ≡ false
      → Refuses t (serve platform tunnel_id c t)
  unfolding serve connect_events
  closed-Refuses id (Call.claim secret at) closed k = respond-Refuses t _ _ (λ x h.
      let (waiting, soon, _, _) = claim_accepted platform t secret at {r = x} h in
      not_live t at.now closed (inl waiting) soon)
  closed-Refuses id (Call.snapshot a now) closed k = cc
  closed-Refuses id (Call.cancel a at) closed k = respond-Refuses t _ _ (λ x h.
      let (live, soon, _) = cancel_accepted platform t a at {r = x} h in
      not_live t at.now closed live soon)
  closed-Refuses id (Call.declare a r at) closed k = respond-Refuses t _ _ (λ x h.
      let (transfer, soon, _, _) = declare_accepted platform t a r at {r = x} h in
      not_transfer t at.now closed transfer soon)
  closed-Refuses id (Call.status file_id a now) closed k = reply-Refuses t _ _ (λ x h.
      let (transfer, soon) = status-InTransfer a file_id now x h in
      not_transfer t now closed transfer soon)
  closed-Refuses id (Call.download file_id a now stamp) closed k = respond-Refuses t _ _ (λ x h.
      let (stored, found) = download_found platform t a file_id now stamp {r = x} h in
      let (_, transfer, soon, _, _) =
        download_accepted platform t a file_id now stamp stored {r = x} found h in
      not_transfer t now closed transfer soon)
  closed-Refuses id (Call.mint a at) closed k = respond-Refuses t _ _ (λ x h.
      let (live, soon, _) = ticket_accepted platform t a at {r = x} h in
      not_live t at.now closed live soon)
  closed-Refuses id (Call.connect ticket now) closed k =
      redeem-Refuses t now (live_ticket platform t ticket now) (λ x h.
        let (live, soon, _) = ticket_found platform t ticket now {found = x} h in
        not_live t now closed live soon)

  store_found-Refuses :
      (file_id now : ℕ) (u : Upload) (progress available : Stamp)
      (found : Result StoredFile ApiError)
      → find_upload platform t u.supplied file_id now ≡ found
      → IsClosed t now
      → Refuses t (store_found t file_id u progress available found)
  store_found-Refuses file_id now u progress available (err e) h closed = (e, refl)
  store_found-Refuses file_id now u progress available (ok stored) h closed =
      let (transfer, soon, _) =
        find_accepted platform t u.supplied file_id now {stored = stored} h in
      absurd (not_transfer t now closed transfer soon)

  -- An upload that finds such a tunnel at its second look is refused too, however it began.
  pub closed-Refuses_upload :
      (file_id now : ℕ) (u : Upload) (progress available : Stamp)
      → IsClosed t now
      → Refuses t (store_upload platform t file_id u now progress available)
  unfolding store_upload
  closed-Refuses_upload file_id now u progress available closed =
      store_found-Refuses file_id now u progress available _ refl closed
