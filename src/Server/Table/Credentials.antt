-- ===== src/Server/Table/Credentials.antt =====
-- The credential that each accepted request has shown (src/lib.rs).
use ftnl_backend_api_rs.Base.{
  ℕ, [], ok_or, ◌<◌, List, Option, some, ◌≡◌, ◌⊎◌, refl, sym, ap, ◌∙◌, Result, ok, err, arith, inl,
  inr, Result-cases, Bool-cases, Option-cases, >>=-eq-ok, >>-eq-ok, ◌>>=◌, ◌>>◌, get,
}
use ftnl_backend_api_rs.Text.{bytes}
use ftnl_backend_api_rs.Resumable.Range.{len}
use ftnl_backend_api_rs.Resumable.Upload.{try_usize}
use ftnl_backend_api_rs.Protocol.{Operation}
use ftnl_backend_api_rs.Server.{
  Platform, Digest, Tunnel, StoredFile, ApiError, Stamp, same_digest, too_large,
}
use ftnl_backend_api_rs.Server.Access.{
  ensure_active, bearer_hash, require_desktop, require_phone, require_either, hashes_equal,
  token_hash,
}
use ftnl_backend_api_rs.Server.Handlers.{
  claim_tunnel, cancel_tunnel, declare_file, create_event_ticket, connect_events,
}
use ftnl_backend_api_rs.Server.Transfers.{
  find_upload, receive_upload, store_upload, upload_file, requested_range, read_body,
  UploadResponse, upload_status, download_file, Upload,
}
use ftnl_backend_api_rs.Server.Accepted.{ticket_found}
use ftnl_backend_api_rs.Server.Invariant.Tickets.{connect-found}
use ftnl_backend_api_rs.Server.Snapshot.{get_tunnel}
use ftnl_backend_api_rs.Server.Capability.{claim_iff}
use ftnl_backend_api_rs.Server.Table.{Call, Response, respond, reply, opened, serve}

module _ (platform : Platform) (t : Tunnel) where
  abbrev pub ShowsDesktop : Option (List ℕ) → Type 0
  ShowsDesktop authorization = bearer_hash platform authorization ≡ ok t.desktop_hash

  abbrev pub ShowsPhone : Option (List ℕ) → Type 0
  ShowsPhone authorization =
      (digest : Digest) × (bearer_hash platform authorization ≡ ok digest)
      × (t.phone_hash ≡ some digest)

  -- What a call must show: the pairing secret, a bearer capability, or a live event ticket.
  abbrev pub Shows : Call → Type 0
  Shows (Call.claim secret at) = t.pairing_hash ≡ some (platform.sha256 (bytes secret))
  Shows (Call.snapshot a now) = ShowsDesktop a ⊎ ShowsPhone a
  Shows (Call.cancel a at) = ShowsDesktop a
  Shows (Call.declare a r at) = ShowsPhone a
  Shows (Call.status file_id a now) = ShowsPhone a
  Shows (Call.download file_id a now stamp) = ShowsDesktop a
  Shows (Call.mint a at) = ShowsDesktop a ⊎ ShowsPhone a
  Shows (Call.connect ticket now) =
      (expiry : ℕ) × (get same_digest (platform.sha256 (bytes ticket)) t.event_tickets
        ≡ some expiry)
      × (now < expiry)

  require_desktop-eq-ok :
      (d : Digest) (o : Operation) → require_desktop platform t d o ≡ ok tt → d ≡ t.desktop_hash
  unfolding require_desktop hashes_equal
  require_desktop-eq-ok d o h = ground (arith, platform.ct_eq_iff t.desktop_hash d)

  require_phone-eq-ok :
      (d : Digest) (o : Operation) → require_phone platform t d o ≡ ok tt → t.phone_hash ≡ some d
  unfolding require_phone hashes_equal
  require_phone-eq-ok d o h = elim (Option-cases t.phone_hash) [
    | inl n ↦ absurd (ground arith)
    | inr (expected, e) ↦ ground (arith, platform.ct_eq_iff expected d)
  ]

  require_either-eq-ok :
      (d : Digest) (o : Operation)
      → require_either platform t d o ≡ ok tt
      → (d ≡ t.desktop_hash) ⊎ (t.phone_hash ≡ some d)
  unfolding require_either hashes_equal
  require_either-eq-ok d o h = elim (Bool-cases (platform.ct_eq t.desktop_hash d)) [
    | inl same ↦ inl (sym ((platform.ct_eq_iff t.desktop_hash d).0 same))
    | inr other ↦ elim (Option-cases t.phone_hash) [
      | inl n ↦ absurd (ground arith)
      | inr (expected, e) ↦ inr (ground (arith, platform.ct_eq_iff expected d))
    ]
  ]

  respond-eq-ok :
      {A : Type 0} (answer : A → Response) (m : Result (Tunnel × A) ApiError) {r : Response}
      → (respond t answer m).1 ≡ ok r
      → (x : Tunnel × A) × (m ≡ ok x)
  respond-eq-ok answer (err e) h = cc
  respond-eq-ok answer (ok x) h = (x, refl)

  reply-eq-ok :
      {A : Type 0} (answer : A → Response) (m : Result A ApiError) {r : Response}
      → (reply t answer m).1 ≡ ok r
      → (x : A) × (m ≡ ok x)
  reply-eq-ok answer (err e) h = cc
  reply-eq-ok answer (ok x) h = (x, refl)

  opened-eq-ok : (m : Result (Unit {0}) ApiError) {r : Response} → opened m ≡ ok r → m ≡ ok tt
  opened-eq-ok (err e) h = cc
  opened-eq-ok (ok tt) h = refl

  -- The steps that the handlers share: a bearer capability, an active tunnel, a check of the capability.
  module _ (a : Option (List ℕ)) (now : ℕ) {B : Type 0} (k : Digest → Result B ApiError)
      {b : B} where
    desktop_shown :
        (o : Operation)
        → (bearer_hash platform a
            >>= (λ d. ensure_active t now >> (require_desktop platform t d o >> k d)))
          ≡ ok b
        → ShowsDesktop a
    desktop_shown o h =
        let (d, e, h1) = >>=-eq-ok (bearer_hash platform a) _ h in
        let (_, h2) = >>-eq-ok (ensure_active t now) _ h1 in
        let (h3, _) = >>-eq-ok (require_desktop platform t d o) _ h2 in
        e ∙ ap ok (require_desktop-eq-ok d o h3)

    phone_shown :
        (o : Operation)
        → (bearer_hash platform a
            >>= (λ d. ensure_active t now >> (require_phone platform t d o >> k d)))
          ≡ ok b
        → ShowsPhone a
    phone_shown o h =
        let (d, e, h1) = >>=-eq-ok (bearer_hash platform a) _ h in
        let (_, h2) = >>-eq-ok (ensure_active t now) _ h1 in
        let (h3, _) = >>-eq-ok (require_phone platform t d o) _ h2 in
        (d, e, require_phone-eq-ok d o h3)

    either_shown :
        (o : Operation)
        → (bearer_hash platform a
            >>= (λ d. ensure_active t now >> (require_either platform t d o >> k d)))
          ≡ ok b
        → ShowsDesktop a ⊎ ShowsPhone a
    either_shown o h =
        let (d, e, h1) = >>=-eq-ok (bearer_hash platform a) _ h in
        let (_, h2) = >>-eq-ok (ensure_active t now) _ h1 in
        let (h3, _) = >>-eq-ok (require_either platform t d o) _ h2 in
        elim (require_either-eq-ok d o h3) [
          | inl same ↦ inl (e ∙ ap ok same)
          | inr phone ↦ inr (d, e, phone)
        ]

  found_shown :
      (d : Digest) (file_id now : ℕ) {stored : StoredFile}
      → find_upload platform t d file_id now ≡ ok stored
      → t.phone_hash ≡ some d
  found_shown d file_id now h =
      let (_, h1) = >>-eq-ok (ensure_active t now) _ h in
      let (h2, _) = >>-eq-ok (require_phone platform t d Operation.upload_file) _ h1 in
      require_phone-eq-ok d Operation.upload_file h2

  -- An accepted call has shown what it must show.
  pub accepted-Shows :
      (tunnel_id : ℕ) (c : Call) (r : Response) → (serve platform tunnel_id c t).1 ≡ ok r → Shows c
  unfolding serve get_tunnel cancel_tunnel declare_file upload_status download_file
      create_event_ticket token_hash connect_events
  accepted-Shows id (Call.claim secret at) r h =
      let (x, e) = respond-eq-ok _ (claim_tunnel platform t secret at) h in
      let (_, _, shown) = (claim_iff platform t secret at).0 (x, e) in shown
  accepted-Shows id (Call.snapshot a now) r h =
      let (x, e) = reply-eq-ok _ (get_tunnel platform t id a now) h in
      either_shown a now _ Operation.read_snapshot e
  accepted-Shows id (Call.cancel a at) r h =
      let (x, e) = respond-eq-ok _ (cancel_tunnel platform t a at) h in
      desktop_shown a at.now _ Operation.cancel e
  accepted-Shows id (Call.declare a q at) r h =
      let (x, e) = respond-eq-ok _ (declare_file platform t a q at) h in
      phone_shown a at.now _ Operation.declare_file e
  accepted-Shows id (Call.status file_id a now) r h =
      let (x, e) = reply-eq-ok _ (upload_status platform t a file_id now) h in
      let (d, e1, h1) = >>=-eq-ok (bearer_hash platform a) _ e in
      let (stored, found, _) = >>=-eq-ok (find_upload platform t d file_id now) _ h1 in
      (d, e1, found_shown d file_id now {stored = stored} found)
  accepted-Shows id (Call.download file_id a now stamp) r h =
      let (x, e) = respond-eq-ok _ (download_file platform t a file_id now stamp) h in
      desktop_shown a now _ Operation.download_file e
  accepted-Shows id (Call.mint a at) r h =
      let (x, e) = respond-eq-ok _ (create_event_ticket platform t a at) h in
      either_shown a at.now _ Operation.mint_event_ticket e
  accepted-Shows id (Call.connect ticket now) r h =
      let (expiry, found, live) =
        connect-found platform t ticket now
          (opened-eq-ok (connect_events platform t ticket now).1 h) in
      let (_, _, there) =
        ticket_found platform t ticket now {found = (token_hash platform ticket, expiry)} found in
      (expiry, there, live)

  stored_shown :
      (file_id now : ℕ) (u : Upload) (progress available : Stamp) {r : UploadResponse}
      → (store_upload platform t file_id u now progress available).1 ≡ ok r
      → t.phone_hash ≡ some u.supplied
  unfolding store_upload
  stored_shown file_id now u progress available h =
      elim (Result-cases (find_upload platform t u.supplied file_id now)) [
        | inl (stored, found) ↦ found_shown u.supplied file_id now {stored = stored} found
        | inr (e, refused) ↦ absurd (ground arith)
      ]

  received_shown :
      (a : Option (List ℕ)) (file_id : ℕ) (header : Option (List ℕ)) (body : List (Option (List ℕ)))
      (now : ℕ) {u : Upload}
      → receive_upload platform t a file_id header body now ≡ ok u
      → (bearer_hash platform a ≡ ok u.supplied) × (t.phone_hash ≡ some u.supplied)
  unfolding receive_upload
  received_shown a file_id header body now {u} h =
      let (d, e1, h1) = >>=-eq-ok (bearer_hash platform a) _ h in
      let (stored, found, h2) = >>=-eq-ok (find_upload platform t d file_id now) _ h1 in
      let (range, _, h3) =
        >>=-eq-ok (requested_range platform header stored.descriptor.size_bytes) _ h2 in
      let (n, _, h4) = >>=-eq-ok (ok_or (try_usize (len range)) too_large) _ h3 in
      let (bytes, _, h5) = >>=-eq-ok (read_body range n [] body) _ h4 in
      let same : d ≡ u.supplied = ground arith in
      (e1 ∙ ap ok same, found_shown d file_id now {stored = stored} found ∙ ap some same)

-- An accepted upload has shown the phone capability of the tunnel that it found, and the tunnel that it
-- stores into, which may have changed in the meantime, has the same phone digest.
pub accepted_upload_shows :
    (platform : Platform) (before t : Tunnel) (a : Option (List ℕ)) (file_id : ℕ)
    (header : Option (List ℕ)) (body : List (Option (List ℕ))) (first second : ℕ)
    (progress available : Stamp) (r : UploadResponse)
    → (upload_file platform before t a file_id header body first second progress available).1 ≡ ok r
    → (digest : Digest) × (bearer_hash platform a ≡ ok digest)
      × (before.phone_hash ≡ some digest)
      × (t.phone_hash ≡ some digest)
unfolding upload_file
accepted_upload_shows platform before t a file_id header body first second progress available r h =
    elim (Result-cases (receive_upload platform before a file_id header body first)) [
      | inl (u, received) ↦
          let (bearer, shown) =
            received_shown platform before a file_id header body first {u = u} received in
          (
            u.supplied,
            bearer,
            shown,
            stored_shown platform t file_id second u progress available {r = r} (ground arith),
          )
      | inr (e, refused) ↦ absurd (ground arith)
    ]
