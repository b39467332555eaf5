-- ===== src/Server/Table/Arrival/Closed.antt =====
-- Requests to a tunnel that is complete, cancelled or past its expiry, uploads included (src/lib.rs).
use ftnl_backend_api_rs.Base.{
  ℕ, ◌<◌, Bool, false, Option, List, ◌≡◌, ◌⊎◌, refl, ap, Result, ok, err, inl, inr, >>=-eq-ok,
}
use ftnl_backend_api_rs.Protocol.Quint.{InTransfer}
use ftnl_backend_api_rs.Server.{Platform, Tunnel, ApiError, Stamp}
use ftnl_backend_api_rs.Server.Access.{bearer_hash}
use ftnl_backend_api_rs.Server.Accepted.{find_accepted}
use ftnl_backend_api_rs.Server.Transfers.{
  Upload, UploadResponse, find_upload, receive_upload, store_received, upload_file,
}
use ftnl_backend_api_rs.Server.Table.Arrival.{Arrival, locked, upload, upload_answer, arrive}
use ftnl_backend_api_rs.Server.Table.Closed.{
  IsClosed, instant, is_snapshot, not_transfer, Refuses, closed-Refuses, closed-Refuses_upload,
}

-- That the tunnel is closed when the request looks at it; of an upload, at either of its looks.
abbrev pub FindsClosed : Tunnel → Arrival → Type 0
FindsClosed t (locked c) = IsClosed t (instant c)
FindsClosed t (upload before a file_id header body first second progress available) =
    IsClosed before first ⊎ IsClosed t second

abbrev pub only_reads : Arrival → Bool
only_reads (locked c) = is_snapshot c
only_reads (upload before a file_id header body first second progress available) = false

upload_answer-Refuses :
    (t : Tunnel) (answer : Tunnel × Result UploadResponse ApiError)
    → Refuses t answer
    → Refuses t (answer.0, upload_answer answer.1)
upload_answer-Refuses t answer (e, h) = (e, ap (λ q. (q.0, upload_answer q.1)) h)

module _ (platform : Platform) where
  received-InTransfer :
      (t : Tunnel) (a : Option (List ℕ)) (file_id : ℕ) (header : Option (List ℕ))
      (body : List (Option (List ℕ))) (now : ℕ) {u : Upload}
      → receive_upload platform t a file_id header body now ≡ ok u
      → InTransfer t.status × (now < t.expires_at)
  unfolding receive_upload
  received-InTransfer t a file_id header body now h =
      let (supplied, _, h1) = >>=-eq-ok (bearer_hash platform a) _ h in
      let (stored, found, _) = >>=-eq-ok (find_upload platform t supplied file_id now) _ h1 in
      let (transfer, soon, _) =
        find_accepted platform t supplied file_id now {stored = stored} found in
      (transfer, soon)

  upload-Refuses :
      (before t : Tunnel) (a : Option (List ℕ)) (file_id : ℕ) (header : Option (List ℕ))
      (body : List (Option (List ℕ))) (first second : ℕ) (progress available : Stamp)
      (received : Result Upload ApiError)
      → receive_upload platform before a file_id header body first ≡ received
      → IsClosed before first ⊎ IsClosed t second
      → Refuses t (store_received platform t file_id second progress available received)
  upload-Refuses before t a file_id header body first second progress available (err e) h closed =
      (e, refl)
  upload-Refuses before t a file_id header body first second progress available (ok u) h
        (inl closed) =
      let (transfer, soon) = received-InTransfer before a file_id header body first {u = u} h in
      absurd (not_transfer before first closed transfer soon)
  upload-Refuses before t a file_id header body first second progress available (ok u) h
        (inr closed) =
      closed-Refuses_upload platform t file_id second u progress available closed

  -- A tunnel that is complete, cancelled or past its expiry refuses every request but the snapshot, with
  -- an error, and is not changed by it. An upload is refused when the tunnel is so at either of its two
  -- looks.
  pub arrive-Refuses :
      (tunnel_id : ℕ) (t : Tunnel) (r : Arrival)
      → FindsClosed t r
      → only_reads r ≡ false
      → Refuses t (arrive platform tunnel_id r t)
  unfolding arrive upload_file
  arrive-Refuses tunnel_id t (locked c) closed k = closed-Refuses platform t tunnel_id c closed k
  arrive-Refuses tunnel_id t (upload before a file_id header body first second progress available)
        closed k =
      upload_answer-Refuses t _ (
        upload-Refuses before t a file_id header body first second progress available _ refl closed)
