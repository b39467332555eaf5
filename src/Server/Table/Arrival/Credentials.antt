-- ===== src/Server/Table/Arrival/Credentials.antt =====
-- The credential that each accepted request has shown, uploads included (src/lib.rs).
use ftnl_backend_api_rs.Base.{ℕ, some, ◌≡◌, Result, ok, err, refl}
use ftnl_backend_api_rs.Server.{Platform, Digest, Tunnel, ApiError}
use ftnl_backend_api_rs.Server.Access.{bearer_hash}
use ftnl_backend_api_rs.Server.Transfers.{UploadResponse}
use ftnl_backend_api_rs.Server.Table.{Response}
use ftnl_backend_api_rs.Server.Table.Arrival.{Arrival, locked, upload, upload_answer, arrive}
use ftnl_backend_api_rs.Server.Table.Credentials.{Shows, accepted-Shows, accepted_upload_shows}

-- What a request must show; an upload the phone capability, of the tunnel at both of its looks.
abbrev pub ArrivalShows : Platform → Tunnel → Arrival → Type 0
ArrivalShows platform t (locked c) = Shows platform t c
ArrivalShows platform t (upload before a file_id header body first second progress available) =
    (digest : Digest) × (bearer_hash platform a ≡ ok digest)
    × (before.phone_hash ≡ some digest)
    × (t.phone_hash ≡ some digest)

upload_answer-eq-ok :
    (m : Result UploadResponse ApiError) {r : Response}
    → upload_answer m ≡ ok r
    → (x : UploadResponse) × (m ≡ ok x)
upload_answer-eq-ok (err e) h = cc
upload_answer-eq-ok (ok x) h = (x, refl)

-- An accepted request has shown the secret that it needs: a claim the pairing secret, a cancellation and
-- a download the desktop capability, a declaration and a status the phone capability, an upload the phone
-- capability at both of its looks at the tunnel, a snapshot and a ticket either capability, and a
-- connection an event ticket that is registered and has not expired.
pub arrive-Shows :
    (platform : Platform) (tunnel_id : ℕ) (t : Tunnel) (r : Arrival) (response : Response)
    → (arrive platform tunnel_id r t).1 ≡ ok response
    → ArrivalShows platform t r
unfolding arrive
arrive-Shows platform tunnel_id t (locked c) response h =
    accepted-Shows platform t tunnel_id c response h
arrive-Shows platform tunnel_id t
      (upload before a file_id header body first second progress available) response h =
    let (x, e) = upload_answer-eq-ok _ {r = response} h in
    accepted_upload_shows platform before t a file_id header body first second progress available x
      e
