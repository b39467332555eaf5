-- ===== src/Server/Refinement/Arrivals.antt =====
-- Each request to a tunnel, uploads included, against the specification.
use ftnl_backend_api_rs.Base.{ℕ, ◌<◌, Bool, ◌≡◌, refl, Result, ok, err}
use ftnl_backend_api_rs.Resumable.Range.{InBounds}
use ftnl_backend_api_rs.Server.{Platform, Digest, Tunnel, ApiError, Stamp}
use ftnl_backend_api_rs.Server.Transfers.{Upload, store_received, upload_file}
use ftnl_backend_api_rs.Server.Table.Arrival.{Arrival, locked, upload, arrive}
use ftnl_backend_api_rs.Server.Refinement.Abstract.{Spec, Abstracts, IsCareful, Fits, note}
use ftnl_backend_api_rs.Server.Refinement.Stores.{receive-IsNonempty}
use ftnl_backend_api_rs.Server.Refinement.Simulation.{Simulates, rests}
use ftnl_backend_api_rs.Server.Refinement.Deliveries.{store-Simulates}
use ftnl_backend_api_rs.Server.Refinement.Whole.{serve-Simulates}

-- Whether a request fits; an upload does if the tunnel was as it should be at the first look.
abbrev pub ArrivalFits : Platform → Tunnel → (Digest → Bool) → Arrival → Type 0
ArrivalFits platform t issued (locked c) = Fits platform t issued c
ArrivalFits platform t issued
      (upload before a file_id header body first second progress available) =
    IsCareful before

abbrev pub note_arrival : Platform → (Digest → Bool) → Arrival → Digest → Bool
note_arrival platform issued (locked c) = note platform issued c
note_arrival platform issued (upload before a file_id header body first second progress available) =
    issued

module _ (platform : Platform) (t : Tunnel) (issued : Digest → Bool) (s : Spec) (k : IsCareful t)
    (a : Abstracts t issued s) where
  received-Simulates :
      (file_id now : ℕ) (progress available : Stamp) (received : Result Upload ApiError)
      → ((u : Upload)
          → received ≡ ok u
          → InBounds u.range × (u.range.start < u.range.end_exclusive))
      → Simulates s (store_received platform t file_id now progress available received).0 issued
  received-Simulates file_id now progress available (err e) fits = rests t issued s k a
  received-Simulates file_id now progress available (ok u) fits =
      let (bounds, lt) = fits u refl in
      store-Simulates t issued s k a platform file_id u now progress available bounds lt

  -- Let `IsCareful` hold of a tunnel: it is sound, as every tunnel of the server is; its files are distinct
  -- and have bytes; while it is connected, each is as it was declared; and while it is connected or
  -- transferring, it has no files, or one that was not downloaded. Let it stand for a state of the
  -- specification. Then any request that fits, uploads included, accepted or refused, is one step of the
  -- specification, or a rest, to a state that the tunnel stands for afterwards. A declaration fits when the
  -- identity is new and the file has bytes, the making of a ticket when its digest was not drawn before,
  -- an upload when `IsCareful` held at its first look too, and any other request always.
  pub arrive-Simulates :
      (tunnel_id : ℕ) (r : Arrival)
      → ArrivalFits platform t issued r
      → Simulates s (arrive platform tunnel_id r t).0 (note_arrival platform issued r)
  unfolding arrive upload_file
  arrive-Simulates tunnel_id (locked c) fits =
      serve-Simulates platform t issued s k a tunnel_id c fits
  arrive-Simulates tunnel_id
        (upload before auth file_id header body first second progress available) fits =
      received-Simulates file_id second progress available _
        (receive-IsNonempty platform before fits auth file_id header body first)
