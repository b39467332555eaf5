-- ===== src/Server/Refinement/Runs.antt =====
-- In every run of the server the control states of its tunnels move as the specification allows.
use ftnl_backend_api_rs.Base.{ℕ, some, ◌≡◌, ◌≢◌, inl, inr, Bool-cases, All, All-get, values, get}
use ftnl_backend_api_rs.Text.{Str}
use ftnl_backend_api_rs.Resumable.Upload.{is_complete}
use ftnl_backend_api_rs.Server.{Platform, StoredFile, Tunnel, Stamp, same_id}
use ftnl_backend_api_rs.Server.Transfers.{Upload, store_upload}
use ftnl_backend_api_rs.Server.Invariant.{IsSound, FileIsSound}
use ftnl_backend_api_rs.Server.Invariant.Fresh.{IsFresh, FileIsFresh, complete-FileIsFresh}
use ftnl_backend_api_rs.Server.Table.{Call, serve}
use ftnl_backend_api_rs.Server.Table.World.{World, Run}
use ftnl_backend_api_rs.Server.Table.Invariant.{get-EntryIsSound, Run-WorldIsSound}
use ftnl_backend_api_rs.Server.Refinement.{Follows}
use ftnl_backend_api_rs.Server.Refinement.Handlers.{Untouched, serve-Follows, store_upload-Follows}

abbrev pub HasBytes : StoredFile → Type 0
HasBytes f = f.descriptor.size_bytes ≢ 0

pub IsFresh-Untouched :
    (t : Tunnel) → IsSound t → IsFresh t → All HasBytes (values t.files) → Untouched t
IsFresh-Untouched t s fresh filled c file_id stored found =
    elim (Bool-cases (is_complete stored.upload)) [
      | inl done ↦ absurd (
          All-get same_id HasBytes file_id t.files stored filled found (
            complete-FileIsFresh t.max_file_bytes stored
              (All-get same_id (FileIsSound t.max_file_bytes) file_id t.files stored s.files_sound
                found)
              (All-get same_id FileIsFresh file_id t.files stored (fresh c) found) done))
      | inr rest ↦ rest
    ]

-- In every run of the server, whatever request comes to a tunnel without files of no bytes, and
-- whatever an upload stores into it: some step of the specification, from a state that it reaches,
-- moves phase, pairing secret and phone capability in the same way, or leaves them as they are.
pub requests_refine_quint :
    (platform : Platform) (origin : Str) (w : World) (id : ℕ) (t : Tunnel)
    → Run platform origin w
    → get same_id id w.state.tunnels ≡ some t
    → All HasBytes (values t.files)
    → ((tunnel_id : ℕ) (c : Call) → Follows t (serve platform tunnel_id c t).0)
      × ((file_id now : ℕ) (u : Upload) (progress available : Stamp)
          → Follows t (store_upload platform t file_id u now progress available).0)
requests_refine_quint platform origin w id t run found filled =
    let entry =
      get-EntryIsSound id t w.state.tunnels
        (Run-WorldIsSound platform origin {w = w} run).tunnels_sound found in
    let untouched = IsFresh-Untouched t entry.sound entry.fresh filled in
    (serve-Follows platform t entry.sound untouched, store_upload-Follows platform t entry.sound)
