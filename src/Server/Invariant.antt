-- ===== src/Server/Invariant.antt =====
-- What holds of every tunnel between two calls.

pub mod Files
pub mod Fresh
pub mod Calls
pub mod Uploads
pub mod Traces
pub mod Tickets
use ftnl_backend_api_rs.Base.{
  ℕ, ◌≤◌, Bool, true, false, not, List, [], Option, none, some, length, values, IsDistinct, all,
  All, ◌≡◌, ◌≢◌,
}
use ftnl_backend_api_rs.Protocol.{TunnelStatus}
use ftnl_backend_api_rs.Resumable.Upload.{offset, is_complete}
use ftnl_backend_api_rs.Resumable.Upload.Bounds.{IsWithin}
use ftnl_backend_api_rs.Text.{Str}
use ftnl_backend_api_rs.Text.Decimal.{u64_max}
use ftnl_backend_api_rs.Server.{same_digest, Digest, FileStatus, StoredFile, Tunnel, Stamp, publish}
use ftnl_backend_api_rs.Server.Transfers.{is_downloaded}

-- What the status of a file says of its buffer.
abbrev pub StatusAgrees : FileStatus → StoredFile → Type 0
StatusAgrees FileStatus.declared f = offset f.upload ≡ 0
StatusAgrees FileStatus.uploading f = is_complete f.upload ≡ false
StatusAgrees FileStatus.available f = is_complete f.upload ≡ true
StatusAgrees FileStatus.downloaded f = is_complete f.upload ≡ true
StatusAgrees FileStatus.rejected f = ⊥
StatusAgrees FileStatus.cancelled f = ⊥

pub record FileIsSound (limit : ℕ) (f : StoredFile) : Type 0 where
  pub sized : f.upload.total ≡ f.descriptor.size_bytes
  pub within : IsWithin f.upload
  pub counted : f.descriptor.bytes_transferred ≡ offset f.upload
  pub limited : f.descriptor.size_bytes ≤ limit
  pub agrees : StatusAgrees f.descriptor.status f

abbrev pub is_some {ℓ} : {A : Type ℓ} → Option A → Bool
is_some none = false
is_some (some a) = true

abbrev pub all_downloaded : List (ℕ × StoredFile) → Bool
all_downloaded files = all (λ file. is_downloaded file.descriptor.status) (values files)

-- What a status says of the phone's capability, the files and the event tickets.
abbrev pub PhaseAgrees : TunnelStatus → Bool → List (ℕ × StoredFile) → List (Digest × ℕ) → Type 0
PhaseAgrees TunnelStatus.waiting phone files tickets = (phone ≡ false) × (files ≡ [])
PhaseAgrees TunnelStatus.connected phone files tickets = phone ≡ true
PhaseAgrees TunnelStatus.transferring phone files tickets = phone ≡ true
PhaseAgrees TunnelStatus.complete phone files tickets =
    (phone ≡ true) × (files ≢ []) × (all_downloaded files ≡ true) × (tickets ≡ [])
PhaseAgrees TunnelStatus.cancelled phone files tickets = (files ≡ []) × (tickets ≡ [])
PhaseAgrees TunnelStatus.expired phone files tickets = ⊥

pub record IsSound (t : Tunnel) : Type 0 where
  pub files_sound : All (FileIsSound t.max_file_bytes) (values t.files)
  pub limit_fits : t.max_file_bytes ≤ u64_max
  pub tickets_distinct : IsDistinct same_digest t.event_tickets
  pub file_limit : length t.files ≤ t.max_files
  pub exchange : is_some t.pairing_hash ≡ not (is_some t.phone_hash)
  pub phase : PhaseAgrees t.status (is_some t.phone_hash) t.files t.event_tickets

pub publish-IsSound :
    (t : Tunnel) (kind : Str) (file_id bytes_transferred : Option ℕ) (reason_code : Option Str)
    (stamp : Stamp)
    → IsSound t
    → IsSound (publish t kind file_id bytes_transferred reason_code stamp)
unfolding publish
publish-IsSound t kind file_id bytes_transferred reason_code stamp h = record {
  files_sound = h.files_sound;
  limit_fits = h.limit_fits;
  tickets_distinct = h.tickets_distinct;
  file_limit = h.file_limit;
  exchange = h.exchange;
  phase = h.phase;
}
