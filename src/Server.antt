-- ===== src/Server.antt =====
-- src/lib.rs: the state of the API. Instants are nanoseconds; a `Uuid` is a number.
pub mod Access
pub mod Handlers
pub mod Transfers
pub mod Accepted
pub mod Capability
pub mod Snapshot
pub mod History
pub mod Table
pub mod RoundTrip
pub mod Session
pub mod Problem
pub mod Feed
pub mod Origin
pub mod Refinement
mod Tests
mod UnitTests
pub mod Invariant
use ftnl_backend_api_rs.Base.{
  ℕ, ◌+◌, ◌*◌, ◌%◌, ◌^◌, Bool, true, false, List, [], ◌∷◌, ◌++◌, Option, none, some, ◌↔◌, ◌≡◌, ◌==◌,
}
use ftnl_backend_api_rs.Text.{Str, codes, str_eq}
use ftnl_backend_api_rs.Protocol.{TunnelStatus}
use ftnl_backend_api_rs.Declaration.{
  DeclarationRejection, invalid_name, file_limit_reached, file_too_large, invalid_sha256,
}
use ftnl_backend_api_rs.Resumable.Upload.{UploadBuffer}

-- What the handlers call of other crates: `sha2`, `subtle`, `http` and `uuid`.
pub record Platform : Type 0 where
  pub sha256 : List ℕ → List ℕ
  pub ct_eq : List ℕ → List ℕ → Bool
  pub to_str : List ℕ → Option Str
  pub simple : ℕ → Str
  pub hyphenated : ℕ → Str
  pub header_value_is_valid : Str → Bool
  -- The documented meaning of `ConstantTimeEq` on byte arrays.
  pub ct_eq_iff : (a b : List ℕ) → (ct_eq a b ≡ true) ↔ (a ≡ b)

abbrev pub Digest : Type 0
Digest = List ℕ

pub data FileStatus : Type 0 where
  declared uploading available downloaded rejected cancelled : FileStatus

pub record FileDescriptor : Type 0 where
  pub file_id : ℕ
  pub name : Str
  pub media_type : Str
  pub size_bytes : ℕ  -- u64
  pub bytes_transferred : ℕ  -- u64
  pub status : FileStatus
  pub created_at : ℕ

pub record StoredFile : Type 0 where
  pub descriptor : FileDescriptor
  pub upload : UploadBuffer

pub record TunnelEvent : Type 0 where
  pub event_id : ℕ
  pub sequence : ℕ  -- u64
  pub occurred_at : ℕ
  pub tunnel_id : ℕ
  pub kind : Str
  pub file_id : Option ℕ
  pub bytes_transferred : Option ℕ
  pub reason_code : Option Str

-- `events` is the channel: the list of what was sent on it.
pub record Tunnel : Type 0 where
  pub id : ℕ
  pub status : TunnelStatus
  pub pairing_hash : Option Digest
  pub desktop_hash : Digest
  pub phone_hash : Option Digest
  pub expires_at : ℕ
  pub max_files : ℕ  -- u16
  pub max_file_bytes : ℕ  -- u64
  pub accept : List Str
  pub files : List (ℕ × StoredFile)
  pub sequence : ℕ  -- u64
  pub event_tickets : List (Digest × ℕ)
  pub events : List TunnelEvent

pub record AppState : Type 0 where
  pub tunnels : List (ℕ × Tunnel)
  pub portal_origin : Str

pub data ApiError : Type 0 where
  invalid invalid_range upload_conflict : (detail : Str) → ApiError
  unauthorized not_found expired conflict too_large unsupported_media : ApiError

-- `impl From<DeclarationRejection> for ApiError`
unfoldable pub from_rejection : DeclarationRejection → ApiError
from_rejection invalid_name = invalid (codes "name must be printable and at most 255 bytes")
from_rejection file_limit_reached = too_large
from_rejection file_too_large = too_large
from_rejection DeclarationRejection.unsupported_media = ApiError.unsupported_media
from_rejection invalid_sha256 = invalid (codes "sha256 must be 64 hexadecimal characters")

-- The status code of `into_response`.
unfoldable pub status_code : ApiError → ℕ
status_code (invalid detail) = 400
status_code (invalid_range detail) = 400
status_code (upload_conflict detail) = 409
status_code unauthorized = 401
status_code not_found = 404
status_code expired = 410
status_code conflict = 409
status_code too_large = 413
status_code ApiError.unsupported_media = 415

abbrev pub default_max_files : ℕ
default_max_files = 10

abbrev pub default_max_file_bytes : ℕ
default_max_file_bytes = 50 * 1024 * 1024

abbrev pub default_expires_seconds : ℕ
default_expires_seconds = 600

abbrev pub max_expires_seconds : ℕ
max_expires_seconds = 3600

abbrev pub event_ticket_seconds : ℕ
event_ticket_seconds = 30

-- `chrono::Duration::seconds`
abbrev pub seconds : ℕ → ℕ
seconds n = n * 1_000_000_000

-- The keys of `files` and of `event_tickets`.
abbrev pub same_id : ℕ → ℕ → Bool
same_id a b = a == b

abbrev pub same_digest : Digest → Digest → Bool
same_digest a b = str_eq a b

-- What the clock and the random generator give to one publication.
pub record Stamp : Type 0 where
  pub now : ℕ
  pub event_id : ℕ

-- `publish`: the counter is a `u64`, and a release build wraps; a send without receivers is no error.
unfoldable pub publish : Tunnel → Str → Option ℕ → Option ℕ → Option Str → Stamp → Tunnel
publish t kind file_id bytes_transferred reason_code stamp =
    let sequence = (t.sequence + 1) % 2 ^ 64 in
    record t {
      sequence = sequence;
      events =
          t.events
          ++ record {
            event_id = stamp.event_id;
            sequence = sequence;
            occurred_at = stamp.now;
            tunnel_id = t.id;
            kind = kind;
            file_id = file_id;
            bytes_transferred = bytes_transferred;
            reason_code = reason_code;
          }
            ∷ [];
    }
