-- ===== src/Protocol.antt =====
-- The capability policy of src/protocol.rs, and the status of a tunnel (src/lib.rs).
pub mod Scopes
pub mod Quint
pub mod Unbounded
pub mod State
pub mod Harnesses
mod Tests
use ftnl_backend_api_rs.Base.{ℕ, Bool, true, false, ◌&&◌, ◌||◌, not, leb, if◌then◌else◌}

pub data TunnelStatus : Type 0 where
  waiting connected transferring complete cancelled expired : TunnelStatus

pub data Principal : Type 0 where
  pairing_secret desktop phone event_ticket : Principal

pub data Operation : Type 0 where
  claim read_snapshot cancel declare_file upload_file download_file mint_event_ticket
        redeem_event_ticket :
      Operation

-- `matches!(status, TunnelStatus::…)` and the like.
abbrev pub is_waiting : TunnelStatus → Bool
is_waiting waiting = true
is_waiting _ = false

abbrev pub is_complete : TunnelStatus → Bool
is_complete complete = true
is_complete _ = false

abbrev pub is_cancelled : TunnelStatus → Bool
is_cancelled cancelled = true
is_cancelled _ = false

abbrev pub is_expired : TunnelStatus → Bool
is_expired expired = true
is_expired _ = false

abbrev pub is_connected_or_transferring : TunnelStatus → Bool
is_connected_or_transferring connected = true
is_connected_or_transferring transferring = true
is_connected_or_transferring _ = false

abbrev pub is_pairing_secret : Principal → Bool
is_pairing_secret pairing_secret = true
is_pairing_secret _ = false

abbrev is_desktop : Principal → Bool
is_desktop desktop = true
is_desktop _ = false

abbrev is_phone : Principal → Bool
is_phone phone = true
is_phone _ = false

abbrev is_event_ticket : Principal → Bool
is_event_ticket event_ticket = true
is_event_ticket _ = false

abbrev in_phase : TunnelStatus → Principal → Operation → Bool
in_phase status principal claim = is_waiting status && is_pairing_secret principal
in_phase status principal read_snapshot = is_desktop principal || is_phone principal
in_phase status principal cancel = not (is_complete status) && is_desktop principal
in_phase status principal declare_file = is_connected_or_transferring status && is_phone principal
in_phase status principal upload_file = is_connected_or_transferring status && is_phone principal
in_phase status principal download_file =
    is_connected_or_transferring status && is_desktop principal
in_phase status principal mint_event_ticket =
    not (is_complete status) && (is_desktop principal || is_phone principal)
in_phase status principal redeem_event_ticket =
    not (is_complete status) && is_event_ticket principal

unfoldable pub permits : TunnelStatus → Principal → Operation → Bool
permits status principal operation =
    if is_cancelled status || is_expired status then false else in_phase status principal operation

-- Nothing in the crate but its Kani harness calls this.
unfoldable pub progress_is_valid : ℕ → ℕ → Bool
progress_is_valid size_bytes bytes_transferred = leb bytes_transferred size_bytes
