-- ===== src/Server/Refinement.antt =====
-- The control state of a tunnel of src/lib.rs, and the moves that formal/file_tunnel_protocol.qnt
-- allows it: its phase, and whether the pairing secret and the phone capability exist. The sets of
-- files and tickets are left out here, since the specification has only two of each; Abstract and the
-- modules after it compare them with the specification over any files and tickets.
pub mod Moves
pub mod Phases
pub mod Handlers
pub mod Runs
pub mod Departure
pub mod Abstract
pub mod Sets
pub mod Files
pub mod Stores
pub mod Careful
pub mod Simulation
pub mod Deliveries
pub mod Downloads
pub mod Whole
pub mod Arrivals
pub mod World
use ftnl_backend_api_rs.Base.{Bool, true, false, ◌≡◌}
use ftnl_backend_api_rs.Protocol.{TunnelStatus}
use ftnl_backend_api_rs.Protocol.Quint.{SpecState, Step, Reach}
use ftnl_backend_api_rs.Server.{Tunnel}
use ftnl_backend_api_rs.Server.Invariant.{is_some}

pub record Control : Type 0 where
  pub phase : TunnelStatus
  pub pairing_available : Bool
  pub phone_capability_issued : Bool

abbrev pub control_of_spec : SpecState → Control
control_of_spec s = record {
  phase = s.phase;
  pairing_available = s.pairing_available;
  phone_capability_issued = s.phone_capability_issued;
}

abbrev pub control : Tunnel → Control
control t = record {
  phase = t.status;
  pairing_available = is_some t.pairing_hash;
  phone_capability_issued = is_some t.phone_hash;
}

-- Some step between states that the specification reaches makes this move.
pub record Allows (c d : Control) : Type 0 where
  pub before : SpecState
  pub after : SpecState
  pub reached : Reach before
  pub step : Step before after
  pub from : control_of_spec before ≡ c
  pub to : control_of_spec after ≡ d

abbrev pub Follows : Tunnel → Tunnel → Type 0
Follows t t' = Allows (control t) (control t')
