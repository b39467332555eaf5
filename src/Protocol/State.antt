-- ===== src/Protocol/State.antt =====
-- `ProtocolState` of src/protocol.rs. A `u8` is a number below 256, a set its two low bits.
pub mod Bits
pub mod Steps
pub mod Refinement
pub mod Traces
pub mod Accepts
pub mod Performs
pub mod Complete
pub mod Once
pub mod Termination
use Prim.Native.Nat.{bit_and, bit_or}
use ftnl_backend_api_rs.Base.{
  ℕ, ◌-◌, ◌%◌, ◌^◌, Bool, true, false, ◌&&◌, ◌||◌, not, leb, ◌==◌, if◌then◌else◌, Result, ok, err,
  ◌>>=◌, ◌>>◌, reject_if, ◌≡◌, refl,
}
use ftnl_backend_api_rs.Protocol.{
  TunnelStatus, waiting, connected, transferring, complete, cancelled, expired, Principal,
  pairing_secret, desktop, phone, event_ticket, Operation, permits, is_complete, is_cancelled,
  is_expired,
}

abbrev pub model_file_count : ℕ
model_file_count = 2

abbrev pub model_ticket_count : ℕ
model_ticket_count = 2

pub data ProtocolAction : Type 0 where
  claim : (principal : Principal) → ProtocolAction
  mint_event_ticket : (principal : Principal) (ticket : ℕ) → ProtocolAction
  redeem_event_ticket : (principal : Principal) (ticket : ℕ) → ProtocolAction
  declare_file : (principal : Principal) (file : ℕ) → ProtocolAction
  finish_upload : (principal : Principal) (file : ℕ) → ProtocolAction
  download_file : (principal : Principal) (file : ℕ) → ProtocolAction
  cancel : (principal : Principal) → ProtocolAction
  expire : ProtocolAction

pub data TransitionError : Type 0 where
  unauthorized conflict outside_finite_domain : TransitionError

pub record ProtocolState : Type 0 where
  pub status : TunnelStatus
  pub pairing_available : Bool
  pub phone_capability_issued : Bool
  pub issued_tickets : ℕ
  pub active_tickets : ℕ
  pub declared_files : ℕ
  pub available_files : ℕ
  pub downloaded_files : ℕ

unfoldable pub initial : ProtocolState
initial = record {
  status = waiting;
  pairing_available = true;
  phone_capability_issued = false;
  issued_tickets = 0;
  active_tickets = 0;
  declared_files = 0;
  available_files = 0;
  downloaded_files = 0;
}

-- `!x` of a `u8`.
abbrev pub bit_not : ℕ → ℕ
bit_not x = 255 - x

-- `1_u8 << index`
abbrev pub one_shl : ℕ → ℕ
one_shl index = 2 ^ index % 256

-- `left & !right == 0`
unfoldable pub is_subset : ℕ → ℕ → Bool
is_subset left right = bit_and left (bit_not right) == 0

-- `set & bit != 0`
unfoldable pub has_bit : ℕ → ℕ → Bool
has_bit set bit = not (bit_and set bit == 0)

abbrev bool_ne : Bool → Bool → Bool
bool_ne true b = not b
bool_ne false b = b

abbrev pub phase_consistency : TunnelStatus → ProtocolState → Bool
phase_consistency waiting s = not s.phone_capability_issued
phase_consistency connected s = s.phone_capability_issued
phase_consistency transferring s = s.phone_capability_issued
phase_consistency complete s =
    s.phone_capability_issued
    && not (s.declared_files == 0)
    && s.downloaded_files == s.declared_files
    && s.active_tickets == 0
phase_consistency cancelled s = true
phase_consistency expired s = true

unfoldable pub invariants_hold : ProtocolState → Bool
invariants_hold s =
    let domain_mask = one_shl model_file_count - 1 in
    let ticket_mask = one_shl model_ticket_count - 1 in
    let sets_are_bounded =
      is_subset s.declared_files domain_mask
      && is_subset s.available_files domain_mask
      && is_subset s.downloaded_files domain_mask
      && is_subset s.issued_tickets ticket_mask
      && is_subset s.active_tickets ticket_mask in
    let file_ordering =
      is_subset s.available_files s.declared_files
      && is_subset s.downloaded_files s.available_files in
    let ticket_ordering = is_subset s.active_tickets s.issued_tickets in
    let capability_exchange = bool_ne s.pairing_available s.phone_capability_issued in
    sets_are_bounded
    && file_ordering
    && ticket_ordering
    && capability_exchange
    && phase_consistency s.status s

unfoldable pub domain_bit : ℕ → ℕ → Result ℕ TransitionError
domain_bit index count = if leb count index then err outside_finite_domain else ok (one_shl index)

abbrev capability_exists : Principal → ProtocolState → Bool
capability_exists pairing_secret s = s.pairing_available
capability_exists desktop s = true
capability_exists phone s = s.phone_capability_issued
capability_exists event_ticket s = true

unfoldable pub authorize : ProtocolState → Principal → Operation → Result (Unit {0}) TransitionError
authorize s principal operation =
    if capability_exists principal s && permits s.status principal operation
    then ok tt
    else err unauthorized

-- Each error is returned before a field is assigned, so the new state stands in the result.
unfoldable pub apply_inner : ProtocolState → ProtocolAction → Result ProtocolState TransitionError
apply_inner s (claim principal) = do
  authorize s principal Operation.claim
  reject_if (not s.pairing_available || s.phone_capability_issued) conflict
  ok (record s { pairing_available = false; phone_capability_issued = true; status = connected })
apply_inner s (mint_event_ticket principal ticket) = do
  authorize s principal Operation.mint_event_ticket
  bit ← domain_bit ticket model_ticket_count
  reject_if (has_bit s.issued_tickets bit) conflict
  ok (record s {
    issued_tickets = bit_or s.issued_tickets bit;
    active_tickets = bit_or s.active_tickets bit;
  })
apply_inner s (redeem_event_ticket principal ticket) = do
  authorize s principal Operation.redeem_event_ticket
  bit ← domain_bit ticket model_ticket_count
  reject_if (not (has_bit s.active_tickets bit)) conflict
  ok (record s { active_tickets = bit_and s.active_tickets (bit_not bit) })
apply_inner s (declare_file principal file) = do
  authorize s principal Operation.declare_file
  bit ← domain_bit file model_file_count
  reject_if (has_bit s.declared_files bit) conflict
  ok (record s { declared_files = bit_or s.declared_files bit })
apply_inner s (finish_upload principal file) = do
  authorize s principal Operation.upload_file
  bit ← domain_bit file model_file_count
  reject_if (not (has_bit s.declared_files bit) || has_bit s.available_files bit) conflict
  ok (record s { available_files = bit_or s.available_files bit; status = transferring })
apply_inner s (download_file principal file) = do
  authorize s principal Operation.download_file
  bit ← domain_bit file model_file_count
  reject_if (not (has_bit s.available_files bit) || has_bit s.downloaded_files bit) conflict
  let downloaded = bit_or s.downloaded_files bit
  ok (
      if downloaded == s.declared_files
      then record s { downloaded_files = downloaded; status = complete; active_tickets = 0 }
      else record s { downloaded_files = downloaded })
apply_inner s (cancel principal) = do
  authorize s principal Operation.cancel
  ok (record s { status = cancelled; active_tickets = 0 })
apply_inner s expire = do
  reject_if (is_complete s.status || is_cancelled s.status || is_expired s.status) conflict
  ok (record s { status = expired; active_tickets = 0 })

-- Its `debug_assert!` is an invariant of every run: see State/Traces.antt.
unfoldable pub transition : ProtocolState → ProtocolAction → Result ProtocolState TransitionError
unfolding apply_inner
transition s action = do next ← apply_inner s action; ok next

abbrev after_apply :
    ProtocolState
    → Result ProtocolState TransitionError
    → ProtocolState × Result (Unit {0}) TransitionError
after_apply s (ok next) = (next, ok tt)
after_apply s (err e) = (s, err e)

unfoldable pub apply :
    ProtocolState → ProtocolAction → ProtocolState × Result (Unit {0}) TransitionError
apply s action = after_apply s (transition s action)

claimed : (apply initial (claim pairing_secret)).0.status ≡ connected
unfolding apply transition authorize permits initial
claimed = refl

twice : (apply (apply initial (claim pairing_secret)).0 (claim pairing_secret)).1 ≡ err unauthorized
unfolding apply transition authorize permits initial
twice = refl
