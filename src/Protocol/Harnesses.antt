-- ===== src/Protocol/Harnesses.antt =====
-- The Kani harnesses of src/protocol.rs and tests/proptest_protocol.rs, as Boolean functions of the
-- values that they choose.
pub mod Pass
use ftnl_backend_api_rs.Base.{
  ℕ, zero, suc, ◌%◌, Bool, true, false, ◌&&◌, not, leb, ◌==◌, if◌then◌else◌, List, [], ◌∷◌, Result,
  ok, err, ◌≡◌, refl,
}
use ftnl_backend_api_rs.Protocol.{
  TunnelStatus, waiting, connected, transferring, complete, cancelled, expired, Principal,
  pairing_secret, desktop, phone, event_ticket, Operation, permits, progress_is_valid,
  is_pairing_secret,
}
use ftnl_backend_api_rs.Protocol.State.{
  ProtocolState, ProtocolAction, TransitionError, claim, mint_event_ticket, redeem_event_ticket,
  declare_file, finish_upload, download_file, cancel, expire, model_ticket_count, initial,
  invariants_hold, apply, transition, authorize, domain_bit, has_bit,
}

-- `status == other`, derived.
abbrev tag : TunnelStatus → ℕ
tag waiting = 0
tag connected = 1
tag transferring = 2
tag complete = 3
tag cancelled = 4
tag expired = 5

abbrev bool_eq : Bool → Bool → Bool
bool_eq true b = b
bool_eq false b = not b

-- `state == before`, derived.
unfoldable pub state_eq : ProtocolState → ProtocolState → Bool
state_eq s t =
    tag s.status == tag t.status
    && bool_eq s.pairing_available t.pairing_available
    && bool_eq s.phone_capability_issued t.phone_capability_issued
    && s.issued_tickets == t.issued_tickets
    && s.active_tickets == t.active_tickets
    && s.declared_files == t.declared_files
    && s.available_files == t.available_files
    && s.downloaded_files == t.downloaded_files

abbrev pub is_ok : Result (Unit {0}) TransitionError → Bool
is_ok (ok _) = true
is_ok (err _) = false

abbrev pub is_err : Result (Unit {0}) TransitionError → Bool
is_err result = not (is_ok result)

abbrev pub status_of : ℕ → TunnelStatus
status_of zero = waiting
status_of (suc zero) = connected
status_of (suc (suc zero)) = transferring
status_of (suc (suc (suc zero))) = complete
status_of (suc (suc (suc (suc zero)))) = cancelled
status_of _ = expired

unfoldable pub capability_scopes_do_not_cross_privilege_boundaries : ℕ → Bool
capability_scopes_do_not_cross_privilege_boundaries any =
    let status = status_of (any % 6) in
    not (permits status phone Operation.cancel)
    && not (permits status phone Operation.download_file)
    && not (permits status desktop Operation.declare_file)
    && not (permits status desktop Operation.upload_file)
    && not (permits status pairing_secret Operation.read_snapshot)

unfoldable pub progress_validation_is_the_declared_bound : ℕ → ℕ → Bool
progress_validation_is_the_declared_bound size transferred =
    bool_eq (progress_is_valid size transferred) (leb transferred size)

unfoldable pub claim_is_an_atomic_one_time_exchange : Bool
claim_is_an_atomic_one_time_exchange =
    let (claimed, first) = apply initial (claim pairing_secret) in
    let (state, second) = apply claimed (claim pairing_secret) in
    is_ok first
    && is_err second
    && state_eq state claimed
    && not state.pairing_available
    && state.phone_capability_issued
    && invariants_hold state

-- A value that `assume` excludes passes.
unfoldable pub rejected_finite_domain_transition_is_immutable : ℕ → Bool
rejected_finite_domain_transition_is_immutable identity =
    let before = initial in
    let (state, result) = apply before (mint_event_ticket desktop identity) in
    let passes = is_err result && state_eq state before in
    if leb model_ticket_count identity then passes else true

abbrev pub principal : ℕ → Principal
principal value = chosen (value % 4)
  where
    chosen : ℕ → Principal
    chosen zero = pairing_secret
    chosen (suc zero) = desktop
    chosen (suc (suc zero)) = phone
    chosen _ = event_ticket

abbrev pub action : ℕ → ℕ → ℕ → ProtocolAction
action kind actor identity = chosen (kind % 8)
  where
    chosen : ℕ → ProtocolAction
    chosen zero = claim (principal actor)
    chosen (suc zero) = mint_event_ticket (principal actor) identity
    chosen (suc (suc zero)) = redeem_event_ticket (principal actor) identity
    chosen (suc (suc (suc zero))) = declare_file (principal actor) identity
    chosen (suc (suc (suc (suc zero)))) = finish_upload (principal actor) identity
    chosen (suc (suc (suc (suc (suc zero))))) = download_file (principal actor) identity
    chosen (suc (suc (suc (suc (suc (suc zero)))))) = cancel (principal actor)
    chosen _ = expire

-- The loop over the trace, from a state.
unfoldable pub trace_passes : ProtocolState → List (ℕ × ℕ × ℕ) → Bool
trace_passes state [] = true
trace_passes state ((kind, actor, identity) ∷ trace) =
    let before = state in
    let (after, result) = apply state (action kind actor identity) in
    let rest = trace_passes after trace in
    invariants_hold after && (if is_err result then state_eq after before else true) && rest

unfoldable pub arbitrary_traces_preserve_protocol_invariants : List (ℕ × ℕ × ℕ) → Bool
arbitrary_traces_preserve_protocol_invariants trace =
    invariants_hold initial && trace_passes initial trace

abbrev pub claim_passes : Principal → Bool
claim_passes principal' =
    let (state, result) = apply initial (claim principal') in
    if is_pairing_secret principal'
    then is_ok result
      && tag state.status == tag connected
      && not state.pairing_available
      && state.phone_capability_issued
    else is_err result && state_eq state initial

unfoldable pub only_the_pairing_secret_can_claim : ℕ → Bool
only_the_pairing_secret_can_claim actor = claim_passes (principal actor)

unfoldable pub pairing_and_event_tickets_are_one_time_capabilities : Bool
pairing_and_event_tickets_are_one_time_capabilities =
    let (claimed, first) = apply initial (claim pairing_secret) in
    let (reclaimed, again) = apply claimed (claim pairing_secret) in
    let (minted, mint) = apply reclaimed (mint_event_ticket desktop 0) in
    let (redeemed, redemption) = apply minted (redeem_event_ticket event_ticket 0) in
    let (_, repeated) = apply redeemed (redeem_event_ticket event_ticket 0) in
    is_ok first && is_err again && is_ok mint && is_ok redemption && is_err repeated

one_time_passes : pairing_and_event_tickets_are_one_time_capabilities ≡ true
unfolding pairing_and_event_tickets_are_one_time_capabilities apply transition authorize permits
    domain_bit has_bit initial
one_time_passes = refl
