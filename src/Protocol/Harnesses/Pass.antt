-- ===== src/Protocol/Harnesses/Pass.antt =====
-- The Kani harnesses of src/protocol.rs and tests/proptest_protocol.rs pass for all values that they
-- may choose.
use ftnl_backend_api_rs.Base.{ℕ, ◌%◌, true, ◌&&◌, not, List, [], ◌∷◌, ◌≡◌, refl, inl, inr, arith}
use ftnl_backend_api_rs.Protocol.{
  TunnelStatus, waiting, connected, transferring, complete, cancelled, expired, Principal,
  pairing_secret, desktop, phone, event_ticket, Operation, permits, progress_is_valid,
}
use ftnl_backend_api_rs.Protocol.State.{
  ProtocolState, transition, authorize, domain_bit, apply, initial, invariants_hold, is_subset,
}
use ftnl_backend_api_rs.Protocol.State.Refinement.{IsReached, initial-IsReached}
use ftnl_backend_api_rs.Protocol.State.Traces.{apply_cases, apply-IsReached, IsReached-invariants}
use ftnl_backend_api_rs.Protocol.Harnesses.{
  state_eq, status_of, principal, claim_passes, action,
  capability_scopes_do_not_cross_privilege_boundaries, progress_validation_is_the_declared_bound,
  claim_is_an_atomic_one_time_exchange, rejected_finite_domain_transition_is_immutable,
  trace_passes, arbitrary_traces_preserve_protocol_invariants, only_the_pairing_secret_can_claim,
}

scopes-pass : (any : ℕ) → capability_scopes_do_not_cross_privilege_boundaries any ≡ true
unfolding capability_scopes_do_not_cross_privilege_boundaries permits
scopes-pass any = boundaries (status_of (any % 6))
  where
    boundaries :
        (s : TunnelStatus)
        → (not (permits s phone Operation.cancel)
            && not (permits s phone Operation.download_file)
            && not (permits s desktop Operation.declare_file)
            && not (permits s desktop Operation.upload_file)
            && not (permits s pairing_secret Operation.read_snapshot))
          ≡ true
    boundaries waiting = refl
    boundaries connected = refl
    boundaries transferring = refl
    boundaries complete = refl
    boundaries cancelled = refl
    boundaries expired = refl

progress-passes :
    (size transferred : ℕ) → progress_validation_is_the_declared_bound size transferred ≡ true
unfolding progress_validation_is_the_declared_bound progress_is_valid
progress-passes size transferred = ground arith

claim-passes : claim_is_an_atomic_one_time_exchange ≡ true
unfolding claim_is_an_atomic_one_time_exchange state_eq apply transition authorize permits initial
    invariants_hold is_subset
claim-passes = refl

state_eq_refl : (s : ProtocolState) → state_eq s s ≡ true
unfolding state_eq
state_eq_refl s = ground arith

trace-passes :
    (s : ProtocolState) (trace : List (ℕ × ℕ × ℕ)) → IsReached s → trace_passes s trace ≡ true
unfolding trace_passes
trace-passes s [] r = refl
trace-passes s ((k, a, i) ∷ trace) r =
    let after = apply-IsReached s (action k a i) r in
    let rest = trace-passes (apply s (action k a i)).0 trace after in
    let holds = IsReached-invariants (apply s (action k a i)).0 after in
    elim (apply_cases s (action k a i)) [
      | inl (t, h, e) ↦ rw (holds, rest) (rw e refl)
      | inr (x, e) ↦ rw (holds, rest) (rw (e, state_eq_refl s) refl)
    ]

domain-passes : (identity : ℕ) → rejected_finite_domain_transition_is_immutable identity ≡ true
unfolding rejected_finite_domain_transition_is_immutable state_eq apply transition authorize permits
    domain_bit initial
domain-passes identity = ground arith

pub claims-pass : (actor : ℕ) → only_the_pairing_secret_can_claim actor ≡ true
unfolding only_the_pairing_secret_can_claim state_eq apply transition authorize permits initial
claims-pass actor = claimant (principal actor)
  where
    claimant : (p : Principal) → claim_passes p ≡ true
    claimant pairing_secret = refl
    claimant desktop = refl
    claimant phone = refl
    claimant event_ticket = refl

-- The four Kani harnesses of src/protocol.rs pass, whatever values they choose.
pub harnesses_pass :
    ((any : ℕ) → capability_scopes_do_not_cross_privilege_boundaries any ≡ true)
    × ((size transferred : ℕ) → progress_validation_is_the_declared_bound size transferred ≡ true)
    × (claim_is_an_atomic_one_time_exchange ≡ true)
    × ((identity : ℕ) → rejected_finite_domain_transition_is_immutable identity ≡ true)
harnesses_pass = (scopes-pass, progress-passes, claim-passes, domain-passes)

-- The property tests of tests/proptest_protocol.rs pass for every trace and every actor: after each
-- action the invariants hold, and an action that is refused leaves the state as it was; and only the
-- pairing secret claims.
pub property_tests_pass :
    (trace : List (ℕ × ℕ × ℕ)) (actor : ℕ)
    → (arbitrary_traces_preserve_protocol_invariants trace ≡ true)
      × (only_the_pairing_secret_can_claim actor ≡ true)
unfolding arbitrary_traces_preserve_protocol_invariants
property_tests_pass trace actor = (
  rw (IsReached-invariants initial initial-IsReached, trace-passes initial trace initial-IsReached)
      refl,
  claims-pass actor,
)
