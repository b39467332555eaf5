-- ===== src/Protocol/Tests.antt =====
-- Runs of src/protocol.rs, among them those of tests/proptest_protocol.rs.
use ftnl_backend_api_rs.Base.{
  ℕ, ◌==◌, ==_iff, true, false, List, [], ◌∷◌, ok, err, ◌≡◌, ◌≢◌, refl, ◌↔◌, inl, inr,
}
use ftnl_backend_api_rs.Protocol.{
  permits, connected, cancelled, phone, desktop, pairing_secret, event_ticket, Operation,
}
use ftnl_backend_api_rs.Protocol.Harnesses.{
  arbitrary_traces_preserve_protocol_invariants, only_the_pairing_secret_can_claim,
}
use ftnl_backend_api_rs.Protocol.Harnesses.Pass.{property_tests_pass}
use ftnl_backend_api_rs.Protocol.Quint.{Reach}
use ftnl_backend_api_rs.Protocol.Unbounded
use ftnl_backend_api_rs.Protocol.Unbounded.{insert}
use ftnl_backend_api_rs.Protocol.Unbounded.Safety.{IsSafe, reached-IsSafe}
use ftnl_backend_api_rs.Protocol.Scopes.{InScope, IsOpen, permits_iff}
use ftnl_backend_api_rs.Protocol.State.{
  ProtocolState, ProtocolAction, claim, mint_event_ticket, redeem_event_ticket, declare_file,
  finish_upload, download_file, cancel, expire, TransitionError, unauthorized, initial,
  invariants_hold, apply, transition, authorize, domain_bit, has_bit,
}
use ftnl_backend_api_rs.Protocol.State.Refinement.{view}
use ftnl_backend_api_rs.Protocol.State.Traces.{run, run_invariants}
use ftnl_backend_api_rs.Protocol.State.Complete.{Reach-iff}
use ftnl_backend_api_rs.Protocol.State.Once.{redeem_once, claim_once, closed_refuses}

permits_iff_example :
    (permits connected phone Operation.upload_file ≡ true)
    ↔ (InScope phone Operation.upload_file × IsOpen connected Operation.upload_file)
permits_iff_example = permits_iff connected phone Operation.upload_file

abbrev transfer : List ProtocolAction
transfer =
    claim pairing_secret
    ∷ mint_event_ticket desktop 0
    ∷ declare_file phone 0
    ∷ finish_upload phone 0
    ∷ download_file phone 0
    ∷ download_file desktop 0
    ∷ cancel desktop
    ∷ []

run_invariants_example : invariants_hold (run initial transfer) ≡ true
run_invariants_example = run_invariants transfer

phone_claims : (apply initial (claim phone)).1 ≡ err unauthorized
unfolding apply transition authorize permits initial
phone_claims = refl

abbrev with_ticket : List ProtocolAction
with_ticket = claim pairing_secret ∷ mint_event_ticket desktop 0 ∷ []

first_redemption : (apply (run initial with_ticket) (redeem_event_ticket event_ticket 0)).1 ≡ ok tt
unfolding run apply transition authorize permits domain_bit has_bit initial
first_redemption = refl

redeem_once_example :
    (apply
      (run
        (apply (run initial with_ticket) (redeem_event_ticket event_ticket 0)).0
        (mint_event_ticket phone 0 ∷ []))
      (redeem_event_ticket event_ticket 0)).1
    ≢ ok tt
redeem_once_example =
    redeem_once with_ticket (mint_event_ticket phone 0 ∷ []) event_ticket event_ticket 0
      first_redemption

first_claim : (apply (run initial []) (claim pairing_secret)).1 ≡ ok tt
unfolding run apply transition authorize permits initial
first_claim = refl

claim_once_example :
    (apply
      (run (apply (run initial []) (claim pairing_secret)).0 with_ticket)
      (claim pairing_secret)).1
    ≢ ok tt
claim_once_example = claim_once [] with_ticket pairing_secret pairing_secret first_claim

abbrev aborted : ProtocolState
aborted = record {
  status = cancelled;
  pairing_available = true;
  phone_capability_issued = false;
  issued_tickets = 0;
  active_tickets = 0;
  declared_files = 0;
  available_files = 0;
  downloaded_files = 0;
}

closed_refuses_example :
    (run aborted transfer ≡ aborted)
    × ((e : TransitionError) × (apply (run aborted transfer) expire ≡ (aborted, err e)))
closed_refuses_example = closed_refuses aborted transfer expire (inr (inl refl))

Reach-iff_example :
    Reach (view (run initial transfer))
    ↔ ((actions : List ProtocolAction) × (view (run initial actions) ≡ view (run initial transfer)))
Reach-iff_example = Reach-iff (view (run initial transfer))

property_tests_pass_example :
    (arbitrary_traces_preserve_protocol_invariants ((0, 0, 1) ∷ (3, 2, 0) ∷ (3, 2, 0) ∷ []) ≡ true)
    × (only_the_pairing_secret_can_claim 5 ≡ true)
property_tests_pass_example = property_tests_pass ((0, 0, 1) ∷ (3, 2, 0) ∷ (3, 2, 0) ∷ []) 5

-- Files and tickets are numbers: a tunnel that was claimed, with file 5 declared.
abbrev started : Unbounded.SpecState ℕ ℕ
started = Unbounded.init ◌==◌ ◌==◌

abbrev paired : Unbounded.SpecState ℕ ℕ
paired = record started {
  phase = connected;
  pairing_available = false;
  phone_capability_issued = true;
}

abbrev with_file : Unbounded.SpecState ℕ ℕ
with_file = record paired { declared_files = insert ◌==◌ 5 paired.declared_files }

with_file-Reach : Unbounded.Reach ◌==◌ ◌==◌ with_file
unfolding Unbounded.init
with_file-Reach =
    Unbounded.next (Unbounded.next Unbounded.start (Unbounded.claim refl refl refl refl))
      (Unbounded.declare_file 5 (inl refl) refl refl refl)

reached-IsSafe_example : IsSafe with_file
reached-IsSafe_example = reached-IsSafe ◌==◌ ==_iff ◌==◌ ==_iff with_file-Reach
