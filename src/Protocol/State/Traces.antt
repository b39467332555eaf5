-- ===== src/Protocol/State/Traces.antt =====
-- What holds of the machine over every sequence of actions, refused ones included.
use ftnl_backend_api_rs.Base.{
  ℕ, ◌<◌, true, List, [], ◌∷◌, ok, err, ◌≡◌, sym, ap, ◌∙◌, ◌⊎◌, inl, inr, arith, Result-cases,
}
use ftnl_backend_api_rs.Protocol.{complete}
use ftnl_backend_api_rs.Protocol.Quint.{Subset, Reach}
use ftnl_backend_api_rs.Protocol.Quint.Safety.{IsSubset, Reach-IsSafe}
use ftnl_backend_api_rs.Protocol.State.{
  ProtocolState, ProtocolAction, TransitionError, is_subset, phase_consistency, invariants_hold,
  transition, apply, initial,
}
use ftnl_backend_api_rs.Protocol.State.Bits.{
  set_of, is_subset-set_of, is_subset_three, includes, set_of-injective, set_of-zero,
}
use ftnl_backend_api_rs.Protocol.State.Refinement.{
  view, IsReached, initial-IsReached, transition-IsReached,
}

-- The state after a sequence of calls of `apply`.
unfoldable pub run : ProtocolState → List ProtocolAction → ProtocolState
run s [] = s
run s (a ∷ as') = run (apply s a).0 as'

-- A refused action leaves the state as it was.
pub apply_error_unchanged :
    (s : ProtocolState) (a : ProtocolAction) {e : TransitionError}
    → (apply s a).1 ≡ err e
    → (apply s a).0 ≡ s
unfolding apply
apply_error_unchanged s a h = ground arith

pub apply_cases :
    (s : ProtocolState) (a : ProtocolAction)
    → ((t : ProtocolState) × (transition s a ≡ ok t) × (apply s a ≡ (t, ok tt)))
      ⊎ ((e : TransitionError) × (apply s a ≡ (s, err e)))
unfolding apply
apply_cases s a = elim (Result-cases (transition s a)) [
  | inl (t, e) ↦ inl (t, e, rw (e, apply))
  | inr (x, e) ↦ inr (x, rw (e, apply))
]

pub apply-IsReached :
    (s : ProtocolState) (a : ProtocolAction) → IsReached s → IsReached (apply s a).0
apply-IsReached s a r = elim (apply_cases s a) [
  | inl (t, h, e) ↦ rw e (transition-IsReached s t a r h)
  | inr (x, e) ↦ rw e r
]

pub run-IsReached :
    (s : ProtocolState) (actions : List ProtocolAction) → IsReached s → IsReached (run s actions)
unfolding run
run-IsReached s [] r = r
run-IsReached s (a ∷ as') r = run-IsReached (apply s a).0 as' (apply-IsReached s a r)

-- Whatever actions are tried, the state stands for one that the specification reaches.
pub run_refines_quint : (actions : List ProtocolAction) → Reach (view (run initial actions))
run_refines_quint actions = (run-IsReached initial actions initial-IsReached).reached

IsSubset-includes : (s t : Subset) → IsSubset s t → includes s t ≡ true
IsSubset-includes s t h = ground arith

is_subset-IsSubset :
    (x y : ℕ) → x < 4 → y < 4 → IsSubset (set_of x) (set_of y) → is_subset x y ≡ true
is_subset-IsSubset x y hx hy h = is_subset-set_of x y hx hy ∙ IsSubset-includes _ _ h

IsReached-phase : (s : ProtocolState) → IsReached s → phase_consistency s.status s ≡ true
IsReached-phase s r =
    let safe = Reach-IsSafe r.reached in
    let b = r.bounded in
    ground (
      arith,
      safe.waiting_is_unpaired,
      safe.transfer_is_paired,
      λ (c : s.status ≡ complete) (z : s.declared_files ≡ 0).
          safe.complete_has_files c (ap set_of z ∙ set_of-zero),
      λ (c : s.status ≡ complete).
          set_of-injective s.downloaded_files s.declared_files b.downloaded_bounded
            b.declared_bounded (safe.complete_is_downloaded c),
      λ (c : s.status ≡ complete).
          set_of-injective s.active_tickets 0 b.active_bounded (omega arith)
            (safe.closed_has_no_tickets (inl c) ∙ sym set_of-zero),
    )

pub IsReached-invariants : (s : ProtocolState) → IsReached s → invariants_hold s ≡ true
unfolding invariants_hold
IsReached-invariants s r =
    let safe = Reach-IsSafe r.reached in
    let b = r.bounded in
    rw
      (
        is_subset_three s.declared_files b.declared_bounded,
        is_subset_three s.available_files b.available_bounded,
        is_subset_three s.downloaded_files b.downloaded_bounded,
        is_subset_three s.issued_tickets b.issued_bounded,
        is_subset_three s.active_tickets b.active_bounded,
        is_subset-IsSubset s.available_files s.declared_files b.available_bounded b.declared_bounded
            safe.available_were_declared,
        is_subset-IsSubset s.downloaded_files s.available_files b.downloaded_bounded
            b.available_bounded safe.downloaded_were_available,
        is_subset-IsSubset s.active_tickets s.issued_tickets b.active_bounded b.issued_bounded
            safe.active_were_issued,
        IsReached-phase s r,
      )
      (ground (arith, safe.exchange_is_atomic))

-- Whatever actions are tried, the invariants hold afterwards; since every call is the last of some
-- sequence, the `debug_assert!` in `transition` never fails from the initial state.
pub run_invariants : (actions : List ProtocolAction) → invariants_hold (run initial actions) ≡ true
run_invariants actions =
    IsReached-invariants (run initial actions) (run-IsReached initial actions initial-IsReached)
