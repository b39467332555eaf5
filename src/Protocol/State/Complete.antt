-- ===== src/Protocol/State/Complete.antt =====
-- The executable state machine has every behaviour that the specification allows.
use mathlib.Core.Path.{subst}
use ftnl_backend_api_rs.Base.{
  List, [], ◌∷◌, ◌++◌, ok, ◌≡◌, ◌↔◌, refl, sym, ap, ◌∙◌, inl, inr, arith,
}
use ftnl_backend_api_rs.Protocol.Quint.{SpecState, Step, Reach}
use ftnl_backend_api_rs.Protocol.State.{ProtocolState, ProtocolAction, transition, apply, initial}
use ftnl_backend_api_rs.Protocol.State.Refinement.{view, view-initial, initial-IsReached}
use ftnl_backend_api_rs.Protocol.State.Performs.{Step-Performs}
use ftnl_backend_api_rs.Protocol.State.Traces.{run, run-IsReached, run_refines_quint}

run-append :
    (s : ProtocolState) (as' bs : List ProtocolAction) → run s (as' ++ bs) ≡ run (run s as') bs
unfolding run
run-append s [] bs = refl
run-append s (a ∷ as') bs = run-append (apply s a).0 as' bs

apply-accepted :
    (s t : ProtocolState) (a : ProtocolAction) → transition s a ≡ ok t → (apply s a).0 ≡ t
unfolding apply
apply-accepted s t a h = ground arith

abbrev IsRun : SpecState → Type 0
IsRun q = (actions : List ProtocolAction) × (view (run initial actions) ≡ q)

next-IsRun : {p q : SpecState} → IsRun p → Step p q → IsRun q
unfolding run
next-IsRun {p} {q} (actions, e) st =
    let s = run initial actions in
    let r = run-IsReached initial actions initial-IsReached in
    elim (Step-Performs s q r (subst (λ x. Step x q) (sym e) st)) [
      | inl (a, t, accepted, same) ↦ (
        actions ++ a ∷ [],
        ap view (run-append initial actions (a ∷ []) ∙ apply-accepted s t a accepted) ∙ same,
      )
      | inr same ↦ (actions, sym same)
    ]

Reach-IsRun : {q : SpecState} → Reach q → IsRun q
unfolding run
Reach-IsRun (Reach.start s e) = ([], view-initial ∙ sym e)
Reach-IsRun (Reach.next r st) = next-IsRun (Reach-IsRun r) st

-- The specification reaches exactly the states for which some sequence of actions of the executable
-- machine ends in a state that stands for them.
pub Reach-iff :
    (q : SpecState) → Reach q ↔ ((actions : List ProtocolAction) × (view (run initial actions) ≡ q))
Reach-iff q = (Reach-IsRun, λ (actions, e). subst Reach e (run_refines_quint actions))
