-- ===== src/Protocol/State/Once.antt =====
-- One-time capabilities and closed tunnels, over every sequence of actions.
use ftnl_backend_api_rs.Base.{
  ℕ, true, false, List, [], ◌∷◌, ok, err, ◌≡◌, ◌≢◌, refl, ap, ◌∙◌, ◌⊎◌, inl, inr, arith,
}
use ftnl_backend_api_rs.Protocol.{TunnelStatus, complete, cancelled, expired, Principal}
use ftnl_backend_api_rs.Protocol.Quint.{
  Element, Subset, one, two, member, insert, remove, none_of, IsLive, SpecState, Step,
}
use ftnl_backend_api_rs.Protocol.Quint
use ftnl_backend_api_rs.Protocol.Quint.Safety.{IsSubset, Reach-IsSafe}
use ftnl_backend_api_rs.Protocol.State.{
  ProtocolState, ProtocolAction, TransitionError, claim, mint_event_ticket, redeem_event_ticket,
  declare_file, finish_upload, download_file, cancel, expire, transition, apply, initial,
}
use ftnl_backend_api_rs.Protocol.State.Bits.{set_of, element, member-set_of, set_of-and_not}
use ftnl_backend_api_rs.Protocol.State.Steps.{
  claim_accepted, mint_accepted, redeem_accepted, declare_accepted, upload_accepted,
  download_accepted, cancel_accepted, expire_accepted,
}
use ftnl_backend_api_rs.Protocol.State.Refinement.{
  view, IsReached, initial-IsReached, transition-IsReached, transition-Simulates,
}
use ftnl_backend_api_rs.Protocol.State.Traces.{run, apply_cases, apply-IsReached, run-IsReached}

-- A property that accepted actions keep is kept by every sequence.
run_keeps :
    (P : ProtocolState → Type 0)
    → ((s t : ProtocolState) (a : ProtocolAction) → IsReached s → transition s a ≡ ok t → P s → P t)
    → (s : ProtocolState) (actions : List ProtocolAction) → IsReached s
    → P s
    → P (run s actions)
unfolding run
run_keeps P keep s [] r h = h
run_keeps P keep s (a ∷ as') r h = elim (apply_cases s a) [
  | inl (t, accepted, e) ↦
      rw e
        (run_keeps P keep t as' (transition-IsReached s t a r accepted) (keep s t a r accepted h))
  | inr (x, e) ↦ rw e (run_keeps P keep s as' r h)
]

accepted :
    (s : ProtocolState) (a : ProtocolAction)
    → (apply s a).1 ≡ ok tt
    → transition s a ≡ ok (apply s a).0
unfolding apply
accepted s a h = ground arith

-- A ticket that was redeemed: it was issued, and it is not active.
abbrev Spent : Element → SpecState → Type 0
Spent e v = (member e v.issued_tickets ≡ true) × (member e v.active_tickets ≡ false)

mint_other :
    (e x : Element) (issued active : Subset)
    → member x issued ≡ false
    → member e issued ≡ true
    → member e active ≡ false
    → (member e (insert x issued) ≡ true) × (member e (insert x active) ≡ false)
mint_other one one issued active m h k = absurd (cc (m, h))
mint_other one two issued active m h k = (h, k)
mint_other two one issued active m h k = (h, k)
mint_other two two issued active m h k = absurd (cc (m, h))

member-remove : (e x : Element) (s : Subset) → member e s ≡ false → member e (remove x s) ≡ false
member-remove one one s h = refl
member-remove one two s h = h
member-remove two one s h = h
member-remove two two s h = refl

member-remove_self : (e : Element) (s : Subset) → member e (remove e s) ≡ false
member-remove_self one s = refl
member-remove_self two s = refl

member-none_of : (e : Element) → member e none_of ≡ false
member-none_of one = refl
member-none_of two = refl

Step-Spent : (e : Element) {v w : SpecState} → Step v w → Spent e v → Spent e w
Step-Spent e (Quint.claim a b c q) h = rw q h
Step-Spent e {v = v} (Quint.mint_desktop_ticket x l m q) h =
    rw q (mint_other e x v.issued_tickets v.active_tickets m h.0 h.1)
Step-Spent e {v = v} (Quint.mint_phone_ticket x i l m q) h =
    rw q (mint_other e x v.issued_tickets v.active_tickets m h.0 h.1)
Step-Spent e {v = v} (Quint.redeem_ticket x l m q) h =
    rw q (h.0, member-remove e x v.active_tickets h.1)
Step-Spent e (Quint.declare_file x l i m q) h = rw q h
Step-Spent e (Quint.finish_upload x l i m n q) h = rw q h
Step-Spent e (Quint.download_partial x l m n k q) h = rw q h
Step-Spent e (Quint.download_last x l m n k q) h = rw q (h.0, member-none_of e)
Step-Spent e (Quint.cancel l q) h = rw q (h.0, member-none_of e)
Step-Spent e (Quint.expire l q) h = rw q (h.0, member-none_of e)
Step-Spent e (Quint.idle q) h = rw q h

transition-Spent :
    (e : Element) (s t : ProtocolState) (a : ProtocolAction)
    → IsReached s
    → transition s a ≡ ok t
    → Spent e (view s)
    → Spent e (view t)
transition-Spent e s t a r h =
    Step-Spent e (transition-Simulates s t a r.bounded (Reach-IsSafe r.reached) h).1

member-IsSubset :
    (e : Element) (s t : Subset) → IsSubset s t → member e s ≡ true → member e t ≡ true
member-IsSubset one s t h m = h.one_in m
member-IsSubset two s t h m = h.two_in m

redeem-Spent :
    (s t : ProtocolState) (p : Principal) (i : ℕ)
    → IsReached s
    → transition s (redeem_event_ticket p i) ≡ ok t
    → Spent (element i) (view t)
redeem-Spent s t p i r h =
    let (_, lt, active, e) = redeem_accepted s t p i h in
    let b = r.bounded.active_bounded in
    let held = member-set_of s.active_tickets i b lt ∙ active in
    rw e (
      member-IsSubset (element i) (set_of s.active_tickets) (set_of s.issued_tickets)
          (Reach-IsSafe r.reached).active_were_issued held,
      ap (member (element i)) (set_of-and_not s.active_tickets i b lt)
          ∙ member-remove_self (element i) (set_of s.active_tickets),
    )

Spent-not_redeemed :
    (s : ProtocolState) (p : Principal) (i : ℕ)
    → IsReached s
    → Spent (element i) (view s)
    → (apply s (redeem_event_ticket p i)).1 ≢ ok tt
Spent-not_redeemed s p i r spent h =
    let (_, lt, active, _) = redeem_accepted s _ p i (accepted s (redeem_event_ticket p i) h) in
    cc (spent.1, member-set_of s.active_tickets i r.bounded.active_bounded lt, active)

reached : (actions : List ProtocolAction) → IsReached (run initial actions)
reached actions = run-IsReached initial actions initial-IsReached

-- An event ticket that was redeemed, after any actions, is not redeemed again, whatever actions come
-- between and whoever tries.
pub redeem_once :
    (before between : List ProtocolAction) (p q : Principal) (i : ℕ)
    → let s = run initial before in
      let t = apply s (redeem_event_ticket p i) in
      t.1 ≡ ok tt → (apply (run t.0 between) (redeem_event_ticket q i)).1 ≢ ok tt
redeem_once before between p q i h =
    let s = run initial before in
    let t = (apply s (redeem_event_ticket p i)).0 in
    let r = apply-IsReached s (redeem_event_ticket p i) (reached before) in
    let spent = redeem-Spent s t p i (reached before) (accepted s (redeem_event_ticket p i) h) in
    Spent-not_redeemed (run t between) q i (run-IsReached t between r)
      (run_keeps (λ u. Spent (element i) (view u)) (transition-Spent (element i)) t between r spent)

Step-unavailable :
    {v w : SpecState} → Step v w → v.pairing_available ≡ false → w.pairing_available ≡ false
Step-unavailable (Quint.claim a b c q) h = rw q
Step-unavailable (Quint.mint_desktop_ticket x l m q) h = rw q h
Step-unavailable (Quint.mint_phone_ticket x i l m q) h = rw q h
Step-unavailable (Quint.redeem_ticket x l m q) h = rw q h
Step-unavailable (Quint.declare_file x l i m q) h = rw q h
Step-unavailable (Quint.finish_upload x l i m n q) h = rw q h
Step-unavailable (Quint.download_partial x l m n k q) h = rw q h
Step-unavailable (Quint.download_last x l m n k q) h = rw q h
Step-unavailable (Quint.cancel l q) h = rw q h
Step-unavailable (Quint.expire l q) h = rw q h
Step-unavailable (Quint.idle q) h = rw q h

-- The pairing secret is exchanged at most once: after a claim that was accepted no claim is accepted,
-- whatever actions come before and between.
pub claim_once :
    (before between : List ProtocolAction) (p q : Principal)
    → let s = run initial before in
      let t = apply s (claim p) in t.1 ≡ ok tt → (apply (run t.0 between) (claim q)).1 ≢ ok tt
claim_once before between p q h k =
    let s = run initial before in
    let t = (apply s (claim p)).0 in
    let r = apply-IsReached s (claim p) (reached before) in
    let (_, _, _, e) = claim_accepted s t p (accepted s (claim p) h) in
    let gone =
      run_keeps (λ u. u.pairing_available ≡ false)
        (λ u w a ru step.
          Step-unavailable (transition-Simulates u w a ru.bounded (Reach-IsSafe ru.reached) step).1)
        t between r (ap (λ u. u.pairing_available) e) in
    let (_, available, _, _) =
      claim_accepted (run t between) _ q (accepted (run t between) (claim q) k) in
    cc (gone, available)

-- A complete, cancelled or expired tunnel.
abbrev pub IsClosed : TunnelStatus → Type 0
IsClosed s = (s ≡ complete) ⊎ (s ≡ cancelled) ⊎ (s ≡ expired)

transition-IsLive :
    (s t : ProtocolState) (a : ProtocolAction) → transition s a ≡ ok t → IsLive s.status
transition-IsLive s t (claim p) h = inl (claim_accepted s t p h).0
transition-IsLive s t (mint_event_ticket p i) h = (mint_accepted s t p i h).0
transition-IsLive s t (redeem_event_ticket p i) h = (redeem_accepted s t p i h).0
transition-IsLive s t (declare_file p i) h = ground (arith, declare_accepted s t p i h)
transition-IsLive s t (finish_upload p i) h = ground (arith, upload_accepted s t p i h)
transition-IsLive s t (download_file p i) h = ground (arith, (download_accepted s t p i h).0)
transition-IsLive s t (cancel p) h = (cancel_accepted s t p h).0
transition-IsLive s t expire h = (expire_accepted s t h).0

closed_not-IsLive : (s : TunnelStatus) → IsClosed s → ¬ IsLive s
closed_not-IsLive s c l = ground arith

closed_refuses_one :
    (s : ProtocolState) (a : ProtocolAction)
    → IsClosed s.status
    → (e : TransitionError) × (apply s a ≡ (s, err e))
closed_refuses_one s a c = elim (apply_cases s a) [
  | inl (t, h, e) ↦ absurd (closed_not-IsLive s.status c (transition-IsLive s t a h))
  | inr refused ↦ refused
]

closed_stays :
    (s : ProtocolState) (actions : List ProtocolAction) → IsClosed s.status → run s actions ≡ s
unfolding run
closed_stays s [] c = refl
closed_stays s (a ∷ as') c = let (x, e) = closed_refuses_one s a c in rw e (closed_stays s as' c)

-- A complete, cancelled or expired state, reached or not, refuses every action: whatever actions were
-- tried on it before, the state is still the same, and the next action is answered by an error and
-- leaves it the same again.
pub closed_refuses :
    (s : ProtocolState) (before : List ProtocolAction) (a : ProtocolAction)
    → IsClosed s.status
    → (run s before ≡ s) × ((e : TransitionError) × (apply (run s before) a ≡ (s, err e)))
closed_refuses s before a c =
    let same = closed_stays s before c in (same, rw same (closed_refuses_one s a c))
