-- ===== src/Protocol/State/Refinement.antt =====
-- The executable state machine refines the specification.
use Prim.Native.Nat.{bit_or}
use ftnl_backend_api_rs.Base.{
  ℕ, ◌<◌, true, false, ◌==◌, ==_iff, Bool-cases, ok, ◌≡◌, refl, sym, ap, ◌∙◌, inl, inr, arith,
}
use ftnl_backend_api_rs.Protocol.{TunnelStatus, transferring, complete, Principal}
use ftnl_backend_api_rs.Protocol.Quint
use ftnl_backend_api_rs.Protocol.Quint.{
  Element, Subset, SpecState, Step, Reach, none_of, member, insert, remove, InTransfer, init,
}
use ftnl_backend_api_rs.Protocol.Quint.Safety.{IsSafe, Reach-IsSafe}
use ftnl_backend_api_rs.Protocol.State.{
  ProtocolState, ProtocolAction, claim, mint_event_ticket, redeem_event_ticket, declare_file,
  finish_upload, download_file, cancel, expire, one_shl, transition, initial,
}
use ftnl_backend_api_rs.Protocol.State.Bits.{
  set_of, element, set_of-or, or-lt-four, set_of-and_not, and_not-lt-four, member-set_of,
  set_of-injective, set_of-zero,
}
use ftnl_backend_api_rs.Protocol.State.Steps.{
  claim_accepted, mint_accepted, redeem_accepted, declare_accepted, upload_accepted,
  download_accepted, cancel_accepted, expire_accepted,
}

-- The specification's state that a machine state stands for.
abbrev pub view : ProtocolState → SpecState
view s = record {
  phase = s.status;
  pairing_available = s.pairing_available;
  phone_capability_issued = s.phone_capability_issued;
  issued_tickets = set_of s.issued_tickets;
  active_tickets = set_of s.active_tickets;
  declared_files = set_of s.declared_files;
  available_files = set_of s.available_files;
  downloaded_files = set_of s.downloaded_files;
}

-- The sets lie in the finite domain.
pub record IsBounded (s : ProtocolState) : Type 0 where
  pub issued_bounded : s.issued_tickets < 4
  pub active_bounded : s.active_tickets < 4
  pub declared_bounded : s.declared_files < 4
  pub available_bounded : s.available_files < 4
  pub downloaded_bounded : s.downloaded_files < 4

abbrev Simulates : ProtocolState → ProtocolState → Type 0
Simulates s t = IsBounded t × Step (view s) (view t)

module _ (s t : ProtocolState) (b : IsBounded s) where
  claim-Simulates : (p : Principal) → transition s (claim p) ≡ ok t → Simulates s t
  claim-Simulates p h =
      let (a, c, d, e) = claim_accepted s t p h in rw e (omega arith, Quint.claim a c d refl)

  mint-Simulates :
      (p : Principal) (i : ℕ) → transition s (mint_event_ticket p i) ≡ ok t → Simulates s t
  mint-Simulates p i h =
      let (live, who, lt, fresh, e) = mint_accepted s t p i h in
      let outside = member-set_of s.issued_tickets i b.issued_bounded lt ∙ fresh in
      let grown : view (record s {
        issued_tickets = bit_or s.issued_tickets (one_shl i);
        active_tickets = bit_or s.active_tickets (one_shl i);
      })
          ≡ record (view s) {
            issued_tickets = insert (element i) (set_of s.issued_tickets);
            active_tickets = insert (element i) (set_of s.active_tickets);
          } =
        λ j. record (view s) {
          issued_tickets = set_of-or s.issued_tickets i b.issued_bounded lt j;
          active_tickets = set_of-or s.active_tickets i b.active_bounded lt j;
        } in
      rw e (
        omega (
          arith,
          or-lt-four s.issued_tickets i b.issued_bounded lt,
          or-lt-four s.active_tickets i b.active_bounded lt,
        ),
        elim who [
          | inl _ ↦ Quint.mint_desktop_ticket (element i) live outside grown
          | inr paired ↦ Quint.mint_phone_ticket (element i) paired live outside grown
        ],
      )

  redeem-Simulates :
      (p : Principal) (i : ℕ) → transition s (redeem_event_ticket p i) ≡ ok t → Simulates s t
  redeem-Simulates p i h =
      let (live, lt, active, e) = redeem_accepted s t p i h in
      rw e (
        omega (arith, and_not-lt-four s.active_tickets i b.active_bounded lt),
        Quint.redeem_ticket (element i) live
            (member-set_of s.active_tickets i b.active_bounded lt ∙ active)
            (λ j. record (view s) {
              active_tickets = set_of-and_not s.active_tickets i b.active_bounded lt j;
            }),
      )

  declare-Simulates :
      (p : Principal) (i : ℕ) → transition s (declare_file p i) ≡ ok t → Simulates s t
  declare-Simulates p i h =
      let (live, paired, lt, fresh, e) = declare_accepted s t p i h in
      rw e (
        omega (arith, or-lt-four s.declared_files i b.declared_bounded lt),
        Quint.declare_file (element i) live paired
            (member-set_of s.declared_files i b.declared_bounded lt ∙ fresh)
            (λ j. record (view s) {
              declared_files = set_of-or s.declared_files i b.declared_bounded lt j;
            }),
      )

  upload-Simulates :
      (p : Principal) (i : ℕ) → transition s (finish_upload p i) ≡ ok t → Simulates s t
  upload-Simulates p i h =
      let (live, paired, lt, declared, fresh, e) = upload_accepted s t p i h in
      rw e (
        omega (arith, or-lt-four s.available_files i b.available_bounded lt),
        Quint.finish_upload (element i) live paired
            (member-set_of s.declared_files i b.declared_bounded lt ∙ declared)
            (member-set_of s.available_files i b.available_bounded lt ∙ fresh)
            (λ j. record (view s) {
              phase = transferring;
              available_files = set_of-or s.available_files i b.available_bounded lt j;
            }),
      )

  cancel-Simulates : (p : Principal) → transition s (cancel p) ≡ ok t → Simulates s t
  cancel-Simulates p h =
      let (live, e) = cancel_accepted s t p h in
      rw e (
        omega arith,
        Quint.cancel live (λ j. record (view s) {
          phase = TunnelStatus.cancelled;
          active_tickets = set_of-zero j;
        }),
      )

  expire-Simulates : transition s expire ≡ ok t → Simulates s t
  expire-Simulates h =
      let (live, e) = expire_accepted s t h in
      rw e (
        omega arith,
        Quint.expire live
            (λ j. record (view s) { phase = TunnelStatus.expired; active_tickets = set_of-zero j }),
      )

  -- A file is available only after an upload has ended, so the tunnel is transferring.
  pub download-transferring :
      (e : Element)
      → IsSafe (view s)
      → InTransfer s.status
      → member e (set_of s.available_files) ≡ true
      → s.status ≡ transferring
  download-transferring e safe (inr x) m = x
  download-transferring e safe (inl x) m =
      cc (empty e (ap (member e) (sym (safe.available_is_transferring (inr x)))), m)
    where
      empty :
          (e : Element)
          → member e none_of ≡ member e (set_of s.available_files)
          → member e (set_of s.available_files) ≡ false
      empty Element.one q = sym q
      empty Element.two q = sym q

  download-Simulates :
      (p : Principal) (i : ℕ)
      → IsSafe (view s)
      → transition s (download_file p i) ≡ ok t
      → Simulates s t
  download-Simulates p i safe h =
      let (live, lt, available, fresh, e) = download_accepted s t p i h in
      let in_set = member-set_of s.available_files i b.available_bounded lt ∙ available in
      let outside = member-set_of s.downloaded_files i b.downloaded_bounded lt ∙ fresh in
      let below = or-lt-four s.downloaded_files i b.downloaded_bounded lt in
      let grown = set_of-or s.downloaded_files i b.downloaded_bounded lt in
      elim (Bool-cases (bit_or s.downloaded_files (one_shl i) == s.declared_files)) [
        | inl last ↦
            let same = (==_iff _ s.declared_files).0 last in
            rw (e, last)
              (
                omega (arith, below),
                Quint.download_last (element i) live in_set outside (sym grown ∙ ap set_of same)
                    (λ j. record (view s) {
                      phase = complete;
                      downloaded_files = grown j;
                      active_tickets = set_of-zero j;
                    }),
              )
        | inr more ↦
            let moving = download-transferring (element i) safe live in_set in
            rw (e, more)
              (
                omega (arith, below),
                Quint.download_partial (element i) live in_set outside
                    (λ same. cc (
                      more,
                      (==_iff _ s.declared_files).1 (
                          set_of-injective _ s.declared_files below b.declared_bounded
                            (grown ∙ same)),
                    ))
                    (λ j. record (view s) { phase = moving j; downloaded_files = grown j }),
              )
      ]

-- Every accepted action is a step of the specification, from a safe state with bounded sets.
pub transition-Simulates :
    (s t : ProtocolState) (a : ProtocolAction)
    → IsBounded s
    → IsSafe (view s)
    → transition s a ≡ ok t
    → IsBounded t × Step (view s) (view t)
transition-Simulates s t (claim p) b safe h = claim-Simulates s t b p h
transition-Simulates s t (mint_event_ticket p i) b safe h = mint-Simulates s t b p i h
transition-Simulates s t (redeem_event_ticket p i) b safe h = redeem-Simulates s t b p i h
transition-Simulates s t (declare_file p i) b safe h = declare-Simulates s t b p i h
transition-Simulates s t (finish_upload p i) b safe h = upload-Simulates s t b p i h
transition-Simulates s t (download_file p i) b safe h = download-Simulates s t b p i safe h
transition-Simulates s t (cancel p) b safe h = cancel-Simulates s t b p h
transition-Simulates s t expire b safe h = expire-Simulates s t b h

pub view-initial : view initial ≡ init
unfolding initial init set_of
view-initial = refl

-- A machine state that the specification reaches.
pub record IsReached (s : ProtocolState) : Type 0 where
  pub bounded : IsBounded s
  pub reached : Reach (view s)

pub initial-IsReached : IsReached initial
unfolding initial
initial-IsReached = record {
  bounded = omega arith;
  reached = Reach.start (view initial) view-initial;
}

pub transition-IsReached :
    (s t : ProtocolState) (a : ProtocolAction) → IsReached s → transition s a ≡ ok t → IsReached t
transition-IsReached s t a r h =
    let (b, st) = transition-Simulates s t a r.bounded (Reach-IsSafe r.reached) h in
    record { bounded = b; reached = Reach.next r.reached st }
