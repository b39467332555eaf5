-- ===== src/Protocol/State/Termination.antt =====
-- How many actions the machine of src/protocol.rs can accept.
use Prim.Native.Nat.{◌+◌, ◌≤◌, bit_and, bit_or}
use ftnl_backend_api_rs.Base.{
  ℕ, suc, ◌-◌, ◌<◌, true, false, Bool-cases, ==_iff, List, [], ◌∷◌, Result, ok, err, ◌≡◌, ◌≢◌, refl,
  sym, ap, ◌∙◌, inl, inr, arith, ◌==◌,
}
use ftnl_backend_api_rs.Protocol.{
  TunnelStatus, waiting, connected, transferring, complete, cancelled, expired, Principal,
  pairing_secret, desktop, phone, event_ticket, permits,
}
use ftnl_backend_api_rs.Protocol.Quint.{InTransfer, IsLive}
use ftnl_backend_api_rs.Protocol.Quint.Safety.{Reach-IsSafe}
use ftnl_backend_api_rs.Protocol.State.{
  ProtocolState, ProtocolAction, TransitionError, claim, mint_event_ticket, redeem_event_ticket,
  declare_file, finish_upload, download_file, cancel, expire, one_shl, bit_not, has_bit, transition,
  apply, initial, authorize, domain_bit,
}
use ftnl_backend_api_rs.Protocol.State.Bits.{
  set_index, below_four, or-lt-four, set_of, set_of-injective,
}
use ftnl_backend_api_rs.Protocol.State.Steps.{
  claim_accepted, mint_accepted, redeem_accepted, declare_accepted, upload_accepted,
  download_accepted, cancel_accepted, expire_accepted,
}
use ftnl_backend_api_rs.Protocol.State.Refinement.{
  IsReached, initial-IsReached, transition-IsReached,
}
use ftnl_backend_api_rs.Protocol.State.Traces.{apply_cases}

-- How many elements a set of two has.
unfoldable size : ℕ → ℕ
unfolding has_bit
size x =
    (elim (has_bit x 1) [ true ↦ 1 | false ↦ 0 ]) + (elim (has_bit x 2) [ true ↦ 1 | false ↦ 0 ])

size_le : (x : ℕ) → x < 4 → size x ≤ 2
unfolding size
size_le = below_four (λ x. size x ≤ 2) (omega arith) (omega arith) (omega arith) (omega arith)

size-or :
    (x i : ℕ)
    → x < 4
    → i < 2
    → has_bit x (one_shl i) ≡ false
    → size (bit_or x (one_shl i)) ≡ size x + 1
unfolding size has_bit
size-or =
    set_index (λ x i. has_bit x (one_shl i) ≡ false → size (bit_or x (one_shl i)) ≡ size x + 1)
      (λ h. refl) (λ h. refl) (λ h. cc) (λ h. refl) (λ h. refl) (λ h. cc) (λ h. cc) (λ h. cc)

size-or_le : (x i : ℕ) → x < 4 → i < 2 → size (bit_or x (one_shl i)) ≤ size x + 1
unfolding size has_bit
size-or_le =
    set_index (λ x i. size (bit_or x (one_shl i)) ≤ size x + 1) (omega arith) (omega arith)
      (omega arith) (omega arith) (omega arith) (omega arith) (omega arith) (omega arith)

size-and_not :
    (x i : ℕ)
    → x < 4
    → i < 2
    → has_bit x (one_shl i) ≡ true
    → size (bit_and x (bit_not (one_shl i))) + 1 ≡ size x
unfolding size has_bit
size-and_not =
    set_index
      (λ x i. has_bit x (one_shl i) ≡ true → size (bit_and x (bit_not (one_shl i))) + 1 ≡ size x)
      (λ h. cc) (λ h. cc) (λ h. refl) (λ h. cc) (λ h. cc) (λ h. refl) (λ h. refl) (λ h. refl)

size_lt : (x : ℕ) → x < 4 → x ≢ 3 → size x < 2
unfolding size
size_lt =
    below_four (λ x. x ≢ 3 → size x < 2) (λ h. omega arith) (λ h. omega arith) (λ h. omega arith)
      (λ h. absurd (h refl))

all_declared : (t : ProtocolState) → IsReached t → t.downloaded_files ≡ 3 → t.declared_files ≡ 3
unfolding set_of has_bit
all_declared t r full =
    let safe = Reach-IsSafe r.reached in
    let b = r.bounded in
    let down = safe.downloaded_were_available in
    let up = safe.available_were_declared in
    set_of-injective t.declared_files 3 b.declared_bounded (omega arith) (λ j. record {
      has_one = up.one_in (down.one_in (rw full refl)) j;
      has_two = up.two_in (down.two_in (rw full refl)) j;
    })

-- The downloads that are left, and the claim; a closed tunnel has none.
abbrev closing : TunnelStatus → ℕ → ℕ
closing waiting downloads = 3 - downloads
closing connected downloads = 2 - downloads
closing transferring downloads = 2 - downloads
closing complete downloads = 0
closing cancelled downloads = 0
closing expired downloads = 0

transfer-closing : (phase : TunnelStatus) → InTransfer phase → (d : ℕ) → closing phase d ≡ 2 - d
transfer-closing phase (inl e) d = rw e refl
transfer-closing phase (inr e) d = rw e refl

closing-live : (phase : TunnelStatus) → IsLive phase → (d : ℕ) → d < 2 → 0 < closing phase d
closing-live phase (inl e) d lt = rw e (omega arith)
closing-live phase (inr (inl e)) d lt = rw e (omega arith)
closing-live phase (inr (inr e)) d lt = rw e (omega arith)

size_zero : size 0 ≡ 0
unfolding size has_bit
size_zero = refl

-- A bound on the actions that are still accepted.
unfoldable budget : ProtocolState → ℕ
budget s =
    size s.active_tickets
    + (2 - size s.issued_tickets)
    + (2 - size s.issued_tickets)
    + (2 - size s.declared_files)
    + (2 - size s.available_files)
    + closing s.status (size s.downloaded_files)

-- In a live tunnel a download is missing.
abbrev IsPending : ProtocolState → Type 0
IsPending s = IsLive s.status → s.downloaded_files ≢ 3

record Progresses (s t : ProtocolState) : Type 0 where
  spends : budget t < budget s
  stays_pending : IsPending t

module _ (s t : ProtocolState) (r : IsReached s) (p : IsPending s) where
  claim-Progresses : (q : Principal) → transition s (claim q) ≡ ok t → Progresses s t
  unfolding budget
  claim-Progresses q h =
      let (a, _, _, e) = claim_accepted s t q h in
      let missing = p (inl a) in
      let lt = size_lt s.downloaded_files r.bounded.downloaded_bounded missing in
      rw e (record { spends = rw a (omega (arith, lt)); stays_pending = λ _. missing })

  mint-Progresses :
      (q : Principal) (i : ℕ) → transition s (mint_event_ticket q i) ≡ ok t → Progresses s t
  unfolding budget
  mint-Progresses q i h =
      let (_, _, lt, fresh, e) = mint_accepted s t q i h in
      rw e (record {
        spends = omega (
          arith,
          size-or s.issued_tickets i r.bounded.issued_bounded lt fresh,
          size-or_le s.active_tickets i r.bounded.active_bounded lt,
          size_le _ (or-lt-four s.issued_tickets i r.bounded.issued_bounded lt),
        );
        stays_pending = p;
      })

  redeem-Progresses :
      (q : Principal) (i : ℕ) → transition s (redeem_event_ticket q i) ≡ ok t → Progresses s t
  unfolding budget
  redeem-Progresses q i h =
      let (_, lt, active, e) = redeem_accepted s t q i h in
      rw e (record {
        spends = omega (arith, size-and_not s.active_tickets i r.bounded.active_bounded lt active);
        stays_pending = p;
      })

  declare-Progresses :
      (q : Principal) (i : ℕ) → transition s (declare_file q i) ≡ ok t → Progresses s t
  unfolding budget
  declare-Progresses q i h =
      let (_, _, lt, fresh, e) = declare_accepted s t q i h in
      rw e (record {
        spends = omega (
          arith,
          size-or s.declared_files i r.bounded.declared_bounded lt fresh,
          size_le _ (or-lt-four s.declared_files i r.bounded.declared_bounded lt),
        );
        stays_pending = p;
      })

  upload-Progresses :
      (q : Principal) (i : ℕ) → transition s (finish_upload q i) ≡ ok t → Progresses s t
  unfolding budget
  upload-Progresses q i h =
      let (live, _, lt, _, fresh, e) = upload_accepted s t q i h in
      rw e (record {
        spends = omega (
          arith,
          size-or s.available_files i r.bounded.available_bounded lt fresh,
          size_le _ (or-lt-four s.available_files i r.bounded.available_bounded lt),
          transfer-closing s.status live (size s.downloaded_files),
        );
        stays_pending = λ _. p (inr live);
      })

  close-Progresses :
      (phase : TunnelStatus)
      → IsLive s.status
      → t ≡ record s { status = phase; active_tickets = 0 }
      → ¬ IsLive phase
      → ((d : ℕ) → closing phase d ≡ 0)
      → Progresses s t
  unfolding budget
  close-Progresses phase live e closed none_left = rw e (record {
    spends = omega (
      arith,
      size_zero,
      none_left (size s.downloaded_files),
      closing-live s.status live (size s.downloaded_files)
          (size_lt s.downloaded_files r.bounded.downloaded_bounded (p live)),
    );
    stays_pending = λ l. absurd (closed l);
  })

  download-Progresses :
      (q : Principal) (i : ℕ) → transition s (download_file q i) ≡ ok t → Progresses s t
  unfolding budget
  download-Progresses q i h =
      let (live, lt, available, fresh, e) = download_accepted s t q i h in
      let before = transfer-closing s.status live (size s.downloaded_files) in
      let missing = size_lt s.downloaded_files r.bounded.downloaded_bounded (p (inr live)) in
      let grown = size-or s.downloaded_files i r.bounded.downloaded_bounded lt fresh in
      elim (Bool-cases (bit_or s.downloaded_files (one_shl i) == s.declared_files)) [
        | inl last ↦
            rw (e, last)
              (record {
                spends = omega (arith, size_zero, before, missing);
                stays_pending = λ l. absurd (ground (arith, l));
              })
        | inr more ↦
            let after = transition-IsReached s t (download_file q i) r h in
            let same : t ≡ record s { downloaded_files = bit_or s.downloaded_files (one_shl i) } =
              e ∙ rw more refl in
            let full_declares : bit_or s.downloaded_files (one_shl i) ≡ 3 → s.declared_files ≡ 3 =
              λ full.
                ap (λ u. u.declared_files) (sym same)
                ∙ all_declared t after (ap (λ u. u.downloaded_files) same ∙ full) in
            let moved =
              transfer-closing s.status live (size (bit_or s.downloaded_files (one_shl i))) in
            rw same (record {
              spends = omega (arith, before, missing, grown, moved);
              stays_pending = λ _ full.
                  cc (more, (==_iff _ s.declared_files).1 (full ∙ sym (full_declares full)));
            })
      ]

  expire-Progresses : transition s expire ≡ ok t → Progresses s t
  expire-Progresses h =
      let (live, e) = expire_accepted s t h in
      close-Progresses expired live e (λ l. ground (arith, l)) (λ d. refl)

  cancel-Progresses : (q : Principal) → transition s (cancel q) ≡ ok t → Progresses s t
  cancel-Progresses q h =
      let (live, e) = cancel_accepted s t q h in
      close-Progresses cancelled live e (λ l. ground (arith, l)) (λ d. refl)

  transition-Progresses : (a : ProtocolAction) → transition s a ≡ ok t → Progresses s t
  transition-Progresses (claim q) h = claim-Progresses q h
  transition-Progresses (mint_event_ticket q i) h = mint-Progresses q i h
  transition-Progresses (redeem_event_ticket q i) h = redeem-Progresses q i h
  transition-Progresses (declare_file q i) h = declare-Progresses q i h
  transition-Progresses (finish_upload q i) h = upload-Progresses q i h
  transition-Progresses (download_file q i) h = download-Progresses q i h
  transition-Progresses (cancel q) h = cancel-Progresses q h
  transition-Progresses expire h = expire-Progresses h

abbrev counted : Result (Unit {0}) TransitionError → ℕ → ℕ
counted (ok _) n = suc n
counted (err _) n = n

-- The actions of a sequence that are accepted.
unfoldable pub accepted : ProtocolState → List ProtocolAction → ℕ
accepted s [] = 0
accepted s (a ∷ as') = counted (apply s a).1 (accepted (apply s a).0 as')

accepted-budget :
    (s : ProtocolState) (actions : List ProtocolAction)
    → IsReached s
    → IsPending s
    → accepted s actions ≤ budget s
unfolding accepted
accepted-budget s [] r p = omega arith
accepted-budget s (a ∷ as') r p = elim (apply_cases s a) [
  | inl (t, h, e) ↦
      let q = transition-Progresses s t r p a h in
      rw (e, accepted)
        (omega
          (arith, q.spends, accepted-budget t as' (transition-IsReached s t a r h) q.stays_pending))
  | inr (x, e) ↦ rw (e, accepted) (accepted-budget s as' r p)
]

budget-initial : budget initial ≡ 11
unfolding budget initial size has_bit
budget-initial = refl

initial-IsPending : IsPending initial
unfolding initial
initial-IsPending l e = ground arith

-- A sequence that is accepted throughout.
abbrev longest : List ProtocolAction
longest =
    claim pairing_secret
    ∷ mint_event_ticket desktop 0
    ∷ mint_event_ticket phone 1
    ∷ redeem_event_ticket event_ticket 0
    ∷ redeem_event_ticket event_ticket 1
    ∷ declare_file phone 0
    ∷ declare_file phone 1
    ∷ finish_upload phone 0
    ∷ finish_upload phone 1
    ∷ download_file desktop 0
    ∷ download_file desktop 1
    ∷ []

longest-accepted : accepted initial longest ≡ 11
unfolding accepted apply transition authorize permits domain_bit has_bit initial
longest-accepted = refl

-- Of any sequence of actions at most eleven are accepted, from the initial state, and some sequence
-- has eleven: the machine comes to rest.
pub accepted_at_most_eleven :
    ((actions : List ProtocolAction) → accepted initial actions ≤ 11)
    × ((actions : List ProtocolAction) × (accepted initial actions ≡ 11))
accepted_at_most_eleven = (
  λ actions.
      omega (
        arith,
        budget-initial,
        accepted-budget initial actions initial-IsReached initial-IsPending,
      ),
  (longest, longest-accepted),
)
