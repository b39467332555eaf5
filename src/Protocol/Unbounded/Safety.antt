-- ===== src/Protocol/Unbounded/Safety.antt =====
-- `protocol_safety` of formal/file_tunnel_protocol.qnt with any number of files and tickets.
use mathlib.Core.Path.{subst}
use ftnl_backend_api_rs.Base.{
  Bool, true, false, not, ◌≡◌, ◌⊎◌, ◌↔◌, refl, inl, inr, arith, Bool-cases,
}
use ftnl_backend_api_rs.Protocol.{
  TunnelStatus, waiting, connected, transferring, complete, cancelled, expired,
}
use ftnl_backend_api_rs.Protocol.Quint.{InTransfer, IsLive}
use ftnl_backend_api_rs.Protocol.Unbounded.{
  SpecState, init, Step, Reach, insert, remove, none_of, IsEqualSet, claim, mint_desktop_ticket,
  mint_phone_ticket, redeem_ticket, declare_file, finish_upload, download_partial, download_last,
  cancel, expire, idle, start, next,
}

-- `s.subseteq(t)`
abbrev pub IsSubset : {A : Type 0} → (A → Bool) → (A → Bool) → Type 0
IsSubset set other = (x : _) → set x ≡ true → other x ≡ true

-- `closed implies s.activeTickets == Set()`, and so on.
abbrev pub PhaseIsConsistent :
    {F T : Type 0} → TunnelStatus → Bool → (F → Bool) → (F → Bool) → (T → Bool) → Type 0
PhaseIsConsistent waiting phone declared downloaded active = phone ≡ false
PhaseIsConsistent connected phone declared downloaded active = phone ≡ true
PhaseIsConsistent transferring phone declared downloaded active = phone ≡ true
PhaseIsConsistent complete phone declared downloaded active =
    (phone ≡ true)
    × ((file : _) × (declared file ≡ true))
    × IsEqualSet downloaded declared
    × IsEqualSet active none_of
PhaseIsConsistent cancelled phone declared downloaded active = IsEqualSet active none_of
PhaseIsConsistent expired phone declared downloaded active = IsEqualSet active none_of

pub record IsSafe {F T : Type 0} (s : SpecState F T) : Type 0 where
  pub exchange_is_atomic : s.pairing_available ≡ not s.phone_capability_issued
  pub active_were_issued : IsSubset s.active_tickets s.issued_tickets
  pub available_were_declared : IsSubset s.available_files s.declared_files
  pub downloaded_were_available : IsSubset s.downloaded_files s.available_files
  pub phase_is_consistent :
      PhaseIsConsistent s.phase s.phone_capability_issued s.declared_files s.downloaded_files
        s.active_tickets

module _ {A : Type 0} (same : A → A → Bool)
    (same_iff : (a b : A) → (same a b ≡ true) ↔ (a ≡ b)) where
  inserted : (e x : A) (set : A → Bool) → insert same e set x ≡ true → (e ≡ x) ⊎ (set x ≡ true)
  inserted e x set h = elim (Bool-cases (same e x)) [
    | inl y ↦ inl ((same_iff e x).0 y)
    | inr n ↦ inr (ground (arith, n))
  ]

  insert-IsSubset : (e : A) (set : A → Bool) → IsSubset set (insert same e set)
  insert-IsSubset e set x h = ground (arith, h)

  insert_self : (e : A) (set : A → Bool) → insert same e set e ≡ true
  insert_self e set = ground (arith, (same_iff e e).1 refl)

  -- An element of the larger set joins the smaller one.
  insert_below :
      (e : A) (set other : A → Bool)
      → other e ≡ true
      → IsSubset set other
      → IsSubset (insert same e set) other
  insert_below e set other there h x m = elim (inserted e x set m) [
    | inl y ↦ subst (λ z. other z ≡ true) y there
    | inr n ↦ h x n
  ]

  insert_both :
      (e : A) (set other : A → Bool)
      → IsSubset set other
      → IsSubset (insert same e set) (insert same e other)
  insert_both e set other h =
      insert_below e set (insert same e other) (insert_self e other)
        (λ x m. insert-IsSubset e other x (h x m))

  remove-IsSubset : (e : A) (set : A → Bool) → IsSubset (remove same e set) set
  remove-IsSubset e set x h = ground (arith, h)

module _ {F T : Type 0} where
  live-phone :
      (phase : TunnelStatus) (phone : Bool) (d w : F → Bool) (a : T → Bool)
      → InTransfer phase
      → PhaseIsConsistent phase phone d w a
      → phone ≡ true
  live-phone connected phone d w a h c = c
  live-phone transferring phone d w a h c = c
  live-phone waiting phone d w a h c = absurd (ground (arith, h))
  live-phone complete phone d w a h c = c.0
  live-phone cancelled phone d w a h c = absurd (ground (arith, h))
  live-phone expired phone d w a h c = absurd (ground (arith, h))

  -- A live phase says nothing of the sets.
  live-PhaseIsConsistent :
      (phase : TunnelStatus) (phone : Bool) (d w d' w' : F → Bool) (a a' : T → Bool)
      → IsLive phase
      → PhaseIsConsistent phase phone d w a
      → PhaseIsConsistent phase phone d' w' a'
  live-PhaseIsConsistent waiting phone d w d' w' a a' h c = c
  live-PhaseIsConsistent connected phone d w d' w' a a' h c = c
  live-PhaseIsConsistent transferring phone d w d' w' a a' h c = c
  live-PhaseIsConsistent complete phone d w d' w' a a' h c = absurd (ground (arith, h))
  live-PhaseIsConsistent cancelled phone d w d' w' a a' h c = absurd (ground (arith, h))
  live-PhaseIsConsistent expired phone d w d' w' a a' h c = absurd (ground (arith, h))

module _ {F T : Type 0} (same_file : F → F → Bool)
    (file_iff : (a b : F) → (same_file a b ≡ true) ↔ (a ≡ b)) (same_ticket : T → T → Bool)
    (ticket_iff : (a b : T) → (same_ticket a b ≡ true) ↔ (a ≡ b)) where
  init-IsSafe : IsSafe (init same_file same_ticket)
  unfolding init
  init-IsSafe = record {
    exchange_is_atomic = refl;
    active_were_issued = λ x h. h;
    available_were_declared = λ x h. h;
    downloaded_were_available = λ x h. h;
    phase_is_consistent = refl;
  }

  mint-IsSafe :
      (s : SpecState F T) (ticket : T)
      → IsLive s.phase
      → IsSafe s
      → IsSafe (record s {
        issued_tickets = insert same_ticket ticket s.issued_tickets;
        active_tickets = insert same_ticket ticket s.active_tickets;
      })
  mint-IsSafe s ticket live h = record {
    exchange_is_atomic = h.exchange_is_atomic;
    active_were_issued =
        insert_both same_ticket ticket_iff ticket s.active_tickets s.issued_tickets
          h.active_were_issued;
    available_were_declared = h.available_were_declared;
    downloaded_were_available = h.downloaded_were_available;
    phase_is_consistent = live-PhaseIsConsistent s.phase _ _ _ _ _ _ _ live h.phase_is_consistent;
  }

  close-IsSafe :
      (s : SpecState F T) (phase : TunnelStatus)
      → (phase ≡ cancelled) ⊎ (phase ≡ expired)
      → IsSafe s
      → IsSafe (record s { phase = phase; active_tickets = none_of })
  close-IsSafe s phase closed h = record {
    exchange_is_atomic = h.exchange_is_atomic;
    active_were_issued = λ x e. absurd (ground (arith, e));
    available_were_declared = h.available_were_declared;
    downloaded_were_available = h.downloaded_were_available;
    phase_is_consistent = elim closed [ inl e ↦ rw e (λ x. refl) | inr e ↦ rw e (λ x. refl) ];
  }

  Step-IsSafe : {s t : SpecState F T} → Step same_file same_ticket s t → IsSafe s → IsSafe t
  Step-IsSafe {s = s} (claim p a i e) h = rw e (record {
    exchange_is_atomic = refl;
    active_were_issued = h.active_were_issued;
    available_were_declared = h.available_were_declared;
    downloaded_were_available = h.downloaded_were_available;
    phase_is_consistent = refl;
  })
  Step-IsSafe {s = s} (mint_desktop_ticket ticket live m e) h = rw e (mint-IsSafe s ticket live h)
  Step-IsSafe {s = s} (mint_phone_ticket ticket i live m e) h = rw e (mint-IsSafe s ticket live h)
  Step-IsSafe {s = s} (redeem_ticket ticket live m e) h = rw e (record {
    exchange_is_atomic = h.exchange_is_atomic;
    active_were_issued = λ x a.
        h.active_were_issued x (remove-IsSubset same_ticket ticket_iff ticket s.active_tickets x a);
    available_were_declared = h.available_were_declared;
    downloaded_were_available = h.downloaded_were_available;
    phase_is_consistent = live-PhaseIsConsistent s.phase _ _ _ _ _ _ _ live h.phase_is_consistent;
  })
  Step-IsSafe {s = s} (declare_file file live i m e) h = rw e (record {
    exchange_is_atomic = h.exchange_is_atomic;
    active_were_issued = h.active_were_issued;
    available_were_declared = λ x a.
        insert-IsSubset same_file file_iff file s.declared_files x (h.available_were_declared x a);
    downloaded_were_available = h.downloaded_were_available;
    phase_is_consistent =
        live-PhaseIsConsistent s.phase _ _ _ _ _ _ _ (inr live) h.phase_is_consistent;
  })
  Step-IsSafe {s = s} (finish_upload file live i d m e) h = rw e (record {
    exchange_is_atomic = h.exchange_is_atomic;
    active_were_issued = h.active_were_issued;
    available_were_declared =
        insert_below same_file file_iff file s.available_files s.declared_files d
          h.available_were_declared;
    downloaded_were_available = λ x w.
        insert-IsSubset same_file file_iff file s.available_files x
          (h.downloaded_were_available x w);
    phase_is_consistent = i;
  })
  Step-IsSafe {s = s} (download_partial file live a m more e) h = rw e (record {
    exchange_is_atomic = h.exchange_is_atomic;
    active_were_issued = h.active_were_issued;
    available_were_declared = h.available_were_declared;
    downloaded_were_available =
        insert_below same_file file_iff file s.downloaded_files s.available_files a
          h.downloaded_were_available;
    phase_is_consistent = live-phone s.phase _ _ _ _ live h.phase_is_consistent;
  })
  Step-IsSafe {s = s} (download_last file live a m last e) h = rw e (record {
    exchange_is_atomic = h.exchange_is_atomic;
    active_were_issued = λ x y. absurd (ground (arith, y));
    available_were_declared = h.available_were_declared;
    downloaded_were_available =
        insert_below same_file file_iff file s.downloaded_files s.available_files a
          h.downloaded_were_available;
    phase_is_consistent = (
      live-phone s.phase _ _ _ _ live h.phase_is_consistent,
      (file, h.available_were_declared file a),
      last,
      λ x. refl,
    );
  })
  Step-IsSafe {s = s} (cancel live e) h = rw e (close-IsSafe s cancelled (inl refl) h)
  Step-IsSafe {s = s} (expire live e) h = rw e (close-IsSafe s expired (inr refl) h)
  Step-IsSafe (idle e) h = rw e h

  -- `protocol_safety` holds of every state that the specification reaches, however many files and
  -- tickets there are: the exchange is atomic, active tickets were issued, files are declared, then
  -- available, then downloaded, and each phase is consistent with them.
  pub reached-IsSafe : {s : SpecState F T} → Reach same_file same_ticket s → IsSafe s
  reached-IsSafe start = init-IsSafe
  reached-IsSafe (next r st) = Step-IsSafe st (reached-IsSafe r)
