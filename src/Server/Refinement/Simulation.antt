-- ===== src/Server/Refinement/Simulation.antt =====
-- Each accepted call of a tunnel is a step of the specification, its files and tickets included.
use mathlib.Core.Path.{subst}
use ftnl_backend_api_rs.Base.{
  ℕ, Bool, true, false, not, ◌||◌, List, Option, none, ◌≡◌, ◌≢◌, refl, sym, ap, ◌∙◌, Result, ok,
  err, inl, inr, arith, Bool-cases, ==_iff, get, holds,
}
use ftnl_backend_api_rs.Text.{Str}
use ftnl_backend_api_rs.Text.Laws.{str_eq_iff}
use ftnl_backend_api_rs.Protocol.{TunnelStatus, waiting, connected, cancelled}
use ftnl_backend_api_rs.Protocol.Quint.{InTransfer, IsLive}
use ftnl_backend_api_rs.Protocol.Unbounded
use ftnl_backend_api_rs.Protocol.Unbounded.{Step, insert, none_of}
use ftnl_backend_api_rs.Resumable.Upload.{new}
use ftnl_backend_api_rs.Server.{
  Platform, Digest, FileDescriptor, StoredFile, Tunnel, ApiError, publish, same_id, same_digest,
}
use ftnl_backend_api_rs.Server.Access.{token, token_hash}
use ftnl_backend_api_rs.Server.Handlers.{
  DeclareFileRequest, EventTicketResponse, Reading, claim_tunnel, cancel_tunnel, declare_file,
  declared_file, create_event_ticket, live_ticket, redeem,
}
use ftnl_backend_api_rs.Server.Accepted.{
  claim_accepted, cancel_accepted, declare_accepted, ticket_accepted, ticket_found,
}
use ftnl_backend_api_rs.Server.Invariant.{PhaseAgrees, is_some}
use ftnl_backend_api_rs.Server.Invariant.Calls.{IsSound-phone}
use ftnl_backend_api_rs.Server.Refinement.Abstract.{
  Spec, Abstracts, FilesAgree, IsCareful, exists, is_available, was_downloaded,
}
use ftnl_backend_api_rs.Server.Refinement.Sets.{put-insert, put-stays, delete-remove}

-- The specification takes one step, to a state that the new tunnel stands for.
abbrev pub Simulates : Spec → Tunnel → (Digest → Bool) → Type 0
Simulates s t' issued' = (s' : Spec) × Step same_id same_digest s s' × Abstracts t' issued' s'

pub keeps_files :
    (files : List (ℕ × StoredFile)) (s s' : Spec)
    → s'.declared_files ≡ s.declared_files
    → s'.available_files ≡ s.available_files
    → s'.downloaded_files ≡ s.downloaded_files
    → FilesAgree files s
    → FilesAgree files s'
keeps_files files s s' d a w f = record {
  declared_marks = λ k. ap (λ set. set k) d ∙ f.declared_marks k;
  available_marks = λ k. ap (λ set. set k) a ∙ f.available_marks k;
  downloaded_marks = λ k. ap (λ set. set k) w ∙ f.downloaded_marks k;
}

pub InTransfer-not_cancelled : (p : TunnelStatus) → InTransfer p → p ≡ cancelled → ⊥
InTransfer-not_cancelled p h e = ground (arith, h)

IsLive-not_cancelled : (p : TunnelStatus) → IsLive p → p ≡ cancelled → ⊥
IsLive-not_cancelled p h e = ground (arith, h)

insert_mono :
    (d : Digest) (set other : Digest → Bool)
    → ((x : Digest) → set x ≡ true → other x ≡ true)
    → (x : Digest) → insert same_digest d set x ≡ true
    → insert same_digest d other x ≡ true
insert_mono d set other h x e = either (same_digest d x) e
  where
    either : (b : Bool) → (b || set x) ≡ true → (b || other x) ≡ true
    either true e = refl
    either false e = h x e

pub not_issued :
    (set other : Digest → Bool) (d : Digest)
    → (set d ≡ true → other d ≡ true)
    → other d ≡ false
    → set d ≡ false
not_issued set other d h e = elim (Bool-cases (set d)) [ inl y ↦ cc (h y, e) | inr n ↦ n ]

-- A declared file with bytes is not complete.
empty-incomplete :
    (request : DeclareFileRequest) (at : Reading)
    → request.size_bytes ≢ 0
    → is_available (declared_file request at.first at.now) ≡ false
unfolding new
empty-incomplete request at bytes = ground (arith, bytes)

module _ (t : Tunnel) (issued : Digest → Bool) (s : Spec) (k : IsCareful t)
    (a : Abstracts t issued s) where
  pub rests : Simulates s t issued
  rests = (s, Unbounded.idle refl, a)

  pub IsLive-phase : IsLive t.status → IsLive s.phase
  IsLive-phase h = elim a.phases [ inl e ↦ rw e h | inr (_, c) ↦ inr (inl c) ]

  pub transfer_phase : InTransfer t.status → InTransfer s.phase
  transfer_phase h = elim a.phases [ inl e ↦ rw e h | inr (_, c) ↦ inl c ]

  pub transfer_files : InTransfer t.status → FilesAgree t.files s
  transfer_files h = elim a.files [
    | inl c ↦ absurd (InTransfer-not_cancelled t.status h c)
    | inr f ↦ f
  ]

  pub paired : InTransfer t.status → s.phone_capability_issued ≡ true
  paired h = a.phone ∙ IsSound-phone t k.sound h

  -- More tickets may have been drawn than were minted.
  pub more_issued :
      (other : Digest → Bool)
      → ((d : Digest) → issued d ≡ true → other d ≡ true)
      → Abstracts t other s
  more_issued other h = record {
    phases = a.phases;
    pairing = a.pairing;
    phone = a.phone;
    active = a.active;
    were_issued = λ d e. h d (a.were_issued d e);
    files = a.files;
  }

  waiting_phase : t.status ≡ waiting → s.phase ≡ waiting
  waiting_phase h = elim a.phases [ inl e ↦ e ∙ h | inr (c, _) ↦ absurd (ground (arith, c, h)) ]

  module _ (platform : Platform) where
    pub claim-Simulates :
        (secret : Str) (at : Reading) (r : Tunnel × Str)
        → claim_tunnel platform t secret at ≡ ok r
        → Simulates s r.0 issued
    unfolding publish
    claim-Simulates secret at r h =
        let (waits, _, _, e) = claim_accepted platform t secret at {r = r} h in
        let (unpaired, _) =
          subst (λ x. PhaseAgrees x (is_some t.phone_hash) t.files t.event_tickets) waits
            k.sound.phase in
        rw e (
          record s { phase = connected; pairing_available = false; phone_capability_issued = true },
          Unbounded.claim (waiting_phase waits) (a.pairing ∙ k.sound.exchange ∙ ap not unpaired)
              (a.phone ∙ unpaired) refl,
          record {
            phases = inl refl;
            pairing = refl;
            phone = refl;
            active = a.active;
            were_issued = a.were_issued;
            files = elim a.files [
              | inl c ↦ absurd (IsLive-not_cancelled t.status (inl waits) c)
              | inr f ↦ inr (keeps_files t.files s _ refl refl refl f)
            ];
          },
        )

    pub cancel-Simulates :
        (authorization : Option (List ℕ)) (at : Reading) (r : Tunnel × Unit {0})
        → cancel_tunnel platform t authorization at ≡ ok r
        → Simulates s r.0 issued
    unfolding publish get
    cancel-Simulates authorization at r h =
        let (live, _, e) = cancel_accepted platform t authorization at {r = r} h in
        rw e (
          record s { phase = cancelled; active_tickets = none_of },
          Unbounded.cancel (IsLive-phase live) refl,
          record {
            phases = inl refl;
            pairing = a.pairing;
            phone = a.phone;
            active = λ d. refl;
            were_issued = a.were_issued;
            files = inl refl;
          },
        )

    pub declare-Simulates :
        (authorization : Option (List ℕ)) (request : DeclareFileRequest) (at : Reading)
        (r : Tunnel × FileDescriptor)
        → get same_id at.first t.files ≡ none
        → request.size_bytes ≢ 0
        → declare_file platform t authorization request at ≡ ok r
        → Simulates s r.0 issued
    unfolding publish
    declare-Simulates authorization request at r unused bytes h =
        let (live, _, _, e) = declare_accepted platform t authorization request at {r = r} h in
        let f = transfer_files live in
        let file = declared_file request at.first at.now in
        rw e (
          record s { declared_files = insert same_id at.first s.declared_files },
          Unbounded.declare_file at.first (transfer_phase live) (paired live)
              (f.declared_marks at.first ∙ ap (holds exists) unused) refl,
          record {
            phases = a.phases;
            pairing = a.pairing;
            phone = a.phone;
            active = a.active;
            were_issued = a.were_issued;
            files = inr (record {
              declared_marks =
                  put-insert same_id ==_iff exists t.files _ f.declared_marks at.first file refl;
              available_marks =
                  put-stays same_id ==_iff is_available t.files _ f.available_marks at.first file
                    (ap (holds is_available) unused ∙ sym (empty-incomplete request at bytes));
              downloaded_marks =
                  put-stays same_id ==_iff was_downloaded t.files _ f.downloaded_marks at.first file
                    (ap (holds was_downloaded) unused);
            });
          },
        )

    pub mint-Simulates :
        (authorization : Option (List ℕ)) (at : Reading) (r : Tunnel × EventTicketResponse)
        → let d = token_hash platform (token platform at.first at.second) in
          issued d ≡ false
          → create_event_ticket platform t authorization at ≡ ok r
          → Simulates s r.0 (insert same_digest d issued)
    mint-Simulates authorization at r unused h =
        let d = token_hash platform (token platform at.first at.second) in
        let (live, _, e) = ticket_accepted platform t authorization at {r = r} h in
        rw e (
          record s {
            issued_tickets = insert same_digest d s.issued_tickets;
            active_tickets = insert same_digest d s.active_tickets;
          },
          Unbounded.mint_desktop_ticket d (IsLive-phase live)
              (not_issued s.issued_tickets issued d (a.were_issued d) unused) refl,
          record {
            phases = a.phases;
            pairing = a.pairing;
            phone = a.phone;
            active =
                put-insert same_digest str_eq_iff (λ expiry. true) t.event_tickets s.active_tickets
                  a.active d _ refl;
            were_issued = insert_mono d s.issued_tickets issued a.were_issued;
            files = elim a.files [
              | inl c ↦ absurd (IsLive-not_cancelled t.status live c)
              | inr f ↦ inr (keeps_files t.files s _ refl refl refl f)
            ];
          },
        )

    pub redeem-Simulates :
        (ticket : Str) (now : ℕ) (found : Result (Digest × ℕ) ApiError)
        → live_ticket platform t ticket now ≡ found
        → Simulates s (redeem t now found).0 issued
    redeem-Simulates ticket now (err e) h = rests
    redeem-Simulates ticket now (ok (d, expiry)) h =
        let (live, _, found) = ticket_found platform t ticket now {found = (d, expiry)} h in
        (
          record s { active_tickets = Unbounded.remove same_digest d s.active_tickets },
          Unbounded.redeem_ticket d (IsLive-phase live)
              (a.active d ∙ ap (holds (λ expiry. true)) found) refl,
          record {
            phases = a.phases;
            pairing = a.pairing;
            phone = a.phone;
            active =
                delete-remove same_digest str_eq_iff (λ expiry. true) t.event_tickets
                  s.active_tickets a.active d k.sound.tickets_distinct;
            were_issued = a.were_issued;
            files = elim a.files [
              | inl c ↦ inl c
              | inr f ↦ inr (keeps_files t.files s _ refl refl refl f)
            ];
          },
        )
