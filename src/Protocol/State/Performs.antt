-- ===== src/Protocol/State/Performs.antt =====
-- Each step of the specification is an action that the executable state machine accepts.
use Prim.Native.Nat.{bit_and, bit_or}
use ftnl_backend_api_rs.Base.{
  ℕ, ◌<◌, Bool, true, false, ◌==◌, ==_iff, Bool-cases, ok, ◌≡◌, ◌≢◌, ◌⊎◌, refl, sym, ap, ◌∙◌, inl,
  inr, arith, if◌then◌else◌,
}
use ftnl_backend_api_rs.Protocol.{
  TunnelStatus, transferring, complete, desktop, phone, pairing_secret, event_ticket,
}
use ftnl_backend_api_rs.Protocol.Quint.{
  Element, one, two, SpecState, Step, none_of, member, insert, remove, InTransfer, IsLive,
}
use ftnl_backend_api_rs.Protocol.Quint.Safety.{Reach-IsSafe}
use ftnl_backend_api_rs.Protocol.State.{
  ProtocolState, ProtocolAction, claim, mint_event_ticket, redeem_event_ticket, declare_file,
  finish_upload, download_file, cancel, expire, one_shl, bit_not, has_bit, transition,
}
use ftnl_backend_api_rs.Protocol.State.Bits.{
  set_of, element, set_of-or, or-lt-four, set_of-and_not, member-set_of, set_of-injective,
  set_of-zero,
}
use ftnl_backend_api_rs.Protocol.State.Accepts.{
  claim_accepts, mint_desktop_accepts, mint_phone_accepts, redeem_accepts, declare_accepts,
  upload_accepts, download_accepts, cancel_accepts, expire_accepts,
}
use ftnl_backend_api_rs.Protocol.State.Refinement.{view, IsReached, download-transferring}

abbrev index : Element → ℕ
index one = 0
index two = 1

index-lt-two : (e : Element) → index e < 2
index-lt-two one = omega arith
index-lt-two two = omega arith

element-index : (e : Element) → element (index e) ≡ e
unfolding element
element-index one = refl
element-index two = refl

-- The machine accepts an action that leads to the given state of the specification.
abbrev pub Performs : ProtocolState → SpecState → Type 0
Performs s q = (a : ProtocolAction) × (t : ProtocolState) × (transition s a ≡ ok t) × (view t ≡ q)

module _ (s : ProtocolState) (r : IsReached s) (e : Element) where
  has-member :
      (x : ℕ) {b : Bool} → x < 4 → member e (set_of x) ≡ b → has_bit x (one_shl (index e)) ≡ b
  has-member x lt m =
      sym (member-set_of x (index e) lt (index-lt-two e))
      ∙ ap (λ y. member y (set_of x)) (element-index e)
      ∙ m

  grown : (x : ℕ) → x < 4 → set_of (bit_or x (one_shl (index e))) ≡ insert e (set_of x)
  grown x lt =
      set_of-or x (index e) lt (index-lt-two e) ∙ ap (λ y. insert y (set_of x)) (element-index e)

  declare-Performs :
      {q : SpecState}
      → InTransfer s.status
      → s.phone_capability_issued ≡ true
      → member e (set_of s.declared_files) ≡ false
      → q ≡ record (view s) { declared_files = insert e (set_of s.declared_files) }
      → Performs s q
  declare-Performs live paired fresh same = (
    declare_file phone (index e),
    record s { declared_files = bit_or s.declared_files (one_shl (index e)) },
    declare_accepts s (index e) (index-lt-two e) live paired
        (has-member s.declared_files r.bounded.declared_bounded fresh),
    (λ i. record (view s) { declared_files = grown s.declared_files r.bounded.declared_bounded i })
        ∙ sym same,
  )

  upload-Performs :
      {q : SpecState}
      → InTransfer s.status
      → s.phone_capability_issued ≡ true
      → member e (set_of s.declared_files) ≡ true
      → member e (set_of s.available_files) ≡ false
      → q ≡ record (view s) {
        phase = transferring;
        available_files = insert e (set_of s.available_files);
      }
      → Performs s q
  upload-Performs live paired declared fresh same = (
    finish_upload phone (index e),
    record s {
      available_files = bit_or s.available_files (one_shl (index e));
      status = transferring;
    },
    upload_accepts s (index e) (index-lt-two e) live paired
        (has-member s.declared_files r.bounded.declared_bounded declared)
        (has-member s.available_files r.bounded.available_bounded fresh),
    (λ i. record (view s) {
      phase = transferring;
      available_files = grown s.available_files r.bounded.available_bounded i;
    })
        ∙ sym same,
  )

  redeem-Performs :
      {q : SpecState}
      → IsLive s.status
      → member e (set_of s.active_tickets) ≡ true
      → q ≡ record (view s) { active_tickets = remove e (set_of s.active_tickets) }
      → Performs s q
  redeem-Performs live active same = (
    redeem_event_ticket event_ticket (index e),
    record s { active_tickets = bit_and s.active_tickets (bit_not (one_shl (index e))) },
    redeem_accepts s (index e) (index-lt-two e) live
        (has-member s.active_tickets r.bounded.active_bounded active),
    (λ i. record (view s) {
      active_tickets =
          (set_of-and_not s.active_tickets (index e) r.bounded.active_bounded (index-lt-two e)
              ∙ ap (λ y. remove y (set_of s.active_tickets)) (element-index e))
            i;
    })
        ∙ sym same,
  )

  abbrev minted : ProtocolState
  minted = record s {
    issued_tickets = bit_or s.issued_tickets (one_shl (index e));
    active_tickets = bit_or s.active_tickets (one_shl (index e));
  }

  view-minted :
      {q : SpecState}
      → q ≡ record (view s) {
        issued_tickets = insert e (set_of s.issued_tickets);
        active_tickets = insert e (set_of s.active_tickets);
      }
      → view minted ≡ q
  view-minted same =
      (λ i. record (view s) {
        issued_tickets = grown s.issued_tickets r.bounded.issued_bounded i;
        active_tickets = grown s.active_tickets r.bounded.active_bounded i;
      })
      ∙ sym same

  module _ (live : InTransfer s.status) (available : member e (set_of s.available_files) ≡ true)
      (fresh : member e (set_of s.downloaded_files) ≡ false) where
    abbrev downloaded : ℕ
    downloaded = bit_or s.downloaded_files (one_shl (index e))

    abbrev after_download : Bool → ProtocolState
    after_download last =
        if last
        then record s { downloaded_files = downloaded; status = complete; active_tickets = 0 }
        else record s { downloaded_files = downloaded }

    accepted_download :
        {last : Bool}
        → (downloaded == s.declared_files) ≡ last
        → transition s (download_file desktop (index e)) ≡ ok (after_download last)
    accepted_download h =
        download_accepts s (index e) (index-lt-two e) live
          (has-member s.available_files r.bounded.available_bounded available)
          (has-member s.downloaded_files r.bounded.downloaded_bounded fresh)
        ∙ ap (λ b. ok (after_download b)) h

    last-Performs :
        {q : SpecState}
        → insert e (set_of s.downloaded_files) ≡ set_of s.declared_files
        → q ≡ record (view s) {
          phase = complete;
          downloaded_files = insert e (set_of s.downloaded_files);
          active_tickets = none_of;
        }
        → Performs s q
    last-Performs all_done same =
        let lt =
          or-lt-four s.downloaded_files (index e) r.bounded.downloaded_bounded (index-lt-two e) in
        let equal =
          set_of-injective downloaded s.declared_files lt r.bounded.declared_bounded
            (grown s.downloaded_files r.bounded.downloaded_bounded ∙ all_done) in
        (
          download_file desktop (index e),
          after_download true,
          accepted_download ((==_iff downloaded s.declared_files).1 equal),
          (λ i. record (view s) {
            phase = complete;
            downloaded_files = grown s.downloaded_files r.bounded.downloaded_bounded i;
            active_tickets = set_of-zero i;
          })
              ∙ sym same,
        )

    partial-Performs :
        {q : SpecState}
        → insert e (set_of s.downloaded_files) ≢ set_of s.declared_files
        → q ≡ record (view s) {
          phase = transferring;
          downloaded_files = insert e (set_of s.downloaded_files);
        }
        → Performs s q
    partial-Performs more same =
        let growth = grown s.downloaded_files r.bounded.downloaded_bounded in
        let moving =
          download-transferring s s r.bounded e (Reach-IsSafe r.reached) live available in
        elim (Bool-cases (downloaded == s.declared_files)) [
          | inl last ↦
              absurd (more (sym growth ∙ ap set_of ((==_iff downloaded s.declared_files).0 last)))
          | inr rest ↦ (
            download_file desktop (index e),
            after_download false,
            accepted_download rest,
            (λ i. record (view s) { phase = moving i; downloaded_files = growth i }) ∙ sym same,
          )
        ]

-- Each step of the specification from the view of a reached state is an accepted action, or idles.
pub Step-Performs :
    (s : ProtocolState) (q : SpecState)
    → IsReached s
    → Step (view s) q
    → Performs s q ⊎ (q ≡ view s)
Step-Performs s q r (Step.claim a b c same) =
    inl (claim pairing_secret, _, claim_accepts s a b c, sym same)
Step-Performs s q r (Step.mint_desktop_ticket e live fresh same) = inl (
  mint_event_ticket desktop (index e),
  minted s r e,
  mint_desktop_accepts s (index e) (index-lt-two e) live
      (has-member s r e s.issued_tickets r.bounded.issued_bounded fresh),
  view-minted s r e same,
)
Step-Performs s q r (Step.mint_phone_ticket e paired live fresh same) = inl (
  mint_event_ticket phone (index e),
  minted s r e,
  mint_phone_accepts s (index e) (index-lt-two e) paired live
      (has-member s r e s.issued_tickets r.bounded.issued_bounded fresh),
  view-minted s r e same,
)
Step-Performs s q r (Step.redeem_ticket e live active same) =
    inl (redeem-Performs s r e live active same)
Step-Performs s q r (Step.declare_file e live paired fresh same) =
    inl (declare-Performs s r e live paired fresh same)
Step-Performs s q r (Step.finish_upload e live paired declared fresh same) =
    inl (upload-Performs s r e live paired declared fresh same)
Step-Performs s q r (Step.download_partial e live available fresh more same) =
    inl (partial-Performs s r e live available fresh more same)
Step-Performs s q r (Step.download_last e live available fresh last same) =
    inl (last-Performs s r e live available fresh last same)
Step-Performs s q r (Step.cancel live same) = inl (
  cancel desktop,
  _,
  cancel_accepts s live,
  (λ i. record (view s) { phase = TunnelStatus.cancelled; active_tickets = set_of-zero i })
      ∙ sym same,
)
Step-Performs s q r (Step.expire live same) = inl (
  expire,
  _,
  expire_accepts s live,
  (λ i. record (view s) { phase = TunnelStatus.expired; active_tickets = set_of-zero i })
      ∙ sym same,
)
Step-Performs s q r (Step.idle same) = inr same
