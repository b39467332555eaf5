-- ===== src/Protocol/State/Steps.antt =====
-- What each action has checked when `apply_inner` accepts it.
use Prim.Native.Nat.{bit_and, bit_or}
use ftnl_backend_api_rs.Base.{ℕ, ◌<◌, true, false, ◌==◌, ok, ◌≡◌, ◌⊎◌, arith, if◌then◌else◌}
use ftnl_backend_api_rs.Protocol.{
  waiting, connected, transferring, complete, cancelled, expired, Principal, desktop, permits,
}
use ftnl_backend_api_rs.Protocol.Quint.{InTransfer, IsLive}
use ftnl_backend_api_rs.Protocol.State.{
  ProtocolState, claim, mint_event_ticket, redeem_event_ticket, declare_file, finish_upload,
  download_file, cancel, expire, bit_not, one_shl, has_bit, domain_bit, authorize, transition,
}

module _ (s t : ProtocolState) (p : Principal) where
  pub claim_accepted :
      transition s (claim p) ≡ ok t
      → (s.status ≡ waiting)
        × (s.pairing_available ≡ true)
        × (s.phone_capability_issued ≡ false)
        × (t ≡ record s {
          pairing_available = false;
          phone_capability_issued = true;
          status = connected;
        })
  unfolding transition authorize permits
  claim_accepted h = ground arith

  pub mint_accepted :
      (i : ℕ)
      → transition s (mint_event_ticket p i) ≡ ok t
      → IsLive s.status
        × ((p ≡ desktop) ⊎ (s.phone_capability_issued ≡ true))
        × (i < 2)
        × (has_bit s.issued_tickets (one_shl i) ≡ false)
        × (t ≡ record s {
          issued_tickets = bit_or s.issued_tickets (one_shl i);
          active_tickets = bit_or s.active_tickets (one_shl i);
        })
  unfolding transition authorize permits domain_bit
  mint_accepted i h = ground arith

  pub redeem_accepted :
      (i : ℕ)
      → transition s (redeem_event_ticket p i) ≡ ok t
      → IsLive s.status
        × (i < 2)
        × (has_bit s.active_tickets (one_shl i) ≡ true)
        × (t ≡ record s { active_tickets = bit_and s.active_tickets (bit_not (one_shl i)) })
  unfolding transition authorize permits domain_bit
  redeem_accepted i h = ground arith

  pub declare_accepted :
      (i : ℕ)
      → transition s (declare_file p i) ≡ ok t
      → InTransfer s.status
        × (s.phone_capability_issued ≡ true)
        × (i < 2)
        × (has_bit s.declared_files (one_shl i) ≡ false)
        × (t ≡ record s { declared_files = bit_or s.declared_files (one_shl i) })
  unfolding transition authorize permits domain_bit
  declare_accepted i h = ground arith

  pub upload_accepted :
      (i : ℕ)
      → transition s (finish_upload p i) ≡ ok t
      → InTransfer s.status
        × (s.phone_capability_issued ≡ true)
        × (i < 2)
        × (has_bit s.declared_files (one_shl i) ≡ true)
        × (has_bit s.available_files (one_shl i) ≡ false)
        × (t ≡ record s {
          available_files = bit_or s.available_files (one_shl i);
          status = transferring;
        })
  unfolding transition authorize permits domain_bit
  upload_accepted i h = ground arith

  pub download_accepted :
      (i : ℕ)
      → transition s (download_file p i) ≡ ok t
      → let downloaded = bit_or s.downloaded_files (one_shl i) in
        InTransfer s.status
        × (i < 2)
        × (has_bit s.available_files (one_shl i) ≡ true)
        × (has_bit s.downloaded_files (one_shl i) ≡ false)
        × (t ≡ (
            if downloaded == s.declared_files
            then record s { downloaded_files = downloaded; status = complete; active_tickets = 0 }
            else record s { downloaded_files = downloaded }))
  unfolding transition authorize permits domain_bit
  download_accepted i h = ground arith

  pub cancel_accepted :
      transition s (cancel p) ≡ ok t
      → IsLive s.status × (t ≡ record s { status = cancelled; active_tickets = 0 })
  unfolding transition authorize permits
  cancel_accepted h = ground arith

pub expire_accepted :
    (s t : ProtocolState)
    → transition s expire ≡ ok t
    → IsLive s.status × (t ≡ record s { status = expired; active_tickets = 0 })
unfolding transition
expire_accepted s t h = ground arith
