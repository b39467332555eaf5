-- ===== src/Protocol/State/Accepts.antt =====
-- When `apply_inner` accepts an action.
use Prim.Native.Nat.{bit_and, bit_or}
use ftnl_backend_api_rs.Base.{ℕ, ◌<◌, true, false, ◌==◌, ok, ◌≡◌, arith, if◌then◌else◌}
use ftnl_backend_api_rs.Protocol.{
  waiting, connected, transferring, complete, cancelled, expired, pairing_secret, desktop, phone,
  event_ticket, permits,
}
use ftnl_backend_api_rs.Protocol.Quint.{InTransfer, IsLive}
use ftnl_backend_api_rs.Protocol.State.{
  ProtocolState, claim, mint_event_ticket, redeem_event_ticket, declare_file, finish_upload,
  download_file, cancel, expire, one_shl, bit_not, has_bit, domain_bit, authorize, transition,
}

module _ (s : ProtocolState) where
  pub claim_accepts :
      s.status ≡ waiting
      → s.pairing_available ≡ true
      → s.phone_capability_issued ≡ false
      → transition s (claim pairing_secret)
        ≡ ok (record s {
          pairing_available = false;
          phone_capability_issued = true;
          status = connected;
        })
  unfolding transition authorize permits
  claim_accepts a b c = ground arith

  pub mint_desktop_accepts :
      (i : ℕ)
      → i < 2
      → IsLive s.status
      → has_bit s.issued_tickets (one_shl i) ≡ false
      → transition s (mint_event_ticket desktop i)
        ≡ ok (record s {
          issued_tickets = bit_or s.issued_tickets (one_shl i);
          active_tickets = bit_or s.active_tickets (one_shl i);
        })
  unfolding transition authorize permits domain_bit
  mint_desktop_accepts i lt live fresh = ground arith

  pub mint_phone_accepts :
      (i : ℕ)
      → i < 2
      → s.phone_capability_issued ≡ true
      → IsLive s.status
      → has_bit s.issued_tickets (one_shl i) ≡ false
      → transition s (mint_event_ticket phone i)
        ≡ ok (record s {
          issued_tickets = bit_or s.issued_tickets (one_shl i);
          active_tickets = bit_or s.active_tickets (one_shl i);
        })
  unfolding transition authorize permits domain_bit
  mint_phone_accepts i lt paired live fresh = ground arith

  pub redeem_accepts :
      (i : ℕ)
      → i < 2
      → IsLive s.status
      → has_bit s.active_tickets (one_shl i) ≡ true
      → transition s (redeem_event_ticket event_ticket i)
        ≡ ok (record s { active_tickets = bit_and s.active_tickets (bit_not (one_shl i)) })
  unfolding transition authorize permits domain_bit
  redeem_accepts i lt live active = ground arith

  pub declare_accepts :
      (i : ℕ)
      → i < 2
      → InTransfer s.status
      → s.phone_capability_issued ≡ true
      → has_bit s.declared_files (one_shl i) ≡ false
      → transition s (declare_file phone i)
        ≡ ok (record s { declared_files = bit_or s.declared_files (one_shl i) })
  unfolding transition authorize permits domain_bit
  declare_accepts i lt live paired fresh = ground arith

  pub upload_accepts :
      (i : ℕ)
      → i < 2
      → InTransfer s.status
      → s.phone_capability_issued ≡ true
      → has_bit s.declared_files (one_shl i) ≡ true
      → has_bit s.available_files (one_shl i) ≡ false
      → transition s (finish_upload phone i)
        ≡ ok (record s {
          available_files = bit_or s.available_files (one_shl i);
          status = transferring;
        })
  unfolding transition authorize permits domain_bit
  upload_accepts i lt live paired declared fresh = ground arith

  pub download_accepts :
      (i : ℕ)
      → i < 2
      → InTransfer s.status
      → has_bit s.available_files (one_shl i) ≡ true
      → has_bit s.downloaded_files (one_shl i) ≡ false
      → let downloaded = bit_or s.downloaded_files (one_shl i) in
        transition s (download_file desktop i)
        ≡ ok (
            if downloaded == s.declared_files
            then record s { downloaded_files = downloaded; status = complete; active_tickets = 0 }
            else record s { downloaded_files = downloaded })
  unfolding transition authorize permits domain_bit
  download_accepts i lt live available fresh = ground arith

  pub cancel_accepts :
      IsLive s.status
      → transition s (cancel desktop) ≡ ok (record s { status = cancelled; active_tickets = 0 })
  unfolding transition authorize permits
  cancel_accepts live = ground arith

  pub expire_accepts :
      IsLive s.status → transition s expire ≡ ok (record s { status = expired; active_tickets = 0 })
  unfolding transition
  expire_accepts live = ground arith
