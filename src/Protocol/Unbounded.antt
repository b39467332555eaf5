-- ===== src/Protocol/Unbounded.antt =====
-- formal/file_tunnel_protocol.qnt with files and tickets of any type in place of its two finite
-- domains. A set is its Boolean membership; the `saw…` variables are left out.
pub mod Safety
use ftnl_backend_api_rs.Base.{Bool, true, false, ◌||◌, if◌then◌else◌, ◌≡◌}
use ftnl_backend_api_rs.Protocol.{
  TunnelStatus, waiting, connected, transferring, complete, cancelled, expired,
}
use ftnl_backend_api_rs.Protocol.Quint.{InTransfer, IsLive}

module _ {A : Type 0} (same : A → A → Bool) where
  -- `s.union(Set(e))`
  abbrev pub insert : A → (A → Bool) → A → Bool
  insert e set x = same e x || set x

  -- `s.exclude(Set(e))`
  abbrev pub remove : A → (A → Bool) → A → Bool
  remove e set x = if same e x then false else set x

module _ {A : Type 0} where
  abbrev pub none_of : A → Bool
  none_of x = false

  abbrev pub IsEqualSet : (A → Bool) → (A → Bool) → Type 0
  IsEqualSet set other = (x : A) → set x ≡ other x

pub record SpecState (F T : Type 0) : Type 0 where
  pub phase : TunnelStatus
  pub pairing_available : Bool
  pub phone_capability_issued : Bool
  pub issued_tickets : T → Bool
  pub active_tickets : T → Bool
  pub declared_files : F → Bool
  pub available_files : F → Bool
  pub downloaded_files : F → Bool

module _ {F T : Type 0} (same_file : F → F → Bool) (same_ticket : T → T → Bool) where
  unfoldable pub init : SpecState F T
  init = record {
    phase = waiting;
    pairing_available = true;
    phone_capability_issued = false;
    issued_tickets = none_of;
    active_tickets = none_of;
    declared_files = none_of;
    available_files = none_of;
    downloaded_files = none_of;
  }

  pub data Step (s t : SpecState F T) : Type 0 where
    claim :
        s.phase ≡ waiting
        → s.pairing_available ≡ true
        → s.phone_capability_issued ≡ false
        → t ≡ record s {
          phase = connected;
          pairing_available = false;
          phone_capability_issued = true;
        }
        → Step s t
    mint_desktop_ticket :
        (ticket : T)
        → IsLive s.phase
        → s.issued_tickets ticket ≡ false
        → t ≡ record s {
          issued_tickets = insert same_ticket ticket s.issued_tickets;
          active_tickets = insert same_ticket ticket s.active_tickets;
        }
        → Step s t
    mint_phone_ticket :
        (ticket : T)
        → s.phone_capability_issued ≡ true
        → IsLive s.phase
        → s.issued_tickets ticket ≡ false
        → t ≡ record s {
          issued_tickets = insert same_ticket ticket s.issued_tickets;
          active_tickets = insert same_ticket ticket s.active_tickets;
        }
        → Step s t
    redeem_ticket :
        (ticket : T)
        → IsLive s.phase
        → s.active_tickets ticket ≡ true
        → t ≡ record s { active_tickets = remove same_ticket ticket s.active_tickets }
        → Step s t
    declare_file :
        (file : F)
        → InTransfer s.phase
        → s.phone_capability_issued ≡ true
        → s.declared_files file ≡ false
        → t ≡ record s { declared_files = insert same_file file s.declared_files }
        → Step s t
    finish_upload :
        (file : F)
        → InTransfer s.phase
        → s.phone_capability_issued ≡ true
        → s.declared_files file ≡ true
        → s.available_files file ≡ false
        → t ≡ record s {
          phase = transferring;
          available_files = insert same_file file s.available_files;
        }
        → Step s t
    download_partial :
        (file : F)
        → InTransfer s.phase
        → s.available_files file ≡ true
        → s.downloaded_files file ≡ false
        → ¬ IsEqualSet (insert same_file file s.downloaded_files) s.declared_files
        → t ≡ record s {
          phase = transferring;
          downloaded_files = insert same_file file s.downloaded_files;
        }
        → Step s t
    download_last :
        (file : F)
        → InTransfer s.phase
        → s.available_files file ≡ true
        → s.downloaded_files file ≡ false
        → IsEqualSet (insert same_file file s.downloaded_files) s.declared_files
        → t ≡ record s {
          phase = complete;
          downloaded_files = insert same_file file s.downloaded_files;
          active_tickets = none_of;
        }
        → Step s t
    cancel :
        IsLive s.phase → t ≡ record s { phase = cancelled; active_tickets = none_of } → Step s t
    expire : IsLive s.phase → t ≡ record s { phase = expired; active_tickets = none_of } → Step s t
    idle : t ≡ s → Step s t

  pub data Reach : SpecState F T → Type 0 where
    start : Reach init
    next : {s t : SpecState F T} → Reach s → Step s t → Reach t
