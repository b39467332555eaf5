-- ===== src/Protocol/Quint.antt =====
-- formal/file_tunnel_protocol.qnt: the specification of the protocol, as a step relation. `FILES` and
-- `TICKETS` have two elements; the four `saw…` variables, which only record reachability, are left out.
pub mod Safety
use ftnl_backend_api_rs.Base.{Bool, true, false, ◌&&◌, ◌||◌, not, ◌≡◌, ◌≢◌, ◌⊎◌}
use ftnl_backend_api_rs.Protocol.{
  TunnelStatus, waiting, connected, transferring, complete, cancelled, expired,
}

pub data Element : Type 0 where
  one two : Element

-- A subset of the two elements.
pub record Subset : Type 0 where
  pub has_one : Bool
  pub has_two : Bool

abbrev pub none_of : Subset
none_of = record { has_one = false; has_two = false }

abbrev pub member : Element → Subset → Bool
member one s = s.has_one
member two s = s.has_two

-- `s.union(Set(e))`
abbrev pub insert : Element → Subset → Subset
insert one s = record s { has_one = true }
insert two s = record s { has_two = true }

-- `s.exclude(Set(e))`
abbrev pub remove : Element → Subset → Subset
remove one s = record s { has_one = false }
remove two s = record s { has_two = false }

pub record SpecState : Type 0 where
  pub phase : TunnelStatus
  pub pairing_available : Bool
  pub phone_capability_issued : Bool
  pub issued_tickets : Subset
  pub active_tickets : Subset
  pub declared_files : Subset
  pub available_files : Subset
  pub downloaded_files : Subset

unfoldable pub init : SpecState
init = record {
  phase = waiting;
  pairing_available = true;
  phone_capability_issued = false;
  issued_tickets = none_of;
  active_tickets = none_of;
  declared_files = none_of;
  available_files = none_of;
  downloaded_files = none_of;
}

-- `or { s.phase == Connected, s.phase == Transferring }`
abbrev pub InTransfer : TunnelStatus → Type 0
InTransfer p = (p ≡ connected) ⊎ (p ≡ transferring)

abbrev pub IsLive : TunnelStatus → Type 0
IsLive p = (p ≡ waiting) ⊎ (p ≡ connected) ⊎ (p ≡ transferring)

pub data Step (s t : SpecState) : Type 0 where
  claim :
      s.phase ≡ waiting
      → s.pairing_available ≡ true
      → s.phone_capability_issued ≡ false
      → t
        ≡ record s { phase = connected; pairing_available = false; phone_capability_issued = true }
      → Step s t
  mint_desktop_ticket :
      (ticket : Element)
      → IsLive s.phase
      → member ticket s.issued_tickets ≡ false
      → t ≡ record s {
        issued_tickets = insert ticket s.issued_tickets;
        active_tickets = insert ticket s.active_tickets;
      }
      → Step s t
  mint_phone_ticket :
      (ticket : Element)
      → s.phone_capability_issued ≡ true
      → IsLive s.phase
      → member ticket s.issued_tickets ≡ false
      → t ≡ record s {
        issued_tickets = insert ticket s.issued_tickets;
        active_tickets = insert ticket s.active_tickets;
      }
      → Step s t
  redeem_ticket :
      (ticket : Element)
      → IsLive s.phase
      → member ticket s.active_tickets ≡ true
      → t ≡ record s { active_tickets = remove ticket s.active_tickets }
      → Step s t
  declare_file :
      (file : Element)
      → InTransfer s.phase
      → s.phone_capability_issued ≡ true
      → member file s.declared_files ≡ false
      → t ≡ record s { declared_files = insert file s.declared_files }
      → Step s t
  finish_upload :
      (file : Element)
      → InTransfer s.phase
      → s.phone_capability_issued ≡ true
      → member file s.declared_files ≡ true
      → member file s.available_files ≡ false
      → t ≡ record s { phase = transferring; available_files = insert file s.available_files }
      → Step s t
  download_partial :
      (file : Element)
      → InTransfer s.phase
      → member file s.available_files ≡ true
      → member file s.downloaded_files ≡ false
      → insert file s.downloaded_files ≢ s.declared_files
      → t ≡ record s { phase = transferring; downloaded_files = insert file s.downloaded_files }
      → Step s t
  download_last :
      (file : Element)
      → InTransfer s.phase
      → member file s.available_files ≡ true
      → member file s.downloaded_files ≡ false
      → insert file s.downloaded_files ≡ s.declared_files
      → t ≡ record s {
        phase = complete;
        downloaded_files = insert file s.downloaded_files;
        active_tickets = none_of;
      }
      → Step s t
  cancel : IsLive s.phase → t ≡ record s { phase = cancelled; active_tickets = none_of } → Step s t
  expire : IsLive s.phase → t ≡ record s { phase = expired; active_tickets = none_of } → Step s t
  idle : t ≡ s → Step s t

pub data Reach : SpecState → Type 0 where
  start : (s : SpecState) → s ≡ init → Reach s
  next : {s t : SpecState} → Reach s → Step s t → Reach t
