-- ===== src/Protocol/Scopes.antt =====
-- The policy read by capability and by phase.
use ftnl_backend_api_rs.Base.{true, ◌≡◌, refl, ◌↔◌, arith}
use ftnl_backend_api_rs.Protocol.{
  TunnelStatus, waiting, connected, transferring, complete, cancelled, expired, Principal,
  pairing_secret, desktop, phone, event_ticket, Operation, claim, read_snapshot, cancel,
  declare_file, upload_file, download_file, mint_event_ticket, redeem_event_ticket, permits,
}

-- What each capability is for, in any phase.
pub data InScope : Principal → Operation → Type 0 where
  exchange : InScope pairing_secret claim
  desktop_reads : InScope desktop read_snapshot
  desktop_cancels : InScope desktop cancel
  desktop_downloads : InScope desktop download_file
  desktop_mints : InScope desktop mint_event_ticket
  phone_reads : InScope phone read_snapshot
  phone_declares : InScope phone declare_file
  phone_uploads : InScope phone upload_file
  phone_mints : InScope phone mint_event_ticket
  subscribe : InScope event_ticket redeem_event_ticket

-- What each phase allows, to whoever.
abbrev pub IsOpen : TunnelStatus → Operation → Type 0
IsOpen waiting claim = Unit
IsOpen waiting declare_file = ⊥
IsOpen waiting upload_file = ⊥
IsOpen waiting download_file = ⊥
IsOpen waiting _ = Unit
IsOpen connected claim = ⊥
IsOpen connected _ = Unit
IsOpen transferring claim = ⊥
IsOpen transferring _ = Unit
IsOpen complete read_snapshot = Unit
IsOpen complete _ = ⊥
IsOpen cancelled _ = ⊥
IsOpen expired _ = ⊥

ruleset scopes = (
  exchange, desktop_reads, desktop_cancels, desktop_downloads, desktop_mints, phone_reads,
  phone_declares, phone_uploads, phone_mints, subscribe,
)

permits-InScope :
    (s : TunnelStatus) (p : Principal) (o : Operation) → permits s p o ≡ true → InScope p o
unfolding permits
permits-InScope s pairing_secret claim h = exchange
permits-InScope s desktop read_snapshot h = desktop_reads
permits-InScope s _ _ h = grind (arith, scopes)

permits-IsOpen :
    (s : TunnelStatus) (p : Principal) (o : Operation) → permits s p o ≡ true → IsOpen s o
unfolding permits
permits-IsOpen waiting p claim h = tt
permits-IsOpen complete p read_snapshot h = tt
permits-IsOpen cancelled p read_snapshot h = cc
permits-IsOpen expired p read_snapshot h = cc
permits-IsOpen connected p read_snapshot h = tt
permits-IsOpen transferring p read_snapshot h = tt
permits-IsOpen _ p _ h = ground arith

InScope-permits :
    (s : TunnelStatus) {p : Principal} {o : Operation}
    → InScope p o
    → IsOpen s o
    → permits s p o ≡ true
unfolding permits
InScope-permits waiting exchange h = refl
InScope-permits complete desktop_reads h = refl
InScope-permits cancelled desktop_reads h = absurd h
InScope-permits expired desktop_reads h = absurd h
InScope-permits connected desktop_reads h = refl
InScope-permits transferring desktop_reads h = refl
InScope-permits _ _ h = ground arith

-- The matrix permits exactly what the capability is for and the phase allows.
pub permits_iff :
    (s : TunnelStatus) (p : Principal) (o : Operation)
    → (permits s p o ≡ true) ↔ (InScope p o × IsOpen s o)
permits_iff s p o =
    (λ h. (permits-InScope s p o h, permits-IsOpen s p o h), λ h. InScope-permits s h.0 h.1)
