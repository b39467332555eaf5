-- ===== src/Protocol/Quint/Safety.antt =====
-- `protocol_safety` holds of every state that the specification reaches.
use ftnl_backend_api_rs.Base.{true, false, not, ◌≡◌, ◌≢◌, ◌⊎◌, arith}
use ftnl_backend_api_rs.Protocol.{waiting, connected, transferring, complete, cancelled, expired}
use ftnl_backend_api_rs.Protocol.Quint.{
  Subset, one, two, none_of, SpecState, init, Step, Reach, claim, mint_desktop_ticket,
  mint_phone_ticket, redeem_ticket, declare_file, finish_upload, download_partial, download_last,
  cancel, expire, idle, start, next,
}

-- `s.subseteq(t)`
pub record IsSubset (s t : Subset) : Type 0 where
  pub one_in : s.has_one ≡ true → t.has_one ≡ true
  pub two_in : s.has_two ≡ true → t.has_two ≡ true

-- The conjuncts of `protocol_safety`, but for those that a two-element type gives for nothing, and one
-- more: before the first upload ends no file is available.
pub record IsSafe (s : SpecState) : Type 0 where
  pub exchange_is_atomic : s.pairing_available ≡ not s.phone_capability_issued
  pub active_were_issued : IsSubset s.active_tickets s.issued_tickets
  pub available_were_declared : IsSubset s.available_files s.declared_files
  pub downloaded_were_available : IsSubset s.downloaded_files s.available_files
  pub waiting_is_unpaired : s.phase ≡ waiting → s.phone_capability_issued ≡ false
  pub transfer_is_paired :
      (s.phase ≡ connected) ⊎ (s.phase ≡ transferring) ⊎ (s.phase ≡ complete)
      → s.phone_capability_issued ≡ true
  pub complete_has_files : s.phase ≡ complete → s.declared_files ≢ none_of
  pub complete_is_downloaded : s.phase ≡ complete → s.downloaded_files ≡ s.declared_files
  pub closed_has_no_tickets :
      (s.phase ≡ complete) ⊎ (s.phase ≡ cancelled) ⊎ (s.phase ≡ expired)
      → s.active_tickets ≡ none_of
  pub available_is_transferring :
      (s.phase ≡ waiting) ⊎ (s.phase ≡ connected) → s.available_files ≡ none_of

init-IsSafe : IsSafe init
unfolding init
init-IsSafe = ground arith

Step-IsSafe : {s t : SpecState} → Step s t → IsSafe s → IsSafe t
Step-IsSafe (claim p a i e) h = rw e (ground arith)
Step-IsSafe (mint_desktop_ticket one l m e) h = rw e (ground arith)
Step-IsSafe (mint_desktop_ticket two l m e) h = rw e (ground arith)
Step-IsSafe (mint_phone_ticket one i l m e) h = rw e (ground arith)
Step-IsSafe (mint_phone_ticket two i l m e) h = rw e (ground arith)
Step-IsSafe (redeem_ticket one l m e) h = rw e (ground arith)
Step-IsSafe (redeem_ticket two l m e) h = rw e (ground arith)
Step-IsSafe (declare_file one l i m e) h = rw e (ground arith)
Step-IsSafe (declare_file two l i m e) h = rw e (ground arith)
Step-IsSafe (finish_upload one l i d m e) h = rw e (ground arith)
Step-IsSafe (finish_upload two l i d m e) h = rw e (ground arith)
Step-IsSafe (download_partial one l a m n e) h = rw e (ground arith)
Step-IsSafe (download_partial two l a m n e) h = rw e (ground arith)
Step-IsSafe (download_last one l a m n e) h = rw e (ground arith)
Step-IsSafe (download_last two l a m n e) h = rw e (ground arith)
Step-IsSafe (cancel l e) h = rw e (ground arith)
Step-IsSafe (expire l e) h = rw e (ground arith)
Step-IsSafe (idle e) h = rw e h

-- Every reachable state of the specification is safe: the exchange is atomic, tickets and files follow
-- their order, and each phase is consistent with them.
pub Reach-IsSafe : {s : SpecState} → Reach s → IsSafe s
Reach-IsSafe (start s e) = rw e init-IsSafe
Reach-IsSafe (next r st) = Step-IsSafe st (Reach-IsSafe r)
