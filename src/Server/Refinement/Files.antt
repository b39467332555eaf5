-- ===== src/Server/Refinement/Files.antt =====
-- Each call keeps what the refinement needs of the files of a tunnel.
use mathlib.Core.Path.{subst}
use ftnl_backend_api_rs.Base.{
  ℕ, true, false, List, [], Option, some, ◌≡◌, ◌≢◌, ◌⊎◌, refl, sym, ◌∙◌, ok, inl, inr, arith,
  Bool-cases, ==_iff, get, put, values, IsDistinct, All, All-get, All-put, put-IsDistinct,
  get-put_self, all-get,
}
use ftnl_backend_api_rs.Text.{Str}
use ftnl_backend_api_rs.Protocol.{TunnelStatus, waiting}
use ftnl_backend_api_rs.Protocol.Quint.{InTransfer}
use ftnl_backend_api_rs.Server.{
  Platform, StoredFile, FileDescriptor, Tunnel, Stamp, publish, same_id,
}
use ftnl_backend_api_rs.Server.Handlers.{
  DeclareFileRequest, Reading, EventTicketResponse, claim_tunnel, cancel_tunnel, declare_file,
  declared_file, create_event_ticket,
}
use ftnl_backend_api_rs.Server.Transfers.{
  Download, download_file, close_if_done, with_file, mark_downloaded,
}
use ftnl_backend_api_rs.Server.Accepted.{
  claim_accepted, cancel_accepted, declare_accepted, ticket_accepted, download_found,
  download_accepted,
}
use ftnl_backend_api_rs.Server.Invariant.{IsSound, PhaseAgrees, is_some, all_downloaded}
use ftnl_backend_api_rs.Server.Refinement.Runs.{HasBytes}
use ftnl_backend_api_rs.Server.Refinement.Abstract.{IsCareful, was_downloaded}

-- The part of `IsCareful` that is about the files.
pub record FilesAreCareful (status : TunnelStatus) (files : List (ℕ × StoredFile)) : Type 0 where
  pub distinct : IsDistinct same_id files
  pub filled : All HasBytes (values files)
  pub pending : InTransfer status → (files ≡ []) ⊎ (all_downloaded files ≡ false)

abbrev pub KeepsFiles : Tunnel → Type 0
KeepsFiles t = FilesAreCareful t.status t.files

pub files_of : (t : Tunnel) → IsCareful t → KeepsFiles t
files_of t c = record { distinct = c.distinct; filled = c.filled; pending = c.pending }

true-false : true ≡ false → ⊥
true-false h = cc

-- One file that was not downloaded is enough.
pub one_missing :
    (files : List (ℕ × StoredFile)) (file_id : ℕ) (f : StoredFile)
    → get same_id file_id files ≡ some f
    → was_downloaded f ≡ false
    → all_downloaded files ≡ false
one_missing files file_id f found missing = elim (Bool-cases (all_downloaded files)) [
  | inl done ↦
      absurd (
        true-false (sym (all-get same_id ==_iff was_downloaded file_id files done found) ∙ missing))
  | inr rest ↦ rest
]

-- A file that has bytes and was not downloaded is written.
pub put-FilesAreCareful :
    (status status' : TunnelStatus) (files : List (ℕ × StoredFile)) (file_id : ℕ) (f : StoredFile)
    → FilesAreCareful status files
    → HasBytes f
    → was_downloaded f ≡ false
    → FilesAreCareful status' (put same_id file_id f files)
put-FilesAreCareful status status' files file_id f c bytes missing = record {
  distinct = put-IsDistinct same_id ==_iff file_id f files c.distinct;
  filled = All-put same_id HasBytes file_id f files c.filled bytes;
  pending = λ _. inr (
      one_missing (put same_id file_id f files) file_id f
        (get-put_self same_id ==_iff file_id f files) missing);
}

close_if_done-FilesAreCareful :
    (t : Tunnel)
    → IsDistinct same_id t.files
    → All HasBytes (values t.files)
    → KeepsFiles (close_if_done t)
close_if_done-FilesAreCareful t d f = elim (Bool-cases (all_downloaded t.files)) [
  | inl e ↦ rw (e) (record { distinct = d; filled = f; pending = λ h. absurd (ground (arith, h)) })
  | inr e ↦ rw (e) (record { distinct = d; filled = f; pending = λ h. inr e })
]

pub waiting_is_empty : (t : Tunnel) → IsSound t → t.status ≡ waiting → t.files ≡ []
waiting_is_empty t s e =
    (subst (λ x. PhaseAgrees x (is_some t.phone_hash) t.files t.event_tickets) e s.phase).1

module _ (platform : Platform) (t : Tunnel) (c : IsCareful t) where
  pub claim-files :
      (secret : Str) (at : Reading) (r : Tunnel × Str)
      → claim_tunnel platform t secret at ≡ ok r
      → KeepsFiles r.0
  unfolding publish
  claim-files secret at r h =
      let (waits, _, _, e) = claim_accepted platform t secret at {r = r} h in
      rw e (record {
        distinct = c.distinct;
        filled = c.filled;
        pending = λ _. inl (waiting_is_empty t c.sound waits);
      })

  pub cancel-files :
      (authorization : Option (List ℕ)) (at : Reading) (r : Tunnel × Unit {0})
      → cancel_tunnel platform t authorization at ≡ ok r
      → KeepsFiles r.0
  unfolding publish
  cancel-files authorization at r h =
      let (_, _, e) = cancel_accepted platform t authorization at {r = r} h in
      rw e (record { distinct = tt; filled = tt; pending = λ _. inl refl })

  pub declare-files :
      (authorization : Option (List ℕ)) (request : DeclareFileRequest) (at : Reading)
      (r : Tunnel × FileDescriptor)
      → request.size_bytes ≢ 0
      → declare_file platform t authorization request at ≡ ok r
      → KeepsFiles r.0
  unfolding publish
  declare-files authorization request at r bytes h =
      let (_, _, _, e) = declare_accepted platform t authorization request at {r = r} h in
      rw e (
        put-FilesAreCareful t.status t.status t.files at.first
          (declared_file request at.first at.now) (files_of t c) bytes refl)

  pub mint-files :
      (authorization : Option (List ℕ)) (at : Reading) (r : Tunnel × EventTicketResponse)
      → create_event_ticket platform t authorization at ≡ ok r
      → KeepsFiles r.0
  mint-files authorization at r h =
      let (_, _, e) = ticket_accepted platform t authorization at {r = r} h in rw e (files_of t c)

  pub download-files :
      (authorization : Option (List ℕ)) (file_id now : ℕ) (stamp : Stamp) (r : Tunnel × Download)
      → download_file platform t authorization file_id now stamp ≡ ok r
      → KeepsFiles r.0
  unfolding publish
  download-files authorization file_id now stamp r h =
      let (stored, found) = download_found platform t authorization file_id now stamp {r = r} h in
      let (_, _, _, _, e) =
        download_accepted platform t authorization file_id now stamp stored {r = r} found h in
      rw e (
        close_if_done-FilesAreCareful (with_file t file_id (mark_downloaded stored))
          (put-IsDistinct same_id ==_iff file_id _ t.files c.distinct)
          (All-put same_id HasBytes file_id _ t.files c.filled
            (All-get same_id HasBytes file_id t.files stored c.filled found)))
