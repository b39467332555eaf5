-- ===== src/Server/Refinement/Downloads.antt =====
-- Downloads of a tunnel as steps of the specification.
use mathlib.Core.Path.{subst}
use ftnl_backend_api_rs.Base.{
  ℕ, Bool, true, false, List, Option, some, none, ◌≡◌, refl, sym, ap, ◌∙◌, ok, inl, inr, arith,
  Bool-cases, ==_iff, get, put, IsDistinct, holds, put-get, put-IsDistinct, all-get, all-false-get,
}
use ftnl_backend_api_rs.Text.{codes}
use ftnl_backend_api_rs.Protocol.{transferring, complete}
use ftnl_backend_api_rs.Protocol.Quint.{InTransfer}
use ftnl_backend_api_rs.Protocol.Unbounded
use ftnl_backend_api_rs.Protocol.Unbounded.{insert, none_of, IsEqualSet}
use ftnl_backend_api_rs.Server.{
  Platform, Digest, FileStatus, StoredFile, Tunnel, Stamp, publish, same_id,
}
use ftnl_backend_api_rs.Server.Transfers.{
  Download, download_file, with_file, mark_downloaded, close_if_done, is_downloaded,
}
use ftnl_backend_api_rs.Server.Accepted.{download_found, download_accepted}
use ftnl_backend_api_rs.Server.Invariant.{all_downloaded}
use ftnl_backend_api_rs.Server.Refinement.Runs.{IsFresh-Untouched}
use ftnl_backend_api_rs.Server.Refinement.Abstract.{
  Spec, Abstracts, IsCareful, Marks, exists, is_available, was_downloaded,
}
use ftnl_backend_api_rs.Server.Refinement.Sets.{put-insert, put-stays}
use ftnl_backend_api_rs.Server.Refinement.Simulation.{Simulates, transfer_phase, transfer_files}

-- Marking a file that was downloaded changes nothing.
mark_again : (f : StoredFile) → was_downloaded f ≡ true → mark_downloaded f ≡ f
mark_again f h =
    ap (λ x. record f { descriptor = record f.descriptor { status = x } })
      (sym (only f.descriptor.status h))
  where
    only : (x : FileStatus) → is_downloaded x ≡ true → x ≡ FileStatus.downloaded
    only FileStatus.downloaded e = refl
    only FileStatus.declared e = absurd (ground (arith, e))
    only FileStatus.uploading e = absurd (ground (arith, e))
    only FileStatus.available e = absurd (ground (arith, e))
    only FileStatus.rejected e = absurd (ground (arith, e))
    only FileStatus.cancelled e = absurd (ground (arith, e))

-- Whether all files were downloaded is whether the two sets of the specification are equal.
module _ (files : List (ℕ × StoredFile)) (declared downloaded : ℕ → Bool)
    (d : Marks same_id exists files declared)
    (w : Marks same_id was_downloaded files downloaded) where
  all-IsEqualSet : all_downloaded files ≡ true → IsEqualSet downloaded declared
  all-IsEqualSet done j = w j ∙ same (get same_id j files) refl ∙ sym (d j)
    where
      same :
          (o : Option StoredFile)
          → get same_id j files ≡ o
          → holds was_downloaded o ≡ holds exists o
      same none e = refl
      same (some f) e = all-get same_id ==_iff was_downloaded j files done e

  missing-IsEqualSet :
      IsDistinct same_id files → all_downloaded files ≡ false → ¬ IsEqualSet downloaded declared
  missing-IsEqualSet distinct missing equal =
      let (j, f, found, bad) = all-false-get same_id ==_iff was_downloaded files distinct missing in
      let no : downloaded j ≡ false = w j ∙ ap (holds was_downloaded) found ∙ bad in
      let yes : declared j ≡ true = d j ∙ ap (holds exists) found in cc (no, yes, equal j)

module _ (t : Tunnel) (issued : Digest → Bool) (s : Spec) (k : IsCareful t)
    (a : Abstracts t issued s) where
  -- While a file is in the tunnel and transfers go on, some file was not downloaded.
  still_open :
      InTransfer t.status
      → (file_id : ℕ) (stored : StoredFile) → get same_id file_id t.files ≡ some stored
      → all_downloaded t.files ≡ false
  unfolding get
  still_open live file_id stored found = elim (k.pending live) [
    | inl none' ↦ absurd (none-found (subst (λ m. get same_id file_id m ≡ some stored) none' found))
    | inr rest ↦ rest
  ]
    where
      none-found : {f : StoredFile} → none ≡ some f → ⊥
      none-found h = cc

  -- A whole file with bytes is there only in the phase of transfer.
  uploading :
      InTransfer t.status
      → (file_id : ℕ) (stored : StoredFile) → get same_id file_id t.files ≡ some stored
      → is_available stored ≡ true
      → t.status ≡ transferring
  uploading (inr e) file_id stored found whole = e
  uploading (inl e) file_id stored found whole =
      cc (whole, IsFresh-Untouched t k.sound k.fresh k.filled e file_id stored found)

  reopened :
      (file_id : ℕ) (stored : StoredFile)
      → InTransfer t.status
      → get same_id file_id t.files ≡ some stored
      → was_downloaded stored ≡ true
      → close_if_done (with_file t file_id (mark_downloaded stored)) ≡ t
  reopened file_id stored live found again =
      ap (λ f. close_if_done (with_file t file_id f)) (mark_again stored again)
      ∙ ap (λ m. close_if_done (record t { files = m }))
          (put-get same_id file_id stored t.files found)
      ∙ rw (still_open live file_id stored found) refl

  -- A file that was downloaded before: nothing moves.
  repeated-Simulates :
      (file_id : ℕ) (stored : StoredFile) (stamp : Stamp) (n : ℕ)
      → InTransfer t.status
      → get same_id file_id t.files ≡ some stored
      → was_downloaded stored ≡ true
      → Simulates s
          (publish
            (close_if_done (with_file t file_id (mark_downloaded stored)))
            (codes "file.downloaded")
            (some file_id)
            (some n)
            none
            stamp)
          issued
  unfolding publish
  repeated-Simulates file_id stored stamp n live found again =
      subst
        (λ u.
          Simulates s (publish u (codes "file.downloaded") (some file_id) (some n) none stamp)
            issued)
        (sym (reopened file_id stored live found again))
        (
          s,
          Unbounded.idle refl,
          record {
            phases = a.phases;
            pairing = a.pairing;
            phone = a.phone;
            active = a.active;
            were_issued = a.were_issued;
            files = a.files;
          },
        )

  delivered-Simulates :
      (file_id : ℕ) (stored : StoredFile) (stamp : Stamp) (n : ℕ)
      → InTransfer t.status
      → get same_id file_id t.files ≡ some stored
      → is_available stored ≡ true
      → was_downloaded stored ≡ false
      → Simulates s
          (publish
            (close_if_done (with_file t file_id (mark_downloaded stored)))
            (codes "file.downloaded")
            (some file_id)
            (some n)
            none
            stamp)
          issued
  unfolding publish get
  delivered-Simulates file_id stored stamp n live found whole first =
      let f = transfer_files t issued s k a live in
      let marked = mark_downloaded stored in
      let files = put same_id file_id marked t.files in
      let downloaded = insert same_id file_id s.downloaded_files in
      let phase = transfer_phase t issued s k a live in
      let available = f.available_marks file_id ∙ ap (holds is_available) found ∙ whole in
      let fresh = f.downloaded_marks file_id ∙ ap (holds was_downloaded) found ∙ first in
      let declared_marks =
        put-stays same_id ==_iff exists t.files _ f.declared_marks file_id marked
          (ap (holds exists) found) in
      let available_marks =
        put-stays same_id ==_iff is_available t.files _ f.available_marks file_id marked
          (ap (holds is_available) found) in
      let downloaded_marks =
        put-insert same_id ==_iff was_downloaded t.files _ f.downloaded_marks file_id marked refl in
      elim (Bool-cases (all_downloaded files)) [
        | inl done ↦ rw (done) (
          record s { phase = complete; downloaded_files = downloaded; active_tickets = none_of },
          Unbounded.download_last file_id phase available fresh
              (all-IsEqualSet files s.declared_files downloaded declared_marks downloaded_marks
                done)
              refl,
          record {
            phases = inl refl;
            pairing = a.pairing;
            phone = a.phone;
            active = λ d. refl;
            were_issued = a.were_issued;
            files = inr (record {
              declared_marks = declared_marks;
              available_marks = available_marks;
              downloaded_marks = downloaded_marks;
            });
          },
        )
        | inr more ↦ rw (more) (
          record s { phase = transferring; downloaded_files = downloaded },
          Unbounded.download_partial file_id phase available fresh
              (missing-IsEqualSet files s.declared_files downloaded declared_marks downloaded_marks
                (put-IsDistinct same_id ==_iff file_id marked t.files k.distinct) more)
              refl,
          record {
            phases = inl (sym (uploading live file_id stored found whole));
            pairing = a.pairing;
            phone = a.phone;
            active = a.active;
            were_issued = a.were_issued;
            files = inr (record {
              declared_marks = declared_marks;
              available_marks = available_marks;
              downloaded_marks = downloaded_marks;
            });
          },
        )
      ]

  pub download-Simulates :
      (platform : Platform) (authorization : Option (List ℕ)) (file_id now : ℕ) (stamp : Stamp)
      (r : Tunnel × Download)
      → download_file platform t authorization file_id now stamp ≡ ok r
      → Simulates s r.0 issued
  download-Simulates platform authorization file_id now stamp r h =
      let (stored, found) = download_found platform t authorization file_id now stamp {r = r} h in
      let (whole, live, _, _, e) =
        download_accepted platform t authorization file_id now stamp stored {r = r} found h in
      rw e (elim (Bool-cases (was_downloaded stored)) [
        | inl again ↦ repeated-Simulates file_id stored stamp _ live found again
        | inr first ↦ delivered-Simulates file_id stored stamp _ live found whole first
      ])
