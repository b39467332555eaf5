-- ===== src/Server/Refinement/Deliveries.antt =====
-- Uploads of a tunnel as steps of the specification.
use mathlib.Core.Path.{subst}
use ftnl_backend_api_rs.Base.{
  ℕ, ◌<◌, Bool, true, ◌≡◌, ◌⊎◌, refl, sym, ap, ◌∙◌, inl, inr, Bool-cases, ==_iff, get, put, holds,
}
use ftnl_backend_api_rs.Protocol.{connected, transferring}
use ftnl_backend_api_rs.Protocol.Unbounded
use ftnl_backend_api_rs.Protocol.Unbounded.{insert, none_of, IsEqualSet}
use ftnl_backend_api_rs.Resumable.Range.{InBounds}
use ftnl_backend_api_rs.Server.{Platform, Digest, Tunnel, Stamp, same_id, same_digest}
use ftnl_backend_api_rs.Server.Transfers.{Upload, store_upload}
use ftnl_backend_api_rs.Server.Invariant.{is_some}
use ftnl_backend_api_rs.Server.Refinement.Abstract.{
  Spec, Abstracts, FilesAgree, IsCareful, exists, is_available, was_downloaded,
}
use ftnl_backend_api_rs.Server.Refinement.Sets.{put-insert, put-stays}
use ftnl_backend_api_rs.Server.Refinement.Stores.{Advances, store_upload_effect}
use ftnl_backend_api_rs.Server.Refinement.Simulation.{
  Simulates, rests, transfer_phase, transfer_files, paired,
}

module _ (t : Tunnel) (issued : Digest → Bool) (s : Spec) (k : IsCareful t)
    (a : Abstracts t issued s) where
  -- Files aside, the tunnel after a chunk stands for what it stood for.
  advanced :
      (t' : Tunnel) (v : Advances t t') (q : Spec)
      → (q.phase ≡ t'.status) ⊎ ((t'.status ≡ transferring) × (q.phase ≡ connected))
      → q.pairing_available ≡ s.pairing_available
      → q.phone_capability_issued ≡ s.phone_capability_issued
      → q.active_tickets ≡ s.active_tickets
      → q.issued_tickets ≡ s.issued_tickets
      → FilesAgree (put same_id v.file_id v.after t.files) q
      → Abstracts t' issued q
  advanced t' v q phases pairing phone active were f = record {
    phases = phases;
    pairing = pairing ∙ a.pairing ∙ ap is_some (sym v.pairing);
    phone = phone ∙ a.phone ∙ ap is_some (sym v.phone);
    active = λ d.
        ap (λ set. set d) active
        ∙ a.active d
        ∙ ap (λ m. holds (λ expiry. true) (get same_digest d m)) (sym v.tickets);
    were_issued = λ d h. a.were_issued d (ap (λ set. set d) (sym were) ∙ h);
    files = inr (subst (λ m. FilesAgree m q) (sym v.files) f);
  }

  advance-Simulates : (t' : Tunnel) → Advances t t' → Simulates s t' issued
  advance-Simulates t' v =
      let f = transfer_files t issued s k a v.in_transfer in
      let declared =
        put-stays same_id ==_iff exists t.files _ f.declared_marks v.file_id v.after
          (ap (holds exists) v.found) in
      let downloaded =
        put-stays same_id ==_iff was_downloaded t.files _ f.downloaded_marks v.file_id v.after
          (ap (holds was_downloaded) v.found ∙ v.undelivered ∙ sym v.still_undelivered) in
      elim (Bool-cases (is_available v.after)) [
        | inl whole ↦ (
          record s {
            phase = transferring;
            available_files = insert same_id v.file_id s.available_files;
          },
          Unbounded.finish_upload v.file_id (transfer_phase t issued s k a v.in_transfer)
              (paired t issued s k a v.in_transfer)
              (f.declared_marks v.file_id ∙ ap (holds exists) v.found)
              (f.available_marks v.file_id ∙ ap (holds is_available) v.found ∙ v.incomplete) refl,
          advanced t' v _ (inl (sym v.status)) refl refl refl refl (record {
            declared_marks = declared;
            available_marks =
                put-insert same_id ==_iff is_available t.files _ f.available_marks v.file_id v.after
                  whole;
            downloaded_marks = downloaded;
          }),
        )
        | inr partial ↦ (
          s,
          Unbounded.idle refl,
          advanced t' v s
              (elim (transfer_phase t issued s k a v.in_transfer) [
                | inl c ↦ inr (v.status, c)
                | inr c ↦ inl (c ∙ sym v.status)
              ])
              refl refl refl refl
              (record {
                declared_marks = declared;
                available_marks =
                    put-stays same_id ==_iff is_available t.files _ f.available_marks v.file_id
                      v.after (ap (holds is_available) v.found ∙ v.incomplete ∙ sym partial);
                downloaded_marks = downloaded;
              }),
        )
      ]

  pub store-Simulates :
      (platform : Platform) (file_id : ℕ) (u : Upload) (now : ℕ) (progress available : Stamp)
      → InBounds u.range
      → u.range.start < u.range.end_exclusive
      → Simulates s (store_upload platform t file_id u now progress available).0 issued
  store-Simulates platform file_id u now progress available bounds lt =
      elim (store_upload_effect platform t file_id u now progress available k.sound bounds lt) [
        | inl same ↦ rw same (rests t issued s k a)
        | inr v ↦ advance-Simulates _ v
      ]
