-- ===== src/Resumable/Upload/Prefix.antt =====
-- The buffer as a prefix of the file that a client sends: the specification of the upload.
use ftnl_backend_api_rs.Base.{
  ℕ, ◌+◌, ◌-◌, ◌≤◌, true, [], ◌∷◌, ◌++◌, List, length, length-append, length-take, length-drop,
  take, drop, take_all, take-add, arith, ◌≡◌, refl, sym, ap, ◌∙◌, inl, inr, All,
}
use ftnl_backend_api_rs.Resumable.Range.{ContentRange, InBounds}
use ftnl_backend_api_rs.Resumable.Upload.{UploadBuffer, new, offset, is_complete, extend, append}
use ftnl_backend_api_rs.Resumable.Upload.Bounds.{IsWithin}
use ftnl_backend_api_rs.Resumable.Upload.Outcomes.{append_effect, slice}

-- The requests that reach one buffer, in the order in which they are committed.
unfoldable pub uploads : UploadBuffer → List (ContentRange × List ℕ) → UploadBuffer
uploads b [] = b
uploads b ((r, chunk) ∷ rest) = uploads (append b r chunk).0 rest

-- The bytes of the buffer are the first ones of the file.
pub record IsPrefixOf (file : List ℕ) (b : UploadBuffer) : Type 0 where
  pub declared : b.total ≡ length file
  pub within : IsWithin b
  pub agrees : b.bytes ≡ take (offset b) file

-- A request of a client that sends this file: some range of it, with the bytes that stand there.
abbrev pub IsSliceOf : List ℕ → ContentRange × List ℕ → Type 0
IsSliceOf file (r, chunk) = InBounds r × (chunk ≡ slice file r)

length-slice :
    (file : List ℕ) (r : ContentRange)
    → r.end_exclusive ≤ length file
    → length (slice file r) ≡ r.end_exclusive - r.start
length-slice file r h =
    omega
      (arith, length-take (r.end_exclusive - r.start) (drop r.start file), length-drop r.start file)

grown-agrees :
    (file : List ℕ) (b : UploadBuffer) (r : ContentRange)
    → IsPrefixOf file b
    → r.start ≡ offset b
    → r.end_exclusive ≤ length file
    → b.bytes ++ slice file r ≡ take (length (b.bytes ++ slice file r)) file
grown-agrees file b r p at inside =
    let n = r.end_exclusive - r.start in
    let size : offset b + n ≡ length (b.bytes ++ slice file r) =
      omega (arith, length-append b.bytes (slice file r), length-slice file r inside) in
    (λ i. p.agrees i ++ take n (drop (at i) file))
    ∙ sym (take-add (offset b) n file)
    ∙ ap (λ k. take k file) size

extend-IsPrefixOf :
    (file : List ℕ) (b : UploadBuffer) (r : ContentRange)
    → InBounds r
    → IsPrefixOf file b
    → r.total ≡ b.total
    → r.start ≡ offset b
    → IsPrefixOf file (extend b (slice file r))
extend-IsPrefixOf file b r bounds p t at =
    let inside : r.end_exclusive ≤ length file = omega arith in
    record {
      declared = p.declared;
      within = omega (arith, length-append b.bytes (slice file r), length-slice file r inside);
      agrees = grown-agrees file b r p at inside;
    }

append-IsPrefixOf :
    (file : List ℕ) (b : UploadBuffer) (r : ContentRange) (chunk : List ℕ)
    → IsSliceOf file (r, chunk)
    → IsPrefixOf file b
    → IsPrefixOf file (append b r chunk).0
append-IsPrefixOf file b r chunk (bounds, e) p = elim (append_effect b r chunk) [
  | inl same ↦ rw same p
  | inr (t, at, grown) ↦ rw (grown, e) (extend-IsPrefixOf file b r bounds p t at)
]

uploads-IsPrefixOf :
    (file : List ℕ) (b : UploadBuffer) (requests : List (ContentRange × List ℕ))
    → All (IsSliceOf file) requests
    → IsPrefixOf file b
    → IsPrefixOf file (uploads b requests)
unfolding uploads
uploads-IsPrefixOf file b [] h p = p
uploads-IsPrefixOf file b ((r, chunk) ∷ rest) h p =
    uploads-IsPrefixOf file (append b r chunk).0 rest h.1 (append-IsPrefixOf file b r chunk h.0 p)

-- Whatever slices of a file a client sends, in any order, with gaps, overlaps and retries, accepted or
-- not: the buffer holds a prefix of the file, and once it is complete it holds the file.
pub uploads_refine_file :
    (file : List ℕ) (requests : List (ContentRange × List ℕ))
    → All (IsSliceOf file) requests
    → let b = uploads (new (length file)) requests in
      (b.bytes ≡ take (offset b) file) × (is_complete b ≡ true → b.bytes ≡ file)
unfolding new
uploads_refine_file file requests h =
    let b = uploads (new (length file)) requests in
    let p : IsPrefixOf file b =
      uploads-IsPrefixOf file (new (length file)) requests h
        (record { declared = refl; within = omega arith; agrees = refl }) in
    (p.agrees, λ c. p.agrees ∙ take_all (offset b) file (whole b p c))
  where
    whole : (b : UploadBuffer) → IsPrefixOf file b → is_complete b ≡ true → length file ≤ offset b
    whole b p c = ground arith
