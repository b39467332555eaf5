-- ===== src/Server/RoundTrip/Body.antt =====
-- The loop of `upload_file` in src/lib.rs that reads the request body.
use ftnl_backend_api_rs.Base.{
  ℕ, ◌+◌, ◌≤◌, List, [], ◌∷◌, ◌++◌, append-nil, append_assoc, Option, none, some, length,
  length-append, map, flatten, ◌≡◌, ◌↔◌, refl, sym, ap, ◌∙◌, ok, arith, reject_if-eq-ok,
}
use ftnl_backend_api_rs.Text.Decimal.{u64_max}
use ftnl_backend_api_rs.Resumable.Range.{ContentRange}
use ftnl_backend_api_rs.Server.Transfers.{read_body}

module _ (range : ContentRange) (expected : ℕ) where
  -- Chunks of the right total length are read whole.
  pub read_body_lem :
      (bytes : List ℕ) (chunks : List (List ℕ))
      → expected ≤ u64_max
      → length bytes + length (flatten chunks) ≡ expected
      → read_body range expected bytes (map some chunks) ≡ ok (bytes ++ flatten chunks)
  unfolding read_body
  read_body_lem bytes [] fits e = ground (arith, append-nil bytes)
  read_body_lem bytes (chunk ∷ chunks) fits e = ground (
    arith,
    length-append bytes chunk,
    length-append chunk (flatten chunks),
    append_assoc bytes chunk (flatten chunks),
    read_body_lem (bytes ++ chunk) chunks,
  )

  read_body-eq-ok :
      (bytes : List ℕ) (body : List (Option (List ℕ))) (result : List ℕ)
      → read_body range expected bytes body ≡ ok result
      → (chunks : List (List ℕ)) × (body ≡ map some chunks)
        × (result ≡ bytes ++ flatten chunks)
        × (length result ≡ expected)
  unfolding read_body
  read_body-eq-ok bytes [] result h = ([], refl, ground (arith, append-nil bytes), ground arith)
  read_body-eq-ok bytes (none ∷ body) result h = absurd (ground arith)
  read_body-eq-ok bytes (some chunk ∷ body) result h =
      let (_, rest) = reject_if-eq-ok _ _ _ h in
      let (chunks, same, grown, size) = read_body-eq-ok (bytes ++ chunk) body result rest in
      (
        chunk ∷ chunks,
        ap (◌∷◌ (some chunk)) same,
        grown ∙ append_assoc bytes chunk (flatten chunks),
        size,
      )

-- The body is accepted exactly when each of its chunks could be read and together they have the length
-- of the range; the bytes are then those of the chunks in their order.
pub read_body_iff :
    (range : ContentRange) (expected : ℕ) (body : List (Option (List ℕ))) (bytes : List ℕ)
    → expected ≤ u64_max
    → (read_body range expected [] body ≡ ok bytes) ↔ (
        (chunks : List (List ℕ)) × (body ≡ map some chunks)
        × (bytes ≡ flatten chunks)
        × (length bytes ≡ expected))
read_body_iff range expected body bytes fits = (
  read_body-eq-ok range expected [] body bytes,
  λ (chunks, same, joined, size).
      ap (read_body range expected []) same
      ∙ read_body_lem range expected [] chunks fits (omega (arith, ap length joined, size))
      ∙ ap ok (sym joined),
)
