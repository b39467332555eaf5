-- ===== src/Declaration/Decision.antt =====
-- What `validate_declaration` decides, and why it rejects.
use mathlib.Core.List.{cons-ne-nil}
use ftnl_backend_api_rs.Base.{
  ℕ, ◌≤◌, ◌<◌, true, false, ◌||◌, not, List, [], ◌∷◌, ◌++◌, Option, none, some, any, all, ltb, leb,
  ◌==◌, ==_iff, length, All, Result, ok, err, ◌>>◌, reject_if, ◌≡◌, ◌≢◌, refl, sym, ap, ◌∙◌, ◌⊎◌,
  inl, inr, ◌↔◌, arith, or_false, not-false, reject_if-eq-ok, reject_if-eq-err,
}
use ftnl_backend_api_rs.Text.{Str, len, bytes, is_control, is_ascii_hexdigit, len_utf8, encode_utf8}
use ftnl_backend_api_rs.Declaration.{
  DeclarationPolicy, FileDeclaration, DeclarationRejection, invalid_name, file_limit_reached,
  file_too_large, unsupported_media, invalid_sha256, media_is_accepted, name_is_invalid,
  digest_is_invalid, validate_declaration,
}
use ftnl_backend_api_rs.Declaration.Media.{Any, Matches, media_is_accepted_iff}

abbrev pub IsControl : ℕ → Type 0
IsControl c = (c ≤ 0x1f) ⊎ ((0x7f ≤ c) × (c ≤ 0x9f))

abbrev pub IsHexDigit : ℕ → Type 0
IsHexDigit c = ((b'0' ≤ c) × (c ≤ b'9')) ⊎ ((b'a' ≤ c) × (c ≤ b'f')) ⊎ ((b'A' ≤ c) × (c ≤ b'F'))

-- A name of 1 to 255 bytes without control characters.
abbrev pub NameIsPrintable : Str → Type 0
NameIsPrintable name = (name ≢ []) × (len name ≤ 255) × All (λ c. ¬ IsControl c) name

-- No digest, or 64 hexadecimal characters.
abbrev pub DigestIsHex : Option Str → Type 0
DigestIsHex none = Unit
DigestIsHex (some digest) = (length digest ≡ 64) × All IsHexDigit digest

no-IsControl : (s : Str) → any (λ c. c == 0 || is_control c) s ≡ false → All (λ c. ¬ IsControl c) s
no-IsControl [] h = tt
no-IsControl (c ∷ s) h =
    let (here, rest) = or_false (c == 0 || is_control c) _ h in
    ((λ k. ground arith), no-IsControl s rest)

control_free : (s : Str) → All (λ c. ¬ IsControl c) s → any (λ c. c == 0 || is_control c) s ≡ false
control_free [] h = refl
control_free (c ∷ s) h = rw (not_control c h.0) (control_free s h.1)
  where
    not_control : (d : ℕ) → ¬ IsControl d → (d == 0 || is_control d) ≡ false
    not_control d k = ground arith

name_iff : (name : Str) → (name_is_invalid name ≡ false) ↔ NameIsPrintable name
name_iff [] = (λ h. cc, λ h. absurd (h.0 refl))
name_iff (c ∷ s) = (
  λ h.
      let (short, clean) = or_false (ltb 255 (len (c ∷ s))) _ h in
      (cons-ne-nil c s, ground arith, no-IsControl (c ∷ s) clean),
  λ h. rw (control_free (c ∷ s) h.2) (ground (arith, h.1)),
)

-- The UTF-8 encoding of a character is a hexadecimal digit only if the character is one.
hex_char :
    (c : ℕ) (t : List ℕ)
    → all is_ascii_hexdigit (encode_utf8 c ++ t) ≡ true
    → IsHexDigit c × (len_utf8 c ≡ 1) × (all is_ascii_hexdigit t ≡ true)
hex_char c t h = ground arith

char_hex :
    (c : ℕ) (t : List ℕ)
    → IsHexDigit c
    → (all is_ascii_hexdigit (encode_utf8 c ++ t) ≡ all is_ascii_hexdigit t) × (len_utf8 c ≡ 1)
char_hex c t h = ground arith

hex_text :
    (s : Str) → all is_ascii_hexdigit (bytes s) ≡ true → All IsHexDigit s × (len s ≡ length s)
hex_text [] h = (tt, refl)
hex_text (c ∷ s) h =
    let (digit, one, rest) = hex_char c (bytes s) h in
    let (digits, size) = hex_text s rest in ((digit, digits), omega arith)

hex_bytes :
    (s : Str) → All IsHexDigit s → (all is_ascii_hexdigit (bytes s) ≡ true) × (len s ≡ length s)
hex_bytes [] h = (refl, refl)
hex_bytes (c ∷ s) h =
    let (rest, size) = hex_bytes s h.1 in
    let (same, one) = char_hex c (bytes s) h.0 in (same ∙ rest, omega arith)

digest_iff : (d : Option Str) → (digest_is_invalid d ≡ false) ↔ DigestIsHex d
digest_iff none = (λ h. tt, λ h. refl)
digest_iff (some digest) = (
  λ h.
      let (size, chars) = or_false (not (len digest == 64)) _ h in
      let (hex, same) = hex_text digest (not-false _ chars) in
      (sym same ∙ (==_iff (len digest) 64).0 (not-false _ size), hex),
  λ h. let (hex, same) = hex_bytes digest h.1 in rw hex (ground (arith, same, h.0)),
)

-- The conditions in the order in which they are tried.
module _ (p : DeclarationPolicy) (d : FileDeclaration) where
  abbrev pub RoomLeft : Type 0
  RoomLeft = p.current_files < p.max_files

  abbrev pub SizeFits : Type 0
  SizeFits = d.size_bytes ≤ p.max_file_bytes

  abbrev pub MediaMatches : Type 0
  MediaMatches = Any (Matches d.media_type) p.accepted_media

  -- A declaration is accepted exactly when its name is printable, a file is left under the limit, its
  -- size is within the limit, a pattern matches its type, and its digest, if given, is hexadecimal.
  pub validate_declaration_iff :
      (validate_declaration p d ≡ ok tt)
      ↔ (NameIsPrintable d.name × RoomLeft × SizeFits × MediaMatches × DigestIsHex d.sha256)
  unfolding validate_declaration
  validate_declaration_iff = (
    λ h.
        let (a, h1) = reject_if-eq-ok (name_is_invalid d.name) _ _ h in
        let (b, h2) = reject_if-eq-ok (leb p.max_files p.current_files) _ _ h1 in
        let (c, h3) = reject_if-eq-ok (ltb p.max_file_bytes d.size_bytes) _ _ h2 in
        let (m, h4) =
          reject_if-eq-ok (not (media_is_accepted p.accepted_media d.media_type)) _ _ h3 in
        let (s, _) = reject_if-eq-ok (digest_is_invalid d.sha256) _ _ h4 in
        (
          (name_iff d.name).0 a,
          ground arith,
          ground arith,
          (media_is_accepted_iff p.accepted_media d.media_type).0 (not-false _ m),
          (digest_iff d.sha256).0 s,
        ),
    λ h.
        rw
          (
            (name_iff d.name).1 h.0,
            (media_is_accepted_iff p.accepted_media d.media_type).1 h.3,
            (digest_iff d.sha256).1 h.4,
          )
          (ground (arith, h.1, h.2)),
  )

  -- What is wrong with a declaration that is rejected for a reason: that condition fails, and those
  -- that are tried before it hold.
  abbrev pub Explains : DeclarationRejection → Type 0
  Explains invalid_name = ¬ NameIsPrintable d.name
  Explains file_limit_reached = NameIsPrintable d.name × ¬ RoomLeft
  Explains file_too_large = NameIsPrintable d.name × RoomLeft × ¬ SizeFits
  Explains unsupported_media = NameIsPrintable d.name × RoomLeft × SizeFits × ¬ MediaMatches
  Explains invalid_sha256 =
      NameIsPrintable d.name × RoomLeft × SizeFits × MediaMatches × ¬ DigestIsHex d.sha256

  abbrev late_checks : Result (Unit {0}) DeclarationRejection
  late_checks = do
    reject_if (not (media_is_accepted p.accepted_media d.media_type)) unsupported_media
    reject_if (digest_is_invalid d.sha256) invalid_sha256
    ok tt

  rejection_late :
      (e : DeclarationRejection)
      → NameIsPrintable d.name
      → RoomLeft
      → SizeFits
      → late_checks ≡ err e
      → Explains e
  rejection_late e name room fits h =
      elim (reject_if-eq-err (not (media_is_accepted p.accepted_media d.media_type)) _ _ h) [
        | inl (t, q) ↦ rw q (
          name,
          room,
          fits,
          λ n. cc (t, ap not ((media_is_accepted_iff p.accepted_media d.media_type).1 n)),
        )
        | inr (t3, h4) ↦
            let media = (media_is_accepted_iff p.accepted_media d.media_type).0 (not-false _ t3) in
            elim (reject_if-eq-err (digest_is_invalid d.sha256) _ _ h4) [
              | inl (t, q) ↦ rw q (name, room, fits, media, λ n. cc (t, (digest_iff d.sha256).1 n))
              | inr (_, none_left) ↦ absurd (ground arith)
            ]
      ]

  -- A rejection names the first condition, in the order of the source, that does not hold.
  pub rejection-Explains :
      (e : DeclarationRejection) → validate_declaration p d ≡ err e → Explains e
  unfolding validate_declaration
  rejection-Explains e h0 = elim (reject_if-eq-err (name_is_invalid d.name) _ _ h0) [
    | inl (t, q) ↦ rw q (λ n. cc (t, (name_iff d.name).1 n))
    | inr (t0, h1) ↦
        let name = (name_iff d.name).0 t0 in
        elim (reject_if-eq-err (leb p.max_files p.current_files) _ _ h1) [
          | inl (t, q) ↦ rw q (name, λ n. ground arith)
          | inr (t1, h2) ↦
              let room : RoomLeft = ground arith in
              elim (reject_if-eq-err (ltb p.max_file_bytes d.size_bytes) _ _ h2) [
                | inl (t, q) ↦ rw q (name, room, λ n. ground arith)
                | inr (t2, h3) ↦
                    let fits : SizeFits = ground arith in rejection_late e name room fits h3
              ]
        ]
  ]
