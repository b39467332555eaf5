-- ===== src/Text/Laws.antt =====
-- Laws of the text methods: prefixes, splitting at a character, trimming, equality.
use mathlib.Core.List.{reverse, reverse-reverse, reverse-append}
use ftnl_backend_api_rs.Base.{
  ℕ, Bool, true, false, ◌&&◌, [], ◌∷◌, ◌++◌, some, none, arith, ◌≡◌, refl, sym, ap, ◌∙◌, ◌≢◌, ◌↔◌,
  inl, inr, All, all, Option, Option-cases,
}
use ftnl_backend_api_rs.Text.{
  Str, bytes, is_ascii_digit, is_whitespace, str_eq, strip_prefix, strip_suffix, starts_with,
  split_once, contains, trim_start, trim_end, trim, reverse_some,
}

abbrev pub Lacks : ℕ → Str → Type 0
Lacks c = All (λ d. d ≢ c)

pub strip_prefix-append : (p s : Str) → strip_prefix p (p ++ s) ≡ some s
strip_prefix-append [] s = refl
strip_prefix-append (c ∷ p) s = ground (arith, strip_prefix-append p s)

pub strip_prefix-eq-some : (p s : Str) {r : Str} → strip_prefix p s ≡ some r → s ≡ p ++ r
strip_prefix-eq-some [] s h = ground arith
strip_prefix-eq-some (c ∷ p) [] h = cc
strip_prefix-eq-some (c ∷ p) (d ∷ s) {r} h = ground (arith, strip_prefix-eq-some p s {r = r})

pub starts_with-append : (p s : Str) → starts_with p (p ++ s) ≡ true
starts_with-append [] s = refl
starts_with-append (c ∷ p) s = ground (arith, starts_with-append p s)

pub starts_with-eq-true : (p s : Str) → starts_with p s ≡ true → (r : Str) × (s ≡ p ++ r)
starts_with-eq-true [] s h = (s, refl)
starts_with-eq-true (c ∷ p) [] h = cc
starts_with-eq-true (c ∷ p) (d ∷ s) h =
    let rest = starts_with-eq-true p s (ground arith) in (rest.0, ground (arith, rest.1))

pub strip_suffix-append : (s p : Str) → strip_suffix p (s ++ p) ≡ some s
unfolding strip_suffix
strip_suffix-append s p =
    rw (reverse-append s p, strip_prefix-append (reverse p) (reverse s))
      (ap some (reverse-reverse s))

reverse_some-eq-some : (o : Option Str) {r : Str} → reverse_some o ≡ some r → o ≡ some (reverse r)
reverse_some-eq-some none h = cc
reverse_some-eq-some (some s) {r} h = ground (arith, reverse-reverse s)

pub strip_suffix-eq-some : (p s : Str) {r : Str} → strip_suffix p s ≡ some r → s ≡ r ++ p
unfolding strip_suffix
strip_suffix-eq-some p s {r} h =
    sym (reverse-reverse s)
    ∙ ap reverse (
        strip_prefix-eq-some (reverse p) (reverse s)
          (reverse_some-eq-some (strip_prefix (reverse p) (reverse s)) h))
    ∙ reverse-append (reverse p) (reverse r)
    ∙ (λ i. reverse-reverse r i ++ reverse-reverse p i)

pub split_once-append : (c : ℕ) (a b : Str) → Lacks c a → split_once c (a ++ c ∷ b) ≡ some (a, b)
split_once-append c [] b h = ground arith
split_once-append c (d ∷ a) b h = ground (arith, split_once-append c a b h.1)

split_once-ne-nil :
    (c d : ℕ) (s a b : Str) → split_once c (d ∷ s) ≡ some ([], b) → (d ≡ c) × (s ≡ b)
split_once-ne-nil c d s a b h = go (split_once c s) refl
  where
    go : (o : Option (Str × Str)) → split_once c s ≡ o → (d ≡ c) × (s ≡ b)
    go none e = (ground arith, ground arith)
    go (some (u, v)) e = (ground arith, ground arith)

-- A split is the text before the first separator and the text behind it.
pub split_once-eq-some :
    (c : ℕ) (s a b : Str) → split_once c s ≡ some (a, b) → (s ≡ a ++ c ∷ b) × Lacks c a
split_once-eq-some c [] a b h = cc
split_once-eq-some c (d ∷ s) [] b h =
    let e = split_once-ne-nil c d s [] b h in ((λ i. e.0 i ∷ e.1 i), tt)
split_once-eq-some c (d ∷ s) (x ∷ a) b h = elim (Option-cases (split_once c s)) [
  | inl e ↦ absurd (ground arith)
  | inr ((u, v), e) ↦
      let ih = split_once-eq-some c s a b (ground arith) in
      (ground (arith, ih.0), (ground arith, ih.1))
]

pub contains_lem : (c : ℕ) (s : Str) → (contains c s ≡ false) ↔ Lacks c s
contains_lem c [] = (λ h. tt, λ h. refl)
contains_lem c (d ∷ s) = (
  λ h. (ground arith, (contains_lem c s).0 (ground arith)),
  λ h. ground (arith, (contains_lem c s).1 h.1, h.0),
)

pub str_eq_iff : (s t : Str) → (str_eq s t ≡ true) ↔ (s ≡ t)
str_eq_iff [] [] = (λ h. refl, λ h. refl)
str_eq_iff [] (d ∷ t) = (λ h. cc, λ h. cc)
str_eq_iff (c ∷ s) [] = (λ h. cc, λ h. cc)
str_eq_iff (c ∷ s) (d ∷ t) =
    (λ h. ground (arith, (str_eq_iff s t).0), λ h. ground (arith, (str_eq_iff s t).1))

-- Only an ASCII text encodes to ASCII digits.
all_bytes-IsDigit :
    (c : ℕ) (s : Str)
    → all is_ascii_digit (bytes (c ∷ s)) ≡ (is_ascii_digit c && all is_ascii_digit (bytes s))
all_bytes-IsDigit c s = ground arith

trim_start-cons : (p : ℕ → Bool) (c : ℕ) (s : Str) → p c ≡ false → trim_start p (c ∷ s) ≡ c ∷ s
trim_start-cons p c s h = rw h

-- A text that begins and ends with other characters is not trimmed.
pub trim_lem :
    (c : ℕ) (s : Str) (d : ℕ)
    → is_whitespace c ≡ false
    → is_whitespace d ≡ false
    → trim (c ∷ s ++ d ∷ []) ≡ c ∷ s ++ d ∷ []
unfolding trim trim_end
trim_lem c s d hc hd =
    ap (λ t. reverse (trim_start is_whitespace (reverse t)))
      (trim_start-cons is_whitespace c (s ++ d ∷ []) hc)
    ∙ ap (λ t. reverse (trim_start is_whitespace t)) (reverse-append (c ∷ s) (d ∷ []))
    ∙ ap reverse (trim_start-cons is_whitespace d (reverse (c ∷ s)) hd)
    ∙ ap reverse (sym (reverse-append (c ∷ s) (d ∷ [])))
    ∙ reverse-reverse (c ∷ s ++ d ∷ [])
