-- ===== src/Resumable/Number/Canonical.antt =====
-- `parse_u64` accepts the canonical decimal spelling of each u64, and nothing else.
use native.Mathlib.Decide.{dec_lt}
use ftnl_backend_api_rs.Base.{
  ℕ, ◌/◌, ◌%◌, zero, suc, ◌+◌, ◌-◌, ◌≤◌, ◌<◌, true, false, ◌&&◌, [], ◌∷◌, some, arith, ◌≡◌, ◌≢◌,
  ◌↔◌, refl, sym, ◌∙◌, ap, ◌↔◌, inl, inr, All, all, ltb, ◌==◌, Bool-cases, if_none, or_false,
  not-false, not,
}
use ftnl_backend_api_rs.Text.{Str, len, bytes, is_ascii_digit, codes, starts_with}
use ftnl_backend_api_rs.Text.Decimal.{u64_max, digits, decimal, read_digits, from_str}
use ftnl_backend_api_rs.Text.Decimal.RoundTrip.{
  IsDigit, digits-zero, digits_pos, digits-read_digits, read_digits-digits, digits-IsDigit,
  digits-StartsNonzero,
}
use ftnl_backend_api_rs.Resumable.Number.{parse_u64}

all_digit_bytes : (s : Str) → All IsDigit s → all is_ascii_digit (bytes s) ≡ true
all_digit_bytes [] h = refl
all_digit_bytes (c ∷ s) h = ground (arith, all_digit_bytes s h.1)

IsDigit-bytes : (s : Str) → all is_ascii_digit (bytes s) ≡ true → All IsDigit s
IsDigit-bytes [] h = tt
IsDigit-bytes (c ∷ s) h = (ground arith, IsDigit-bytes s (ground arith))

len_pos : (c : ℕ) (s : Str) → 0 < len (c ∷ s)
len_pos c s = ground arith

pub decimal-IsDigit : (n : ℕ) → All IsDigit (decimal n)
unfolding decimal
decimal-IsDigit n = elim (Bool-cases (n == 0)) [
  | inl e ↦ rw e (omega arith)
  | inr e ↦ rw e (digits-IsDigit n [] tt)
]

read_pos :
    (c : ℕ) (s : Str)
    → b'1' ≤ c
    → c ≤ b'9'
    → All IsDigit s
    → parse_u64 (c ∷ s) ≡ read_digits 0 (c ∷ s)
unfolding parse_u64 from_str
read_pos c s p q h = ground (arith, all_digit_bytes s h)

read_end : (m : ℕ) (t : Str) (n : ℕ) → t ≡ [] → read_digits m t ≡ some n → n ≡ m
unfolding read_digits
read_end m t n e h = ground arith

parse_u64-zero : parse_u64 (b'0' ∷ []) ≡ some 0
unfolding parse_u64 from_str
parse_u64-zero = refl

parse_pos : (n : ℕ) → 0 < n → n ≤ u64_max → parse_u64 (digits n []) ≡ some n
unfolding read_digits
parse_pos n p h =
    let (c, s, e, lo, hi) = digits-StartsNonzero n [] p in
    let ds : All IsDigit (c ∷ s) = rw e at (digits-IsDigit n [] tt) in
    ap parse_u64 e
    ∙ read_pos c s lo hi ds.1
    ∙ sym (ap (read_digits 0) e)
    ∙ read_digits-digits n [] h

decimal-zero : decimal 0 ≡ b'0' ∷ []
unfolding decimal
decimal-zero = refl

pub decimal_pos : (n : ℕ) → 0 < n → decimal n ≡ digits n []
unfolding decimal
decimal_pos n h = ground arith

-- Each u64 is read back from its decimal print.
pub parse_u64-decimal : (n : ℕ) → n ≤ u64_max → parse_u64 (decimal n) ≡ some n
parse_u64-decimal zero h = ap parse_u64 decimal-zero ∙ parse_u64-zero
parse_u64-decimal (suc n) h =
    ap parse_u64 (decimal_pos (suc n) (omega arith)) ∙ parse_pos (suc n) (omega arith) h

-- What `parse_u64` has checked when it returns a number.
parse_u64-eq-some :
    (c : ℕ) (s : Str) (n : ℕ)
    → parse_u64 (c ∷ s) ≡ some n
    → All IsDigit (c ∷ s) × (c ≡ b'0' → s ≡ []) × (read_digits 0 (c ∷ s) ≡ some n)
unfolding parse_u64 from_str
parse_u64-eq-some c s n h =
    let (guard, e) = if_none _ (from_str (c ∷ s)) h in
    let (short, ascii) = or_false _ (not (all is_ascii_digit (bytes (c ∷ s)))) guard in
    let ds = IsDigit-bytes (c ∷ s) (not-false _ ascii) in (ds, alone s short, from_digits ds.0 e)
  where
    alone :
        (t : Str)
        → (ltb 1 (len (c ∷ t)) && starts_with (codes "0") (c ∷ t)) ≡ false
        → c ≡ b'0'
        → t ≡ []
    alone [] g z = refl
    alone (d ∷ t) g z = ground (arith, len_pos c t, len_pos d t)

    from_digits : IsDigit c → from_str (c ∷ s) ≡ some n → read_digits 0 (c ∷ s) ≡ some n
    from_digits d e = ground arith

decimal-digit : (c n : ℕ) → IsDigit c → n ≡ c - b'0' → decimal n ≡ c ∷ []
decimal-digit c zero d e = decimal-zero ∙ ap (λ k. k ∷ []) (omega arith)
decimal-digit c (suc n) d e =
    decimal_pos (suc n) (omega arith)
    ∙ digits_pos (suc n) [] (omega arith)
    ∙ (λ i. digits (quotient i) (last i ∷ []))
    ∙ digits-zero (c ∷ [])
  where
    quotient : suc n / 10 ≡ 0
    quotient = omega arith

    last : b'0' + suc n % 10 ≡ c
    last = omega arith

digits_head : (c : ℕ) (s : Str) → IsDigit c → b'0' < c → digits (c - b'0') s ≡ c ∷ s
digits_head c s d p =
    digits_pos (c - b'0') s (omega arith)
    ∙ (λ i. digits (quotient i) (last i ∷ s))
    ∙ digits-zero (c ∷ s)
  where
    quotient : (c - b'0') / 10 ≡ 0
    quotient = omega arith

    last : b'0' + (c - b'0') % 10 ≡ c
    last = omega arith

read_first : (c : ℕ) (s : Str) → IsDigit c → read_digits 0 (c ∷ s) ≡ read_digits (c - b'0') s
unfolding read_digits
read_first c s d = ground arith

-- A text that is read is the decimal print of its number.
pub decimal-parse_u64 : (s : Str) (n : ℕ) → parse_u64 s ≡ some n → (s ≡ decimal n) × (n ≤ u64_max)
unfolding parse_u64
decimal-parse_u64 [] n h = cc
decimal-parse_u64 (c ∷ s) n h =
    let (ds, zeros, e) = parse_u64-eq-some c s n h in
    elim (dec_lt b'0' c) [
      | yes p ↦
          let (back, fits, positive) =
            digits-read_digits (c - b'0') s n (omega arith) (omega arith)
              (sym (read_first c s ds.0) ∙ e) in
          (sym (decimal_pos n positive ∙ back ∙ digits_head c s ds.0 p), fits)
      | no p ↦
          let nil : s ≡ [] = zeros (omega arith) in
          let last : n ≡ c - b'0' = number s nil (sym (read_first c s ds.0) ∙ e) in
          (ap (◌∷◌ c) nil ∙ sym (decimal-digit c n ds.0 last), omega arith)
    ]
  where
    number : (t : Str) → t ≡ [] → read_digits (c - b'0') t ≡ some n → n ≡ c - b'0'
    number t nil r = ground (arith, read_end (c - b'0') t n nil r)

pub decimal-ne-nil : (n : ℕ) → decimal n ≢ []
decimal-ne-nil zero e = cc (sym decimal-zero ∙ e)
decimal-ne-nil (suc n) e =
    let (c, s, q, _, _) = digits-StartsNonzero (suc n) [] (omega arith) in
    cc (sym q ∙ sym (decimal_pos (suc n) (omega arith)) ∙ e)

-- A text is read as a number exactly when it is the decimal print of that number, without sign or
-- leading zero, and the number fits a u64.
pub parse_u64_iff : (s : Str) (n : ℕ) → (parse_u64 s ≡ some n) ↔ ((s ≡ decimal n) × (n ≤ u64_max))
parse_u64_iff s n = (decimal-parse_u64 s n, λ h. ap parse_u64 h.0 ∙ parse_u64-decimal n h.1)
