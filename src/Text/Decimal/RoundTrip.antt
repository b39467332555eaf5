-- ===== src/Text/Decimal/RoundTrip.antt =====
-- Decimal text: what `to_string` prints is read back, and what is read back was printed.
use native.Mathlib.Decide.{dec_lt}
use ftnl_backend_api_rs.Base.{
  ℕ, ◌+◌, ◌-◌, ◌*◌, ◌/◌, ◌%◌, ◌≤◌, ◌<◌, [], ◌∷◌, some, arith, ◌≡◌, All, ◌==◌, true, false, ap, sym,
  zero, suc, refl, ◌∙◌,
}
use ftnl_backend_api_rs.Text.{Str}
use ftnl_backend_api_rs.Text.Decimal.{u64_max, emit, digits, read_digits}

abbrev pub IsDigit : ℕ → Type 0
IsDigit c = (b'0' ≤ c) × (c ≤ b'9')

emit-zero : (fuel : ℕ) (out : Str) → emit fuel 0 out ≡ out
unfolding emit
emit-zero zero out = refl
emit-zero (suc fuel) out = refl

-- More fuel changes nothing.
emit_fuel : (f g n : ℕ) (out : Str) → n ≤ f → n ≤ g → emit f n out ≡ emit g n out
unfolding emit
emit_fuel zero g n out p q =
    let none_left : n ≡ 0 = omega arith in rw none_left (sym (emit-zero g out))
emit_fuel (suc f) zero n out p q = let none_left : n ≡ 0 = omega arith in rw none_left refl
emit_fuel (suc f) (suc g) n out p q = ground (arith, emit_fuel f g (n / 10) ((b'0' + n % 10) ∷ out))

emit_round :
    (f n : ℕ) (out : Str)
    → 0 < n
    → n ≤ suc f
    → emit (suc f) n out ≡ digits (n / 10) ((b'0' + n % 10) ∷ out)
unfolding emit digits
emit_round f n out p q =
    let more : (n == 0) ≡ false = ground arith in
    (λ i. elim (more i) [ true ↦ out | false ↦ emit f (n / 10) ((b'0' + n % 10) ∷ out) ])
    ∙ emit_fuel f (n / 10) (n / 10) ((b'0' + n % 10) ∷ out) (omega arith) (omega arith)

pub digits-zero : (out : Str) → digits 0 out ≡ out
unfolding digits
digits-zero out = refl

-- The recursion of the loop.
pub digits_pos :
    (n : ℕ) (out : Str) → 0 < n → digits n out ≡ digits (n / 10) ((b'0' + n % 10) ∷ out)
unfolding digits
digits_pos zero out h = elim h [ ]
digits_pos (suc n) out h = emit_round n (suc n) out h (omega arith)

-- One more digit behind a positive number.
digits_push :
    (n c : ℕ) (s : Str)
    → 0 < n * 10 + (c - b'0')
    → IsDigit c
    → digits (n * 10 + (c - b'0')) s ≡ digits n (c ∷ s)
digits_push n c s h d =
    digits_pos (n * 10 + (c - b'0')) s h ∙ (λ i. digits (quotient i) (last i ∷ s))
  where
    quotient : (n * 10 + (c - b'0')) / 10 ≡ n
    quotient = omega arith

    last : b'0' + (n * 10 + (c - b'0')) % 10 ≡ c
    last = omega arith

-- What the loop reads behind a positive number is printed back.
pub digits-read_digits :
    (n : ℕ) (s : Str) (r : ℕ)
    → 0 < n
    → n ≤ u64_max
    → read_digits n s ≡ some r
    → (digits r [] ≡ digits n s) × (r ≤ u64_max) × (0 < r)
unfolding read_digits
digits-read_digits n [] r p h e = ground arith
digits-read_digits n (c ∷ s) r p h e =
    ground (arith, digits-read_digits (n * 10 + (c - b'0')) s r, digits_push n c s)

-- A statement about the digits of a number follows from 0 and from one round.
digits_induction :
    (P : ℕ → Str → Str → Type 0)
    → ((out : Str) → P 0 out out)
    → ((n : ℕ) (out r : Str) → 0 < n → P (n / 10) ((b'0' + n % 10) ∷ out) r → P n out r)
    → (bound n : ℕ) (out : Str) → n ≤ bound
    → P n out (digits n out)
digits_induction P base round zero n out h =
    let none_left : n ≡ 0 = omega arith in rw (none_left, digits-zero) (base out)
digits_induction P base round (suc bound) n out h = elim (dec_lt 0 n) [
  | yes p ↦
      rw (digits_pos n out p)
        (round n out _ p (digits_induction P base round bound (n / 10) _ (omega arith)))
  | no p ↦ let none_left : n ≡ 0 = omega arith in rw (none_left, digits-zero) (base out)
]

read_round :
    (n : ℕ) (out r : Str)
    → (n / 10 ≤ u64_max → read_digits 0 r ≡ read_digits (n / 10) ((b'0' + n % 10) ∷ out))
    → n ≤ u64_max
    → read_digits 0 r ≡ read_digits n out
unfolding read_digits
read_round n out r ih fits = ground (arith, ih)

-- The loop of `from_str` reads the digits of a u64 as that number.
pub read_digits-digits :
    (n : ℕ) (out : Str) → n ≤ u64_max → read_digits 0 (digits n out) ≡ read_digits n out
read_digits-digits n out =
    digits_induction (λ m t r. m ≤ u64_max → read_digits 0 r ≡ read_digits m t) (λ t h. refl)
      (λ m t r p ih h. read_round m t r ih h) n n out (omega arith)

pub digits-IsDigit : (n : ℕ) (out : Str) → All IsDigit out → All IsDigit (digits n out)
digits-IsDigit n out =
    digits_induction (λ m t r. All IsDigit t → All IsDigit r) (λ t h. h)
      (λ m t r p ih h. ih (omega arith, h)) n n out (omega arith)

abbrev pub StartsNonzero : Str → Type 0
StartsNonzero s = (c : ℕ) × (t : Str) × (s ≡ c ∷ t) × (b'1' ≤ c) × (c ≤ b'9')

first_digit :
    (n : ℕ) (out r : Str)
    → 0 < n
    → r ≡ digits n out
    → (0 < n / 10 → StartsNonzero r)
    → StartsNonzero r
first_digit n out r p e ih = elim (dec_lt 9 n) [
  | yes h ↦ ih (omega arith)
  | no h ↦ (
    b'0' + n % 10,
    out,
    e
        ∙ digits_pos n out p
        ∙ ap (λ k. digits k ((b'0' + n % 10) ∷ out)) (omega arith)
        ∙ digits-zero _,
    omega arith,
    omega arith,
  )
]

-- A positive number is printed without a leading zero.
pub digits-StartsNonzero : (n : ℕ) (out : Str) → 0 < n → StartsNonzero (digits n out)
digits-StartsNonzero n out p =
    (digits_induction (λ m t r. (r ≡ digits m t) × (0 < m → StartsNonzero r))
        (λ t. (sym (digits-zero t), λ h. elim h [ ]))
        (λ m t r q ih.
          let e = ih.0 ∙ sym (digits_pos m t q) in (e, λ h. first_digit m t r q e ih.1))
        n n out (omega arith)).1
      p
