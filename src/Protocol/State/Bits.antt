-- ===== src/Protocol/State/Bits.antt =====
-- The two low bits of a `u8` as a subset of two elements.
use Prim.Native.Nat.{bit_and, bit_or}
use ftnl_backend_api_rs.Base.{
  ℕ, zero, suc, ◌<◌, Bool, true, false, ◌&&◌, ◌≡◌, refl, ap, sym, ◌∙◌, arith,
}
use ftnl_backend_api_rs.Protocol.Quint.{Element, one, two, Subset, none_of, member, insert, remove}
use ftnl_backend_api_rs.Protocol.State.{bit_not, one_shl, is_subset, has_bit}

unfoldable pub set_of : ℕ → Subset
unfolding has_bit
set_of x = record { has_one = has_bit x 1; has_two = has_bit x 2 }

-- The element that an index below two stands for.
unfoldable pub element : ℕ → Element
element zero = one
element (suc i) = two

pub below_four : (P : ℕ → Type 0) → P 0 → P 1 → P 2 → P 3 → (x : ℕ) → x < 4 → P x
below_four P a b c d zero h = a
below_four P a b c d (suc zero) h = b
below_four P a b c d (suc (suc zero)) h = c
below_four P a b c d (suc (suc (suc zero))) h = d
below_four P a b c d (suc (suc (suc (suc x)))) h = absurd (omega arith)

below_two : (P : ℕ → Type 0) → P 0 → P 1 → (i : ℕ) → i < 2 → P i
below_two P a b zero h = a
below_two P a b (suc zero) h = b
below_two P a b (suc (suc i)) h = absurd (omega arith)

-- A statement about a set and an index, checked at each of them.
pub set_index :
    (P : ℕ → ℕ → Type 0)
    → P 0 0
    → P 0 1
    → P 1 0
    → P 1 1
    → P 2 0
    → P 2 1
    → P 3 0
    → P 3 1
    → (x i : ℕ) → x < 4
    → i < 2
    → P x i
set_index P a b c d e f g h x i hx hi =
    below_four (λ y. P y i) (below_two (P 0) a b i hi) (below_two (P 1) c d i hi)
      (below_two (P 2) e f i hi) (below_two (P 3) g h i hi) x hx

pub set_of-or :
    (x i : ℕ) → x < 4 → i < 2 → set_of (bit_or x (one_shl i)) ≡ insert (element i) (set_of x)
unfolding set_of element
set_of-or =
    set_index (λ x i. set_of (bit_or x (one_shl i)) ≡ insert (element i) (set_of x)) refl refl refl
      refl refl refl refl refl

pub or-lt-four : (x i : ℕ) → x < 4 → i < 2 → bit_or x (one_shl i) < 4
or-lt-four =
    set_index (λ x i. bit_or x (one_shl i) < 4) (omega arith) (omega arith) (omega arith)
      (omega arith) (omega arith) (omega arith) (omega arith) (omega arith)

pub set_of-and_not :
    (x i : ℕ)
    → x < 4
    → i < 2
    → set_of (bit_and x (bit_not (one_shl i))) ≡ remove (element i) (set_of x)
unfolding set_of element
set_of-and_not =
    set_index (λ x i. set_of (bit_and x (bit_not (one_shl i))) ≡ remove (element i) (set_of x)) refl
      refl refl refl refl refl refl refl

pub and_not-lt-four : (x i : ℕ) → x < 4 → i < 2 → bit_and x (bit_not (one_shl i)) < 4
and_not-lt-four =
    set_index (λ x i. bit_and x (bit_not (one_shl i)) < 4) (omega arith) (omega arith) (omega arith)
      (omega arith) (omega arith) (omega arith) (omega arith) (omega arith)

pub member-set_of :
    (x i : ℕ) → x < 4 → i < 2 → member (element i) (set_of x) ≡ has_bit x (one_shl i)
unfolding set_of element
member-set_of =
    set_index (λ x i. member (element i) (set_of x) ≡ has_bit x (one_shl i)) refl refl refl refl
      refl refl refl refl

-- A set below four is given by its elements.
abbrev number_of : Subset → ℕ
number_of s = elim s.has_one [
  | true ↦ elim s.has_two [ true ↦ 3 | false ↦ 1 ]
  | false ↦ elim s.has_two [ true ↦ 2 | false ↦ 0 ]
]

number_of-set_of : (x : ℕ) → x < 4 → number_of (set_of x) ≡ x
unfolding set_of
number_of-set_of = below_four (λ x. number_of (set_of x) ≡ x) refl refl refl refl

pub set_of-injective : (x y : ℕ) → x < 4 → y < 4 → set_of x ≡ set_of y → x ≡ y
set_of-injective x y hx hy e = sym (number_of-set_of x hx) ∙ ap number_of e ∙ number_of-set_of y hy

pub set_of-zero : set_of 0 ≡ none_of
unfolding set_of
set_of-zero = refl

-- Two sets below four, checked at each pair.
set_pair :
    (P : ℕ → ℕ → Type 0)
    → ((x : ℕ) → x < 4 → P x 0)
    → ((x : ℕ) → x < 4 → P x 1)
    → ((x : ℕ) → x < 4 → P x 2)
    → ((x : ℕ) → x < 4 → P x 3)
    → (x y : ℕ) → x < 4
    → y < 4
    → P x y
set_pair P a b c d x y hx hy = below_four (P x) (a x hx) (b x hx) (c x hx) (d x hx) y hy

-- `left & !right == 0` is inclusion.
abbrev implies : Bool → Bool → Bool
implies true b = b
implies false b = true

abbrev pub includes : Subset → Subset → Bool
includes s t = implies s.has_one t.has_one && implies s.has_two t.has_two

abbrev IsInclusion : ℕ → ℕ → Type 0
IsInclusion x y = is_subset x y ≡ includes (set_of x) (set_of y)

pub is_subset-set_of : (x y : ℕ) → x < 4 → y < 4 → is_subset x y ≡ includes (set_of x) (set_of y)
unfolding is_subset set_of
is_subset-set_of =
    set_pair IsInclusion (below_four (λ x. IsInclusion x 0) refl refl refl refl)
      (below_four (λ x. IsInclusion x 1) refl refl refl refl)
      (below_four (λ x. IsInclusion x 2) refl refl refl refl)
      (below_four (λ x. IsInclusion x 3) refl refl refl refl)

pub is_subset_three : (x : ℕ) → x < 4 → is_subset x 3 ≡ true
unfolding is_subset
is_subset_three = below_four (λ x. is_subset x 3 ≡ true) refl refl refl refl
