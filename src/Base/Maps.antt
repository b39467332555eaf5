-- ===== src/Base/Maps.antt =====
-- `HashMap` as an association list, with an equality test for its keys. An overwritten entry keeps its
-- place, and a new one goes to the end.
use Prim.Native.Nat.{◌+◌, ◌≤◌}
use mathlib.Core.Path.{◌≡◌, refl, sym, ◌∙◌, subst}
use mathlib.Core.Logic.{◌⊎◌, ◌↔◌, inl, inr}
use mathlib.Core.Bool.{Bool, true, false}
use mathlib.Core.List.{List, [], ◌∷◌}
use mathlib.Core.Option.{Option, none, some, some-injective}
use native.Mathlib.Omega.{arith}
use ftnl_backend_api_rs.Base.Tests.{if◌then◌else◌, Bool-cases}
use ftnl_backend_api_rs.Base.Lists.{length, All, all}

module _ {ℓ κ} {K : Type ℓ} {V : Type κ} (eq : K → K → Bool) where
  unfoldable pub get : K → List (K × V) → Option V
  get k [] = none
  get k ((j, v) ∷ m) = if eq j k then some v else get k m

  unfoldable pub put : K → V → List (K × V) → List (K × V)
  put k v [] = (k, v) ∷ []
  put k v ((j, w) ∷ m) = if eq j k then (j, v) ∷ m else (j, w) ∷ put k v m

  unfoldable pub delete : K → List (K × V) → List (K × V)
  delete k [] = []
  delete k ((j, w) ∷ m) = if eq j k then m else (j, w) ∷ delete k m

  pub put-ne-nil : (k : K) (v : V) (m : List (K × V)) → put k v m ≡ [] → ⊥
  unfolding put
  put-ne-nil k v [] h = cc
  put-ne-nil k v ((j, w) ∷ m) h = ground arith

  pub length-put-le : (k : K) (v : V) (m : List (K × V)) → length (put k v m) ≤ length m + 1
  unfolding put
  length-put-le k v [] = omega arith
  length-put-le k v ((j, w) ∷ m) = ground (arith, length-put-le k v m)

  -- An overwritten key adds no entry.
  pub length-put_found :
      (k : K) (v w : V) (m : List (K × V)) → get k m ≡ some w → length (put k v m) ≡ length m
  unfolding get put
  length-put_found k v w [] h = cc
  length-put_found k v w ((j, u) ∷ m) h = ground (arith, length-put_found k v w m)

  -- No key stands in the map twice.
  abbrev pub IsDistinct : List (K × V) → Type κ
  IsDistinct [] = Unit
  IsDistinct ((k, v) ∷ m) = (get k m ≡ none) × IsDistinct m

-- The values of a map.
abbrev pub values {ℓ κ} : {K : Type ℓ} {V : Type κ} → List (K × V) → List V
values [] = []
values ((k, v) ∷ m) = v ∷ values m

get_tail {κ} :
    {V : Type κ} (b : Bool) (w : V) (rest : Option V) {v : V}
    → (if b then some w else rest) ≡ some v
    → ((b ≡ true) × (w ≡ v)) ⊎ ((b ≡ false) × (rest ≡ some v))
get_tail true w rest h = inl (refl, some-injective _ _ h)
get_tail false w rest h = inr (refl, h)

module _ {ℓ κ μ} {K : Type ℓ} {V : Type κ} (eq : K → K → Bool) (P : V → Type μ) where
  pub All-get : (k : K) (m : List (K × V)) (v : V) → All P (values m) → get eq k m ≡ some v → P v
  unfolding get
  All-get k [] v h e = absurd (ground arith)
  All-get k ((j, w) ∷ m) v h e = elim (get_tail (eq j k) w (get eq k m) e) [
    | inl q ↦ subst P q.1 h.0
    | inr q ↦ All-get k m v h.1 q.1
  ]

  pub All-put :
      (k : K) (v : V) (m : List (K × V)) → All P (values m) → P v → All P (values (put eq k v m))
  unfolding put
  All-put k v [] h p = (p, tt)
  All-put k v ((j, w) ∷ m) h p = elim (Bool-cases (eq j k)) [
    | inl q ↦ rw (q) (p, h.1)
    | inr q ↦ rw (q) (h.0, All-put k v m h.1 p)
  ]

true-false : true ≡ false → ⊥
true-false h = cc

eq-false {ℓ} :
    {K : Type ℓ} (eq : K → K → Bool)
    → ((a b : K) → (eq a b ≡ true) ↔ (a ≡ b))
    → (j k : K) → eq j k ≡ false
    → eq k j ≡ false
eq-false eq eq_iff j k h = elim (Bool-cases (eq k j)) [
  | inl q ↦ absurd (true-false (sym ((eq_iff j k).1 (sym ((eq_iff k j).0 q))) ∙ h))
  | inr q ↦ q
]

module _ {ℓ κ} {K : Type ℓ} {V : Type κ} (eq : K → K → Bool)
    (eq_iff : (a b : K) → (eq a b ≡ true) ↔ (a ≡ b)) where
  get-put-none :
      (j k : K) (v : V) (m : List (K × V))
      → eq k j ≡ false
      → get eq j m ≡ none
      → get eq j (put eq k v m) ≡ none
  unfolding get put
  get-put-none j k v [] e h = ground arith
  get-put-none j k v ((i, w) ∷ m) e h = ground (arith, get-put-none j k v m e)

  pub put-IsDistinct :
      (k : K) (v : V) (m : List (K × V)) → IsDistinct eq m → IsDistinct eq (put eq k v m)
  unfolding put get
  put-IsDistinct k v [] d = (refl, tt)
  put-IsDistinct k v ((j, w) ∷ m) d = elim (Bool-cases (eq j k)) [
    | inl q ↦ rw (q) (d.0, d.1)
    | inr q ↦ rw (q) (get-put-none j k v m (eq-false eq eq_iff j k q) d.0, put-IsDistinct k v m d.1)
  ]

  get-delete_other :
      (j k : K) (m : List (K × V)) → get eq j m ≡ none → get eq j (delete eq k m) ≡ none
  unfolding get delete
  get-delete_other j k [] h = h
  get-delete_other j k ((i, w) ∷ m) h = ground (arith, get-delete_other j k m)

  pub delete-IsDistinct :
      (k : K) (m : List (K × V)) → IsDistinct eq m → IsDistinct eq (delete eq k m)
  unfolding delete
  delete-IsDistinct k [] d = d
  delete-IsDistinct k ((j, w) ∷ m) d = elim (Bool-cases (eq j k)) [
    | inl q ↦ rw (q) d.1
    | inr q ↦ rw (q) (get-delete_other j k m d.0, delete-IsDistinct k m d.1)
  ]

  -- What was removed is gone.
  pub get-delete : (k : K) (m : List (K × V)) → IsDistinct eq m → get eq k (delete eq k m) ≡ none
  unfolding get delete
  get-delete k [] d = refl
  get-delete k ((j, w) ∷ m) d = elim (Bool-cases (eq j k)) [
    | inl q ↦ rw (q) (subst (λ i. get eq i m ≡ none) ((eq_iff j k).0 q) d.0)
    | inr q ↦ rw (q, q) (get-delete k m d.1)
  ]

module _ {ℓ κ} {K : Type ℓ} {V : Type κ} (eq : K → K → Bool) where
  -- Writing back what was read changes nothing.
  pub put-get : (k : K) (v : V) (m : List (K × V)) → get eq k m ≡ some v → put eq k v m ≡ m
  unfolding get put
  put-get k v [] h = cc
  put-get k v ((j, w) ∷ m) h = ground (arith, put-get k v m)

module _ {ℓ κ} {K : Type ℓ} {V : Type κ} (eq : K → K → Bool)
    (eq_iff : (a b : K) → (eq a b ≡ true) ↔ (a ≡ b)) where
  pub get-put_other :
      (j k : K) (v : V) (m : List (K × V)) → eq k j ≡ false → get eq j (put eq k v m) ≡ get eq j m
  unfolding get put
  get-put_other j k v [] e = ground arith
  get-put_other j k v ((i, w) ∷ m) e = ground (arith, eq_iff i k, get-put_other j k v m e)

  pub get-put_self : (k : K) (v : V) (m : List (K × V)) → get eq k (put eq k v m) ≡ some v
  unfolding get put
  get-put_self k v [] = ground (arith, eq_iff k k)
  get-put_self k v ((i, w) ∷ m) = ground (arith, eq_iff i k, get-put_self k v m)

  -- A map after one key was written, at any key.
  pub get-put :
      (j k : K) (v : V) (m : List (K × V))
      → get eq j (put eq k v m) ≡ (if eq k j then some v else get eq j m)
  get-put j k v m = elim (Bool-cases (eq k j)) [
    | inl e ↦
        rw (e)
          (subst (λ i. get eq i (put eq k v m) ≡ some v) ((eq_iff k j).0 e) (get-put_self k v m))
    | inr e ↦ rw (e) (get-put_other j k v m e)
  ]

  get-delete_elsewhere :
      (j k : K) (m : List (K × V)) → eq k j ≡ false → get eq j (delete eq k m) ≡ get eq j m
  unfolding get delete
  get-delete_elsewhere j k [] e = refl
  get-delete_elsewhere j k ((i, w) ∷ m) e = ground (arith, eq_iff i k, get-delete_elsewhere j k m e)

  -- A map after one key was removed, at any key.
  pub get-delete_at :
      (j k : K) (m : List (K × V))
      → IsDistinct eq m
      → get eq j (delete eq k m) ≡ (if eq k j then none else get eq j m)
  get-delete_at j k m d = elim (Bool-cases (eq k j)) [
    | inl e ↦ rw (e) (
        subst (λ i. get eq i (delete eq k m) ≡ none) ((eq_iff k j).0 e)
          (get-delete eq eq_iff k m d))
    | inr e ↦ rw (e) (get-delete_elsewhere j k m e)
  ]

-- What a test says of the value at a key.
abbrev pub holds {κ} : {V : Type κ} → (V → Bool) → Option V → Bool
holds p none = false
holds p (some v) = p v

module _ {ℓ κ} {K : Type ℓ} {V : Type κ} (eq : K → K → Bool)
    (eq_iff : (a b : K) → (eq a b ≡ true) ↔ (a ≡ b)) (p : V → Bool) where
  pub all-get :
      (k : K) (m : List (K × V)) {v : V}
      → all p (values m) ≡ true
      → get eq k m ≡ some v
      → p v ≡ true
  unfolding get
  all-get k [] h found = cc
  all-get k ((j, w) ∷ m) h found = elim (get_tail (eq j k) w (get eq k m) found) [
    | inl q ↦ subst (λ x. p x ≡ true) q.1 (ground arith)
    | inr q ↦ all-get k m (ground arith) q.1
  ]

  -- In a map without repeated keys, a value that fails the test is found.
  pub all-false-get :
      (m : List (K × V))
      → IsDistinct eq m
      → all p (values m) ≡ false
      → (k : K) × (v : V) × (get eq k m ≡ some v) × (p v ≡ false)
  unfolding get
  all-false-get [] d h = cc
  all-false-get ((j, w) ∷ m) d h = elim (Bool-cases (p w)) [
    | inr bad ↦ (j, w, ground (arith, eq_iff j j), bad)
    | inl good ↦
        let (k, v, found, bad) = all-false-get m d.1 (ground arith) in
        (
          k,
          v,
          elim (Bool-cases (eq j k)) [
            | inl e ↦
                absurd
                  (some-none (sym found ∙ subst (λ i. get eq i m ≡ none) ((eq_iff j k).0 e) d.0))
            | inr e ↦ rw (e) found
          ],
          bad,
        )
  ]
    where
      some-none : {v : V} → some v ≡ none → ⊥
      some-none h = cc
