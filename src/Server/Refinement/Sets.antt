-- ===== src/Server/Refinement/Sets.antt =====
-- A set of keys beside the map that it comes from.
use ftnl_backend_api_rs.Base.{
  Bool, true, false, List, Option, some, none, ◌≡◌, ◌↔◌, refl, ap, sym, ◌∙◌, ◌||◌, if◌then◌else◌,
  inl, inr, Bool-cases, get, put, delete, IsDistinct, holds, get-put, get-delete_at,
}
use ftnl_backend_api_rs.Protocol.Unbounded.{insert, remove}
use ftnl_backend_api_rs.Server.Refinement.Abstract.{Marks}

holds-if {κ} :
    {V : Type κ} (p : V → Bool) (b : Bool) (o o' : Option V)
    → holds p (if b then o else o') ≡ (if b then holds p o else holds p o')
holds-if p true o o' = refl
holds-if p false o o' = refl

module _ {κ} {K : Type 0} {V : Type κ} (same : K → K → Bool)
    (same_iff : (a b : K) → (same a b ≡ true) ↔ (a ≡ b)) (p : V → Bool) (m : List (K × V))
    (set : K → Bool) (marks : Marks same p m set) where
  holds-put :
      (k : K) (v : V) (j : K)
      → holds p (get same j (put same k v m)) ≡ (if same k j then p v else set j)
  holds-put k v j =
      ap (holds p) (get-put same same_iff j k v m)
      ∙ holds-if p (same k j) (some v) (get same j m)
      ∙ ap (λ b. if same k j then p v else b) (sym (marks j))

  -- A value that passes the test is written: its key joins the set.
  pub put-insert : (k : K) (v : V) → p v ≡ true → Marks same p (put same k v m) (insert same k set)
  put-insert k v h j =
      chosen (same k j) ∙ ap (λ b. if same k j then b else set j) (sym h) ∙ sym (holds-put k v j)
    where
      chosen : (b : Bool) → (b || set j) ≡ (if b then true else set j)
      chosen true = refl
      chosen false = refl

  -- The test says the same of the new value as of the old one: the set stays.
  pub put-stays : (k : K) (v : V) → holds p (get same k m) ≡ p v → Marks same p (put same k v m) set
  put-stays k v h j = elim (Bool-cases (same k j)) [
    | inl e ↦
        ap set (sym ((same_iff k j).0 e))
        ∙ marks k
        ∙ h
        ∙ ap (λ b. if b then p v else set j) (sym e)
        ∙ sym (holds-put k v j)
    | inr e ↦ ap (λ b. if b then p v else set j) (sym e) ∙ sym (holds-put k v j)
  ]

  pub delete-remove :
      (k : K) → IsDistinct same m → Marks same p (delete same k m) (remove same k set)
  delete-remove k d j =
      ap (λ b. if same k j then false else b) (marks j)
      ∙ sym (holds-if p (same k j) none (get same j m))
      ∙ sym (ap (holds p) (get-delete_at same same_iff j k m d))
