-- ===== src/Declaration/Media.antt =====
-- Which media types the patterns of a tunnel accept.
use ftnl_backend_api_rs.Base.{
  Bool, true, false, ◌||◌, List, [], ◌∷◌, ◌++◌, append_assoc, Option, none, some, ◌≡◌, refl, sym,
  ap, ◌∙◌, ◌⊎◌, inl, inr, ◌↔◌,
}
use ftnl_backend_api_rs.Text.{Str, codes, str_eq, starts_with, strip_suffix}
use ftnl_backend_api_rs.Text.Laws.{
  str_eq_iff, starts_with-append, starts_with-eq-true, strip_suffix-append, strip_suffix-eq-some,
}
use ftnl_backend_api_rs.Declaration.{pattern_accepts, media_is_accepted, is_prefix_of}

-- Some element of a list satisfies a predicate.
abbrev pub Any {ℓ} : {A : Type ℓ} → (A → Type 0) → List A → Type 0
Any P [] = ⊥
Any P (x ∷ xs) = P x ⊎ Any P xs

-- A pattern matches every type, itself, or the types under its prefix.
pub data Matches (media_type pattern' : Str) : Type 0 where
  everything : pattern' ≡ codes "*/*" → Matches media_type pattern'
  itself : pattern' ≡ media_type → Matches media_type pattern'
  under :
      (prefix rest : Str)
      → pattern' ≡ prefix ++ codes "/*"
      → media_type ≡ prefix ++ (codes "/" ++ rest)
      → Matches media_type pattern'

or-eq-true : (a b : Bool) → (a || b) ≡ true → (a ≡ true) ⊎ (b ≡ true)
or-eq-true true b h = inl refl
or-eq-true false b h = inr h

or-true : (a : Bool) → (a || true) ≡ true
or-true true = refl
or-true false = refl

is_prefix_of-Matches :
    (m p : Str) (o : Option Str)
    → strip_suffix (codes "/*") p ≡ o
    → is_prefix_of m o ≡ true
    → Matches m p
is_prefix_of-Matches m p none e h = cc
is_prefix_of-Matches m p (some prefix) e h =
    let (rest, q) = starts_with-eq-true (prefix ++ codes "/") m h in
    under prefix rest (strip_suffix-eq-some (codes "/*") p e)
      (q ∙ append_assoc prefix (codes "/") rest)

pattern_accepts-Matches : (m p : Str) → pattern_accepts m p ≡ true → Matches m p
unfolding pattern_accepts
pattern_accepts-Matches m p h = elim (or-eq-true (str_eq p (codes "*/*") || str_eq p m) _ h) [
  | inl h' ↦ elim (or-eq-true (str_eq p (codes "*/*")) _ h') [
    | inl e ↦ everything ((str_eq_iff p (codes "*/*")).0 e)
    | inr e ↦ itself ((str_eq_iff p m).0 e)
  ]
  | inr e ↦ is_prefix_of-Matches m p (strip_suffix (codes "/*") p) refl e
]

Matches-pattern_accepts : (m p : Str) → Matches m p → pattern_accepts m p ≡ true
unfolding pattern_accepts
Matches-pattern_accepts m p (everything e) = rw ((str_eq_iff p (codes "*/*")).1 e)
Matches-pattern_accepts m p (itself e) = rw ((str_eq_iff p m).1 e, or-true (str_eq p (codes "*/*")))
Matches-pattern_accepts m p (under prefix rest e q) =
    rw last (or-true (str_eq p (codes "*/*") || str_eq p m))
  where
    last : is_prefix_of m (strip_suffix (codes "/*") p) ≡ true
    last =
        ap (λ u. is_prefix_of m (strip_suffix (codes "/*") u)) e
        ∙ ap (is_prefix_of m) (strip_suffix-append prefix (codes "/*"))
        ∙ ap (starts_with (prefix ++ codes "/")) (q ∙ sym (append_assoc prefix (codes "/") rest))
        ∙ starts_with-append (prefix ++ codes "/") rest

-- A media type is accepted exactly when some pattern is `*/*`, equals it, or is `prefix/*` for a
-- `prefix` that stands before a slash in it.
pub media_is_accepted_iff :
    (patterns : List Str) (m : Str)
    → (media_is_accepted patterns m ≡ true) ↔ Any (Matches m) patterns
unfolding media_is_accepted
media_is_accepted_iff [] m = (λ h. cc, λ h. absurd h)
media_is_accepted_iff (p ∷ ps) m = (
  λ h. elim (or-eq-true (pattern_accepts m p) _ h) [
    | inl e ↦ inl (pattern_accepts-Matches m p e)
    | inr e ↦ inr ((media_is_accepted_iff ps m).0 e)
  ],
  elim [
    | inl x ↦ rw (Matches-pattern_accepts m p x)
    | inr x ↦ rw ((media_is_accepted_iff ps m).1 x) (or-true _)
  ],
)
