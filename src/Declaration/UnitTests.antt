-- ===== src/Declaration/UnitTests.antt =====
-- The unit tests of src/declaration.rs, each as the conjunction of its assertions.
use ftnl_backend_api_rs.Base.{List, [], ◌∷◌, none, some, ok, err, ◌≡◌, refl, All}
use ftnl_backend_api_rs.Text.{Str, codes, strip_suffix}
use ftnl_backend_api_rs.Declaration.{
  DeclarationPolicy, FileDeclaration, DeclarationRejection, invalid_name, file_limit_reached,
  file_too_large, unsupported_media, invalid_sha256, media_is_accepted, pattern_accepts,
  validate_declaration,
}

abbrev policy : List Str → DeclarationPolicy
policy accepted_media = record {
  current_files = 0;
  max_files = 2;
  max_file_bytes = 1024;
  accepted_media = accepted_media;
}

abbrev declaration : Str → Str → FileDeclaration
declaration name media_type = record {
  name = name;
  media_type = media_type;
  size_bytes = 512;
  sha256 = none;
}

-- One round of a `for` loop of assertions.
abbrev IsAccepted : List Str × Str → Type 0
IsAccepted (patterns, media_type) =
    validate_declaration (policy patterns) (declaration (codes "file.bin") media_type) ≡ ok tt

unfoldable AcceptsExactWildcardAndGlobalMediaPolicies : Type 0
AcceptsExactWildcardAndGlobalMediaPolicies = All IsAccepted (
    (codes "application/pdf" ∷ [], codes "application/pdf")
    ∷ (codes "image/*" ∷ [], codes "image/jpeg")
    ∷ (codes "*/*" ∷ [], codes "text/plain")
    ∷ [])

accepts_exact_wildcard_and_global_media_policies : AcceptsExactWildcardAndGlobalMediaPolicies
unfolding AcceptsExactWildcardAndGlobalMediaPolicies validate_declaration media_is_accepted
    pattern_accepts strip_suffix
accepts_exact_wildcard_and_global_media_policies = (refl, (refl, (refl, tt)))

abbrev IsRejected : DeclarationPolicy × FileDeclaration × DeclarationRejection → Type 0
IsRejected (policy', declaration', expected) =
    validate_declaration policy' declaration' ≡ err expected

unfoldable ReturnsOneTypedRejectionForEachPolicyBoundary : Type 0
ReturnsOneTypedRejectionForEachPolicyBoundary =
    let image_only = policy (codes "image/*" ∷ []) in
    let valid = declaration (codes "photo.jpg") (codes "image/jpeg") in
    All IsRejected (
      (image_only, declaration (codes "bad\nname") (codes "image/jpeg"), invalid_name)
      ∷ (record image_only { current_files = 2 }, valid, file_limit_reached)
      ∷ (image_only, record valid { size_bytes = 1025 }, file_too_large)
      ∷ (image_only, declaration (codes "notes.txt") (codes "text/plain"), unsupported_media)
      ∷ (image_only, record valid { sha256 = some (codes "not-a-sha256") }, invalid_sha256)
      ∷ [])

returns_one_typed_rejection_for_each_policy_boundary : ReturnsOneTypedRejectionForEachPolicyBoundary
unfolding ReturnsOneTypedRejectionForEachPolicyBoundary validate_declaration media_is_accepted
    pattern_accepts strip_suffix
returns_one_typed_rejection_for_each_policy_boundary = (refl, (refl, (refl, (refl, (refl, tt)))))
