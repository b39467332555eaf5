-- ===== src/Declaration/Tests.antt =====
-- Runs of src/declaration.rs, at the inputs of its own tests.
use ftnl_backend_api_rs.Base.{◌<◌, true, [], ◌∷◌, none, ok, err, ◌≡◌, refl, ◌↔◌}
use ftnl_backend_api_rs.Text.{codes, strip_suffix}
use ftnl_backend_api_rs.Declaration.{
  DeclarationPolicy, FileDeclaration, file_limit_reached, media_is_accepted, pattern_accepts,
  validate_declaration,
}
use ftnl_backend_api_rs.Declaration.Media.{Any, Matches, media_is_accepted_iff}
use ftnl_backend_api_rs.Declaration.Decision.{
  NameIsPrintable, DigestIsHex, RoomLeft, SizeFits, MediaMatches, validate_declaration_iff,
  rejection-Explains,
}

abbrev image_only : DeclarationPolicy
image_only = record {
  current_files = 0;
  max_files = 2;
  max_file_bytes = 1024;
  accepted_media = codes "image/*" ∷ [];
}

abbrev full : DeclarationPolicy
full = record image_only { current_files = 2 }

abbrev photo : FileDeclaration
photo = record {
  name = codes "photo.jpg";
  media_type = codes "image/jpeg";
  size_bytes = 512;
  sha256 = none;
}

media_is_accepted_iff_example :
    (media_is_accepted (codes "image/*" ∷ []) (codes "image/jpeg") ≡ true)
    ↔ Any (Matches (codes "image/jpeg")) (codes "image/*" ∷ [])
media_is_accepted_iff_example = media_is_accepted_iff (codes "image/*" ∷ []) (codes "image/jpeg")

validate_declaration_iff_example : (validate_declaration image_only photo ≡ ok tt) ↔ (
    NameIsPrintable (codes "photo.jpg")
    × RoomLeft image_only photo
    × SizeFits image_only photo
    × MediaMatches image_only photo
    × DigestIsHex none)
validate_declaration_iff_example = validate_declaration_iff image_only photo

over_the_limit : validate_declaration full photo ≡ err file_limit_reached
unfolding validate_declaration media_is_accepted pattern_accepts strip_suffix
over_the_limit = refl

rejection-Explains_example : NameIsPrintable (codes "photo.jpg") × ¬ (2 < 2)
rejection-Explains_example = rejection-Explains full photo file_limit_reached over_the_limit
