-- ===== src/Text.antt =====
-- `str` and its methods, as far as the API uses them. A text is the list of its code points;
-- `len` and `bytes` are those of its UTF-8 encoding.
pub mod Decimal
pub mod Laws
use Prim.Native.Char.{code}
use Prim.Native.String.{String}
use ftnl_backend_api_rs.Base.{
  ℕ, ◌+◌, ◌/◌, ◌%◌, Bool, true, false, ◌&&◌, ◌||◌, List, [], ◌∷◌, ◌++◌, Option, none, some, ltb,
  leb, ◌==◌, if◌then◌else◌, any, ◌≡◌, refl,
}
use mathlib.Core.List.{reverse}

abbrev pub Str : Type 0
Str = List ℕ

-- A literal.
abbrev pub codes : String → Str
codes String.[] = []
codes (String.◌∷◌ c s) = code c ∷ codes s

-- `char::len_utf8`
abbrev pub len_utf8 : ℕ → ℕ
len_utf8 c = if ltb c 0x80 then 1 else if ltb c 0x800 then 2 else if ltb c 0x10000 then 3 else 4

-- `str::len`, in bytes.
abbrev pub len : Str → ℕ
len [] = 0
len (c ∷ s) = len_utf8 c + len s

-- `char::encode_utf8`
abbrev pub encode_utf8 : ℕ → List ℕ
encode_utf8 c =
    if ltb c 0x80
    then c ∷ []
    else if ltb c 0x800
    then (0xc0 + c / 64) ∷ (0x80 + c % 64) ∷ []
    else if ltb c 0x10000
    then (0xe0 + c / 4096) ∷ (0x80 + c / 64 % 64) ∷ (0x80 + c % 64) ∷ []
    else (0xf0 + c / 262144) ∷ (0x80 + c / 4096 % 64) ∷ (0x80 + c / 64 % 64) ∷ (0x80 + c % 64) ∷ []

-- `str::bytes`
abbrev pub bytes : Str → List ℕ
bytes [] = []
bytes (c ∷ s) = encode_utf8 c ++ bytes s

abbrev pub is_empty : Str → Bool
is_empty [] = true
is_empty (c ∷ s) = false

-- `==` on texts and on byte slices.
abbrev pub str_eq : List ℕ → List ℕ → Bool
str_eq [] [] = true
str_eq [] (d ∷ t) = false
str_eq (c ∷ s) [] = false
str_eq (c ∷ s) (d ∷ t) = c == d && str_eq s t

-- `str::strip_prefix`
abbrev pub strip_prefix : Str → Str → Option Str
strip_prefix [] s = some s
strip_prefix (p ∷ ps) [] = none
strip_prefix (p ∷ ps) (c ∷ s) = if p == c then strip_prefix ps s else none

-- `str::starts_with`
abbrev pub starts_with : Str → Str → Bool
starts_with [] s = true
starts_with (p ∷ ps) [] = false
starts_with (p ∷ ps) (c ∷ s) = p == c && starts_with ps s

abbrev pub reverse_some : Option Str → Option Str
reverse_some none = none
reverse_some (some s) = some (reverse s)

-- `str::strip_suffix`
unfoldable pub strip_suffix : Str → Str → Option Str
strip_suffix p s = reverse_some (strip_prefix (reverse p) (reverse s))

-- `str::contains`, of a character.
abbrev pub contains : ℕ → Str → Bool
contains c = any (λ d. d == c)

abbrev pub cons_left : ℕ → Option (Str × Str) → Option (Str × Str)
cons_left c none = none
cons_left c (some (a, b)) = some (c ∷ a, b)

-- `str::split_once`, at a character: the text before its first occurrence, and that after it.
abbrev pub split_once : ℕ → Str → Option (Str × Str)
split_once d [] = none
split_once d (c ∷ s) = if c == d then some ([], s) else cons_left c (split_once d s)

-- `char::is_whitespace`: the Unicode property White_Space.
abbrev pub is_whitespace : ℕ → Bool
is_whitespace c =
    (leb 0x09 c && leb c 0x0d)
    || c == 0x20
    || c == 0x85
    || c == 0xa0
    || c == 0x1680
    || (leb 0x2000 c && leb c 0x200a)
    || c == 0x2028
    || c == 0x2029
    || c == 0x202f
    || c == 0x205f
    || c == 0x3000

-- `char::is_control`: the Unicode category Cc.
abbrev pub is_control : ℕ → Bool
is_control c = leb c 0x1f || (leb 0x7f c && leb c 0x9f)

abbrev pub is_ascii_digit : ℕ → Bool
is_ascii_digit c = leb b'0' c && leb c b'9'

abbrev pub is_ascii_hexdigit : ℕ → Bool
is_ascii_hexdigit c = is_ascii_digit c || (leb b'a' c && leb c b'f') || (leb b'A' c && leb c b'F')

-- `trim_start_matches`, of the characters that pass a test.
abbrev pub trim_start : (ℕ → Bool) → Str → Str
trim_start p [] = []
trim_start p (c ∷ s) = if p c then trim_start p s else c ∷ s

-- `trim_end_matches`
unfoldable pub trim_end : (ℕ → Bool) → Str → Str
trim_end p s = reverse (trim_start p (reverse s))

-- `str::trim`
unfoldable pub trim : Str → Str
unfolding trim_end
trim s = trim_end is_whitespace (trim_start is_whitespace s)

trim_both : trim (codes " a b  ") ≡ codes "a b"
unfolding trim
trim_both = refl
