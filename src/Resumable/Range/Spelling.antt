-- ===== src/Resumable/Range/Spelling.antt =====
-- `ContentRange::parse` accepts one spelling of each range within the declared size, and no more.
use ftnl_backend_api_rs.Base.{
  ℕ, ◌-◌, ◌≤◌, ◌<◌, false, not, [], ◌∷◌, ◌++◌, append_assoc, some, arith, ◌≡◌, ◌≢◌, refl, ◌↔◌, sym,
  ap, ◌∙◌, All, ltb, ◌==◌, ==_iff, not-false, Result, ok, ok_or-eq-ok, reject_if-eq-ok, All-append,
}
use ftnl_backend_api_rs.Text.{
  Str, codes, strip_prefix, split_once, contains, str_eq, trim, is_whitespace,
}
use ftnl_backend_api_rs.Text.Laws.{
  Lacks, strip_prefix-append, strip_prefix-eq-some, split_once-append, split_once-eq-some,
  contains_lem, trim_lem,
}
use ftnl_backend_api_rs.Text.Decimal.{u64_max, decimal}
use ftnl_backend_api_rs.Text.Decimal.RoundTrip.{IsDigit}
use ftnl_backend_api_rs.Resumable.Number.{parse_u64}
use ftnl_backend_api_rs.Resumable.Number.Canonical.{
  decimal-IsDigit, decimal-ne-nil, parse_u64-decimal, decimal-parse_u64,
}
use ftnl_backend_api_rs.Resumable.Range.{
  ContentRange, RangeError, parse, parse_bounds, checked_add, InBounds, total_mismatch,
  outside_declared_size,
}

-- The header value that RFC 9110 prescribes for a range: its last byte is inclusive.
unfoldable pub bounds_text : ContentRange → Str
bounds_text r = decimal r.start ++ b'-' ∷ decimal (r.end_exclusive - 1)

unfoldable pub spelling : ContentRange → Str
spelling r = codes "bytes " ++ (bounds_text r ++ b'/' ∷ decimal r.total)

Lacks-IsDigit : (c : ℕ) (s : Str) → c < b'0' → All IsDigit s → Lacks c s
Lacks-IsDigit c [] h ds = tt
Lacks-IsDigit c (d ∷ s) h ds = ((λ e. omega arith), Lacks-IsDigit c s h ds.1)

decimal-Lacks : (c n : ℕ) → c < b'0' → Lacks c (decimal n)
decimal-Lacks c n h = Lacks-IsDigit c (decimal n) h (decimal-IsDigit n)

decimal-contains : (c n : ℕ) → c < b'0' → contains c (decimal n) ≡ false
decimal-contains c n h = (contains_lem c (decimal n)).1 (decimal-Lacks c n h)

Lacks-append : (c : ℕ) (s t : Str) → Lacks c s → Lacks c t → Lacks c (s ++ t)
Lacks-append c s t = All-append (λ d. d ≢ c) s t

bounds-Lacks : (c a b : ℕ) → c < b'0' → b'-' ≢ c → Lacks c (decimal a ++ b'-' ∷ decimal b)
bounds-Lacks c a b h ne =
    Lacks-append c (decimal a) (b'-' ∷ decimal b) (decimal-Lacks c a h) (ne, decimal-Lacks c b h)

not_star : (s : Str) → Lacks b'*' s → str_eq s (codes "*") ≡ false
not_star [] h = refl
not_star (c ∷ s) h = ground (arith, h.0)

spelling-bounds :
    (r : ContentRange)
    → strip_prefix (codes "bytes ") (spelling r) ≡ some (bounds_text r ++ b'/' ∷ decimal r.total)
unfolding spelling
spelling-bounds r = strip_prefix-append (codes "bytes ") (bounds_text r ++ b'/' ∷ decimal r.total)

module _ (r : ContentRange) where
  bounds_text-Lacks : (c : ℕ) → c < b'0' → b'-' ≢ c → Lacks c (bounds_text r)
  unfolding bounds_text
  bounds_text-Lacks c h ne = bounds-Lacks c r.start (r.end_exclusive - 1) h ne

  split_total :
      split_once b'/' (bounds_text r ++ b'/' ∷ decimal r.total)
      ≡ some (bounds_text r, decimal r.total)
  split_total =
      split_once-append b'/' (bounds_text r) (decimal r.total)
        (bounds_text-Lacks b'/' (omega arith) (λ q. omega arith))

  split_bounds :
      split_once b'-' (bounds_text r) ≡ some (decimal r.start, decimal (r.end_exclusive - 1))
  unfolding bounds_text
  split_bounds =
      split_once-append b'-' (decimal r.start) (decimal (r.end_exclusive - 1))
        (decimal-Lacks b'-' r.start (omega arith))

  no_comma : contains b',' (bounds_text r) ≡ false
  no_comma =
      (contains_lem b',' (bounds_text r)).1
        (bounds_text-Lacks b',' (omega arith) (λ q. omega arith))

  no_star : str_eq (bounds_text r) (codes "*") ≡ false
  no_star = not_star (bounds_text r) (bounds_text-Lacks b'*' (omega arith) (λ q. omega arith))

parse_bounds_spelled :
    (r : ContentRange)
    → r.start < r.end_exclusive
    → InBounds r
    → parse_bounds (bounds_text r) r.total ≡ ok r
unfolding parse_bounds
parse_bounds_spelled r lt b =
    rw
      (
        split_bounds r,
        decimal-contains b'-' (r.end_exclusive - 1) (omega arith),
        parse_u64-decimal r.start (omega arith),
        parse_u64-decimal (r.end_exclusive - 1) (omega arith),
      )
      (ground arith)

-- The spelling of a range within bounds is read back.
parse_spelled :
    (v : Str) (r : ContentRange)
    → trim v ≡ spelling r
    → r.start < r.end_exclusive
    → InBounds r
    → parse v r.total ≡ ok r
unfolding parse
parse_spelled v r e lt b =
    rw
      (
        e,
        spelling-bounds r,
        split_total r,
        decimal-contains b'/' r.total (omega arith),
        no_comma r,
        not_star (decimal r.total) (decimal-Lacks b'*' r.total (omega arith)),
        no_star r,
        parse_u64-decimal r.total b.fits,
        (==_iff r.total r.total).1 refl,
      )
      (parse_bounds_spelled r lt b)

abbrev built : ℕ → ℕ → ℕ → Result ContentRange RangeError
built start end total = ok (record { start = start; end_exclusive = end; total = total })

finish :
    (start last end total : ℕ) (r : ContentRange)
    → ltb last start ≡ false
    → checked_add last 1 ≡ some end
    → ltb total end ≡ false
    → built start end total ≡ ok r
    → (start ≡ r.start)
      × (last ≡ r.end_exclusive - 1)
      × (r.total ≡ total)
      × (r.start < r.end_exclusive)
      × (r.end_exclusive ≤ total)
finish start last end total r order sum inside e = ground arith

bounds-InBounds :
    (r : ContentRange) (total : ℕ)
    → r.total ≡ total
    → r.start < r.end_exclusive
    → r.end_exclusive ≤ total
    → total ≤ u64_max
    → InBounds r
bounds-InBounds r total e lt le fits = omega arith

-- What `parse_bounds` has established when it returns a range.
parse_bounds-eq-ok :
    (bounds : Str) (total : ℕ) (r : ContentRange)
    → parse_bounds bounds total ≡ ok r
    → (bounds ≡ bounds_text r)
      × (r.total ≡ total)
      × (r.start < r.end_exclusive)
      × (r.end_exclusive ≤ total)
unfolding parse_bounds bounds_text
parse_bounds-eq-ok bounds total r h =
    let ((start_text, end_text), e1, h1) = ok_or-eq-ok (split_once b'-' bounds) _ _ h in
    let (_, h2) = reject_if-eq-ok (contains b'-' end_text) _ _ h1 in
    let (start, e3, h3) = ok_or-eq-ok (parse_u64 start_text) _ _ h2 in
    let (last, e4, h4) = ok_or-eq-ok (parse_u64 end_text) _ _ h3 in
    let (e5, h5) = reject_if-eq-ok (ltb last start) _ _ h4 in
    let (end, e6, h6) = ok_or-eq-ok (checked_add last 1) _ _ h5 in
    let (e7, h7) = reject_if-eq-ok (ltb total end) (outside_declared_size end total) _ h6 in
    let done = finish start last end total r e5 e6 e7 h7 in
    (
      (split_once-eq-some b'-' bounds start_text end_text e1).0 ∙ (λ i.
          ((decimal-parse_u64 start_text start e3).0 ∙ ap decimal done.0) i
          ++ b'-' ∷ ((decimal-parse_u64 end_text last e4).0 ∙ ap decimal done.1) i),
      done.2,
      done.3,
      done.4,
    )

-- What `parse` has established when it returns a range.
parse-eq-ok :
    (v : Str) (t : ℕ) (r : ContentRange)
    → parse v t ≡ ok r
    → (trim v ≡ spelling r) × (r.total ≡ t) × (r.start < r.end_exclusive) × InBounds r
unfolding parse spelling
parse-eq-ok v t r h =
    let (rem, e1, h1) = ok_or-eq-ok (strip_prefix (codes "bytes ") (trim v)) _ _ h in
    let ((bounds, total_text), e2, h2) = ok_or-eq-ok (split_once b'/' rem) _ _ h1 in
    let (_, h3) = reject_if-eq-ok _ _ _ h2 in
    let (total, e4, h4) = ok_or-eq-ok (parse_u64 total_text) _ _ h3 in
    let (e5, h5) = reject_if-eq-ok (not (total == t)) (total_mismatch t total) _ h4 in
    let parts = parse_bounds-eq-ok bounds total r h5 in
    let last = decimal-parse_u64 total_text total e4 in
    let same : total ≡ t = (==_iff total t).0 (not-false (total == t) e5) in
    let slash = (split_once-eq-some b'/' rem bounds total_text e2).0 in
    (
      strip_prefix-eq-some (codes "bytes ") (trim v) e1
          ∙ ap (λ u. codes "bytes " ++ u) slash
          ∙ (λ i. codes "bytes " ++ (parts.0 i ++ b'/' ∷ (last.0 ∙ ap decimal (sym parts.1)) i)),
      parts.1 ∙ same,
      parts.2,
      bounds-InBounds r total parts.1 parts.2 parts.3 last.1,
    )

-- The header is accepted exactly when its trimmed text is the canonical spelling of the range that
-- is returned, and this range is not empty, ends within the declared size and has that size for its
-- total: there is one text for each range, and it is never clipped or wrapped.
pub parse_iff :
    (value : Str) (expected_total : ℕ) (r : ContentRange)
    → (parse value expected_total ≡ ok r) ↔ (
        (trim value ≡ spelling r)
        × (r.total ≡ expected_total)
        × (r.start < r.end_exclusive)
        × InBounds r)
parse_iff v t r = (parse-eq-ok v t r, λ h. ap (parse v) (sym h.1) ∙ parse_spelled v r h.0 h.2 h.3)

-- The last character of a digit text.
last-IsDigit :
    (s : Str) → All IsDigit s → s ≢ [] → (front : Str) × (d : ℕ) × (s ≡ front ++ d ∷ []) × IsDigit d
last-IsDigit [] ds ne = absurd (ne refl)
last-IsDigit (c ∷ []) ds ne = ([], c, refl, ds.0)
last-IsDigit (c ∷ d ∷ s) ds ne =
    let (front, e, q, h) = last-IsDigit (d ∷ s) ds.1 (λ z. cc) in (c ∷ front, e, ap (◌∷◌ c) q, h)

digit_not_whitespace : (d : ℕ) → IsDigit d → is_whitespace d ≡ false
digit_not_whitespace d h = ground arith

trim_digit_end :
    (c : ℕ) (s t : Str)
    → is_whitespace c ≡ false
    → All IsDigit t
    → t ≢ []
    → trim (c ∷ s ++ t) ≡ c ∷ s ++ t
trim_digit_end c s t h ds ne =
    let (front, d, q, dd) = last-IsDigit t ds ne in
    let shape : c ∷ s ++ t ≡ c ∷ (s ++ front) ++ d ∷ [] =
      ap (λ u. c ∷ s ++ u) q ∙ ap (◌∷◌ c) (sym (append_assoc s front (d ∷ []))) in
    ap trim shape ∙ trim_lem c (s ++ front) d h (digit_not_whitespace d dd) ∙ sym shape

spelling-trim : (r : ContentRange) → trim (spelling r) ≡ spelling r
unfolding spelling
spelling-trim r =
    let front = codes "ytes " ++ bounds_text r ++ b'/' ∷ [] in
    let shape : spelling r ≡ b'b' ∷ front ++ decimal r.total =
      ap (λ u. codes "bytes " ++ u)
        (sym (append_assoc (bounds_text r) (b'/' ∷ []) (decimal r.total))) in
    ap trim shape
    ∙ trim_digit_end b'b' front (decimal r.total) refl (decimal-IsDigit r.total)
        (decimal-ne-nil r.total)
    ∙ sym shape

-- What a client sends for a range is parsed to that range.
pub parse-spelling :
    (r : ContentRange) → r.start < r.end_exclusive → InBounds r → parse (spelling r) r.total ≡ ok r
parse-spelling r = parse_spelled (spelling r) r (spelling-trim r)
