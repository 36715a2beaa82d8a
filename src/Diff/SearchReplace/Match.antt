-- ===== src/Diff/SearchReplace/Match.antt =====
-- The line matchers of search_and_replace/runner.py. Each returns the first index at which its
-- test passes.
pub mod First
use First.{first_index}
use deputydev_core.Prelude.{
  ℕ, zero, suc, ◌+◌, ◌-◌, List, [], ◌∷◌, map, Bool, true, false, not, ◌&&◌, ◌||◌, Option, none,
  some, ltb, leb, ◌==◌, length, take, slice, last, any_of, if◌then◌else◌,
}
use deputydev_core.Py.Chars.{Text, text_eq}
use deputydev_core.Py.Strip.{lstrip, strip, is_blank}
use deputydev_core.Diff.SearchReplace.Prep.{trim_blank_lines}

-- Equality of two lists of lines.
unfoldable pub lines_eq : List Text → List Text → Bool
unfolding text_eq
lines_eq [] [] = true
lines_eq [] (m ∷ ms) = false
lines_eq (l ∷ ls) [] = false
lines_eq (l ∷ ls) (m ∷ ms) = text_eq l m && lines_eq ls ms

-- `trim_blank_lines(whole_lines[i : i + n])`
unfoldable pub window : List Text → ℕ → ℕ → List Text
window whole i n = trim_blank_lines (slice i (i + n) whole)

-- `range(len(whole_lines) - n + 1)`
abbrev pub windows : List Text → ℕ → ℕ
windows whole n = length whole + 1 - n

unfoldable pub perfect_replace : List Text → List Text → Option ℕ
unfolding lines_eq window first_index
perfect_replace whole part =
    let trimmed = trim_blank_lines part in
    first_index (windows whole (length trimmed))
      λ i. lines_eq (window whole i (length trimmed)) trimmed

-- `w[: len(w) - len(p)]`: a negative end counts from the end of `w`.
unfoldable pub prefix_of : Text → Text → Text
prefix_of w p =
    if leb (length p) (length w)
    then take (length w - length p) w
    else take (length w - (length p - length w)) w

-- `all(w.lstrip() == p.lstrip() for w, p in zip(ws, ps))`
unfoldable pub same_but_indent : List Text → List Text → Bool
same_but_indent [] ps = true
same_but_indent (w ∷ ws) [] = true
same_but_indent (w ∷ ws) (p ∷ ps) = text_eq (lstrip w) (lstrip p) && same_but_indent ws ps

-- The set of the prefixes, without duplicates.
unfoldable pub prefixes : List Text → List Text → List Text
unfolding prefix_of
prefixes [] ps = []
prefixes (w ∷ ws) [] = []
prefixes (w ∷ ws) (p ∷ ps) =
    let rest = prefixes ws ps in
    let q = prefix_of w p in if is_blank p || any_of (text_eq q) rest then rest else q ∷ rest

only : List Text → Option Text
only [] = none
only (q ∷ []) = some q
only (q ∷ r ∷ rs) = none

unfoldable pub match_but_for_leading_whitespace : List Text → List Text → Option Text
unfolding same_but_indent prefixes only
match_but_for_leading_whitespace whole part =
    if same_but_indent whole part then only (prefixes whole part) else none

is_some : Option Text → Bool
is_some none = false
is_some (some t) = true

unfoldable pub find_indent_flexible : List Text → List Text → Option ℕ
unfolding window match_but_for_leading_whitespace first_index is_some
find_indent_flexible whole part =
    let trimmed = trim_blank_lines part in
    first_index (windows whole (length trimmed)) λ i.
      let w = window whole i (length trimmed) in
      length w == length trimmed && is_some (match_but_for_leading_whitespace w trimmed)

-- The first and last lines, stripped. The empty list has no window of three lines.
unfoldable pub anchors : List Text → Text × Text
anchors [] = ([], [])
anchors (l ∷ ls) = (strip l, elim (last (l ∷ ls)) [ none ↦ [] | some m ↦ strip m ])

unfoldable pub same_anchors : List Text → List Text → Bool
unfolding anchors
same_anchors ls ms = text_eq (anchors ls).0 (anchors ms).0 && text_eq (anchors ls).1 (anchors ms).1

unfoldable pub anchor_line_match : List Text → List Text → Option ℕ
unfolding window same_anchors first_index
anchor_line_match whole part =
    let trimmed = trim_blank_lines part in
    let size = length trimmed in
    let found =
      first_index (windows whole size)
        λ i. let w = window whole i size in length w == size && same_anchors w trimmed in
    if ltb size 3 then none else found

-- `all(window[j].strip() == part_lines[j].strip() for j in range(part_len))`, for lists as long
unfoldable pub same_stripped : List Text → List Text → Bool
same_stripped [] ps = true
same_stripped (w ∷ ws) [] = true
same_stripped (w ∷ ws) (p ∷ ps) = text_eq (strip w) (strip p) && same_stripped ws ps

unfoldable pub line_trimmed_match : List Text → List Text → Option ℕ
unfolding window same_stripped first_index
line_trimmed_match whole part =
    let trimmed = trim_blank_lines part in
    first_index (windows whole (length trimmed)) λ i.
      let w = window whole i (length trimmed) in
      length w == length trimmed && same_stripped w trimmed
