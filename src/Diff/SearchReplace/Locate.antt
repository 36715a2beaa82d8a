-- ===== src/Diff/SearchReplace/Locate.antt =====
-- `locate_span` of search_and_replace/runner.py: the layers are tried in turn.
pub mod Bounds
use deputydev_core.Prelude.{ℕ, ◌+◌, List, Option, none, some, length, take, slice, concat}
use deputydev_core.Py.Chars.{Text}
use deputydev_core.Py.Search.{find}
use deputydev_core.Diff.SearchReplace.Prep.{prep}
use deputydev_core.Diff.SearchReplace.Match.{
  find_indent_flexible, line_trimmed_match, anchor_line_match,
}
use deputydev_core.Diff.SearchReplace.Fuzzy.{replace_closest_edit_distance}

-- `sum(len(line) for line in lines)` is the length of the lines joined.
unfoldable pub chars_before : List Text → ℕ → ℕ
chars_before lines i = length (concat (take i lines))

-- The characters of the lines `i` to `j`.
unfoldable pub line_span : List Text → ℕ → ℕ → ℕ × ℕ
unfolding chars_before
line_span lines i j =
    (chars_before lines i, chars_before lines i + length (concat (slice i j lines)))

-- `idx`, and from there as many lines as the block has
unfoldable pub span_at : List Text → ℕ → Option ℕ → Option (ℕ × ℕ)
unfolding line_span
span_at lines n none = none
span_at lines n (some i) = some (line_span lines i (i + n))

infixr 20 ◌or_else◌
abbrev pub ◌or_else◌ : Option (ℕ × ℕ) → Option (ℕ × ℕ) → Option (ℕ × ℕ)
none or_else s = s
some r or_else s = some r

unfoldable pub exact_span : Text → Text → Option (ℕ × ℕ)
unfolding find
exact_span whole part = elim (find part whole) [ none ↦ none | some i ↦ some (i, i + length part) ]

unfoldable pub fuzzy_span : (Text → Text → ℕ) → List Text → Text → ℕ → Option (ℕ × ℕ)
unfolding replace_closest_edit_distance line_span
fuzzy_span matches whole_lines part target_len =
    elim (replace_closest_edit_distance matches whole_lines part target_len) [
      | none ↦ none
      | some (i, j) ↦ some (line_span whole_lines i j)
    ]

unfoldable pub locate_span : (Text → Text → ℕ) → Text → Text → Option (ℕ × ℕ)
unfolding prep span_at exact_span find_indent_flexible line_trimmed_match anchor_line_match
    fuzzy_span
locate_span matches whole part =
    let (whole_norm, whole_lines) = prep whole in
    let (part_norm, part_lines) = prep part in
    let n = length part_lines in
    exact_span whole_norm part_norm
    or_else span_at whole_lines n (find_indent_flexible whole_lines part_lines)
    or_else span_at whole_lines n (line_trimmed_match whole_lines part_lines)
    or_else span_at whole_lines n (anchor_line_match whole_lines part_lines)
    or_else fuzzy_span matches whole_lines part_norm n
