-- ===== src/Diff/Unified/Relative.antt =====
-- services/diff/algo_runners/unified_diff/search_and_replace.py: the class RelativeIndenter. Its
-- only state is the marker, which the functions take.
pub mod RoundTrip
pub mod Marker
use deputydev_core.Prelude.{
  ℕ, zero, suc, ◌+◌, ◌-◌, List, [], ◌∷◌, ◌++◌, map, Bool, true, false, Option, none, some, ltb,
  ◌==◌, length, take, drop, replicate, concat, is_empty, any_of, if◌then◌else◌,
}
use deputydev_core.Py.Chars.{Text, lf, newline, is_crlf}
use deputydev_core.Py.Lines.{splitlines_keep}
use deputydev_core.Py.Result.{Result, ok, err, ◌>>=◌}
use deputydev_core.Py.Search.{starts_with}
use deputydev_core.Py.Strip.{lstrip, rstrip_by}

-- What the functions of the file and of the runner raise. `SearchTextNotUnique` is a `ValueError`.
pub data Failure : Type 0 where
  value_error search_text_not_unique index_error : Failure

-- `c in s` for a character
abbrev pub has_char : ℕ → Text → Bool
has_char c s = any_of (λ d. d == c) s

-- `for codepoint in range(0x10FFFF, 0x10000, -1)`, with the number of code points that are left
unfoldable pub select_from : ℕ → Text → Option ℕ
select_from zero chars = none
select_from (suc n) chars = elim (has_char (0x10001 + n) chars) [
  | true ↦ select_from n chars
  | false ↦ some (0x10001 + n)
]

unfoldable pub select_unique_marker : Text → Result Failure ℕ
unfolding select_from
select_unique_marker chars = elim (select_from 0xfffff chars) [
  | none ↦ err value_error
  | some marker ↦ ok marker
]

abbrev pub arrow : ℕ
arrow = 0x2190

-- `RelativeIndenter(texts).marker`: the set of characters of the texts is their concatenation.
unfoldable pub relative_indenter : List Text → Result Failure ℕ
unfolding select_unique_marker
relative_indenter texts =
    let chars = concat texts in
    if has_char arrow chars then select_unique_marker chars else ok arrow

-- `s[-n:]` and `s[:-n]` for 0 < n
abbrev pub last_chars : ℕ → Text → Text
last_chars n s = drop (length s - n) s

abbrev pub all_but : ℕ → Text → Text
all_but n s = take (length s - n) s

unfoldable pub len_indent : Text → ℕ
unfolding rstrip_by is_crlf
len_indent line =
    let line_without_end = rstrip_by is_crlf line in
    length line_without_end - length (lstrip line_without_end)

-- `cur_indent`, with `change = new - old`
unfoldable pub cur_indent : ℕ → ℕ → ℕ → Text → Text
cur_indent marker old new indent =
    if ltb old new
    then last_chars (new - old) indent
    else if ltb new old
    then replicate (old - new) marker
    else []

unfoldable pub relative_lines : ℕ → Text → List Text → Text
unfolding len_indent cur_indent
relative_lines marker prev_indent [] = []
relative_lines marker prev_indent (line ∷ lines) =
    let len = len_indent line in
    let indent = take len line in
    cur_indent marker (length prev_indent) len indent
    ++ lf ∷ (drop len line ++ relative_lines marker indent lines)

unfoldable pub make_relative : ℕ → Text → Result Failure Text
unfolding relative_lines splitlines_keep
make_relative marker text =
    if has_char marker text
    then err value_error
    else ok (relative_lines marker [] (splitlines_keep text))

unfoldable pub dent_of : Text → Text
dent_of line = rstrip_by is_crlf line

-- The new `cur_indent`.
unfoldable pub indented : ℕ → Text → Text → Text
indented marker prev_indent dent =
    if starts_with (marker ∷ []) dent
    then all_but (length dent) prev_indent
    else prev_indent ++ dent

unfoldable pub out_line : Text → Text → Text
out_line indent non_indent =
    if is_empty (rstrip_by is_crlf non_indent) then non_indent else indent ++ non_indent

-- Lines by twos: a last line alone has no `lines[i + 1]`.
unfoldable pub absolute_lines : ℕ → Text → List Text → Result Failure Text
unfolding dent_of indented out_line
absolute_lines marker prev_indent [] = ok []
absolute_lines marker prev_indent (dent ∷ []) = err index_error
absolute_lines marker prev_indent (dent ∷ non_indent ∷ lines) =
    let indent = indented marker prev_indent (dent_of dent) in
    absolute_lines marker indent lines >>= (λ rest. ok (out_line indent non_indent ++ rest))

unfoldable pub checked : ℕ → Text → Result Failure Text
checked marker res = if has_char marker res then err value_error else ok res

unfoldable pub make_absolute : ℕ → Text → Result Failure Text
unfolding absolute_lines checked splitlines_keep
make_absolute marker text =
    absolute_lines marker [] (splitlines_keep text) >>= (λ res. checked marker res)
