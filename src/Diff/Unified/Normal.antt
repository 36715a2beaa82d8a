-- ===== src/Diff/Unified/Normal.antt =====
-- services/diff/algo_runners/unified_diff/runner.py: cleaning the patch, the hunks and the content.
-- The package difflib is a parameter, `unified_diff a b n`.
pub mod Endlines
pub mod Unique
use deputydev_core.Prelude.{
  ℕ, zero, suc, ◌+◌, ◌-◌, ◌*◌, List, [], ◌∷◌, ◌++◌, map, Bool, true, false, not, ◌&&◌, ◌||◌, Option,
  none, some, ltb, ◌==◌, length, take, drop, slice, concat, is_empty, any_of, if◌then◌else◌, max,
  get_elem?,
}
use deputydev_core.Py.Chars.{Text, codes, lf, newline, is_crlf, text_eq}
use deputydev_core.Py.Lines.{splitlines_keep}
use deputydev_core.Py.Result.{Result, ok, err, ◌>>=◌}
use deputydev_core.Py.Search.{find, rfind}
use deputydev_core.Py.Strip.{rstrip_by, strip, is_blank}
use deputydev_core.Diff.Unified.{hunk_to_before_after}
use deputydev_core.Diff.Unified.Relative.{Failure, index_error}

-- `line[i]`, a text of one character
unfoldable pub char_at : Text → ℕ → Result Failure Text
char_at line i = elim (get_elem? line i) [ none ↦ err index_error | some c ↦ ok (c ∷ []) ]

-- `line[-k]` is the first character for k = 0.
unfoldable pub clean_line : Text → Result Failure Text
unfolding is_blank char_at rstrip_by is_crlf
clean_line line =
    let k = length line - length (rstrip_by is_crlf line) in
    if not (is_blank line)
    then ok line
    else if k == 0
    then char_at line 0
    else char_at line (length line - k)

unfoldable pub cleanup_pure_whitespace_lines : List Text → Result Failure (List Text)
unfolding clean_line
cleanup_pure_whitespace_lines [] = ok []
cleanup_pure_whitespace_lines (line ∷ lines) =
    clean_line line
    >>= (λ first. cleanup_pure_whitespace_lines lines >>= (λ rest. ok (first ∷ rest)))

-- `line.rstrip("\r\n") + "\n"`
unfoldable pub with_lf : Text → Text
unfolding rstrip_by is_crlf
with_lf line = rstrip_by is_crlf line ++ newline

unfoldable pub normalize_endlines_content : Text → Text
unfolding with_lf splitlines_keep
normalize_endlines_content content = concat (map with_lf (splitlines_keep content))

unfoldable pub clean_patch : Text → Text
unfolding find rfind
clean_patch patch = elim (find (codes "---") patch) [
  | none ↦ []
  | some start_index ↦ elim (rfind (codes "```") patch) [
    | none ↦ strip (drop start_index patch)
    | some end_index ↦ strip (slice start_index end_index patch)
  ]
]

module _ (unified_diff : List Text → List Text → ℕ → List Text) where
  unfoldable pub normalize_hunk : List Text → Result Failure (List Text)
  unfolding hunk_to_before_after cleanup_pure_whitespace_lines with_lf
  normalize_hunk hunk =
      let (before_lines, after_lines) = hunk_to_before_after hunk in
      cleanup_pure_whitespace_lines before_lines >>= (λ before.
        cleanup_pure_whitespace_lines after_lines >>= (λ after.
          ok (
            map with_lf (drop 3 (unified_diff before after (max (length before) (length after)))))))

  -- The loop, with the texts seen so far.
  unfoldable pub unique_edits : List Text → List (List Text) → Result Failure (List (List Text))
  unique_edits seen [] = ok []
  unique_edits seen (hunk ∷ hunks) = normalize_hunk hunk >>= (λ edit.
      let this = concat edit in
      elim (is_empty edit || any_of (λ s. text_eq s this) seen) [
        | true ↦ unique_edits seen hunks
        | false ↦ unique_edits (this ∷ seen) hunks >>= (λ rest. ok (edit ∷ rest))
      ])

  unfoldable pub get_unique_normalized_edits : List (List Text) → Result Failure (List (List Text))
  get_unique_normalized_edits edits = unique_edits [] edits
