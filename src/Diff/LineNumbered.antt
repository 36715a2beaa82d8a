-- ===== src/Diff/LineNumbered.antt =====
-- services/diff/algo_runners/line_numbered_diff/runner.py
pub mod Splice
use deputydev_core.Prelude.{
  ℕ, suc, ◌+◌, List, [], ◌∷◌, ◌++◌, map, Bool, ltb, ◌==◌, concat, if◌then◌else◌, sort_by, ◌≡◌, refl,
}
use deputydev_core.Py.Chars.{Text, newline, codes}
use deputydev_core.Py.Lines.{split_lf, splitlines_keep}
use deputydev_core.Diff.Data.{DiffChunk, FileDiffApplicationResponse}

-- `modified_content[:-1]`
unfoldable pub drop_last {ℓ} : {A : Type ℓ} → List A → List A
drop_last [] = []
drop_last (x ∷ []) = []
drop_last (x ∷ y ∷ ys) = x ∷ drop_last (y ∷ ys)

-- `[line + "\n" for line in diff.split("\n")]`
unfoldable pub diff_lines : Text → List Text
diff_lines diff = map (λ line. line ++ newline) (split_lf diff)

-- The variables of the loop; `chunks` holds those from `current_chunk_index` on.
pub record State : Type 0 where
  pub idx : ℕ
  pub skip_line_upto : ℕ
  pub chunks : List DiffChunk
  pub modified_content : List Text

unfoldable pub at_chunk : State → Text → DiffChunk → List DiffChunk → State
unfolding drop_last diff_lines
at_chunk s line c rest =
    if c.start_line == s.idx + 1
    then record {
      idx = s.idx + 1;
      skip_line_upto = c.end_line;
      chunks = rest;
      modified_content = drop_last (s.modified_content ++ diff_lines c.diff);
    }
    else record s { idx = s.idx + 1; modified_content = s.modified_content ++ line ∷ [] }

unfoldable pub step : State → Text → State
unfolding at_chunk
step s line = if ltb s.idx s.skip_line_upto then record s { idx = s.idx + 1 } else elim s.chunks [
  | [] ↦ record s { idx = s.idx + 1; modified_content = s.modified_content ++ line ∷ [] }
  | c ∷ rest ↦ at_chunk s line c rest
]

unfoldable pub scan : State → List Text → State
scan s [] = s
scan s (line ∷ content) = scan (step s line) content

-- The chunks that no line met go to the end, whole.
unfoldable pub flush : State → List Text
unfolding diff_lines
flush s = s.modified_content ++ concat (map (λ c. diff_lines c.diff) s.chunks)

unfoldable pub apply_diff_in_file_content : List Text → List DiffChunk → List Text
unfolding scan step flush
apply_diff_in_file_content content chunks =
    flush (
      scan (record { idx = 0; skip_line_upto = 0; chunks = chunks; modified_content = [] }) content)

unfoldable pub apply_diff : Text → Text → List DiffChunk → FileDiffApplicationResponse
unfolding apply_diff_in_file_content sort_by splitlines_keep
apply_diff file_path current_content diff_chunks = record {
  new_file_path = file_path;
  new_content = concat (
      apply_diff_in_file_content (splitlines_keep current_content)
        (sort_by (λ c. c.start_line) diff_chunks));
}
