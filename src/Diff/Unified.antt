-- ===== src/Diff/Unified.antt =====
-- services/diff/algo_runners/unified_diff/runner.py: cutting a unified diff into hunks, and a hunk
-- into the lines before and after the change.
pub mod Hunks
pub mod Relative
pub mod Flexible
pub mod Apply
pub mod Normal
pub mod Runner
use deputydev_core.Prelude.{
  ℕ, List, [], ◌∷◌, ◌++◌, Bool, true, false, not, ◌&&◌, ◌||◌, ltb, ◌==◌, length, if◌then◌else◌,
}
use deputydev_core.Py.Chars.{Text, codes, lf}
use deputydev_core.Py.Lines.{splitlines_keep}
use deputydev_core.Py.Search.{starts_with, ends_with_char}
use deputydev_core.Diff.LineNumbered.{drop_last}

-- The variables of the loop.
pub record State : Type 0 where
  pub edits : List (List Text)
  pub keeper : Bool
  pub hunk : List Text

-- `line[0]` of a line that is not empty
unfoldable pub op_of : Text → ℕ
op_of [] = 32
op_of (c ∷ s) = c

unfoldable pub is_change : ℕ → Bool
is_change op = (op == 45) || (op == 43)

unfoldable pub step : State → Text → State
unfolding op_of is_change drop_last
step s line =
    let hunk = s.hunk ++ line ∷ [] in
    if ltb (length line) 2
    then record s { hunk = hunk }
    else if is_change (op_of line)
    then record s { hunk = hunk; keeper = true }
    else if not (op_of line == 64)
    then record s { hunk = hunk }
    else if not s.keeper
    then record s { hunk = [] }
    else record { edits = s.edits ++ drop_last hunk ∷ []; keeper = false; hunk = [] }

unfoldable pub run : State → List Text → State
run s [] = s
run s (line ∷ lines) = run (step s line) lines

-- What stands behind the first two lines with file names, if there are any.
unfoldable pub after_file_names : List Text → List Text → List Text
unfolding starts_with
after_file_names block [] = block
after_file_names block (l ∷ []) = block
after_file_names block (l ∷ m ∷ ls) =
    let rest = after_file_names block (m ∷ ls) in
    if starts_with (codes "--- ") l && starts_with (codes "+++ ") m then ls else rest

unfoldable pub process_fenced_block : List Text → List (List Text)
unfolding after_file_names run
process_fenced_block lines =
    let block = lines ++ codes "@@ @@" ∷ [] in
    (run (record { edits = []; keeper = false; hunk = [] }) (after_file_names block block)).edits

unfoldable pub get_edits : Text → List (List Text)
unfolding process_fenced_block splitlines_keep ends_with_char
get_edits incremental_udiff = process_fenced_block (
    splitlines_keep (
      if ends_with_char lf incremental_udiff
      then incremental_udiff
      else incremental_udiff ++ lf ∷ []))

-- (before, after)
unfoldable pub before_after_from : List Text → List Text → List Text → List Text × List Text
before_after_from before after [] = (before, after)
before_after_from before after ([] ∷ hunk) =
    before_after_from (before ++ [] ∷ []) (after ++ [] ∷ []) hunk
before_after_from before after ((c ∷ []) ∷ hunk) =
    before_after_from (before ++ (c ∷ []) ∷ []) (after ++ (c ∷ []) ∷ []) hunk
before_after_from before after ((op ∷ d ∷ s) ∷ hunk) =
    let line = d ∷ s in
    let kept = before_after_from (before ++ line ∷ []) (after ++ line ∷ []) hunk in
    let removed = before_after_from (before ++ line ∷ []) after hunk in
    let added = before_after_from before (after ++ line ∷ []) hunk in
    let ignored = before_after_from before after hunk in
    if op == 32 then kept else if op == 45 then removed else if op == 43 then added else ignored

unfoldable pub hunk_to_before_after : List Text → List Text × List Text
unfolding before_after_from
hunk_to_before_after hunk = before_after_from [] [] hunk
