-- ===== src/Diff/Unified/Runner.antt =====
-- services/diff/algo_runners/unified_diff/runner.py: from the hunks of a diff to the new content.
-- The packages diff_match_patch and difflib and the test whether the file exists are parameters.
pub mod Replace
pub mod Sections
use deputydev_core.Diff.Unified.{codes, hunk_to_before_after, get_edits}
use deputydev_core.Py.Search.{starts_with}
use deputydev_core.Py.Strip.{is_blank, strip}
use deputydev_core.Diff.Unified.Normal.{
  normalize_endlines_content, clean_patch, get_unique_normalized_edits,
}
use deputydev_core.Diff.Data.{FileDiffApplicationResponse}
use deputydev_core.Prelude.{
  concat, true, false, not, keep, ltb, max, drop, ◌&&◌, ◌&&◌, ◌*◌, is_empty, length, ltb, not, Bool,
  ℕ, List, [], ◌∷◌, ◌++◌, map, ◌||◌, Option, none, some, ◌==◌, if◌then◌else◌,
}
use deputydev_core.Py.Chars.{text_eq, Text, lf}
use deputydev_core.Py.Lines.{splitlines, splitlines_keep}
use deputydev_core.Py.Result.{Result, ok, err, ◌>>=◌}
use deputydev_core.Diff.Unified.Relative.{value_error, search_text_not_unique, Failure, index_error}
use deputydev_core.Diff.Unified.Flexible.{is_found}
use deputydev_core.Diff.Unified.Apply.{directly_apply_hunk, apply_partial_hunk}

-- What `diff_match_patch` calls -1, 0 and 1.
pub data Side : Type 0 where
  deleted equal inserted : Side

-- The diff of two texts by lines, and `difflib.unified_diff(a, b, n=n)`.
pub record DiffLibraries : Type 0 where
  pub line_diff : Text → Text → List (Side × Text)
  pub unified_diff : List Text → List Text → ℕ → List Text

unfoldable pub side_sign : Side → ℕ
side_sign deleted = 45
side_sign equal = 32
side_sign inserted = 43

unfoldable pub udiff_of : List (Side × Text) → List Text
unfolding side_sign splitlines_keep
udiff_of [] = []
udiff_of ((side, lines) ∷ diff) =
    map (λ line. side_sign side ∷ line) (splitlines_keep lines) ++ udiff_of diff

-- A character in place of an operation of a hunk: `-` and `+` are `x`, a line feed is a blank.
unfoldable pub op_class : ℕ → ℕ
op_class c = if c == 45 || c == 43 then 120 else if c == lf then 32 else c

-- `[line[0] for line in hunk]`, with the three calls of `replace`
unfoldable pub ops_of : List Text → Result Failure (List ℕ)
unfolding op_class
ops_of [] = ok []
ops_of ([] ∷ hunk) = err index_error
ops_of ((c ∷ s) ∷ hunk) = ops_of hunk >>= (λ ops. ok (op_class c ∷ ops))

-- The variables of the loop over the operations.
pub record Cut : Type 0 where
  pub cur_op : ℕ
  pub section : List Text
  pub sections : List (List Text)

unfoldable pub cut_step : Cut → ℕ → Text → Cut
cut_step s op line =
    if op == s.cur_op
    then record s { section = s.section ++ line ∷ [] }
    else record { cur_op = op; section = line ∷ []; sections = s.sections ++ s.section ∷ [] }

unfoldable pub cut_run : Cut → List ℕ → List Text → Cut
unfolding cut_step
cut_run s [] hunk = s
cut_run s (op ∷ ops) [] = s
cut_run s (op ∷ ops) (line ∷ hunk) = cut_run (cut_step s op line) ops hunk

unfoldable pub cut_end : Cut → List (List Text)
cut_end s =
    let sections = s.sections ++ s.section ∷ [] in
    if s.cur_op == 32 then sections else sections ++ [] ∷ []

unfoldable pub sections_of : List ℕ → List Text → List (List Text)
unfolding cut_run cut_end
sections_of ops hunk =
    cut_end (cut_run (record { cur_op = 32; section = []; sections = [] }) ops hunk)

-- `for i in range(2, len(sections), 2)`: three sections, the last of which is the first of the
-- next three.
unfoldable pub apply_sections : Text → List (List Text) → Result Failure (Option Text)
apply_sections content (preceding ∷ changes ∷ following ∷ sections) =
    apply_partial_hunk content preceding changes following >>= (λ res. elim res [
      | none ↦ ok none
      | some [] ↦ ok none
      | some (c ∷ s) ↦ apply_sections (c ∷ s) (following ∷ sections)
    ])
apply_sections content sections = ok (some content)

-- What is printed of an edit: which text, the lines before the change and their number.
pub data Problem : Type 0 where
  no_match not_unique : Problem

pub record Report : Type 0 where
  pub problem : Problem
  pub original : Text
  pub num_lines : ℕ

unfoldable pub report : Problem → List Text → Report
unfolding hunk_to_before_after splitlines
report problem edit =
    let (original_lines, _) = hunk_to_before_after edit in
    let original = concat original_lines in
    record { problem = problem; original = original; num_lines = length (splitlines original) }

module _ (libs : DiffLibraries) where
  unfoldable pub back_diff : Text → Text → List Text
  unfolding udiff_of starts_with
  back_diff before content =
      keep (λ line. not (starts_with (codes "+") line)) (udiff_of (libs.line_diff before content))

  -- `len(new_before) < len(before) * 0.66`; the product of the double nearest to 0.66 and a number
  -- of lines below 2 ^ 45 is a whole number only where 0.66 itself gives one.
  unfoldable pub is_too_short : List Text → List Text → Bool
  is_too_short new_before before = ltb (length new_before * 100) (length before * 66)

  unfoldable pub explicit_hunk : Text → Text → List Text → Text → List Text
  unfolding is_too_short splitlines_keep
  explicit_hunk before after hunk new_before =
      let old_lines = splitlines_keep before in
      let new_lines = splitlines_keep new_before in
      let after_lines = splitlines_keep after in
      if ltb (length (strip new_before)) 10
      then hunk
      else if is_too_short new_lines old_lines
      then hunk
      else drop 3
          (libs.unified_diff new_lines after_lines (max (length new_lines) (length after_lines)))

  unfoldable pub make_new_lines_explicit : Text → List Text → Result Failure (List Text)
  unfolding hunk_to_before_after back_diff directly_apply_hunk explicit_hunk
  make_new_lines_explicit content hunk =
      let (before_texts, after_texts) = hunk_to_before_after hunk in
      let before = concat before_texts in
      let after = concat after_texts in
      directly_apply_hunk before (back_diff before content) >>= (λ new_before. elim new_before [
        | none ↦ ok hunk
        | some [] ↦ ok hunk
        | some (c ∷ s) ↦ ok (explicit_hunk before after hunk (c ∷ s))
      ])

  unfoldable pub apply_explicit : Text → List Text → Result Failure (Option Text)
  apply_explicit content hunk = make_new_lines_explicit content hunk >>= (λ explicit.
      ops_of explicit >>= (λ ops. apply_sections content (sections_of ops explicit)))

  unfoldable pub apply_hunk : Text → List Text → Result Failure (Option Text)
  apply_hunk content hunk =
      directly_apply_hunk content hunk
      >>= (λ res. elim (is_found res) [ true ↦ ok res | false ↦ apply_explicit content hunk ])

  -- An empty result counts as none.
  unfoldable pub found_only : Option Text → Option Text
  unfolding is_found
  found_only res = if is_found res then res else none

  -- `exists` is whether the file is there.
  unfoldable pub do_replace : Bool → Option Text → List Text → Result Failure (Option Text)
  do_replace exists content hunk =
      let (before_texts, after_texts) = hunk_to_before_after hunk in
      let before_text = if exists then concat before_texts else [] in
      elim (if exists then content else some []) [
        | none ↦ ok none
        | some text ↦ elim (is_blank before_text) [
          | true ↦ ok (some (text ++ concat after_texts))
          | false ↦ apply_hunk text hunk >>= (λ res. ok (found_only res))
        ]
      ]

  -- One round of the loop over the edits: the running content and the reports.
  unfoldable pub edit_step :
      Bool → Option Text × List Report → List Text → Result Failure (Option Text × List Report)
  unfolding do_replace report
  edit_step exists (running, errors) edit = elim (do_replace exists running edit) [
    | ok none ↦ ok (running, errors ++ report no_match edit ∷ [])
    | ok (some []) ↦ ok (running, errors ++ report no_match edit ∷ [])
    | ok (some (c ∷ s)) ↦ ok (some (c ∷ s), errors)
    | err value_error ↦ err value_error
    | err search_text_not_unique ↦ ok (running, errors ++ report not_unique edit ∷ [])
    | err index_error ↦ err index_error
  ]

  unfoldable pub edit_loop :
      Bool
      → Option Text × List Report
      → List (List Text)
      → Result Failure (Option Text × List Report)
  unfolding edit_step
  edit_loop exists st [] = ok st
  edit_loop exists st (edit ∷ edits) =
      edit_step exists st edit >>= (λ next. edit_loop exists next edits)

  -- The content of the response, empty if nothing changed.
  unfoldable pub new_content_of : Text → Option Text → Text
  unfolding text_eq
  new_content_of current none = []
  new_content_of current (some running) =
      if not (is_empty current) && text_eq current running then [] else running

  unfoldable pub apply_diff :
      Bool → Text → Text → Text → Result Failure (FileDiffApplicationResponse × List Report)
  unfolding clean_patch get_edits get_unique_normalized_edits normalize_endlines_content edit_loop
      new_content_of
  apply_diff exists file_path current_content incremental_udiff =
      let edits = get_edits (clean_patch incremental_udiff) in
      get_unique_normalized_edits libs.unified_diff edits >>= (λ unique.
        let running =
          if is_empty current_content
          then none
          else some (normalize_endlines_content current_content) in
        edit_loop exists (running, []) unique >>= (λ (content, errors). ok (
          record {
            new_file_path = file_path;
            new_content = new_content_of current_content content;
          },
          errors,
        )))
