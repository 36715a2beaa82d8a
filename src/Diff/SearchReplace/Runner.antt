-- ===== src/Diff/SearchReplace/Runner.antt =====
-- `apply_diff` of search_and_replace/runner.py. The data class has no field
-- `preserve_trailing_newline`, so the flag has its default, `True`. The messages of the exceptions
-- are left to the constructors; the errors of the edits that failed are kept whole.
pub mod Edits
pub mod Outcome
use deputydev_core.Prelude.{
  ℕ, zero, suc, ◌+◌, List, [], ◌∷◌, ◌++◌, Bool, true, false, not, ◌&&◌, Option, none, some, ltb,
  length, drop, slice, concat, is_empty, if◌then◌else◌, sort_by, ◌≡◌, refl,
}
use deputydev_core.Py.Chars.{Text, codes, lf, crlf, newline, text_eq, is_space}
use deputydev_core.Py.Lines.{splitlines, splitlines_keep}
use deputydev_core.Py.Result.{Result, ok, err}
use deputydev_core.Py.Search.{contains, ends_with_char, replace}
use deputydev_core.Py.Strip.{is_blank}
use deputydev_core.Diff.Data.{FileDiffApplicationResponse}
use deputydev_core.Diff.LineNumbered.{drop_last}
use deputydev_core.Diff.SearchReplace.Prep.{Prepared, normalise, prep_with_trailing}
use deputydev_core.Diff.SearchReplace.Fuzzy.{find_similar_lines}
use deputydev_core.Diff.SearchReplace.Locate.{locate_span}
use deputydev_core.Diff.SearchReplace.Blocks.{BlockError, extract_search_replace_blocks}

-- `message` names the number of the edit.
pub record EditError : Type 0 where
  pub original : Text
  pub replacement : Text
  pub edit_number : ℕ
  pub suggestions : List Text

pub data ApplyError : Type 0 where
  bad_blocks : BlockError → ApplyError
  no_well_formed_blocks overlap no_modified_content : ApplyError
  failed_edits : List EditError → ApplyError

-- (start, end, replacement)
pub record Match : Type 0 where
  pub start : ℕ
  pub stop : ℕ
  pub repl : Text

pub record Located : Type 0 where
  pub errors : List EditError
  pub matches : List Match

-- What difflib computes: the sizes of the matching blocks of two texts and of two lists of lines.
pub record Difflib : Type 0 where
  pub matches : Text → Text → ℕ
  pub line_matches : List Text → List Text → ℕ

module _ (difflib : Difflib) (current_norm : Text) where
  unfoldable pub edit_error : ℕ → Text → Text → EditError
  unfolding find_similar_lines splitlines
  edit_error idx orig repl = record {
    original = orig;
    replacement = repl;
    edit_number = idx;
    suggestions = splitlines (find_similar_lines difflib.line_matches orig current_norm);
  }

  -- One round of pass 1. An empty SEARCH appends at the end of the file.
  unfoldable pub locate_edit : ℕ → Text → Text → Located → Located
  unfolding edit_error locate_span is_blank
  locate_edit idx orig repl found =
      if is_blank orig
      then record found {
        matches =
            found.matches
            ++ record { start = length current_norm; stop = length current_norm; repl = repl } ∷ [];
      }
      else elim (locate_span difflib.matches current_norm orig) [
        | none ↦ record found { errors = found.errors ++ edit_error idx orig repl ∷ [] }
        | some (i, j) ↦ record found {
          matches = found.matches ++ record { start = i; stop = j; repl = repl } ∷ [];
        }
      ]

  unfoldable pub locate_all : ℕ → List (Text × Text) → Located → Located
  locate_all idx [] found = found
  locate_all idx ((orig, repl) ∷ edits) found =
      locate_all (idx + 1) edits (locate_edit idx orig repl found)

-- Pass 2: `for (s1, e1, _), (s2, _, _) in zip(matches, matches[1:])`
unfoldable pub overlaps : List Match → Bool
overlaps [] = false
overlaps (m ∷ []) = false
overlaps (m ∷ n ∷ ms) = let rest = overlaps (n ∷ ms) in if ltb n.start m.stop then true else rest

-- Pass 3
unfoldable pub pieces : Text → ℕ → List Match → Text
pieces text cursor [] = drop cursor text
pieces text cursor (m ∷ ms) = slice cursor m.start text ++ (m.repl ++ pieces text m.stop ms)

-- The final newline that the normalisation added is taken off again, and the newline style is
-- restored.
unfoldable pub restore : Prepared → Text → Text
unfolding drop_last ends_with_char replace
restore prepared new_norm =
    let stripped =
      if not prepared.had_trailing_newline && ends_with_char lf new_norm
      then drop_last new_norm
      else new_norm in
    if not prepared.is_crlf_style
    then stripped
    else let new_content = replace newline crlf stripped in
      if not prepared.had_trailing_newline && ends_with_char lf new_content
      then drop_last (drop_last new_content)
      else new_content

-- `if errors: raise`, and the passes after it
unfoldable pub apply_matches :
    Text → Text → Bool → Prepared → Located → Result ApplyError FileDiffApplicationResponse
apply_matches file_path current_content user_supplied_blocks prepared found =
    let sorted = sort_by (λ m. m.start) found.matches in
    let new_content = restore prepared (pieces prepared.content_lf 0 sorted) in
    if not (is_empty found.errors)
    then err (failed_edits found.errors)
    else if overlaps sorted
    then err overlap
    else if text_eq new_content current_content
    then (if user_supplied_blocks
        then err no_modified_content
        else ok (record { new_file_path = file_path; new_content = [] }))
    else ok (record { new_file_path = file_path; new_content = new_content })

unfoldable pub apply_edits :
    Difflib
    → Text
    → Text
    → Bool
    → List (Text × Text)
    → Result ApplyError FileDiffApplicationResponse
apply_edits difflib file_path current_content user_supplied_blocks edits =
    let prepared = prep_with_trailing current_content in
    if user_supplied_blocks && is_empty edits
    then err no_well_formed_blocks
    else apply_matches file_path current_content user_supplied_blocks prepared
        (locate_all difflib prepared.content_lf 1 edits (record { errors = []; matches = [] }))

unfoldable pub apply_diff :
    Difflib → Text → Text → Text → Result ApplyError FileDiffApplicationResponse
unfolding extract_search_replace_blocks is_blank
apply_diff difflib file_path current_content blocks_text =
    elim (extract_search_replace_blocks blocks_text) [
      | err e ↦ err (bad_blocks e)
      | ok edits ↦ apply_edits difflib file_path current_content (not (is_blank blocks_text)) edits
    ]

abbrev pub no_difflib : Difflib
no_difflib = record { matches = λ a b. 0; line_matches = λ a b. 0 }
