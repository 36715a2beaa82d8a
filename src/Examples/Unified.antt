-- ===== src/Examples/Unified.antt =====
-- Unified diffs and batches of small files.
use deputydev_core.Prelude.{
  arith, ◌≢◌, is_empty, ℕ, List, [], ◌∷◌, ◌++◌, true, false, some, map, concat, All, ◌≡◌, refl, inl,
  inr,
}
use deputydev_core.Py.Chars.{Text, codes, is_space, is_line_end, text_eq, is_crlf}
use deputydev_core.Py.Lines.{splitlines_keep}
use deputydev_core.Py.Result.{ok, ◌>>=◌, Returns}
use deputydev_core.Py.Search.{starts_with, find, count, replace}
use deputydev_core.Py.Strip.{is_blank, rstrip_by, strip_by, lstrip_by}
use deputydev_core.Diff.Unified.Flexible.Literal.{flexible_search_and_replace-literal}
use deputydev_core.Diff.Data.{
  udiff_data, line_numbered_data, FileDiffApplicationRequest, FileDiffApplicationResponse,
}
use deputydev_core.Diff.SearchReplace.Runner.{no_difflib}
use deputydev_core.Diff.Applicator.{Environment, bulk_apply_diff}
use deputydev_core.Diff.Applicator.Paths.{bulk_apply_diff-paths}
use deputydev_core.Diff.Unified.{hunk_to_before_after}
use deputydev_core.Diff.Unified.Hunks.{HunkLine, kept, removed, added, printed}
use deputydev_core.Diff.Unified.Relative.{arrow, relative_indenter, make_relative, make_absolute}
use deputydev_core.Diff.Unified.Relative.RoundTrip as Indents
use deputydev_core.Diff.Unified.Relative.RoundTrip.{make_absolute-make_relative}
use deputydev_core.Diff.Unified.Flexible.{
  first_found, try_strategy, prepared, reversed_result, absolute_result, strip_blank_lines,
  make_all_relative, is_found, all_preprocs, search_and_replace, flexible_search_and_replace,
  relative_indent,
}
use deputydev_core.Diff.Unified.Apply.{
  with_context, try_context, down_from, flexi_just_search_and_replace, not_unique_caught,
  apply_partial_hunk, directly_apply_hunk,
}
use deputydev_core.Diff.Unified.Apply.Context.{IsLargest, apply_partial_hunk-IsLargest}
use deputydev_core.Diff.Unified.Apply.Once.{patched}
use deputydev_core.Diff.Unified.Normal.{
  unique_edits, normalize_hunk, get_unique_normalized_edits, normalize_endlines_content,
}
use deputydev_core.Diff.Unified.Normal.Endlines as Endlines
use deputydev_core.Diff.Unified.Normal.Endlines.{normalize_endlines_content-lines}
use deputydev_core.Diff.Unified.Normal.Unique.{IsUnique, get_unique_normalized_edits-IsUnique}
use deputydev_core.Diff.Unified.Runner.{op_class, DiffLibraries, do_replace, ops_of, sections_of}
use deputydev_core.Diff.Unified.Runner.Replace.{do_replace-patched}
use deputydev_core.Diff.Unified.Runner.Sections.{IsOperation, class_of, IsCut, sections_of-IsCut}

abbrev indented : List Indents.Line
indented = (4, codes "if a:") ∷ (8, codes "b") ∷ (0, []) ∷ (4, codes "c") ∷ []

indented-IsPlain : All (Indents.IsPlain arrow) indented
unfolding is_space is_line_end
indented-IsPlain = (
  record { starts = refl; one_line = refl; unmarked = refl },
  (
    record { starts = refl; one_line = refl; unmarked = refl },
    (
      record { starts = refl; one_line = refl; unmarked = refl },
      (record { starts = refl; one_line = refl; unmarked = refl }, tt),
    ),
  ),
)

make_absolute-make_relative_example :
    (make_relative arrow (Indents.file indented) >>= (λ text. make_absolute arrow text))
    ≡ ok (Indents.file indented)
make_absolute-make_relative_example =
    make_absolute-make_relative arrow (unfold is_space in refl) indented indented-IsPlain

there : count (codes "b") (codes "abc") ≢ 0
unfolding count
there = omega arith

remains : is_empty (replace (codes "b") (codes "x") (codes "abc")) ≡ false
unfolding replace
remains = refl

flexible_search_and_replace-literal_example :
    flexible_search_and_replace
      (codes "b" ∷ codes "x" ∷ codes "abc" ∷ [])
      ((search_and_replace, all_preprocs) ∷ [])
    ≡ ok (some (replace (codes "b") (codes "x") (codes "abc")))
flexible_search_and_replace-literal_example =
    flexible_search_and_replace-literal (codes "b") (codes "x") (codes "abc") there remains

abbrev context : List Text
context = codes " aa\n" ∷ []

abbrev change : List Text
change = codes "-bb\n" ∷ codes "+xx\n" ∷ []

abbrev after_context : List Text
after_context = codes " zz\n" ∷ []

-- The line behind the change is not in the content, so the hunk goes in with the line before it.
partly :
    apply_partial_hunk (codes "aa\nbb\ncc\n") context change after_context
    ≡ ok (some (codes "aa\nxx\ncc\n"))
unfolding apply_partial_hunk directly_apply_hunk count replace hunk_to_before_after is_found
    try_context with_context first_found down_from flexi_just_search_and_replace not_unique_caught
    flexible_search_and_replace all_preprocs search_and_replace try_strategy prepared
    reversed_result absolute_result rstrip_by is_crlf strip_blank_lines relative_indent
    relative_indenter make_all_relative make_relative strip_by is_space lstrip_by
partly = refl

apply_partial_hunk-IsLargest_example :
    (p q : ℕ) × IsLargest
      (codes "aa\nbb\ncc\n")
      context
      change
      after_context
      (some (codes "aa\nxx\ncc\n"))
      p
      q
apply_partial_hunk-IsLargest_example =
    apply_partial_hunk-IsLargest (codes "aa\nbb\ncc\n") context change after_context
      (some (codes "aa\nxx\ncc\n")) partly (unfold is_found in refl)

abbrev hunk : List HunkLine
hunk = (kept, (97, codes "\n")) ∷ (removed, (98, codes "\n")) ∷ (added, (120, codes "\n")) ∷ []

abbrev no_diffs : DiffLibraries
no_diffs = record { line_diff = λ a b. []; unified_diff = λ a b n. [] }

do_replace-patched_example :
    do_replace no_diffs true (some (codes "z\na\nb\nc\n")) (map printed hunk)
    ≡ ok (some (patched 2 hunk (codes "z\na\nb\nc\n")))
do_replace-patched_example =
    do_replace-patched no_diffs hunk (codes "z\na\nb\nc\n") 2 (unfold is_blank in refl)
      (unfold rstrip_by is_crlf in refl) (unfold rstrip_by is_crlf find starts_with in refl)
      (unfold rstrip_by is_crlf count in refl) (unfold rstrip_by is_crlf in refl)

abbrev lines_of_hunk : List Text
lines_of_hunk = codes " a\n" ∷ codes "-b\n" ∷ codes "+c\n" ∷ codes "\n" ∷ []

lines_of_hunk-operations : All IsOperation lines_of_hunk
unfolding class_of op_class
lines_of_hunk-operations = (inl refl, (inr refl, (inr refl, (inl refl, tt))))

their_operations : ops_of lines_of_hunk ≡ ok (32 ∷ 120 ∷ 120 ∷ 32 ∷ [])
unfolding ops_of op_class
their_operations = refl

sections_of-IsCut_example :
    IsCut lines_of_hunk (sections_of (32 ∷ 120 ∷ 120 ∷ 32 ∷ []) lines_of_hunk)
sections_of-IsCut_example =
    sections_of-IsCut lines_of_hunk (32 ∷ 120 ∷ 120 ∷ 32 ∷ []) lines_of_hunk-operations
      their_operations

abbrev mixed : List Endlines.Line
mixed = (codes "a", true) ∷ (codes "b", false) ∷ []

mixed-IsLine : All Endlines.IsLine mixed
unfolding is_line_end
mixed-IsLine = (refl, (refl, tt))

normalize_endlines_content-lines_example :
    normalize_endlines_content (concat (map Endlines.ended mixed))
    ≡ concat (map Endlines.ended_lf mixed)
normalize_endlines_content-lines_example = normalize_endlines_content-lines mixed mixed-IsLine

-- A form feed ends a line too, and the line feed behind it becomes a line of its own.
form_feed :
    normalize_endlines_content (codes "a" ++ 12 ∷ codes "\nb\n") ≡ codes "a" ++ 12 ∷ codes "\n\nb\n"
unfolding normalize_endlines_content splitlines_keep
form_feed = refl

-- A stand-in for difflib: three lines of heading and the lines before the change.
abbrev heading : List Text → List Text → ℕ → List Text
heading a b n = [] ∷ [] ∷ [] ∷ a

abbrev same_hunks : List (List Text)
same_hunks = (codes " a\n" ∷ []) ∷ (codes " a\n" ∷ codes "+b\n" ∷ []) ∷ (codes "+b\n" ∷ []) ∷ []

picked : get_unique_normalized_edits heading same_hunks ≡ ok ((codes "a\n" ∷ []) ∷ [])
unfolding get_unique_normalized_edits normalize_hunk text_eq unique_edits
picked = refl

get_unique_normalized_edits-IsUnique_example :
    IsUnique heading [] same_hunks ((codes "a\n" ∷ []) ∷ [])
get_unique_normalized_edits-IsUnique_example =
    get_unique_normalized_edits-IsUnique heading same_hunks ((codes "a\n" ∷ []) ∷ []) picked

abbrev environment : Environment
environment = record { difflib = no_difflib; diffs = no_diffs; exists = λ repo path. true }

abbrev requests : List FileDiffApplicationRequest
requests =
    record {
      file_path = codes "f";
      repo_path = codes "r";
      current_content = codes "a\n";
      diff_data = line_numbered_data [];
    }
    ∷ record {
      file_path = codes "g";
      repo_path = codes "r";
      current_content = codes "a\n";
      diff_data = udiff_data [];
    }
    ∷ []

bulk_apply_diff-paths_example :
    Returns
      (λ (responses : List FileDiffApplicationResponse).
        map (λ r. r.new_file_path) responses ≡ map (λ r. r.file_path) requests)
      (bulk_apply_diff environment requests)
bulk_apply_diff-paths_example = bulk_apply_diff-paths environment requests
