-- ===== src/Diff/Applicator/Paths.antt =====
-- Responses and their requests.
use deputydev_core.Diff.SearchReplace.Blocks.{extract_search_replace_blocks}
use deputydev_core.Diff.Unified.{get_edits}
use deputydev_core.Diff.Unified.Normal.{
  get_unique_normalized_edits, clean_patch, normalize_endlines_content,
}
use deputydev_core.Py.Strip.{is_blank}
use deputydev_core.Diff.Data.{DiffData, udiff_data, line_numbered_data, search_and_replace_data}
use deputydev_core.Diff.LineNumbered
use deputydev_core.Diff.Unified.Relative.{Failure}
use deputydev_core.Diff.SearchReplace.Runner.{ApplyError}
use deputydev_core.Prelude.{
  Option, none, some, if◌then◌else◌, is_empty, not, inl, inr, arith, Bool, List, [], ◌∷◌, map, ◌≡◌,
  refl,
}
use deputydev_core.Py.Chars.{Text}
use deputydev_core.Py.Result.{Result, ok, err, Returns, ok-Returns, Result-cases}
use deputydev_core.Diff.Data.{FileDiffApplicationRequest, FileDiffApplicationResponse}
use deputydev_core.Diff.SearchReplace.Runner as Search
use deputydev_core.Diff.SearchReplace.Runner.{Difflib}
use deputydev_core.Diff.Unified.Runner as Unified
use deputydev_core.Diff.Unified.Runner.{DiffLibraries, Report}
use deputydev_core.Diff.Applicator.{
  of_unified, of_search, Environment, apply_diff_to_file, bulk_apply_diff,
}

-- The response names the file.
abbrev Names : Text → FileDiffApplicationResponse → Type 0
Names path response = response.new_file_path ≡ path

unified_path :
    (libs : DiffLibraries) (exists : Bool) (path content udiff : Text)
    → Returns
        (λ (response, printed). Names path response)
        (Unified.apply_diff libs exists path content udiff)
unfolding Unified.apply_diff
unified_path libs exists path content udiff =
    let running : Option Text =
      if is_empty content then none else some (normalize_endlines_content content) in
    elim (Result-cases
      (get_unique_normalized_edits libs.unified_diff (get_edits (clean_patch udiff)))) [
        | inr (e, h) ↦ rw h tt
        | inl (unique, h) ↦
            rw h (elim (Result-cases (Unified.edit_loop libs exists (running, []) unique)) [
              | inr (e, g) ↦ rw g tt
              | inl (st, g) ↦ rw g refl
            ])
      ]

search_edits_path :
    (difflib : Difflib) (path content : Text) (supplied : Bool) (edits : List (Text × Text))
    (response : FileDiffApplicationResponse)
    → Search.apply_edits difflib path content supplied edits ≡ ok response
    → Names path response
unfolding Search.apply_edits Search.apply_matches
search_edits_path difflib path content supplied edits response h = ground arith

search_path :
    (difflib : Difflib) (path content blocks : Text) (response : FileDiffApplicationResponse)
    → Search.apply_diff difflib path content blocks ≡ ok response
    → Names path response
unfolding Search.apply_diff
search_path difflib path content blocks response h =
    elim (Result-cases (extract_search_replace_blocks blocks)) [
      | inr (e, g) ↦ absurd (ground arith)
      | inl (edits, g) ↦
          search_edits_path difflib path content (not (is_blank blocks)) edits response
            (ground arith)
    ]

of_unified_path :
    (path : Text) (r : Result Failure (FileDiffApplicationResponse × List Report))
    → Returns (λ (response, printed). Names path response) r
    → Returns (Names path) (of_unified r)
unfolding of_unified
of_unified_path path (ok (response, printed)) h = h
of_unified_path path (err e) h = tt

of_search_path :
    (path : Text) (r : Result ApplyError FileDiffApplicationResponse)
    → Returns (Names path) r
    → Returns (Names path) (of_search r)
unfolding of_search
of_search_path path (ok response) h = h
of_search_path path (err e) h = tt

run_path :
    (env : Environment) (path repo content : Text) (diff : DiffData)
    → Returns (Names path) (
        apply_diff_to_file env (record {
          file_path = path;
          repo_path = repo;
          current_content = content;
          diff_data = diff;
        }))
unfolding apply_diff_to_file
run_path env path repo content (udiff_data udiff) =
    of_unified_path path (Unified.apply_diff env.diffs (env.exists repo path) path content udiff)
      (unified_path env.diffs (env.exists repo path) path content udiff)
run_path env path repo content (line_numbered_data chunks) = unfold LineNumbered.apply_diff in refl
run_path env path repo content (search_and_replace_data blocks) =
    of_search_path path (Search.apply_diff env.difflib path content blocks) (
      ok-Returns (Names path) (Search.apply_diff env.difflib path content blocks)
        (search_path env.difflib path content blocks))

apply_diff_to_file-path :
    (env : Environment) (request : FileDiffApplicationRequest)
    → Returns (Names request.file_path) (apply_diff_to_file env request)
apply_diff_to_file-path env request =
    run_path env request.file_path request.repo_path request.current_content request.diff_data

-- A batch that succeeds has one response for each request, in order, which names its file.
pub bulk_apply_diff-paths :
    (env : Environment) (requests : List FileDiffApplicationRequest)
    → Returns
        (λ (responses : List FileDiffApplicationResponse).
          map (λ r. r.new_file_path) responses ≡ map (λ r. r.file_path) requests)
        (bulk_apply_diff env requests)
unfolding bulk_apply_diff
bulk_apply_diff-paths env [] = refl
bulk_apply_diff-paths env (request ∷ requests) =
    elim (Result-cases (apply_diff_to_file env request)) [
      | inr (e, h) ↦ rw h tt
      | inl (first, h) ↦ rw h (elim (Result-cases (bulk_apply_diff env requests)) [
        | inr (e, g) ↦ rw g tt
        | inl (rest, g) ↦
            let one : first.new_file_path ≡ request.file_path =
              rw h at (apply_diff_to_file-path env request) in
            let others : map (λ r. r.new_file_path) rest ≡ map (λ r. r.file_path) requests =
              rw g at (bulk_apply_diff-paths env requests) in
            rw g (λ i. one i ∷ others i)
      ])
    ]
