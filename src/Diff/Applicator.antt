-- ===== src/Diff/Applicator.antt =====
-- services/diff/diff_applicator.py: the runner of a request's type, and the requests of a batch.
pub mod Paths
use deputydev_core.Prelude.{List, [], ◌∷◌, Bool}
use deputydev_core.Py.Chars.{Text}
use deputydev_core.Py.Result.{Result, ok, err, ◌>>=◌}
use deputydev_core.Diff.Data.{
  DiffData, udiff_data, line_numbered_data, search_and_replace_data, FileDiffApplicationRequest,
  FileDiffApplicationResponse,
}
use deputydev_core.Diff.LineNumbered
use deputydev_core.Diff.SearchReplace.Runner as Search
use deputydev_core.Diff.SearchReplace.Runner.{ApplyError, Difflib}
use deputydev_core.Diff.Unified.Relative.{Failure}
use deputydev_core.Diff.Unified.Runner as Unified

-- What the packages and the file system give: the matcher of difflib, the diffs, and whether the
-- file of a repository is there.
pub record Environment : Type 0 where
  pub difflib : Difflib
  pub diffs : Unified.DiffLibraries
  pub exists : Text → Text → Bool

-- What the runners raise.
pub data RunnerError : Type 0 where
  unified_error : Failure → RunnerError
  search_error : ApplyError → RunnerError

unfoldable pub of_unified :
    Result Failure (FileDiffApplicationResponse × List Unified.Report)
    → Result RunnerError FileDiffApplicationResponse
of_unified (ok (response, printed)) = ok response
of_unified (err e) = err (unified_error e)

unfoldable pub of_search :
    Result ApplyError FileDiffApplicationResponse → Result RunnerError FileDiffApplicationResponse
of_search (ok response) = ok response
of_search (err e) = err (search_error e)

module _ (env : Environment) where
  -- The type of the data chooses the runner; there is one for each type.
  unfoldable pub apply_diff_to_file :
      FileDiffApplicationRequest → Result RunnerError FileDiffApplicationResponse
  unfolding of_unified of_search Unified.apply_diff LineNumbered.apply_diff Search.apply_diff
  apply_diff_to_file request = elim request.diff_data [
    | udiff_data incremental_udiff ↦ of_unified (
        Unified.apply_diff env.diffs (env.exists request.repo_path request.file_path)
          request.file_path request.current_content incremental_udiff)
    | line_numbered_data diff_chunks ↦
        ok (LineNumbered.apply_diff request.file_path request.current_content diff_chunks)
    | search_and_replace_data blocks ↦
        of_search (Search.apply_diff env.difflib request.file_path request.current_content blocks)
  ]

  -- The runners wait for nothing, so the requests run one after the other; the first exception is
  -- that of the batch.
  unfoldable pub bulk_apply_diff :
      List FileDiffApplicationRequest → Result RunnerError (List FileDiffApplicationResponse)
  unfolding apply_diff_to_file
  bulk_apply_diff [] = ok []
  bulk_apply_diff (request ∷ requests) =
      apply_diff_to_file request
      >>= (λ first. bulk_apply_diff requests >>= (λ rest. ok (first ∷ rest)))
