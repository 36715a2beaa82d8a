-- ===== src/Diff/Unified/Apply.antt =====
-- services/diff/algo_runners/unified_diff/runner.py: applying one hunk. The packages
-- diff_match_patch and difflib are parameters.
pub mod Context
pub mod Once
use deputydev_core.Prelude.{
  ℕ, zero, suc, ◌+◌, ◌-◌, List, [], ◌∷◌, ◌++◌, map, ◌&&◌, Option, none, ltb, length, take, drop,
  concat, is_empty, if◌then◌else◌,
}
use deputydev_core.Py.Chars.{Text, is_crlf}
use deputydev_core.Py.Result.{Result, ok, err}
use deputydev_core.Py.Search.{count}
use deputydev_core.Py.Strip.{rstrip_by, strip}
use deputydev_core.Diff.Unified.{hunk_to_before_after}
use deputydev_core.Diff.Unified.Relative.{Failure, value_error, search_text_not_unique, index_error}
use deputydev_core.Diff.Unified.Flexible.{
  is_found, first_found, all_preprocs, search_and_replace, flexible_search_and_replace,
}

unfoldable pub flexi_just_search_and_replace : List Text → Result Failure (Option Text)
flexi_just_search_and_replace texts =
    flexible_search_and_replace texts ((search_and_replace, all_preprocs) ∷ [])

-- `except SearchTextNotUnique: new_content = None`
unfoldable pub not_unique_caught : Result Failure (Option Text) → Result Failure (Option Text)
not_unique_caught (ok res) = ok res
not_unique_caught (err value_error) = err value_error
not_unique_caught (err search_text_not_unique) = ok none
not_unique_caught (err index_error) = err index_error

unfoldable pub directly_apply_hunk : Text → List Text → Result Failure (Option Text)
directly_apply_hunk content hunk =
    let (before_texts, after_texts) = hunk_to_before_after hunk in
    let before = rstrip_by is_crlf (concat before_texts) in
    let after = rstrip_by is_crlf (concat after_texts) in
    let before_lines = concat (map (λ line. strip line) before_texts) in
    if is_empty before
    then ok none
    else if ltb (length before_lines) 10 && ltb 1 (count before content)
    then ok none
    else not_unique_caught (flexi_just_search_and_replace (before ∷ after ∷ content ∷ []))

-- `range(n, -1, -1)`
unfoldable pub down_from : ℕ → List ℕ
down_from zero = 0 ∷ []
down_from (suc n) = suc n ∷ down_from n

-- `xs[-n:]` for 0 < n, and `[]` for n = 0
abbrev pub last_lines : ℕ → List Text → List Text
last_lines n xs = drop (length xs - n) xs

module _ (content : Text) (preceding_context changes following_context : List Text) where
  -- The hunk with `use_prec` lines before and `use_foll` lines behind the changes.
  unfoldable pub with_context : ℕ → ℕ → Result Failure (Option Text)
  with_context use_prec use_foll =
      directly_apply_hunk content
        (last_lines use_prec preceding_context ++ changes ++ take use_foll following_context)

  -- One round of the inner loop, `total` for `use`; the two `continue` give `none`.
  unfoldable pub try_context : ℕ → ℕ → Result Failure (Option Text)
  try_context total use_prec =
      if ltb total use_prec
      then ok none
      else if ltb (length following_context) (total - use_prec)
      then ok none
      else with_context use_prec (total - use_prec)

  unfoldable pub apply_partial_hunk : Result Failure (Option Text)
  apply_partial_hunk =
      first_found
        (λ total.
          first_found (λ use_prec. try_context total use_prec)
            (down_from (length preceding_context)))
        (down_from (length preceding_context + length following_context))
