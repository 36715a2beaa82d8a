-- ===== src/Diff/Unified/Runner/Replace.antt =====
-- A hunk whose old text stands once in the file, applied by the whole of `do_replace`.
use deputydev_core.Diff.Unified.{hunk_to_before_after}
use deputydev_core.Diff.Unified.Flexible.{is_found}
use deputydev_core.Diff.Unified.Apply.{directly_apply_hunk}
use deputydev_core.Prelude.{Option, arith, ℕ, List, map, true, false, some, concat, ◌≡◌, is_empty}
use deputydev_core.Py.Chars.{Text}
use deputydev_core.Py.Strip.{is_blank}
use deputydev_core.Py.Result.{ok}
use deputydev_core.Py.Search.{find, count}
use deputydev_core.Diff.Unified.Hunks.{HunkLine, printed, old_lines, hunk_to_before_after-printed}
use deputydev_core.Diff.Unified.Flexible.Literal.{is_found-some}
use deputydev_core.Diff.Unified.Apply.Once.{old_text, patched, directly_apply_hunk-patched}
use deputydev_core.Diff.Unified.Runner.{DiffLibraries, apply_hunk, found_only, do_replace}

module _ (libs : DiffLibraries) (content : Text) (hunk : List Text) (res : Option Text) where
  apply_hunk-direct :
      directly_apply_hunk content hunk ≡ ok res
      → is_found res ≡ true
      → apply_hunk libs content hunk ≡ ok res
  unfolding apply_hunk
  apply_hunk-direct d f = ground arith

  do_replace-edit :
      is_blank (concat (hunk_to_before_after hunk).0) ≡ false
      → apply_hunk libs content hunk ≡ ok res
      → is_found res ≡ true
      → do_replace libs true (some content) hunk ≡ ok res
  unfolding do_replace found_only
  do_replace-edit b d f = ground arith

-- In a file that is there, a printed hunk with an old text that is not blank and stands once in
-- the content puts its new text in its place and changes nothing else, if that leaves any text.
pub do_replace-patched :
    (libs : DiffLibraries) (ls : List HunkLine) (content : Text) (i : ℕ)
    → is_blank (concat (old_lines ls)) ≡ false
    → is_empty (old_text ls) ≡ false
    → find (old_text ls) content ≡ some i
    → count (old_text ls) content ≡ 1
    → is_empty (patched i ls content) ≡ false
    → do_replace libs true (some content) (map printed ls) ≡ ok (some (patched i ls content))
do_replace-patched libs ls content i b n f c p =
    let hunk = map printed ls in
    let res : Option Text = some (patched i ls content) in
    let found = is_found-some (patched i ls content) p in
    let direct = directly_apply_hunk-patched ls content i n f c p in
    do_replace-edit libs content hunk res (rw (hunk_to_before_after-printed ls) b)
      (apply_hunk-direct libs content hunk res direct found) found
