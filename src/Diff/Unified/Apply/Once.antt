-- ===== src/Diff/Unified/Apply/Once.antt =====
-- A hunk whose old text stands once in the content.
use deputydev_core.Prelude.{
  ◌&&◌, ℕ, ◌+◌, List, [], ◌∷◌, ◌++◌, map, Bool, true, false, ltb, some, concat, length, take, drop,
  ◌≡◌, refl, arith, is_empty,
}
use deputydev_core.Py.Chars.{Text, is_crlf}
use deputydev_core.Py.Strip.{rstrip_by, strip}
use deputydev_core.Py.Result.{ok}
use deputydev_core.Py.Search.{find, count}
use deputydev_core.Py.Search.Laws.{replace-once}
use deputydev_core.Diff.Unified.Hunks.{
  HunkLine, printed, old_lines, new_lines, hunk_to_before_after-printed,
}
use deputydev_core.Diff.Unified.Flexible.Literal.{flexible_search_and_replace-literal}
use deputydev_core.Diff.Unified.Apply.{
  flexi_just_search_and_replace, not_unique_caught, directly_apply_hunk,
}

abbrev pub old_text : List HunkLine → Text
old_text ls = rstrip_by is_crlf (concat (old_lines ls))

abbrev pub new_text : List HunkLine → Text
new_text ls = rstrip_by is_crlf (concat (new_lines ls))

-- The content with the old text at `i` replaced by the new one.
abbrev pub patched : ℕ → List HunkLine → Text → Text
patched i ls content = take i content ++ (new_text ls ++ drop (i + length (old_text ls)) content)

and-false : (b : Bool) → (b && false) ≡ false
and-false true = refl
and-false false = refl

once_literal :
    (old new content : Text) (i : ℕ)
    → is_empty old ≡ false
    → find old content ≡ some i
    → count old content ≡ 1
    → is_empty (take i content ++ (new ++ drop (i + length old) content)) ≡ false
    → not_unique_caught (flexi_just_search_and_replace (old ∷ new ∷ content ∷ []))
      ≡ ok (some (take i content ++ (new ++ drop (i + length old) content)))
unfolding flexi_just_search_and_replace not_unique_caught
once_literal old new content i n f c p =
    let e = replace-once old new content i f c n in
    rw (flexible_search_and_replace-literal old new content (omega (arith, c)) (rw e p), e) refl

-- A hunk whose old text, line ends at its end apart, stands once in the content, however short it
-- is, puts its new text there and changes nothing else, if that leaves any text.
pub directly_apply_hunk-patched :
    (ls : List HunkLine) (content : Text) (i : ℕ)
    → is_empty (old_text ls) ≡ false
    → find (old_text ls) content ≡ some i
    → count (old_text ls) content ≡ 1
    → is_empty (patched i ls content) ≡ false
    → directly_apply_hunk content (map printed ls) ≡ ok (some (patched i ls content))
unfolding directly_apply_hunk
directly_apply_hunk-patched ls content i n f c p =
    rw
      (
        hunk_to_before_after-printed ls,
        n,
        c,
        and-false (ltb (length (concat (map (λ line. strip line) (old_lines ls)))) 10),
      )
      (once_literal (old_text ls) (new_text ls) content i n f c p)
