-- ===== src/Diff/SearchReplace/Prep.antt =====
-- `_prep_with_trailing`, `prep` and `trim_blank_lines` of search_and_replace/runner.py
use deputydev_core.Prelude.{List, ◌++◌, Bool, not, ◌&&◌, is_empty, if◌then◌else◌}
use deputydev_core.Py.Chars.{Text, crlf, newline, lf}
use deputydev_core.Py.Lines.{splitlines_keep}
use deputydev_core.Py.Search.{contains, ends_with_char, replace}
use deputydev_core.Py.Strip.{is_blank, strip_by}

-- The tuple that `_prep_with_trailing` returns; `is_crlf_style` says which the newline style is.
pub record Prepared : Type 0 where
  pub content_lf : Text
  pub lines : List Text
  pub is_crlf_style : Bool
  pub had_trailing_newline : Bool

-- A text that ends with "\r\n" ends with "\n", so one test serves for both suffixes.
unfoldable pub with_final_newline : Text → Text
unfolding ends_with_char
with_final_newline s = if not (is_empty s) && not (ends_with_char lf s) then s ++ newline else s

unfoldable pub normalise : Text → Text
unfolding replace with_final_newline
normalise content = with_final_newline (replace crlf newline content)

unfoldable pub prep_with_trailing : Text → Prepared
prep_with_trailing content = record {
  content_lf = normalise content;
  lines = splitlines_keep (normalise content);
  is_crlf_style = contains crlf content;
  had_trailing_newline = ends_with_char lf content;
}

-- `prep` forgets the last component.
unfoldable pub prep : Text → Text × List Text
unfolding prep_with_trailing
prep content = ((prep_with_trailing content).content_lf, (prep_with_trailing content).lines)

-- The two loops drop blank lines from the front and from the end.
unfoldable pub trim_blank_lines : List Text → List Text
unfolding strip_by is_blank
trim_blank_lines lines = strip_by is_blank lines
