-- ===== src/Examples/Tests.antt =====
-- Tests of single functions.
use deputydev_core.Chunking.Content.{chunk_at, chunks_from, chunk_content}
use deputydev_core.Diff.SearchReplace.Blocks.{extract_search_replace_blocks, unterminated_search}
use deputydev_core.Diff.SearchReplace.Fuzzy.{max_len, min_len}
use deputydev_core.Diff.SearchReplace.Prep.{normalise, prep, prep_with_trailing, trim_blank_lines}
use deputydev_core.Diff.SearchReplace.Runner.{
  locate_edit, locate_all, apply_edits, apply_matches, no_difflib, overlaps, pieces, restore,
}
use deputydev_core.Prelude.{[], refl, sort_by, ℕ, ◌∷◌, ◌≡◌}
use deputydev_core.Py.Chars.{codes, text_eq}
use deputydev_core.Py.Lines.{split_lf, splitlines_keep}
use deputydev_core.Py.Result.{err, ok}
use deputydev_core.Py.Search.{contains, ends_with_char}
use deputydev_core.Diff.LineNumbered
use deputydev_core.Diff.SearchReplace.Runner

replace_second_line :
    (LineNumbered.apply_diff
      (codes "f")
      (codes "a\nb\nc\n")
      (record { start_line = 2; end_line = 2; diff = codes "x\ny\n" } ∷ [])).new_content
    ≡ codes "a\nx\ny\nc\n"
unfolding LineNumbered.apply_diff split_lf
replace_second_line = refl

one_block :
    extract_search_replace_blocks (codes "x\n------- SEARCH\na\n=======\nb\n+++++++ REPLACE\n")
    ≡ ok ((codes "a\n", codes "b\n") ∷ [])
unfolding extract_search_replace_blocks
one_block = refl

no_divider :
    extract_search_replace_blocks (codes "--- SEARCH\na\n+++ REPLACE\n") ≡ err unterminated_search
unfolding extract_search_replace_blocks
no_divider = refl

replaces_a_line :
    Runner.apply_diff no_difflib
      (codes "f")
      (codes "a\r\nb\r\nc")
      (codes "--- SEARCH\nb\n===\nx\ny\n+++ REPLACE\n")
    ≡ ok (record { new_file_path = codes "f"; new_content = codes "a\r\nx\r\ny\r\nc" })
unfolding Runner.apply_diff apply_edits prep_with_trailing normalise contains splitlines_keep
    ends_with_char locate_all locate_edit apply_matches overlaps pieces restore sort_by text_eq
replaces_a_line = refl

prep_crlf : (prep (codes "a\r\nb")).0 ≡ codes "a\nb\n"
unfolding prep normalise contains ends_with_char splitlines_keep
prep_crlf = refl

trims_edges :
    trim_blank_lines (codes " \n" ∷ codes "a\n" ∷ codes "\n" ∷ codes "b\n" ∷ codes "\n" ∷ [])
    ≡ codes "a\n" ∷ codes "\n" ∷ codes "b\n" ∷ []
unfolding trim_blank_lines
trims_edges = refl

ten_lines : ◌≡◌ {A = ℕ × ℕ} (min_len 10, max_len 10) (9, 11)
unfolding min_len max_len
ten_lines = refl

three_lines :
    chunk_content (codes "a\nb\nc") 2 1
    ≡ ok (
        record { start = 0; stop = 2; chunk = codes "a\nb" }
        ∷ record { start = 1; stop = 3; chunk = codes "b\nc" }
        ∷ record { start = 2; stop = 3; chunk = codes "c" }
        ∷ [])
unfolding chunk_content chunks_from chunk_at
three_lines = refl
