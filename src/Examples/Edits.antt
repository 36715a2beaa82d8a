-- ===== src/Examples/Edits.antt =====
-- Diffs of small files, applied and located.
use deputydev_core.Prelude.{
  is_empty, sym, ap, ◌∙◌, ◌≤◌, List, [], ◌∷◌, ◌++◌, true, false, some, length, concat, sort_by, All,
  ◌≡◌, ◌≢◌, refl, arith, map,
}
use deputydev_core.Py.Chars.{Text, codes, crlf, text_eq}
use deputydev_core.Py.Lines.{splitlines_keep, split_lf}
use deputydev_core.Py.Result.{ok, err}
use deputydev_core.Py.Search.{contains}
use deputydev_core.Py.Strip.{is_blank}
use deputydev_core.Diff.Data.{DiffChunk, FileDiffApplicationResponse}
use deputydev_core.Diff.LineNumbered.{apply_diff}
use deputydev_core.Diff.LineNumbered.Splice.{
  splice, body, last_part, apply_diff-splice, body_lem, AreDisjoint,
}
use deputydev_core.Diff.Unified.Hunks.{kept, removed, added, HunkLine}
use deputydev_core.Diff.SearchReplace.Prep.{prep, trim_blank_lines, normalise, prep_with_trailing}
use deputydev_core.Diff.SearchReplace.Blocks.{
  extract_lines, unterminated_search, unterminated_replace, is_head, is_div, is_upd,
}
use deputydev_core.Diff.SearchReplace.Blocks.RoundTrip.{
  Block, IsPrintable, print, edit_of, extract-print, extract_unterminated,
}
use deputydev_core.Diff.SearchReplace.Locate.{locate_span}
use deputydev_core.Diff.SearchReplace.Locate.Bounds.{locate_span-Within}
use deputydev_core.Diff.SearchReplace.Runner.{
  Match, apply_matches, locate_all, locate_edit, EditError, apply_edits, failed_edits, overlaps,
  pieces, no_difflib, restore,
}
use deputydev_core.Diff.SearchReplace.Runner.Edits.{one_by_one, pieces-sort_by}
use deputydev_core.Diff.SearchReplace.Runner.Outcome.{
  apply_edits-ok, apply_edits-unplaced, has_place, norm, unplaced as unplaced_of, spans as spans_of,
  edit_of as edit_of_error,
}

abbrev second_line : DiffChunk
second_line = record { start_line = 2; end_line = 2; diff = codes "x\ny\n" }

abbrev chunks : List DiffChunk
chunks = record { start_line = 4; end_line = 5; diff = codes "z\n" } ∷ second_line ∷ []

chunks-AreDisjoint :
    AreDisjoint 0
      (length (splitlines_keep (codes "a\nb\nc\nd\ne\n")))
      (sort_by (λ c. c.start_line) chunks)
unfolding sort_by splitlines_keep
chunks-AreDisjoint =
    (omega arith, omega arith, omega arith, (omega arith, omega arith, omega arith, tt))

apply_diff-splice_example :
    (apply_diff (codes "f") (codes "a\nb\nc\nd\ne\n") chunks).new_content
    ≡ concat
        (splice 0 (sort_by (λ c. c.start_line) chunks) (splitlines_keep (codes "a\nb\nc\nd\ne\n")))
apply_diff-splice_example =
    apply_diff-splice (codes "f") (codes "a\nb\nc\nd\ne\n") chunks chunks-AreDisjoint

body_lem_example :
    concat (body second_line) ++ last_part (split_lf second_line.diff) ≡ codes "x\ny\n"
body_lem_example = body_lem second_line

abbrev block : Block
block = record {
  prose = codes "first\n" ∷ [];
  head = codes "------- SEARCH\n";
  search = codes "b\n" ∷ [];
  div = codes "=======\n";
  replace = codes "x\n" ∷ codes "y\n" ∷ [];
  upd = codes "+++++++ REPLACE\n";
}

block-IsPrintable : All IsPrintable (block ∷ [])
unfolding is_head is_div is_upd
block-IsPrintable = (
  record {
    prose_free = (refl, tt);
    head_ok = refl;
    search_free = (refl, tt);
    div_ok = refl;
    replace_free = (refl, (refl, tt));
    upd_ok = refl;
  },
  tt,
)

last_prose : All (λ l. is_head l ≡ false) (codes "end\n" ∷ [])
unfolding is_head
last_prose = (refl, tt)

extract-print_example :
    extract_lines (print (block ∷ []) (codes "end\n" ∷ [])) ≡ ok (map edit_of (block ∷ []))
extract-print_example = extract-print (block ∷ []) block-IsPrintable (codes "end\n" ∷ []) last_prose

opens : is_head (codes "--- SEARCH\n") ≡ true
unfolding is_head
opens = refl

divides : is_div (codes "===\n") ≡ true
unfolding is_div
divides = refl

no_divider : All (λ l. is_div l ≡ false) (codes "b\n" ∷ [])
unfolding is_div
no_divider = (refl, tt)

no_end : All (λ l. is_upd l ≡ false) (codes "x\n" ∷ [])
unfolding is_upd
no_end = (refl, tt)

extract_unterminated_example :
    (extract_lines (print (block ∷ []) (codes "--- SEARCH\n" ∷ (codes "b\n" ∷ [])))
      ≡ err unterminated_search)
    × (extract_lines (
          print
            (block ∷ [])
            (codes "--- SEARCH\n" ∷ ((codes "b\n" ∷ []) ++ codes "===\n" ∷ (codes "x\n" ∷ []))))
        ≡ err unterminated_replace)
extract_unterminated_example =
    extract_unterminated (block ∷ []) block-IsPrintable (codes "--- SEARCH\n") (codes "===\n")
      (codes "b\n" ∷ []) (codes "x\n" ∷ []) opens no_divider divides no_end

located : locate_span no_difflib.matches (codes "a\n  b\nc\n") (codes "b\n") ≡ some (4, 6)
unfolding locate_span normalise
located = refl

locate_span-Within_example : (4 ≤ 6) × (6 ≤ length (prep (codes "a\n  b\nc\n")).0)
locate_span-Within_example =
    locate_span-Within no_difflib.matches (codes "a\n  b\nc\n") (codes "b\n") 4 6 located

abbrev spans : List Match
spans =
    record { start = 3; stop = 4; repl = codes "z" }
    ∷ record { start = 0; stop = 1; repl = codes "xy" }
    ∷ []

apart : overlaps (sort_by (λ m. m.start) spans) ≡ false
unfolding overlaps sort_by
apart = refl

pieces-sort_by_example :
    pieces (codes "abcde") 0 (sort_by (λ m. m.start) spans)
    ≡ one_by_one (codes "abcde") (sort_by (λ m. m.start) spans)
pieces-sort_by_example =
    pieces-sort_by (codes "abcde") spans
      ((omega arith, omega arith), ((omega arith, omega arith), tt)) apart

abbrev edits : List (Text × Text)
edits = (codes "b\n", codes "x\ny\n") ∷ []

applied :
    apply_edits no_difflib (codes "f") (codes "a\r\nb\r\nc") true edits
    ≡ ok (record { new_file_path = codes "f"; new_content = codes "a\r\nx\r\ny\r\nc" })
unfolding apply_edits apply_matches locate_all locate_edit normalise overlaps sort_by text_eq
    restore contains pieces
applied = refl

abbrev absent : List (Text × Text)
absent = (codes "b\n", codes "x\n") ∷ (codes "q\n", codes "y\n") ∷ []

no_crlf : contains crlf (norm no_difflib (codes "f") (codes "a\r\nb\r\nc") edits) ≡ false
unfolding contains normalise
no_crlf = refl

edits-ne-nil : {e : Text × Text} {es : List (Text × Text)} → e ∷ es ≢ []
edits-ne-nil h = absurd (cc)

abbrev new_file : FileDiffApplicationResponse
new_file = record { new_file_path = codes "f"; new_content = codes "a\r\nx\r\ny\r\nc" }

apply_edits-ok_example :
    (unplaced_of no_difflib (codes "f") (codes "a\r\nb\r\nc") edits ≡ [])
    × (overlaps (spans_of no_difflib (codes "f") (codes "a\r\nb\r\nc") edits) ≡ false)
    × (new_file.new_content
        ≡ restore (prep_with_trailing (codes "a\r\nb\r\nc")) (
            one_by_one
              (norm no_difflib (codes "f") (codes "a\r\nb\r\nc") edits)
              (spans_of no_difflib (codes "f") (codes "a\r\nb\r\nc") edits)))
    × (new_file.new_content ≢ codes "a\r\nb\r\nc")
apply_edits-ok_example =
    apply_edits-ok no_difflib (codes "f") (codes "a\r\nb\r\nc") edits new_file edits-ne-nil no_crlf
      applied

one_absent : is_empty (unplaced_of no_difflib (codes "f") (codes "a\nb\n") absent) ≡ false
unfolding normalise locate_span has_place is_blank splitlines_keep trim_blank_lines text_eq
one_absent = refl

some_absent : unplaced_of no_difflib (codes "f") (codes "a\nb\n") absent ≢ []
some_absent h = let e : false ≡ true = sym one_absent ∙ ap is_empty h in absurd (cc)

apply_edits-unplaced_example :
    (es : List EditError) × (apply_edits no_difflib (codes "f") (codes "a\nb\n") true absent
      ≡ err (failed_edits es))
    × (map (edit_of_error no_difflib (norm no_difflib (codes "f") (codes "a\nb\n") absent)) es
        ≡ unplaced_of no_difflib (codes "f") (codes "a\nb\n") absent)
apply_edits-unplaced_example =
    apply_edits-unplaced no_difflib (codes "f") (codes "a\nb\n") absent some_absent

abbrev hunk_lines : List HunkLine
hunk_lines = (kept, (97, codes "\n")) ∷ (removed, (98, codes "\n")) ∷ (added, (99, codes "\n")) ∷ []
