-- ===== src/Diff/SearchReplace/Blocks.antt =====
-- `_extract_search_replace_blocks` of search_and_replace/runner.py. The nested loops run over one
-- index, so they are one pass over the lines whose mode says which loop is running.
pub mod RoundTrip
use deputydev_core.Prelude.{
  ℕ, zero, suc, List, [], ◌∷◌, ◌++◌, Bool, true, false, ◌&&◌, leb, ◌==◌, concat, if◌then◌else◌, ◌≡◌,
  refl,
}
use deputydev_core.Py.Chars.{Text, codes, text_eq, is_space}
use deputydev_core.Py.Lines.{splitlines_keep}
use deputydev_core.Py.Result.{Result, ok, err}
use deputydev_core.Py.Strip.{strip, strip_by}

pub data BlockError : Type 0 where
  unterminated_search unterminated_replace : BlockError

-- How often `c` stands at the front, and what follows.
unfoldable pub run_length : ℕ → Text → ℕ
run_length c [] = 0
run_length c (d ∷ s) = let rest = suc (run_length c s) in if d == c then rest else 0

unfoldable pub after_run : ℕ → Text → Text
after_run c [] = []
after_run c (d ∷ s) = let rest = after_run c s in if d == c then rest else d ∷ s

-- A regular expression `^[c]{3,}word\s*$` on a stripped line: no space is left for `\s*`.
unfoldable pub is_marker : ℕ → Text → Text → Bool
unfolding run_length after_run strip_by is_space text_eq
is_marker c word line = leb 3 (run_length c (strip line)) && text_eq (after_run c (strip line)) word

unfoldable pub is_head : Text → Bool
unfolding is_marker
is_head = is_marker b'-' (codes " SEARCH")

unfoldable pub is_div : Text → Bool
unfolding is_marker
is_div = is_marker b'=' []

unfoldable pub is_upd : Text → Bool
unfolding is_marker
is_upd = is_marker b'+' (codes " REPLACE")

-- The loop that is running, with `orig_buf` and `repl_buf`.
pub data Mode : Type 0 where
  outside : Mode
  in_search : List Text → Mode
  in_replace : List Text → List Text → Mode

pub record Parser : Type 0 where
  pub mode : Mode
  pub edits : List (Text × Text)

unfoldable pub step : Mode → List (Text × Text) → Text → Parser
step outside edits line = record {
  mode = if is_head line then in_search [] else outside;
  edits = edits;
}
step (in_search orig) edits line = record {
  mode = if is_div line then in_replace orig [] else in_search (orig ++ line ∷ []);
  edits = edits;
}
step (in_replace orig repl) edits line =
    if is_upd line
    then record { mode = outside; edits = edits ++ (concat orig, concat repl) ∷ [] }
    else record { mode = in_replace orig (repl ++ line ∷ []); edits = edits }

unfoldable pub run : Parser → List Text → Parser
run p [] = p
run p (line ∷ lines) = run (step p.mode p.edits line) lines

-- An inner loop that reaches the end of the lines raises.
unfoldable pub finish : Mode → List (Text × Text) → Result BlockError (List (Text × Text))
finish outside edits = ok edits
finish (in_search orig) edits = err unterminated_search
finish (in_replace orig repl) edits = err unterminated_replace

unfoldable pub extract_lines : List Text → Result BlockError (List (Text × Text))
unfolding run step finish
extract_lines lines =
    let p = run (record { mode = outside; edits = [] }) lines in finish p.mode p.edits

unfoldable pub extract_search_replace_blocks : Text → Result BlockError (List (Text × Text))
unfolding extract_lines is_head is_div is_upd splitlines_keep
extract_search_replace_blocks blocks_text = extract_lines (splitlines_keep blocks_text)
