-- ===== src/Diff/SearchReplace/Blocks/RoundTrip.antt =====
-- Printed blocks are read back: the parser against a printer of blocks.
use deputydev_core.Prelude.{
  List, [], ◌∷◌, ◌++◌, append_assoc, append-nil, true, false, concat, map, ◌≡◌, refl, ap, sym, ◌∙◌,
  All,
}
use deputydev_core.Py.Chars.{Text}
use deputydev_core.Py.Result.{ok, err}
use deputydev_core.Diff.SearchReplace.Blocks.{
  unterminated_replace, unterminated_search, Mode, outside, in_search, in_replace, Parser, step,
  run, finish, extract_lines, is_head, is_div, is_upd,
}

-- A block to print: lines of prose in front of it, the marker lines, and the two bodies.
pub record Block : Type 0 where
  pub prose : List Text
  pub head : Text
  pub search : List Text
  pub div : Text
  pub replace : List Text
  pub upd : Text

-- The markers are markers, no line of prose opens a block, no line of the search body divides it
-- and no line of the replacement ends it.
pub record IsPrintable (b : Block) : Type 0 where
  pub prose_free : All (λ l. is_head l ≡ false) b.prose
  pub head_ok : is_head b.head ≡ true
  pub search_free : All (λ l. is_div l ≡ false) b.search
  pub div_ok : is_div b.div ≡ true
  pub replace_free : All (λ l. is_upd l ≡ false) b.replace
  pub upd_ok : is_upd b.upd ≡ true

pub print : List Block → List Text → List Text
print [] tail = tail
print (b ∷ bs) tail = b.prose ++ b.head ∷ (b.search ++ b.div ∷ (b.replace ++ b.upd ∷ print bs tail))

pub edit_of : Block → Text × Text
edit_of b = (concat b.search, concat b.replace)

abbrev at : Mode → List (Text × Text) → Parser
at m edits = record { mode = m; edits = edits }

module _ (edits : List (Text × Text)) where
  run-prose :
      (ls rest : List Text)
      → All (λ l. is_head l ≡ false) ls
      → run (at outside edits) (ls ++ rest) ≡ run (at outside edits) rest
  unfolding run step
  run-prose [] rest h = refl
  run-prose (l ∷ ls) rest (h, hs) = rw (h, run) (run-prose ls rest hs)

  run-search :
      (ls rest orig : List Text)
      → All (λ l. is_div l ≡ false) ls
      → run (at (in_search orig) edits) (ls ++ rest) ≡ run (at (in_search (orig ++ ls)) edits) rest
  unfolding run step
  run-search [] rest orig h = rw append-nil
  run-search (l ∷ ls) rest orig (h, hs) =
      rw (h, run)
        (run-search ls rest (orig ++ l ∷ []) hs
          ∙ ap (λ o. run (at (in_search o) edits) rest) (append_assoc orig (l ∷ []) ls))

  run-replace :
      (ls rest orig repl : List Text)
      → All (λ l. is_upd l ≡ false) ls
      → run (at (in_replace orig repl) edits) (ls ++ rest)
        ≡ run (at (in_replace orig (repl ++ ls)) edits) rest
  unfolding run step
  run-replace [] rest orig repl h = rw append-nil
  run-replace (l ∷ ls) rest orig repl (h, hs) =
      rw (h, run)
        (run-replace ls rest orig (repl ++ l ∷ []) hs
          ∙ ap (λ o. run (at (in_replace orig o) edits) rest) (append_assoc repl (l ∷ []) ls))

  step-head :
      (l : Text) (rest : List Text)
      → is_head l ≡ true
      → run (at outside edits) (l ∷ rest) ≡ run (at (in_search []) edits) rest
  unfolding run step
  step-head l rest h = rw h

  step-div :
      (l : Text) (rest orig : List Text)
      → is_div l ≡ true
      → run (at (in_search orig) edits) (l ∷ rest) ≡ run (at (in_replace orig []) edits) rest
  unfolding run step
  step-div l rest orig h = rw h

  step-upd :
      (l : Text) (rest orig repl : List Text)
      → is_upd l ≡ true
      → run (at (in_replace orig repl) edits) (l ∷ rest)
        ≡ run (at outside (edits ++ (concat orig, concat repl) ∷ [])) rest
  unfolding run step
  step-upd l rest orig repl h = rw h

run-block :
    (edits : List (Text × Text)) (b : Block) (rest : List Text)
    → IsPrintable b
    → run (at outside edits) (b.prose ++ b.head ∷ (b.search ++ b.div ∷ (b.replace ++ b.upd ∷ rest)))
      ≡ run (at outside (edits ++ edit_of b ∷ [])) rest
unfolding edit_of
run-block edits b rest v =
    run-prose edits b.prose _ v.prose_free
    ∙ step-head edits b.head _ v.head_ok
    ∙ run-search edits b.search _ [] v.search_free
    ∙ step-div edits b.div _ b.search v.div_ok
    ∙ run-replace edits b.replace _ b.search [] v.replace_free
    ∙ step-upd edits b.upd rest b.search b.replace v.upd_ok

run_end : (m : Mode) (edits : List (Text × Text)) → run (at m edits) [] ≡ at m edits
unfolding run
run_end m edits = refl

run-print :
    (bs : List Block) (tail : List Text) (edits : List (Text × Text))
    → All IsPrintable bs
    → run (at outside edits) (print bs tail) ≡ run (at outside (edits ++ map edit_of bs)) tail
unfolding print
run-print [] tail edits h = ap (λ es. run (at outside es) tail) (sym (append-nil edits))
run-print (b ∷ bs) tail edits (h, hs) =
    run-block edits b (print bs tail) h
    ∙ run-print bs tail (edits ++ edit_of b ∷ []) hs
    ∙ ap (λ es. run (at outside es) tail) (append_assoc edits (edit_of b ∷ []) (map edit_of bs))

-- Where the pass stands behind the last line decides the result.
extract_end :
    (lines : List Text) (m : Mode) (edits : List (Text × Text))
    → run (at outside []) lines ≡ at m edits
    → extract_lines lines ≡ finish m edits
unfolding extract_lines
extract_end lines m edits e = ap (λ p. finish p.mode p.edits) e

module _ (bs : List Block) (h : All IsPrintable bs) where
  run-prose_end :
      (tail : List Text)
      → All (λ l. is_head l ≡ false) tail
      → run (at outside []) (print bs tail) ≡ at outside (map edit_of bs)
  run-prose_end tail ht =
      run-print bs tail [] h
      ∙ ap (run (at outside (map edit_of bs))) (sym (append-nil tail))
      ∙ run-prose (map edit_of bs) tail [] ht
      ∙ run_end outside (map edit_of bs)

  run-search_end :
      (head : Text) (body : List Text)
      → is_head head ≡ true
      → All (λ l. is_div l ≡ false) body
      → run (at outside []) (print bs (head ∷ body)) ≡ at (in_search body) (map edit_of bs)
  run-search_end head body hh hb =
      run-print bs (head ∷ body) [] h
      ∙ step-head (map edit_of bs) head body hh
      ∙ ap (run (at (in_search []) (map edit_of bs))) (sym (append-nil body))
      ∙ run-search (map edit_of bs) body [] [] hb
      ∙ run_end (in_search body) (map edit_of bs)

  -- Any sequence of printable blocks, with prose around them, is read back as its pairs of search
  -- and replacement text, in order.
  pub extract-print :
      (tail : List Text)
      → All (λ l. is_head l ≡ false) tail
      → extract_lines (print bs tail) ≡ ok (map edit_of bs)
  unfolding finish
  extract-print tail ht =
      extract_end (print bs tail) outside (map edit_of bs) (run-prose_end tail ht)

  -- A block that is opened and not divided raises the error of an unterminated SEARCH block,
  -- whatever well-formed blocks came before it; one that is divided and not ended raises the error
  -- of an unterminated REPLACE block.
  pub extract_unterminated :
      (head div : Text) (search replace : List Text)
      → is_head head ≡ true
      → All (λ l. is_div l ≡ false) search
      → is_div div ≡ true
      → All (λ l. is_upd l ≡ false) replace
      → (extract_lines (print bs (head ∷ search)) ≡ err unterminated_search)
        × (extract_lines (print bs (head ∷ (search ++ div ∷ replace))) ≡ err unterminated_replace)
  unfolding finish
  extract_unterminated head div search replace hh hs hd hr =
      let edits = map edit_of bs in
      (
        extract_end (print bs (head ∷ search)) (in_search search) edits
            (run-search_end head search hh hs),
        extract_end (print bs (head ∷ (search ++ div ∷ replace))) (in_replace search replace) edits
            (run-print bs (head ∷ (search ++ div ∷ replace)) [] h
              ∙ step-head edits head (search ++ div ∷ replace) hh
              ∙ run-search edits search (div ∷ replace) [] hs
              ∙ step-div edits div replace search hd
              ∙ ap (run (at (in_replace search []) edits)) (sym (append-nil replace))
              ∙ run-replace edits replace [] search [] hr
              ∙ run_end (in_replace search replace) edits),
      )
