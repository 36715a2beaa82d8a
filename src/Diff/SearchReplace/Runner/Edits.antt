-- ===== src/Diff/SearchReplace/Runner/Edits.antt =====
-- Pass 3 of `apply_diff` against the plain reading of an edit: replace one span of the text.
use deputydev_core.Prelude.{
  ℕ, ◌≤◌, List, [], ◌∷◌, ◌++◌, append_assoc, false, length, drop, take, slice, take-append-drop,
  take-append-slice, take-take-append, drop-take-append, All, sort_by, IsSorted, sort_by-IsSorted,
  All-le_trans, All-sort_by, ◌≡◌, arith,
}
use deputydev_core.Py.Chars.{Text}
use deputydev_core.Diff.SearchReplace.Runner.{Match, overlaps, pieces}

-- One edit on its own.
pub replace_span : Match → Text → Text
replace_span m text = take m.start text ++ (m.repl ++ drop m.stop text)

-- The edits one after the other, from the last span to the first, so that the spans of the edits
-- still to come keep their places.
pub one_by_one : Text → List Match → Text
one_by_one text [] = text
one_by_one text (m ∷ ms) = replace_span m (one_by_one text ms)

-- The spans lie in order between `cursor` and the end of a text of `n` characters.
abbrev pub AreOrdered : ℕ → ℕ → List Match → Type 0
AreOrdered cursor n [] = cursor ≤ n
AreOrdered cursor n (m ∷ ms) = (cursor ≤ m.start) × (m.start ≤ m.stop) × AreOrdered m.stop n ms

AreOrdered-le : (cursor n : ℕ) (ms : List Match) → AreOrdered cursor n ms → cursor ≤ n
AreOrdered-le cursor n [] h = h
AreOrdered-le cursor n (m ∷ ms) (h, k, r) = omega (arith, AreOrdered-le m.stop n ms r)

pieces-one_by_one :
    (text : Text) (cursor : ℕ) (ms : List Match)
    → AreOrdered cursor (length text) ms
    → take cursor text ++ pieces text cursor ms ≡ one_by_one text ms
unfolding pieces one_by_one replace_span
pieces-one_by_one text cursor [] h = take-append-drop cursor text
pieces-one_by_one text cursor (m ∷ ms) (h, k, r) =
    let l : m.stop ≤ length text = AreOrdered-le m.stop (length text) ms r in
    let ih = pieces-one_by_one text m.stop ms r in
    rw (
      ← append_assoc (take cursor text) (slice cursor m.start text)
          (m.repl ++ pieces text m.stop ms),
      take-append-slice cursor m.start text h,
      ← ih,
      take-take-append m.start m.stop text (pieces text m.stop ms) k l,
      drop-take-append m.stop text (pieces text m.stop ms) l,
    )

-- For spans in order, the single pass of the runner and the edits made one by one give the same
-- text.
pub pieces_lem :
    (text : Text) (ms : List Match)
    → AreOrdered 0 (length text) ms
    → pieces text 0 ms ≡ one_by_one text ms
pieces_lem text ms h = pieces-one_by_one text 0 ms h

-- Each span lies in a text of `n` characters.
abbrev pub InText : ℕ → Match → Type 0
InText n m = (m.start ≤ m.stop) × (m.stop ≤ n)

-- Sorted spans that pass the overlap test are in order.
pub overlaps-AreOrdered :
    (n : ℕ) (cursor : ℕ) (ms : List Match)
    → cursor ≤ n
    → All (λ m. cursor ≤ m.start) ms
    → IsSorted (λ m. m.start) ms
    → All (InText n) ms
    → overlaps ms ≡ false
    → AreOrdered cursor n ms
unfolding overlaps
overlaps-AreOrdered n cursor [] l c s h o = l
overlaps-AreOrdered n cursor (m ∷ []) l (c, _) s ((h, k), _) o = (c, h, k)
overlaps-AreOrdered n cursor (m ∷ m' ∷ ms) l (c, cs) (s, (s', ss)) ((h, k), hs) o =
    let gap : m.stop ≤ m'.start = ground arith in
    (
      c,
      h,
      overlaps-AreOrdered n m.stop (m' ∷ ms) k
          (gap, All-le_trans (λ m. m.start) m.stop m'.start ms gap s') (s', ss) hs (ground arith),
    )

All-zero : (ms : List Match) → All (λ m. 0 ≤ m.start) ms
All-zero [] = tt
All-zero (m ∷ ms) = (omega arith, All-zero ms)

-- For spans inside the text, in whatever order they were found: if the sorted spans pass the
-- overlap test, the single pass gives the text with the edits made one by one.
pub pieces-sort_by :
    (text : Text) (ms : List Match)
    → All (InText (length text)) ms
    → overlaps (sort_by (λ m. m.start) ms) ≡ false
    → pieces text 0 (sort_by (λ m. m.start) ms) ≡ one_by_one text (sort_by (λ m. m.start) ms)
pieces-sort_by text ms h o =
    let sorted = sort_by (λ (m : Match). m.start) ms in
    pieces_lem text sorted (
      overlaps-AreOrdered (length text) 0 sorted (omega arith) (All-zero sorted)
        (sort_by-IsSorted (λ m. m.start) ms)
        (All-sort_by (InText (length text)) (λ m. m.start) ms h) o)
