-- ===== src/Diff/LineNumbered/Splice.antt =====
-- What the loop of runner.py computes: the splice of the chunks into the file, when the sorted
-- chunks lie one behind the other inside it.
use deputydev_core.Prelude.{
  sort_by, concat, ℕ, suc, zero, ◌+◌, ◌-◌, ◌≤◌, ◌<◌, max, List, [], ◌∷◌, ◌++◌, append_assoc, map,
  ltb, ◌==◌, ◌≡◌, ◌≢◌, refl, ap, sym, ◌∙◌, arith, take, drop, length, Bool-cases, lt→ltb, ltb→lt,
  inl, inr,
}
use deputydev_core.Py.Chars.{Text}
use deputydev_core.Py.Lines.{join_lf-split_lf, join_lf, split_lf, split_lf-ne-nil}
use deputydev_core.Diff.Data.{DiffChunk}
use deputydev_core.Diff.LineNumbered.{
  newline, splitlines_keep, apply_diff, State, drop_last, diff_lines, step, scan, flush,
  apply_diff_in_file_content,
}

-- The lines that stand for a chunk which the loop meets.
pub body : DiffChunk → List Text
unfolding drop_last diff_lines
body c = drop_last (diff_lines c.diff)

-- The rest of a file from line `base` on (counted from 0), with the chunks put in: the lines in
-- front of each chunk, its body, and then the lines behind its last one.
pub splice : ℕ → List DiffChunk → List Text → List Text
splice base [] content = content
splice base (c ∷ cs) content =
    take (c.start_line - 1 - base) content
    ++ (body c ++ splice c.end_line cs (drop (c.end_line - base) content))

-- The chunks lie one behind the other between the lines `base` and `total`, none of them empty.
abbrev pub AreDisjoint : ℕ → ℕ → List DiffChunk → Type 0
AreDisjoint base total [] = Unit
AreDisjoint base total (c ∷ cs) =
    (base < c.start_line)
    × (c.start_line ≤ c.end_line)
    × (c.end_line ≤ total)
    × AreDisjoint c.end_line total cs

map-ne-nil : (f : Text → Text) (ls : List Text) → ls ≢ [] → map f ls ≢ []
map-ne-nil f [] h = h
map-ne-nil f (l ∷ ls) h = ground arith

diff_lines-ne-nil : (d : Text) → diff_lines d ≢ []
unfolding diff_lines
diff_lines-ne-nil d = map-ne-nil _ (split_lf d) (split_lf-ne-nil d)

drop_last-append : (xs ys : List Text) → ys ≢ [] → drop_last (xs ++ ys) ≡ xs ++ drop_last ys
unfolding drop_last
drop_last-append [] ys h = refl
drop_last-append (x ∷ []) [] h = absurd (h refl)
drop_last-append (x ∷ []) (y ∷ ys) h = refl
drop_last-append (x ∷ z ∷ xs) ys h = ap (λ (r : List Text). x ∷ r) (drop_last-append (z ∷ xs) ys h)

take-pos : (n : ℕ) (x : Text) (xs : List Text) → 0 < n → take n (x ∷ xs) ≡ x ∷ take (n - 1) xs
take-pos zero x xs h = absurd (omega arith)
take-pos (suc n) x xs h = let e : n ≡ suc n - 1 = omega arith in ap (λ (k : ℕ). x ∷ take k xs) e

drop-pos : (n : ℕ) (x : Text) (xs : List Text) → 0 < n → drop n (x ∷ xs) ≡ drop (n - 1) xs
drop-pos zero x xs h = absurd (omega arith)
drop-pos (suc n) x xs h = let e : n ≡ suc n - 1 = omega arith in ap (λ (k : ℕ). drop k xs) e

-- What `splice` gives while the line at hand stands in front of the next chunk.
splice-line :
    (idx : ℕ) (chunks : List DiffChunk) (line : Text) (content : List Text) (total : ℕ)
    → AreDisjoint (suc idx) total chunks
    → splice idx chunks (line ∷ content) ≡ line ∷ splice (suc idx) chunks content
unfolding splice
splice-line idx [] line content total h = refl
splice-line idx (c ∷ cs) line content total (h, k, l, r) = rw (
  take-pos (c.start_line - 1 - idx) line content (omega arith),
  drop-pos (c.end_line - idx) line content (omega arith),
  let e : c.start_line - 1 - idx - 1 ≡ c.start_line - 1 - suc idx = omega arith in e,
  let e : c.end_line - idx - 1 ≡ c.end_line - suc idx = omega arith in e,
)

abbrev at : ℕ → ℕ → List DiffChunk → List Text → State
at idx skip chunks out = record {
  idx = idx;
  skip_line_upto = skip;
  chunks = chunks;
  modified_content = out;
}

-- One round of the loop, by its four cases.
module _ (idx skip : ℕ) (out : List Text) (line : Text) where
  step_passing :
      (chunks : List DiffChunk)
      → idx < skip
      → step (at idx skip chunks out) line ≡ at (idx + 1) skip chunks out
  unfolding step
  step_passing chunks h = rw (lt→ltb idx skip h)

  step_no_chunk :
      skip ≤ idx → step (at idx skip [] out) line ≡ at (idx + 1) skip [] (out ++ line ∷ [])
  unfolding step
  step_no_chunk h = ground arith

  module _ (c : DiffChunk) (cs : List DiffChunk) where
    step_before_chunk :
        skip ≤ idx
        → suc idx < c.start_line
        → step (at idx skip (c ∷ cs) out) line ≡ at (idx + 1) skip (c ∷ cs) (out ++ line ∷ [])
    unfolding step
    step_before_chunk h k = ground arith

    step_at_chunk :
        skip ≤ idx
        → c.start_line ≡ suc idx
        → step (at idx skip (c ∷ cs) out) line ≡ at (idx + 1) c.end_line cs (out ++ body c)
    unfolding step body
    step_at_chunk h k =
        ground (arith, drop_last-append out (diff_lines c.diff) (diff_lines-ne-nil c.diff))

-- The loop goes on from the state that one round leaves.
round :
    (s t : State) (line : Text) (content r : List Text)
    → step s line ≡ t
    → flush (scan t content) ≡ r
    → flush (scan s (line ∷ content)) ≡ r
unfolding scan
round s t line content r e p = ap (λ u. flush (scan u content)) e ∙ p

flush_end : (idx skip : ℕ) (out : List Text) → flush (scan (at idx skip [] out) []) ≡ out ++ []
unfolding scan flush
flush_end idx skip out = refl

drop-nil : (n : ℕ) → drop {A = Text} n [] ≡ []
drop-nil zero = refl
drop-nil (suc n) = refl

append_line :
    (out rest r : List Text) (line : Text) → r ≡ line ∷ rest → (out ++ line ∷ []) ++ rest ≡ out ++ r
append_line out rest r line e = rw e (append_assoc out (line ∷ []) rest)

splice-meets :
    (base : ℕ) (c : DiffChunk) (cs : List DiffChunk) (out : List Text) (line : Text)
    (content : List Text)
    → c.start_line ≡ suc base
    → c.start_line ≤ c.end_line
    → (out ++ body c) ++ splice c.end_line cs (drop (c.end_line - suc base) content)
      ≡ out ++ splice base (c ∷ cs) (line ∷ content)
unfolding splice
splice-meets base c cs out line content e k =
    let z : c.start_line - 1 - base ≡ 0 = omega arith in
    let d : c.end_line - base ≡ suc (c.end_line - suc base) = omega arith in
    rw (z, d) (append_assoc out (body c) _)

-- `base` is the first line that is not yet passed, and `gap` how far in front of it the loop stands.
module _ (total : ℕ) where
  scan-splice :
      (content : List Text) (idx skip base gap : ℕ) (chunks : List DiffChunk) (out : List Text)
      → max idx skip ≡ base
      → skip - idx ≡ gap
      → idx + length content ≡ total
      → AreDisjoint base total chunks
      → flush (scan (at idx skip chunks out) content) ≡ out ++ splice base chunks (drop gap content)
  scan-splice [] idx skip base gap [] out b g t h =
      flush_end idx skip out ∙ (unfold splice in ap (λ r. out ++ r) (sym (drop-nil gap)))
  scan-splice [] idx skip base gap (c ∷ cs) out b g t (h, k, l, r) = absurd (omega arith)
  scan-splice (line ∷ content) idx skip base gap [] out b g t h = elim (Bool-cases (ltb idx skip)) [
    | inl passing ↦
        round _ _ line content _ (step_passing idx skip out line [] (ltb→lt idx skip passing)) (
          rw (drop-pos gap line content (ground arith)) (
            scan-splice content (idx + 1) skip base (gap - 1) [] out (ground arith) (ground arith)
              (omega arith) tt))
    | inr here ↦
        let z : gap ≡ 0 = ground arith in
        round _ _ line content _ (step_no_chunk idx skip out line (ground arith)) (
          rw z (
            scan-splice content (idx + 1) skip (suc base) 0 [] (out ++ line ∷ []) (ground arith)
              (ground arith) (omega arith) tt
            ∙ append_line out _ _ line (splice-line base [] line content total tt)))
  ]
  scan-splice (line ∷ content) idx skip base gap (c ∷ cs) out b g t (h, k, l, r) =
      elim (Bool-cases (ltb idx skip)) [
        | inl passing ↦
            round _ _ line content _
              (step_passing idx skip out line (c ∷ cs) (ltb→lt idx skip passing))
              (rw (drop-pos gap line content (ground arith)) (
                scan-splice content (idx + 1) skip base (gap - 1) (c ∷ cs) out (ground arith)
                  (ground arith) (omega arith) (h, k, l, r)))
        | inr here ↦
            let z : gap ≡ 0 = ground arith in
            elim (Bool-cases (c.start_line == suc base)) [
              | inl meets ↦
                  round _ _ line content _
                    (step_at_chunk idx skip out line c cs (ground arith) (ground arith))
                    (rw z (
                      scan-splice content (idx + 1) c.end_line c.end_line (c.end_line - suc base) cs
                        (out ++ body c) (ground arith) (ground arith) (omega arith) r
                      ∙ splice-meets base c cs out line content (ground arith) k))
              | inr later ↦
                  round _ _ line content _
                    (step_before_chunk idx skip out line c cs (ground arith) (ground arith))
                    (rw z (
                      scan-splice content (idx + 1) skip (suc base) 0 (c ∷ cs) (out ++ line ∷ [])
                        (ground arith) (ground arith) (omega arith) (ground arith, k, l, r)
                      ∙ append_line out _ _ line
                          (splice-line base (c ∷ cs) line content total (ground arith, k, l, r))))
            ]
      ]

apply_lines-splice :
    (content : List Text) (chunks : List DiffChunk)
    → AreDisjoint 0 (length content) chunks
    → apply_diff_in_file_content content chunks ≡ splice 0 chunks content
unfolding apply_diff_in_file_content
apply_lines-splice content chunks h =
    scan-splice (length content) content 0 0 0 0 chunks [] (omega arith) (omega arith) (omega arith)
      h

-- When the chunks, sorted by their first line, are non-empty and lie one behind the other inside
-- the file, the new content is the file with the lines of each chunk replaced by the chunk's body,
-- and every other line in its place.
pub apply_diff-splice :
    (file_path content : Text) (chunks : List DiffChunk)
    → AreDisjoint 0 (length (splitlines_keep content)) (sort_by (λ c. c.start_line) chunks)
    → (apply_diff file_path content chunks).new_content
      ≡ concat (splice 0 (sort_by (λ c. c.start_line) chunks) (splitlines_keep content))
unfolding apply_diff
apply_diff-splice file_path content chunks h =
    ap concat (apply_lines-splice (splitlines_keep content) (sort_by (λ c. c.start_line) chunks) h)

-- The text behind the last newline.
pub last_part : List Text → Text
last_part [] = []
last_part (p ∷ []) = p
last_part (p ∷ q ∷ ps) = last_part (q ∷ ps)

concat-drop_last :
    (ps : List Text)
    → ps ≢ []
    → concat (drop_last (map (λ line. line ++ newline) ps)) ++ last_part ps ≡ join_lf ps
unfolding drop_last last_part join_lf
concat-drop_last [] h = absurd (h refl)
concat-drop_last (p ∷ []) h = refl
concat-drop_last (p ∷ q ∷ ps) h =
    rw
      (
        append_assoc (p ++ newline) _ (last_part (q ∷ ps)),
        concat-drop_last (q ∷ ps) (λ e. ground arith),
      )
      (append_assoc p newline (join_lf (q ∷ ps)))

-- The body of a chunk and the text behind the last newline of its replacement spell the
-- replacement: the loop drops what stands behind the last newline, not a newline.
pub body_lem : (c : DiffChunk) → concat (body c) ++ last_part (split_lf c.diff) ≡ c.diff
unfolding body diff_lines
body_lem c = concat-drop_last (split_lf c.diff) (split_lf-ne-nil c.diff) ∙ join_lf-split_lf c.diff
