-- ===== src/Chunking/Legacy/Lines.antt =====
-- The line spans of the legacy chunker: each starts on the line behind the one before it.
use mathlib.Core.Path.{subst}
use mathlib.Core.Option.{some-injective}
use deputydev_core.Prelude.{
  sym, ◌∙◌, ◌<◌, lt→ltb, ℕ, suc, ◌+◌, ◌-◌, ◌≤◌, List, [], ◌∷◌, Bool, true, false, ◌==◌, Option,
  some, leb, ltb, length, keep, is_empty, if◌then◌else◌, ◌≡◌, refl, ap, ◌∙◌, arith, Bool-cases, inl,
  inr,
}
use deputydev_core.Py.Chars.{Text}
use deputydev_core.Chunking.Spans.{Bytes, Span, span, span_len, count_lines_before, get_line_number}
use deputydev_core.Chunking.Legacy.{
  create_ast_chunks, chunk_code, end_byte, start_byte, coalesce_chunks, fill_chunk_gaps, Node,
  convert_to_line_chunks, line_chunks_from, line_chunk, start_line_of, merge_last_two,
  finalize_chunks, last_is_short,
}
use deputydev_core.Chunking.Legacy.Tiles.{
  create_ast_chunks-Tiles, coalesce_chunks-Tiles, fill_chunk_gaps-Tiles, IsNode, Tiles,
  merge_spans-adjacent, either,
}

-- The spans hold each line from `next` to `b` exactly once, in order.
abbrev pub LineTiles : ℕ → ℕ → List Span → Type 0
LineTiles next b [] = next ≡ b + 1
LineTiles next b (s ∷ ss) = (s.start ≡ next) × (next ≤ s.stop) × LineTiles (s.stop + 1) b ss

count_lines_before-ge : (index i : ℕ) (text : Text) (n : ℕ) → n ≤ count_lines_before index i text n
unfolding count_lines_before
count_lines_before-ge index i [] n = omega arith
count_lines_before-ge index i (c ∷ text) n =
    let more = count_lines_before-ge index (suc i) text (suc n) in
    let same = count_lines_before-ge index (suc i) text n in ground (arith, more, same)

count_lines_before_mono :
    (index j i : ℕ) (text : Text) (n : ℕ)
    → index ≤ j
    → count_lines_before index i text n ≤ count_lines_before j i text n
unfolding count_lines_before
count_lines_before_mono index j i [] n h = omega arith
count_lines_before_mono index j i (c ∷ text) n h =
    let more = count_lines_before_mono index j (suc i) text (suc n) h in
    let same = count_lines_before_mono index j (suc i) text n h in
    let ge = count_lines_before-ge j (suc i) text (suc n) in
    let ge' = count_lines_before-ge j (suc i) text n in ground (arith, more, same, ge, ge')

module _ (decode : Bytes → Option Text) (content : Bytes) (text : Text)
    (d : decode content ≡ some text) where
  -- The line number where the source can be decoded.
  unfoldable pub line_number : ℕ → ℕ
  line_number index =
      if is_empty content then 1 else if index == 0 then 1 else count_lines_before index 0 text 1

  get_line_number-line_number :
      (index : ℕ) → get_line_number decode index content ≡ some (line_number index)
  unfolding get_line_number line_number
  get_line_number-line_number index = elim (Bool-cases (is_empty content)) [
    | inl e ↦ rw e refl
    | inr e ↦ elim (Bool-cases (index == 0)) [ inl z ↦ rw (e, z) refl | inr z ↦ rw (e, z, d) refl ]
  ]

  -- A later byte is not on an earlier line.
  line_number_mono : (i j : ℕ) → i ≤ j → line_number i ≤ line_number j
  unfolding line_number
  line_number_mono i j h =
      let ge = count_lines_before-ge j 0 text 1 in
      let mono = count_lines_before_mono i j 0 text 1 h in ground (arith, ge, mono)

  line_chunk-some :
      (is_first : Bool) (c : Span)
      → let start = if is_first then 0 else line_number c.start + 1 in
        line_chunk decode content is_first c
        ≡ some (if leb start (line_number c.stop) then span start (line_number c.stop) ∷ [] else [])
  unfolding line_chunk start_line_of
  line_chunk-some true c = rw (line_chunk, start_line_of, get_line_number-line_number c.stop) refl
  line_chunk-some false c =
      rw
        (
          line_chunk,
          start_line_of,
          get_line_number-line_number c.start,
          get_line_number-line_number c.stop,
        )
        refl

  line_chunks_from-LineTiles :
      (a b : ℕ) (cs : List Span)
      → Tiles a b cs
      → (ls : List Span) × (line_chunks_from decode content false cs ≡ some ls)
        × LineTiles (line_number a + 1) (line_number b) ls
  unfolding line_chunks_from
  line_chunks_from-LineTiles a b [] e = ([], refl, rw e (omega arith))
  line_chunks_from-LineTiles a b (c ∷ cs) (e, l, h) =
      let (ls, found, tiles) = line_chunks_from-LineTiles c.stop b cs h in
      let mono = line_number_mono c.start c.stop (omega arith) in
      let start = line_number c.start + 1 in
      let stop = line_number c.stop in
      elim (Bool-cases (leb start stop)) [
        | inl t ↦
            let here : line_chunk decode content false c ≡ some (span start stop ∷ []) =
              line_chunk-some false c ∙ rw t refl in
            (
              span start stop ∷ ls,
              rw (line_chunks_from, here, found) refl,
              (ap (λ (i : ℕ). line_number i + 1) e, ground arith, tiles),
            )
        | inr t ↦
            let same : stop + 1 ≡ start = ground arith in
            let here : line_chunk decode content false c ≡ some [] =
              line_chunk-some false c ∙ rw t refl in
            (
              ls,
              rw (line_chunks_from, here, found) refl,
              subst (λ n. LineTiles n (line_number b) ls)
                  (same ∙ ap (λ (i : ℕ). line_number i + 1) e) tiles,
            )
      ]

  convert_to_line_chunks-LineTiles :
      (b : ℕ) (c : Span) (cs : List Span)
      → Tiles 0 b (c ∷ cs)
      → (ls : List Span) × (convert_to_line_chunks decode content (c ∷ cs) ≡ some ls)
        × LineTiles 0 (line_number b) ls
  unfolding convert_to_line_chunks line_chunks_from
  convert_to_line_chunks-LineTiles b c cs (e, l, h) =
      let (ls, found, tiles) = line_chunks_from-LineTiles c.stop b cs h in
      let stop = line_number c.stop in
      let zero_le : leb 0 stop ≡ true = ground arith in
      let here : line_chunk decode content true c ≡ some (span 0 stop ∷ []) =
        line_chunk-some true c ∙ rw zero_le refl in
      (
        span 0 stop ∷ ls,
        rw (convert_to_line_chunks, line_chunks_from, here, found) refl,
        (refl, omega arith, tiles),
      )

keep-LineTiles :
    (next b : ℕ) (ls : List Span) → LineTiles next b ls → keep (λ s. ltb 0 (span_len s)) ls ≡ ls
unfolding span_len
keep-LineTiles next b [] h = refl
keep-LineTiles next b (s ∷ ss) (e, l, h) =
    rw (lt→ltb 0 (s.stop + 1 - s.start) (omega arith), keep-LineTiles (s.stop + 1) b ss h) refl

merge_last_two-LineTiles :
    (next b : ℕ) (ls : List Span) → LineTiles next b ls → LineTiles next b (merge_last_two ls)
unfolding merge_last_two
merge_last_two-LineTiles next b [] h = h
merge_last_two-LineTiles next b (s ∷ []) h = h
merge_last_two-LineTiles next b (s ∷ t ∷ []) (e, l, (e', l', h)) =
    rw (merge_spans-adjacent s t (omega arith) (omega arith) (omega arith)) (e, omega arith, h)
merge_last_two-LineTiles next b (s ∷ t ∷ u ∷ ss) (e, l, h) =
    (e, l, merge_last_two-LineTiles (s.stop + 1) b (t ∷ u ∷ ss) h)

finalize_chunks-LineTiles :
    (b coalesce : ℕ) (ls : List Span)
    → LineTiles 0 b ls
    → LineTiles 0 b (finalize_chunks ls coalesce)
unfolding finalize_chunks
finalize_chunks-LineTiles b coalesce ls h = rw (keep-LineTiles 0 b ls h) (
    either (LineTiles 0 b) (leb (length ls) 1) _ _ h (
      either (LineTiles 0 b) (last_is_short ls coalesce) _ _ (merge_last_two-LineTiles 0 b ls h) h))

module _ (decode : Bytes → Option Text) (content : Bytes) (text : Text)
    (d : decode content ≡ some text) where
  filled_chunks : (b : ℕ) (cs : List Span) → 0 < b → Tiles 0 b cs → Tiles 0 b (fill_chunk_gaps cs b)
  filled_chunks b [] p e = absurd (omega arith)
  filled_chunks b (c ∷ cs) p h = fill_chunk_gaps-Tiles b c cs h

  coalesced_chunks :
      (b coalesce : ℕ) (cs : List Span)
      → 0 < b
      → Tiles 0 b cs
      → Tiles 0 b (coalesce_chunks decode content cs coalesce)
  coalesced_chunks b coalesce [] p e = absurd (omega arith)
  coalesced_chunks b coalesce (c ∷ cs) p h = coalesce_chunks-Tiles decode content coalesce b c cs h

  line_chunks :
      (b : ℕ) (cs : List Span)
      → 0 < b
      → Tiles 0 b cs
      → (ls : List Span) × (convert_to_line_chunks decode content cs ≡ some ls)
        × LineTiles 0 (line_number decode content text d b) ls
  line_chunks b [] p e = absurd (omega arith)
  line_chunks b (c ∷ cs) p h = convert_to_line_chunks-LineTiles decode content text d b c cs h

  -- A well-formed tree that starts at byte 0 and is not empty, over a source that can be decoded:
  -- the chunker returns, and its chunks hold every line number from 0 up to the number of the line
  -- that the tree ends on, each exactly once and in order.
  pub chunk_code-LineTiles :
      (root : Node) (max_chars coalesce last_line : ℕ)
      → IsNode root
      → start_byte root ≡ 0
      → 0 < end_byte root
      → get_line_number decode (end_byte root) content ≡ some last_line
      → (chunks : List Span) × (chunk_code decode (some root) content max_chars coalesce
          ≡ some chunks)
        × LineTiles 0 last_line chunks
  unfolding chunk_code
  chunk_code-LineTiles root max_chars coalesce last_line w z p e =
      let b = end_byte root in
      let initial : Tiles 0 b (create_ast_chunks root max_chars) =
        subst (λ a. Tiles a b (create_ast_chunks root max_chars)) z
          (create_ast_chunks-Tiles root max_chars w) in
      let coalesced = coalesced_chunks b coalesce _ p (filled_chunks b _ p initial) in
      let (ls, found, tiles) = line_chunks b _ p coalesced in
      let last : line_number decode content text d b ≡ last_line =
        some-injective _ _ (sym (get_line_number-line_number decode content text d b) ∙ e) in
      (
        finalize_chunks ls coalesce,
        rw (chunk_code, found) refl,
        finalize_chunks-LineTiles last_line coalesce ls (subst (λ n. LineTiles 0 n ls) last tiles),
      )
