-- ===== src/Chunking/Content/Cover.antt =====
-- Which lines the chunks of `chunk_content` hold.
use native.Mathlib.Decide.{dec_lt}
use deputydev_core.Prelude.{
  length-drop, length-slice, take-append-drop, drop-drop, append_assoc, ℕ, zero, suc, ◌+◌, ◌-◌, ◌≤◌,
  ◌<◌, min, List, [], ◌∷◌, ◌++◌, length, slice, drop, take-all, map, ◌≡◌, ◌≢◌, refl, ap, sym, ◌∙◌,
  arith, lt→ltb, inl, inr, ◌⊎◌,
}
use deputydev_core.Py.Chars.{Text, lf}
use deputydev_core.Py.Lines.{split_lf-ne-nil, split_lf, join_lf, join_lf-split_lf}
use deputydev_core.Py.Result.{ok}
use deputydev_core.Chunking.Content.{LineChunk, chunk_at, chunks_from, chunk_content}

-- Some chunk of the list has the property.
abbrev pub Some : (LineChunk → Type 0) → List LineChunk → Type 0
Some P [] = ⊥
Some P (c ∷ cs) = P c ⊎ Some P cs

-- The chunk holds the line `i`, at most `line_count` lines, and exactly the text of its lines.
pub record Holds (lines : List Text) (line_count i : ℕ) (c : LineChunk) : Type 0 where
  pub from : c.start ≤ i
  pub to : i < c.stop
  pub short : c.stop ≤ c.start + line_count
  pub inside : c.stop ≤ length lines
  pub text : c.chunk ≡ join_lf (slice c.start c.stop lines)

module _ (lines : List Text) (line_count step : ℕ) (p : 0 < step) (q : step ≤ line_count) where
  chunk_at-Holds :
      (start i : ℕ)
      → start ≤ i
      → i < start + line_count
      → i < length lines
      → Holds lines line_count i (chunk_at lines line_count step start)
  unfolding chunk_at
  chunk_at-Holds start i h k l = record {
    from = h;
    to = omega arith;
    short = omega arith;
    inside = omega arith;
    text = refl;
  }

  chunks_from-covers :
      (fuel start i : ℕ)
      → start ≤ i
      → i < length lines
      → length lines - start ≤ fuel
      → Some (Holds lines line_count i) (chunks_from lines line_count step fuel start)
  unfolding chunks_from
  chunks_from-covers zero start i h k f = absurd (omega arith)
  chunks_from-covers (suc fuel) start i h k f =
      rw (lt→ltb start (length lines) (omega arith), chunks_from)
        (elim (dec_lt i (start + line_count)) [
          | yes l ↦ inl (chunk_at-Holds start i h l k)
          | no l ↦ inr (chunks_from-covers fuel (start + step) i (omega arith) k (omega arith))
        ])

-- If the overlap is smaller than the line count, the call returns, and every line of the content is
-- held by some chunk: one of at most `line_count` lines, inside the content, with exactly their
-- text.
pub chunk_content-covers :
    (content : Text) (line_count overlap : ℕ)
    → overlap < line_count
    → (chunks : List LineChunk) × (chunk_content content line_count overlap ≡ ok chunks)
      × ((i : ℕ)
          → i < length (split_lf content)
          → Some (Holds (split_lf content) line_count i) chunks)
unfolding chunk_content
chunk_content-covers content line_count overlap h =
    let lines = split_lf content in
    (
      chunks_from lines line_count (line_count - overlap) (length lines) 0,
      ground arith,
      λ i k.
          chunks_from-covers lines line_count (line_count - overlap) (omega arith) (omega arith)
            (length lines) 0 i (omega arith) k (omega arith),
    )

join_lf-append :
    (l : Text) (ls : List Text) (m : Text) (ms : List Text)
    → join_lf ((l ∷ ls) ++ m ∷ ms) ≡ join_lf (l ∷ ls) ++ lf ∷ join_lf (m ∷ ms)
unfolding join_lf
join_lf-append l [] m ms = refl
join_lf-append l (k ∷ ls) m ms =
    rw (join_lf-append k ls m ms)
      (sym (append_assoc l (lf ∷ join_lf (k ∷ ls)) (lf ∷ join_lf (m ∷ ms))))

-- The same for lists that are known not to be empty.
join_lf_parts :
    (ls ms : List Text)
    → 0 < length ls
    → 0 < length ms
    → join_lf (ls ++ ms) ≡ join_lf ls ++ lf ∷ join_lf ms
join_lf_parts [] ms h k = absurd (omega arith)
join_lf_parts (l ∷ ls) [] h k = absurd (omega arith)
join_lf_parts (l ∷ ls) (m ∷ ms) h k = join_lf-append l ls m ms

chunks_from-end :
    (lines : List Text) (line_count step fuel start : ℕ)
    → length lines ≤ start
    → chunks_from lines line_count step fuel start ≡ []
unfolding chunks_from
chunks_from-end lines lc step zero start h = refl
chunks_from-end lines lc step (suc fuel) start h = ground arith

chunks_from-first :
    (lines : List Text) (line_count step fuel start : ℕ)
    → start < length lines
    → chunks_from lines line_count step (suc fuel) start
      ≡ chunk_at lines line_count step start ∷ chunks_from lines line_count step fuel (start + step)
unfolding chunks_from
chunks_from-first lines lc step fuel start h = rw (lt→ltb start (length lines) h, chunks_from) refl

join_lf-cons_nonempty :
    (l : Text) (cs : List Text) → cs ≢ [] → join_lf (l ∷ cs) ≡ l ++ lf ∷ join_lf cs
unfolding join_lf
join_lf-cons_nonempty l [] h = absurd (h refl)
join_lf-cons_nonempty l (c ∷ cs) h = refl

slice-append-drop : (i j : ℕ) (xs : List Text) → i ≤ j → slice i j xs ++ drop j xs ≡ drop i xs
slice-append-drop i j xs h =
    rw (← drop-drop i (j - i) j xs (omega arith)) (take-append-drop (j - i) (drop i xs))

join_lf-one : (l : Text) → join_lf (l ∷ []) ≡ l
unfolding join_lf
join_lf-one l = refl

length-pos : (ls : List Text) → ls ≢ [] → 0 < length ls
length-pos [] h = absurd (h refl)
length-pos (l ∷ ls) h = omega arith

cons-ne : {l : Text} {ls : List Text} → (l ∷ ls ≡ []) → ⊥
cons-ne e = absurd (cc)

module _ (lines : List Text) (n : ℕ) (p : 0 < n) where
  rounds : ℕ → ℕ → List Text
  rounds fuel start = map (λ c. c.chunk) (chunks_from lines n n fuel start)

  rounds-first :
      (fuel start : ℕ)
      → start < length lines
      → rounds (suc fuel) start
        ≡ join_lf (slice start (min (start + n) (length lines)) lines) ∷ rounds fuel (start + n)
  unfolding rounds chunk_at
  rounds-first fuel start h = ap (map (λ c. c.chunk)) (chunks_from-first lines n n fuel start h)

  rounds-end : (fuel start : ℕ) → length lines ≤ start → rounds fuel start ≡ []
  unfolding rounds
  rounds-end fuel start h = ap (map (λ c. c.chunk)) (chunks_from-end lines n n fuel start h)

  rounds-some : (fuel start : ℕ) → 0 < fuel → start < length lines → rounds fuel start ≢ []
  rounds-some zero start f h = absurd (omega arith)
  rounds-some (suc fuel) start f h = λ e. absurd (cons-ne (sym (rounds-first fuel start h) ∙ e))

  join_lf-rounds :
      (fuel start : ℕ)
      → start < length lines
      → length lines - start ≤ fuel
      → join_lf (rounds fuel start) ≡ join_lf (drop start lines)
  join_lf-rounds zero start h f = absurd (omega arith)
  join_lf-rounds (suc fuel) start h f = elim (dec_lt (start + n) (length lines)) [
    | yes more ↦
        let stop : min (start + n) (length lines) ≡ start + n = omega arith in
        let first = slice start (start + n) lines in
        let rest = drop (start + n) lines in
        let parts : first ++ rest ≡ drop start lines =
          slice-append-drop start (start + n) lines (omega arith) in
        ap join_lf (rounds-first fuel start h)
        ∙ (rw stop (
            join_lf-cons_nonempty (join_lf first) (rounds fuel (start + n))
              (rounds-some fuel (start + n) (omega arith) more)))
        ∙ ap (λ r. join_lf first ++ lf ∷ r) (join_lf-rounds fuel (start + n) more (omega arith))
        ∙ sym (
            join_lf_parts first rest (omega (arith, length-slice start (start + n) lines))
              (omega (arith, length-drop (start + n) lines)))
        ∙ ap join_lf parts
    | no last_one ↦
        ap join_lf (rounds-first fuel start h)
        ∙ rw (rounds-end fuel (start + n) (omega arith)) (
            join_lf-one (join_lf (slice start (min (start + n) (length lines)) lines))
            ∙ ap join_lf (
                take-all (min (start + n) (length lines) - start) (drop start lines)
                  (omega (arith, length-drop start lines))))
  ]

-- With no overlap and at least one line a chunk, the call returns, and the chunks' texts, joined
-- by line feeds, are the content again.
pub join_lf-chunk_content :
    (content : Text) (line_count : ℕ)
    → 0 < line_count
    → (chunks : List LineChunk) × (chunk_content content line_count 0 ≡ ok chunks)
      × (join_lf (map (λ c. c.chunk) chunks) ≡ content)
unfolding chunk_content rounds
join_lf-chunk_content content n p =
    let lines = split_lf content in
    (
      chunks_from lines n n (length lines) 0,
      ground arith,
      join_lf-rounds lines n p (length lines) 0 (length-pos lines (split_lf-ne-nil content))
            (omega arith)
          ∙ join_lf-split_lf content,
    )
