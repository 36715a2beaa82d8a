-- ===== src/Chunking/Metadata/Dechunk/Rows.antt =====
-- What joining chunks keeps.
use deputydev_core.Chunking.Metadata.Dechunk.{put_out, starts_anew, dechunk_from, dechunk}
use deputydev_core.Prelude.{
  ℕ, ◌+◌, ◌≤◌, ◌<◌, List, [], ◌∷◌, ◌++◌, false, true, All, ◌≡◌, ◌⊎◌, inl, inr, refl, arith,
  Bool-cases,
}
use deputydev_core.Chunking.Metadata.{row, NeoSpan, span_rows, add_spans}
use deputydev_core.Py.Chars.{Text}

abbrev pub bytes : NeoSpan → ℕ
bytes c = c.metadata.byte_size

abbrev pub total : List NeoSpan → ℕ
total [] = 0
total (c ∷ cs) = bytes c + total cs

-- Rows in order: no chunk ends above its start, and neither the first nor the last rows fall.
abbrev pub InOrder : ℕ → ℕ → List NeoSpan → Type 0
InOrder m n [] = Unit
InOrder m n (c ∷ cs) =
    (m ≤ row c.start)
    × (n ≤ row c.end)
    × (row c.start ≤ row c.end)
    × InOrder (row c.start) (row c.end) cs

-- The first rows grow.
abbrev pub Rising : List NeoSpan → Type 0
Rising [] = Unit
Rising (c ∷ cs) = All (λ d. row c.start < row d.start) cs × Rising cs

-- The rows of a chunk lie in one of the list.
abbrev pub Within : List NeoSpan → NeoSpan → Type 0
Within [] c = ⊥
Within (r ∷ rs) c = ((row r.start ≤ row c.start) × (row c.end ≤ row r.end)) ⊎ Within rs c

-- The results beside `previous` and the chunks behind it.
record Joined (previous : NeoSpan) (chunks results : List NeoSpan) : Type 0 where
  pub same_bytes : total results ≡ bytes previous + total chunks
  pub rising : Rising results
  pub below : All (λ r. row previous.start ≤ row r.start) results
  pub has_previous : Within results previous
  pub has_chunks : All (Within results) chunks

InOrder-weaken : (a m n : ℕ) (cs : List NeoSpan) → a ≤ m → InOrder m n cs → InOrder a n cs
InOrder-weaken a m n [] l h = tt
InOrder-weaken a m n (c ∷ cs) l (h, g, k, hs) = (omega arith, g, k, hs)

Within-mono :
    (a b : NeoSpan) (rs : List NeoSpan)
    → row a.start ≤ row b.start
    → row b.end ≤ row a.end
    → Within rs a
    → Within rs b
Within-mono a b [] s e h = h
Within-mono a b (r ∷ rs) s e (inl (h, g)) = inl (omega arith, omega arith)
Within-mono a b (r ∷ rs) s e (inr h) = inr (Within-mono a b rs s e h)

All-Within-cons :
    (r : NeoSpan) (rs cs : List NeoSpan) → All (Within rs) cs → All (Within (r ∷ rs)) cs
All-Within-cons r rs [] h = tt
All-Within-cons r rs (c ∷ cs) (h, hs) = (inr h, All-Within-cons r rs cs hs)

All-below :
    (a b : ℕ) (rs : List NeoSpan)
    → a < b
    → All (λ r. b ≤ row r.start) rs
    → All (λ r. a < row r.start) rs
All-below a b [] l h = tt
All-below a b (r ∷ rs) l (h, hs) = (omega arith, All-below a b rs l hs)

All-le : (a : ℕ) (rs : List NeoSpan) → All (λ r. a < row r.start) rs → All (λ r. a ≤ row r.start) rs
All-le a [] h = tt
All-le a (r ∷ rs) (h, hs) = (omega arith, All-le a rs hs)

put_out-rows : (c : NeoSpan) → row c.start ≤ row c.end → put_out c ≡ c ∷ []
unfolding put_out span_rows
put_out-rows c h = ground arith

starts_anew-row :
    (max_chars : ℕ) (p c : NeoSpan)
    → starts_anew max_chars p c ≡ true
    → row p.start ≤ row c.start
    → row p.start < row c.start
unfolding starts_anew
starts_anew-row max_chars p c h l = ground arith

module _ (list_of_set : List Text → List Text) (max_chars : ℕ) where
  joins :
      (p c : NeoSpan) (cs rs : List NeoSpan)
      → row p.start ≤ row c.start
      → row p.end ≤ row c.end
      → Joined (add_spans list_of_set p c) cs rs
      → Joined p (c ∷ cs) rs
  unfolding add_spans
  joins p c cs rs s e j = record {
    same_bytes = omega (arith, j.same_bytes);
    rising = j.rising;
    below = j.below;
    has_previous = Within-mono (add_spans list_of_set p c) p rs (omega arith) e j.has_previous;
    has_chunks =
        (Within-mono (add_spans list_of_set p c) c rs s (omega arith) j.has_previous, j.has_chunks);
  }

  begins :
      (p c : NeoSpan) (cs rs : List NeoSpan)
      → row p.start < row c.start
      → Joined c cs rs
      → Joined p (c ∷ cs) (p ∷ rs)
  begins p c cs rs l j =
      let later = All-below (row p.start) (row c.start) rs l j.below in
      record {
        same_bytes = omega (arith, j.same_bytes);
        rising = (later, j.rising);
        below = (omega arith, All-le (row p.start) rs later);
        has_previous = inl (omega arith, omega arith);
        has_chunks = (inr j.has_previous, All-Within-cons p rs cs j.has_chunks);
      }

  dechunk_from-anew :
      (p c : NeoSpan) (cs : List NeoSpan)
      → starts_anew max_chars p c ≡ true
      → dechunk_from list_of_set max_chars p (c ∷ cs)
        ≡ put_out p ++ dechunk_from list_of_set max_chars c cs
  unfolding dechunk_from
  dechunk_from-anew p c cs b = rw (b, dechunk_from) refl

  dechunk_from-joining :
      (p c : NeoSpan) (cs : List NeoSpan)
      → starts_anew max_chars p c ≡ false
      → dechunk_from list_of_set max_chars p (c ∷ cs)
        ≡ dechunk_from list_of_set max_chars (add_spans list_of_set p c) cs
  unfolding dechunk_from
  dechunk_from-joining p c cs b = rw (b, dechunk_from) refl

  dechunk_from-Joined :
      (p : NeoSpan) (cs : List NeoSpan)
      → row p.start ≤ row p.end
      → InOrder (row p.start) (row p.end) cs
      → Joined p cs (dechunk_from list_of_set max_chars p cs)
  unfolding dechunk_from
  dechunk_from-Joined p [] h o = rw (put_out-rows p h) (record {
    same_bytes = refl;
    rising = (tt, tt);
    below = (omega arith, tt);
    has_previous = inl (omega arith, omega arith);
    has_chunks = tt;
  })
  dechunk_from-Joined p (c ∷ cs) h (s, e, k, o) = elim (Bool-cases (starts_anew max_chars p c)) [
    | inl b ↦
        rw (dechunk_from-anew p c cs b, put_out-rows p h)
          (begins p c cs (dechunk_from list_of_set max_chars c cs)
            (starts_anew-row max_chars p c b s) (dechunk_from-Joined c cs k o))
    | inr b ↦ rw (dechunk_from-joining p c cs b) (
        joins p c cs (dechunk_from list_of_set max_chars (add_spans list_of_set p c) cs) s e (
          dechunk_from-Joined (add_spans list_of_set p c) cs (unfold add_spans in omega arith)
            (unfold add_spans in InOrder-weaken (row p.start) (row c.start) (row c.end) cs s o)))
  ]

  -- What joining keeps: the bytes of the chunks add up to the same, no two results start in one
  -- row and their first rows grow, and the rows of each chunk lie in a result.
  pub record Keeps (chunks results : List NeoSpan) : Type 0 where
    pub same_bytes : total results ≡ total chunks
    pub rising : Rising results
    pub covered : All (Within results) chunks

  -- Of chunks whose rows are in order, joining keeps the number of bytes and every row; the results
  -- start in rows that grow.
  pub dechunk-Keeps :
      (chunks : List NeoSpan)
      → InOrder 0 0 chunks
      → Keeps chunks (dechunk list_of_set max_chars chunks)
  unfolding dechunk
  dechunk-Keeps [] o = record { same_bytes = refl; rising = tt; covered = tt }
  dechunk-Keeps (c ∷ []) o = record {
    same_bytes = refl;
    rising = (tt, tt);
    covered = (inl (omega arith, omega arith), tt);
  }
  dechunk-Keeps (c ∷ d ∷ cs) (_, _, k, o) =
      let j = dechunk_from-Joined c (d ∷ cs) k o in
      record {
        same_bytes = j.same_bytes;
        rising = j.rising;
        covered = (j.has_previous, j.has_chunks);
      }
