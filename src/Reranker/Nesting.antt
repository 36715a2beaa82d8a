-- ===== src/Reranker/Nesting.antt =====
-- Which chunks of a file survive.
use mathlib.Core.Path.{subst}
use native.Mathlib.Decide.{dec_lt}
use deputydev_core.Prelude.{
  ℕ, zero, suc, max, ◌+◌, ◌-◌, ◌≤◌, ◌<◌, List, [], ◌∷◌, ◌++◌, append_assoc, append-nil, true, false,
  any_of, All, sort_by, ◌≡◌, refl, ap, sym, arith, Bool-cases, inl, inr, ◌⊎◌,
}
use deputydev_core.Chunking.Data.{ChunkInfo, start_line, end_line}
use deputydev_core.Reranker.{is_inside, drop_nested, rerank_group}

abbrev pub In : ChunkInfo → List ChunkInfo → Type 0
In c [] = ⊥
In c (d ∷ ds) = (c ≡ d) ⊎ In c ds

In-append_left : (c : ChunkInfo) (xs ys : List ChunkInfo) → In c xs → In c (xs ++ ys)
In-append_left c [] ys m = elim m [ ]
In-append_left c (x ∷ xs) ys (inl e) = inl e
In-append_left c (x ∷ xs) ys (inr m) = inr (In-append_left c xs ys m)

In-append_right : (c : ChunkInfo) (xs ys : List ChunkInfo) → In c ys → In c (xs ++ ys)
In-append_right c [] ys m = m
In-append_right c (x ∷ xs) ys m = inr (In-append_right c xs ys m)

In-insert : (d c : ChunkInfo) (xs ys : List ChunkInfo) → In d (xs ++ ys) → In d (xs ++ c ∷ ys)
In-insert d c [] ys m = inr m
In-insert d c (x ∷ xs) ys (inl e) = inl e
In-insert d c (x ∷ xs) ys (inr m) = inr (In-insert d c xs ys m)

In-split :
    (c : ChunkInfo) (cs : List ChunkInfo)
    → In c cs
    → (pre : List ChunkInfo) × (post : List ChunkInfo) × (cs ≡ pre ++ c ∷ post)
In-split c [] m = elim m [ ]
In-split c (d ∷ ds) (inl e) = ([], ds, ap (λ x. x ∷ ds) (sym e))
In-split c (d ∷ ds) (inr m) =
    let (pre, post, e) = In-split c ds m in (d ∷ pre, post, ap (λ (r : List ChunkInfo). d ∷ r) e)

-- A chunk that lies inside none of the others is kept.
kept :
    (before pre : List ChunkInfo) (c : ChunkInfo) (post : List ChunkInfo)
    → any_of (is_inside c) ((before ++ pre) ++ post) ≡ false
    → In c (drop_nested before (pre ++ c ∷ post))
unfolding drop_nested
kept before [] c post h =
    let alone : any_of (is_inside c) (before ++ post) ≡ false = rw append-nil at h in
    rw (alone, drop_nested) (inl refl)
kept before (d ∷ pre) c post h =
    elim (Bool-cases (any_of (is_inside d) (before ++ (pre ++ c ∷ post)))) [
      | inl e ↦
          rw (e, drop_nested)
            (kept (before ++ d ∷ []) pre c post (rw (append_assoc before (d ∷ []) pre) h))
      | inr e ↦
          rw (e, drop_nested)
            (inr (kept (before ++ d ∷ []) pre c post (rw (append_assoc before (d ∷ []) pre) h)))
    ]

-- Two chunks of the same lines.
abbrev pub SameRange : ChunkInfo → ChunkInfo → Type 0
SameRange c d = (start_line c ≡ start_line d) × (end_line c ≡ end_line d)

-- No two chunks have the same lines.
abbrev pub AreDistinct : List ChunkInfo → Type 0
AreDistinct [] = Unit
AreDistinct (c ∷ cs) = All (λ d. ¬ SameRange c d) cs × AreDistinct cs

All-middle :
    (P : ChunkInfo → Type 0) (pre : List ChunkInfo) (c : ChunkInfo) (post : List ChunkInfo)
    → All P (pre ++ c ∷ post)
    → P c × All P (pre ++ post)
All-middle P [] c post h = h
All-middle P (d ∷ pre) c post (h, hs) =
    let (pc, rest) = All-middle P pre c post hs in (pc, (h, rest))

AreDistinct-split :
    (pre : List ChunkInfo) (c : ChunkInfo) (post : List ChunkInfo)
    → AreDistinct (pre ++ c ∷ post)
    → All (λ d. ¬ SameRange c d) (pre ++ post)
AreDistinct-split [] c post (h, hs) = h
AreDistinct-split (d ∷ pre) c post (h, hs) = (
  λ same. (All-middle (λ e. ¬ SameRange d e) pre c post h).0 (sym same.0, sym same.1),
  AreDistinct-split pre c post hs,
)

-- A chunk around `c` among others with other lines.
find_around :
    (c : ChunkInfo) (cs : List ChunkInfo)
    → any_of (is_inside c) cs ≡ true
    → All (λ d. ¬ SameRange c d) cs
    → (d : ChunkInfo) × In d cs × (is_inside c d ≡ true) × (¬ SameRange c d)
find_around c [] h ds = absurd (cc)
find_around c (d ∷ cs) h (n, ds) = elim (Bool-cases (is_inside c d)) [
  | inl e ↦ (d, inl refl, e, n)
  | inr e ↦ let (d', m, e', n') = find_around c cs (rw e at h) ds in (d', inr m, e', n')
]

is_inside_trans :
    (a b c : ChunkInfo) → is_inside a b ≡ true → is_inside b c ≡ true → is_inside a c ≡ true
unfolding is_inside
is_inside_trans a b c h k = ground arith

is_inside_refl : (c : ChunkInfo) → is_inside c c ≡ true
unfolding is_inside
is_inside_refl c = ground arith

-- What is left to grow: a chunk around `c` with other lines has less of it.
abbrev slack : ℕ → ChunkInfo → ℕ
slack top c = start_line c + (top - end_line c)

slack-lt :
    (top : ℕ) (c d : ChunkInfo)
    → is_inside c d ≡ true
    → ¬ SameRange c d
    → end_line d ≤ top
    → slack top d < slack top c
unfolding is_inside
slack-lt top c d h n k =
    let starts : start_line d ≤ start_line c = ground arith in
    let ends : end_line c ≤ end_line d = ground arith in
    elim (dec_lt (slack top d) (slack top c)) [
      | yes p ↦ p
      | no q ↦ absurd (n (omega arith, omega arith))
    ]

All-In : (P : ChunkInfo → Type 0) (cs : List ChunkInfo) (d : ChunkInfo) → All P cs → In d cs → P d
All-In P [] d h m = elim m [ ]
All-In P (c ∷ cs) d (h, hs) (inl e) = subst P (sym e) h
All-In P (c ∷ cs) d (h, hs) (inr m) = All-In P cs d hs m

covered :
    (fuel top : ℕ) (cs : List ChunkInfo) (c : ChunkInfo)
    → AreDistinct cs
    → All (λ d. end_line d ≤ top) cs
    → In c cs
    → slack top c < fuel
    → (k : ChunkInfo) × In k (drop_nested [] cs) × (is_inside c k ≡ true)
covered zero top cs c u b m l = absurd (omega arith)
covered (suc fuel) top cs c u b m l =
    let (pre, post, e) = In-split c cs m in
    elim (Bool-cases (any_of (is_inside c) (pre ++ post))) [
      | inl h ↦
          let others = AreDistinct-split pre c post (subst AreDistinct e u) in
          let (d, found, inside, other) = find_around c (pre ++ post) h others in
          let here : In d cs = rw e (In-insert d c pre post found) in
          let lower = slack-lt top c d inside other (All-In (λ d. end_line d ≤ top) cs d b here) in
          let (k, stays, around) = covered fuel top cs d u b here (omega arith) in
          (k, stays, is_inside_trans c d k inside around)
      | inr h ↦ (c, rw e (kept [] pre c post h), is_inside_refl c)
    ]

top_line : List ChunkInfo → ℕ
top_line [] = 0
top_line (c ∷ cs) = max (end_line c) (top_line cs)

All-top_line : (n : ℕ) (cs : List ChunkInfo) → top_line cs ≤ n → All (λ d. end_line d ≤ n) cs
unfolding top_line
All-top_line n [] h = tt
All-top_line n (c ∷ cs) h = (omega arith, All-top_line n cs (omega arith))

-- The chunks of one file, sorted by their first line, with no two of the same lines: every chunk
-- lies inside one that is kept, so dropping nested chunks loses no line.
pub rerank_group-covers :
    (cs : List ChunkInfo) (c : ChunkInfo)
    → AreDistinct (sort_by start_line cs)
    → In c (sort_by start_line cs)
    → (k : ChunkInfo) × In k (rerank_group cs) × (is_inside c k ≡ true)
unfolding rerank_group
rerank_group-covers cs c u m =
    let sorted = sort_by start_line cs in
    let top = top_line sorted in
    covered (suc (slack top c)) top sorted c u (All-top_line top sorted (omega arith)) m
      (omega arith)
