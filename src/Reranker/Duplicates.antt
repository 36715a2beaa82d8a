-- ===== src/Reranker/Duplicates.antt =====
-- What the test on the other chunks does to chunks of the same lines.
use mathlib.Core.Path.{subst}
use deputydev_core.Prelude.{
  ℕ, suc, ◌+◌, ◌≤◌, List, [], ◌∷◌, ◌++◌, append_assoc, append-nil, true, false, ◌&&◌, ◌==◌, any_of,
  sort_by, ◌≡◌, refl, ap, sym, length, keep, arith, Bool-cases, inl, inr,
}
use deputydev_core.Chunking.Data.{ChunkInfo, start_line, end_line}
use deputydev_core.Reranker.{is_inside, drop_nested, rerank_group}
use deputydev_core.Reranker.Nesting.{In}

-- `k` stands in `cs`, and lies inside no other chunk of `before ++ cs`.
abbrev pub Alone : List ChunkInfo → List ChunkInfo → ChunkInfo → Type 0
Alone before cs k =
    (pre : List ChunkInfo) × (post : List ChunkInfo) × (cs ≡ pre ++ k ∷ post)
    × (any_of (is_inside k) ((before ++ pre) ++ post) ≡ false)

Alone-here :
    (before after : List ChunkInfo) (c : ChunkInfo)
    → any_of (is_inside c) (before ++ after) ≡ false
    → Alone before (c ∷ after) c
Alone-here before after c h = ([], after, refl, rw append-nil h)

Alone-there :
    (before after : List ChunkInfo) (c k : ChunkInfo)
    → Alone (before ++ c ∷ []) after k
    → Alone before (c ∷ after) k
Alone-there before after c k (pre, post, e, h) = (
  c ∷ pre,
  post,
  ap (λ (r : List ChunkInfo). c ∷ r) e,
  rw (append_assoc before (c ∷ []) pre) at h,
)

drop_first :
    (before after : List ChunkInfo) (c : ChunkInfo)
    → any_of (is_inside c) (before ++ after) ≡ true
    → drop_nested before (c ∷ after) ≡ drop_nested (before ++ c ∷ []) after
unfolding drop_nested
drop_first before after c e = rw e

keep_first :
    (before after : List ChunkInfo) (c : ChunkInfo)
    → any_of (is_inside c) (before ++ after) ≡ false
    → drop_nested before (c ∷ after) ≡ c ∷ drop_nested (before ++ c ∷ []) after
unfolding drop_nested
keep_first before after c e = rw e

kept_first :
    (before after rest : List ChunkInfo) (c k : ChunkInfo)
    → any_of (is_inside c) (before ++ after) ≡ false
    → (In k rest → Alone (before ++ c ∷ []) after k)
    → In k (c ∷ rest)
    → Alone before (c ∷ after) k
kept_first before after rest c k e ih (inl same) =
    subst (Alone before (c ∷ after)) (sym same) (Alone-here before after c e)
kept_first before after rest c k e ih (inr m) = Alone-there before after c k (ih m)

kept-Alone :
    (before cs : List ChunkInfo) (k : ChunkInfo) → In k (drop_nested before cs) → Alone before cs k
kept-Alone before [] k m = unfold drop_nested in elim m [ ]
kept-Alone before (c ∷ after) k m = elim (Bool-cases (any_of (is_inside c) (before ++ after))) [
  | inl e ↦
      Alone-there before after c k
        (kept-Alone (before ++ c ∷ []) after k (rw (drop_first before after c e) at m))
  | inr e ↦
      kept_first before after (drop_nested (before ++ c ∷ []) after) c k e
        (kept-Alone (before ++ c ∷ []) after k) (rw (keep_first before after c e) at m)
]

-- The chunks of the same lines as `c`, itself among them.
unfoldable pub same_count : ChunkInfo → List ChunkInfo → ℕ
same_count c cs = length (keep (λ d. start_line c == start_line d && end_line c == end_line d) cs)

same_count-append :
    (c : ChunkInfo) (xs ys : List ChunkInfo)
    → same_count c (xs ++ ys) ≡ same_count c xs + same_count c ys
unfolding same_count
same_count-append c [] ys = omega arith
same_count-append c (x ∷ xs) ys = ground (arith, same_count-append c xs ys)

same_count-outside :
    (c : ChunkInfo) (xs ys : List ChunkInfo)
    → any_of (is_inside c) (xs ++ ys) ≡ false
    → same_count c xs + same_count c ys ≡ 0
unfolding same_count is_inside
same_count-outside c [] [] h = omega arith
same_count-outside c [] (y ∷ ys) h = ground (arith, same_count-outside c [] ys)
same_count-outside c (x ∷ xs) ys h = ground (arith, same_count-outside c xs ys)

same_count-cons :
    (c : ChunkInfo) (cs : List ChunkInfo) → same_count c (c ∷ cs) ≡ suc (same_count c cs)
unfolding same_count
same_count-cons c cs = ground arith

same_count-Alone : (cs : List ChunkInfo) (k : ChunkInfo) → Alone [] cs k → same_count k cs ≡ 1
same_count-Alone cs k (pre, post, e, h) = rw e (
    omega (
      arith,
      same_count-append k pre (k ∷ post),
      same_count-cons k post,
      same_count-outside k pre post h,
    ))

-- No chunk is kept whose lines occur twice among the chunks of its file, as when a chunk is both
-- a focus chunk and a relevant one: each copy lies inside the other, and both are dropped.
pub rerank_group-duplicates :
    (cs : List ChunkInfo) (c : ChunkInfo)
    → 2 ≤ same_count c (sort_by start_line cs)
    → ¬ In c (rerank_group cs)
unfolding rerank_group
rerank_group-duplicates cs c h m = absurd (
    omega (
      arith,
      same_count-Alone (sort_by start_line cs) c (kept-Alone [] (sort_by start_line cs) c m),
    ))
