-- ===== src/Chunking/Legacy/Tiles.antt =====
-- The byte spans of the legacy chunker: each starts where the one before it ends.
use deputydev_core.Prelude.{
  ◌+◌, ◌-◌, min, max, ◌==◌, max, lt→ltb, min, ◌&&◌, Option, ℕ, ◌≤◌, List, [], ◌∷◌, ◌++◌, Bool, true,
  false, ltb, if◌then◌else◌, ◌≡◌, refl, arith, Bool-cases, inl, inr,
}
use deputydev_core.Py.Chars.{Text}
use deputydev_core.Chunking.Spans.{Bytes, Span, span, span_len}
use deputydev_core.Chunking.Legacy.{
  coalesce_chunks, coalesce_loop, Bytes, fill_chunk_gaps, extend_to_next, merge_into_last,
  merge_spans, Node, Forest, node, none_left, and_then, start_byte, end_byte, span_if,
  traverse_node, traverse_children, create_ast_chunks,
}

-- The spans follow one another from `a` to `b`, with nothing between or beside them.
abbrev pub Tiles : ℕ → ℕ → List Span → Type 0
Tiles a b [] = a ≡ b
Tiles a b (s ∷ ss) = (s.start ≡ a) × (a ≤ s.stop) × Tiles s.stop b ss

Tiles-append : (a m b : ℕ) (xs ys : List Span) → Tiles a m xs → Tiles m b ys → Tiles a b (xs ++ ys)
Tiles-append a m b [] ys h k = rw (h) k
Tiles-append a m b (x ∷ xs) ys (e, l, h) k = (e, l, Tiles-append x.stop m b xs ys h k)

pub Tiles-le : (a b : ℕ) (xs : List Span) → Tiles a b xs → a ≤ b
Tiles-le a b [] h = omega arith
Tiles-le a b (x ∷ xs) (e, l, h) = let k = Tiles-le x.stop b xs h in omega arith

span_if-Tiles : (i j : ℕ) → i ≤ j → Tiles i j (span_if i j)
unfolding span_if
span_if-Tiles i j h = elim (Bool-cases (ltb i j)) [
  | inl e ↦ rw e (refl, h, refl)
  | inr e ↦ rw e (ground arith)
]

pub either : {A : Type 0} (P : A → Type 0) (b : Bool) (x y : A) → P x → P y → P (if b then x else y)
either P true x y h k = h
either P false x y h k = k

-- What a parser promises of its trees: children lie in order, side by side, inside their parent.
unfoldable mutual
  pub IsNode : Node → Type 0
  IsNode (node i j children) = (i ≤ j) × IsForest i j children

  pub IsForest : ℕ → ℕ → Forest → Type 0
  IsForest a b none_left = a ≤ b
  IsForest a b (and_then child rest) =
      (a ≤ start_byte child) × IsNode child × IsForest (end_byte child) b rest

IsNode-le : (n : Node) → IsNode n → start_byte n ≤ end_byte n
unfolding IsNode
IsNode-le (node i j children) (h, hs) = h

abbrev Traversed : ℕ → ℕ → List Span × ℕ → Type 0
Traversed a b r = Tiles a r.1 r.0 × (r.1 ≤ b)

module _ (max_chars : ℕ) where
  mutual
    unfolding IsNode IsForest traverse_node traverse_children

    traverse_node-Tiles :
        (n : Node) (start : ℕ)
        → IsNode n
        → start ≤ start_byte n
        → Tiles start (end_byte n) (traverse_node max_chars n start)
    traverse_node-Tiles (node i j children) start (h, hs) l =
        let (tiles, le) = traverse_children-Traversed children start i j hs l in
        let r = traverse_children max_chars children start in
        Tiles-append start r.1 j r.0 (span_if r.1 j) tiles (span_if-Tiles r.1 j le)

    traverse_children-Traversed :
        (f : Forest) (start a b : ℕ)
        → IsForest a b f
        → start ≤ a
        → Traversed start b (traverse_children max_chars f start)
    traverse_children-Traversed none_left start a b h l = (refl, omega arith)
    traverse_children-Traversed (and_then child rest) start a b (h, hc, hs) l =
        let i = start_byte child in
        let j = end_byte child in
        let ij = IsNode-le child hc in
        let before = span_if-Tiles start i (omega arith) in
        let inner = traverse_node-Tiles child i hc (omega arith) in
        let (behind, b1) = traverse_children-Traversed rest j j b hs (omega arith) in
        let (from_child, b2) = traverse_children-Traversed rest i j b hs ij in
        let on = traverse_children-Traversed rest start j b hs (omega arith) in
        either (Traversed start b) _ _ _
          (Tiles-append start i _ _ _ before (Tiles-append i j _ _ _ inner behind), b1)
          (either (Traversed start b) _ _ _ (Tiles-append start i _ _ _ before from_child, b2) on)

-- The chunks of a well-formed tree follow one another from the root's first byte to its last.
pub create_ast_chunks-Tiles :
    (root : Node) (max_chars : ℕ)
    → IsNode root
    → Tiles (start_byte root) (end_byte root) (create_ast_chunks root max_chars)
unfolding create_ast_chunks
create_ast_chunks-Tiles root max_chars h =
    traverse_node-Tiles max_chars root (start_byte root) h (omega arith)

extend_to_next-Tiles :
    (a b : ℕ) (c : Span) (cs : List Span)
    → Tiles a b (c ∷ cs)
    → Tiles a b (extend_to_next (c ∷ cs) b)
unfolding extend_to_next
extend_to_next-Tiles a b c [] (e, l, h) = (e, omega arith, refl)
extend_to_next-Tiles a b c (d ∷ cs) (e, l, (e', l', h)) =
    (e, omega arith, extend_to_next-Tiles d.start b d cs (refl, omega arith, h))

-- Chunks that cover the bytes from 0 do so still when the gaps are filled.
pub fill_chunk_gaps-Tiles :
    (b : ℕ) (c : Span) (cs : List Span)
    → Tiles 0 b (c ∷ cs)
    → Tiles 0 b (fill_chunk_gaps (c ∷ cs) b)
unfolding fill_chunk_gaps
fill_chunk_gaps-Tiles b c [] h = (refl, omega arith, refl)
fill_chunk_gaps-Tiles b c (d ∷ cs) h = extend_to_next-Tiles 0 b c (d ∷ cs) h

pub merge_spans-adjacent :
    (s t : Span)
    → s.start ≤ s.stop
    → s.stop ≤ t.start
    → t.start ≤ t.stop
    → merge_spans s t ≡ span s.start t.stop
unfolding merge_spans span_len
merge_spans-adjacent s t h k l =
    let first : min s.start t.start ≡ s.start = omega arith in
    let second : max s.stop t.stop ≡ t.stop = omega arith in
    let filled : (s.stop + 1 - s.start == 0) ≡ false = ground arith in
    let filled' : (t.stop + 1 - t.start == 0) ≡ false = ground arith in
    rw (filled, filled', first, second) refl

merge_into_last-Tiles :
    (a m : ℕ) (s : Span) (ss : List Span) (chunk : Span)
    → Tiles a m (s ∷ ss)
    → m ≤ chunk.start
    → chunk.start ≤ chunk.stop
    → Tiles a chunk.stop (merge_into_last (s ∷ ss) chunk)
unfolding merge_into_last
merge_into_last-Tiles a m s [] chunk (e, l, h) k k' =
    rw (merge_spans-adjacent s chunk (omega arith) (omega arith) k') (e, omega arith, refl)
merge_into_last-Tiles a m s (t ∷ ss) chunk (e, l, h) k k' =
    (e, l, merge_into_last-Tiles s.stop m t ss chunk h k k')

and-false : (b : Bool) → (b && false) ≡ false
and-false true = refl
and-false false = refl

-- What is finished and the current chunk behind it reach from 0 to `p`.
abbrev Reaches : ℕ → List Span × Span → Type 0
Reaches p r = Tiles 0 r.1.start r.0 × (r.1.start ≤ r.1.stop) × (r.1.stop ≡ p)

module _ (decode : Bytes → Option Text) (content : Bytes) (coalesce : ℕ) where
  coalesce_loop-Reaches :
      (b : ℕ) (chunks coalesced : List Span) (current : Span)
      → Tiles current.stop b chunks
      → Tiles 0 current.start coalesced
      → current.start ≤ current.stop
      → Reaches b (coalesce_loop decode content coalesce chunks coalesced current)
  unfolding coalesce_loop
  coalesce_loop-Reaches b [] coalesced current h k l = (k, l, h)
  coalesce_loop-Reaches b (chunk ∷ chunks) [] current (e, l', h) k l =
      let merged = merge_spans-adjacent current chunk l (omega arith) (omega arith) in
      let split =
        coalesce_loop-Reaches b chunks (current ∷ []) chunk h
          (Tiles-append 0 current.start chunk.start [] (current ∷ []) k (refl, l, omega arith))
          (omega arith) in
      let grown =
        coalesce_loop-Reaches b chunks [] (span current.start chunk.stop) h k (omega arith) in
      rw (merged, and-false) (either (Reaches b) _ _ _ split grown)
  coalesce_loop-Reaches b (chunk ∷ chunks) (s ∷ ss) current (e, l', h) k l =
      let merged = merge_spans-adjacent current chunk l (omega arith) (omega arith) in
      let joined =
        coalesce_loop-Reaches b chunks (merge_into_last (s ∷ ss) chunk) (span chunk.stop chunk.stop)
          h (merge_into_last-Tiles 0 current.start s ss chunk k (omega arith) (omega arith))
          (omega arith) in
      let split =
        coalesce_loop-Reaches b chunks ((s ∷ ss) ++ current ∷ []) chunk h
          (Tiles-append 0 current.start chunk.start (s ∷ ss) (current ∷ []) k
            (refl, l, omega arith))
          (omega arith) in
      let grown =
        coalesce_loop-Reaches b chunks (s ∷ ss) (span current.start chunk.stop) h k (omega arith) in
      rw merged (either (Reaches b) _ _ _ joined (either (Reaches b) _ _ _ split grown))

  -- Chunks that follow one another from byte 0 do so still when small ones are merged.
  pub coalesce_chunks-Tiles :
      (b : ℕ) (c : Span) (cs : List Span)
      → Tiles 0 b (c ∷ cs)
      → Tiles 0 b (coalesce_chunks decode content (c ∷ cs) coalesce)
  unfolding coalesce_chunks span_len
  coalesce_chunks-Tiles b c cs h =
      let (coalesced, current) = coalesce_loop decode content coalesce (c ∷ cs) [] (span 0 0) in
      let (tiles, l, e) = coalesce_loop-Reaches b (c ∷ cs) [] (span 0 0) h refl (omega arith) in
      rw (lt→ltb 0 (current.stop + 1 - current.start) (omega arith))
        (Tiles-append 0 current.start b coalesced (current ∷ []) tiles (refl, l, e))
