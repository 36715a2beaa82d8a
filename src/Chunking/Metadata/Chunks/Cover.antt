-- ===== src/Chunking/Metadata/Chunks/Cover.antt =====
-- Every part of the tree at which the descent stops lies in a chunk.
use mathlib.Core.Path.{subst}
use deputydev_core.Prelude.{
  ℕ, List, [], ◌∷◌, append-nil, Option, none, some, All, All-append, ◌≡◌, inl, inr, sym,
}
use deputydev_core.Py.Chars.{Text}
use deputydev_core.Chunking.Data.{HierarchyObject}
use deputydev_core.Chunking.Metadata.{Point, NeoSpan}
use deputydev_core.Chunking.Metadata.Nodes.{
  NodeInfo, Node, Forest, node, none_left, and_then, info, Grammar,
}
use deputydev_core.Chunking.Metadata.Chunks.{
  Shared, valid_chunk, create_chunk, chunk_of, enter, note_child, branch_of, joined_chunk,
  without_pending, chunk_node, chunk_children, actual_start,
}
use deputydev_core.Chunking.Metadata.Chunks.Points.{
  UpTo, UpTo-refl, UpTo-trans, point_eq-longer, AllUpTo, AllUpTo-trans, Covered-part,
}
use deputydev_core.Chunking.Metadata.Chunks.Steps.{
  Branch-cases, actual_start-UpTo, enter-pending, note_child-pending, joined_chunk-some,
  joined_chunk-none,
}
use deputydev_core.Chunking.Metadata.Chunks.Trees.{
  Chunked, Holds, Holds-first, InChunk, IsForest, IsNode, Looped, Reached, stops, stops_in,
}
use deputydev_core.Chunking.Metadata.Chunks.Rounds.{
  decorated_case, here, joined_case, large_case, split_case, there, waiting_child,
}

IsNode-order : (n : Node) → IsNode n → UpTo (info n).start_point (info n).end_point
unfolding IsNode
IsNode-order (node i children) (h, hs) = h

Reached-later :
    (p q : Point) (current : Option NeoSpan) → UpTo p q → Reached p current → Reached q current
Reached-later p q none l h = tt
Reached-later p q (some c) l (h, g) = (h, UpTo-trans c.end p q g l)

module _ (list_of_set : List Text → List Text) (grammar : Grammar) (max_chars : ℕ)
    (source_code : Text) (hierarchy : List HierarchyObject) (child : Node) (p : Point)
    (o : UpTo p (info child).start_point)
    (s : UpTo (info child).start_point (info child).end_point) where
  abbrev joined_with : Option NeoSpan → NeoSpan
  joined_with current =
      joined_chunk list_of_set grammar max_chars source_code hierarchy current child

  joined_start :
      (current : Option NeoSpan)
      → Reached p current
      → UpTo (joined_with current).start (info child).start_point
  joined_start none h =
      let (first, _) =
        joined_chunk-none list_of_set grammar max_chars source_code hierarchy child in
      subst (λ (x : Point). UpTo x (info child).start_point) (sym first)
        (UpTo-refl (info child).start_point)
  joined_start (some c) (h, g) =
      let (first, _) =
        joined_chunk-some list_of_set grammar max_chars source_code hierarchy c child h in
      subst (λ (x : Point). UpTo x (info child).start_point) (sym first)
        (UpTo-trans c.start p (info child).start_point (UpTo-trans c.start c.end p h g) o)

  joined_end :
      (current : Option NeoSpan)
      → Reached p current
      → (joined_with current).end ≡ (info child).end_point
  joined_end none h =
      (joined_chunk-none list_of_set grammar max_chars source_code hierarchy child).1
  joined_end (some c) (h, g) =
      (joined_chunk-some list_of_set grammar max_chars source_code hierarchy c child h).1

  joined_keeps :
      (current : Option NeoSpan)
      → Reached p current
      → (out : List NeoSpan) → InChunk out ((joined_with current).start, (info child).end_point)
      → Holds out current
  joined_keeps none h out w = tt
  joined_keeps (some c) (h, g) out w =
      let (first, _) =
        joined_chunk-some list_of_set grammar max_chars source_code hierarchy c child h in
      let whole : InChunk out (c.start, (info child).end_point) =
        subst (λ (x : Point). InChunk out (x, (info child).end_point)) first w in
      let later =
        UpTo-trans c.end p (info child).end_point g
          (UpTo-trans p (info child).start_point (info child).end_point o s) in
      λ e.
        Covered-part out c.start (info child).end_point c.start c.end (UpTo-refl c.start) later
          (whole (point_eq-longer c.start c.end (info child).end_point h later e))

module _ (list_of_set : List Text → List Text) (grammar : Grammar) (max_chars : ℕ)
    (source_code : Text) where
  abbrev inner_st : List HierarchyObject → Node → Shared → List HierarchyObject × Shared
  inner_st hierarchy n st = enter list_of_set grammar max_chars source_code n hierarchy st

  abbrev first_chunk : List HierarchyObject → Node → Shared → NeoSpan
  first_chunk hierarchy n st =
      create_chunk list_of_set grammar max_chars source_code (inner_st hierarchy n st).0
        (info n).start_point (info n).start_point 0 (inner_st hierarchy n st).1.pending_decorators n

  -- A call is its loop, and the last chunk.
  from_loop :
      (hierarchy : List HierarchyObject) (i : NodeInfo) (children : Forest) (st : Shared)
      → Looped i.end_point
          (stops_in grammar max_chars children)
          (some (first_chunk hierarchy (node i children) st))
          (chunk_children list_of_set grammar max_chars source_code
            (inner_st hierarchy (node i children) st).0
            children
            (some (first_chunk hierarchy (node i children) st))
            (without_pending (inner_st hierarchy (node i children) st).1))
      → Chunked i.end_point
          (stops grammar max_chars (node i children))
          (chunk_node list_of_set grammar max_chars source_code hierarchy (node i children) st).0
          (chunk_node list_of_set grammar max_chars source_code hierarchy (node i children) st).1
  unfolding chunk_node stops
  from_loop hierarchy i children st l = record { inside = l.inside; waiting = l.waiting }

  first_chunk-Reached :
      (hierarchy : List HierarchyObject) (n : Node) (st : Shared)
      → AllUpTo (info n).start_point st.pending_decorators
      → Reached (info n).start_point (some (first_chunk hierarchy n st))
  unfolding create_chunk
  first_chunk-Reached hierarchy n st w =
      let entered = enter-pending list_of_set grammar max_chars source_code n hierarchy st in
      (
        actual_start-UpTo (inner_st hierarchy n st).1.pending_decorators (info n).start_point
            (subst (AllUpTo (info n).start_point) (sym entered) w),
        UpTo-refl (info n).start_point,
      )

  without_pending-AllUpTo :
      (p : Point) (st : Shared) → AllUpTo p (without_pending st).pending_decorators
  unfolding without_pending
  without_pending-AllUpTo p st = tt

  at_the_end :
      (hierarchy : List HierarchyObject) (current : Option NeoSpan) (st : Shared) (p q : Point)
      → UpTo p q
      → Reached p current
      → AllUpTo p st.pending_decorators
      → Looped q
          (stops_in grammar max_chars none_left)
          current
          (chunk_children list_of_set grammar max_chars source_code hierarchy none_left current st)
  unfolding chunk_children stops_in
  at_the_end hierarchy current st p q h r w = record {
    inside = tt;
    held =
        subst (λ (o : List NeoSpan). Holds o current) (append-nil (valid_chunk current))
          (Holds-first p current [] r);
    waiting = AllUpTo-trans p q st.pending_decorators h w;
  }

  next_chunk-Reached :
      (hierarchy : List HierarchyObject) (child : Node) (ds : List Point)
      → UpTo (info child).start_point (info child).end_point
      → AllUpTo (info child).start_point ds
      → Reached
          (info child).end_point
          (some (chunk_of list_of_set grammar max_chars source_code hierarchy ds child))
  unfolding create_chunk
  next_chunk-Reached hierarchy child ds order w = (
    UpTo-trans (actual_start ds (info child).start_point) (info child).start_point
        (info child).end_point (actual_start-UpTo ds (info child).start_point w) order,
    UpTo-refl (info child).end_point,
  )

  joined_chunk-Reached :
      (c : NeoSpan) (here there : Point)
      → UpTo c.start here
      → c.end ≡ there
      → UpTo here there
      → Reached there (some c)
  joined_chunk-Reached c here there start end order = (
    subst (λ (x : Point). UpTo c.start x) (sym end) (UpTo-trans c.start here there start order),
    subst (λ (x : Point). UpTo x there) (sym end) (UpTo-refl there),
  )

  waits_on :
      (child : Node) (st : Shared) (p r : Point)
      → UpTo p r
      → AllUpTo p st.pending_decorators
      → AllUpTo r (note_child list_of_set grammar max_chars source_code child st).pending_decorators
  waits_on child st p r l w =
      subst (AllUpTo r)
        (sym (note_child-pending list_of_set grammar max_chars source_code child st))
        (AllUpTo-trans p r st.pending_decorators l w)

  mutual
    unfolding IsNode IsForest

    chunk_node-Chunked :
        (hierarchy : List HierarchyObject) (n : Node) (st : Shared)
        → IsNode n
        → AllUpTo (info n).start_point st.pending_decorators
        → Chunked
            (info n).end_point
            (stops grammar max_chars n)
            (chunk_node list_of_set grammar max_chars source_code hierarchy n st).0
            (chunk_node list_of_set grammar max_chars source_code hierarchy n st).1
    chunk_node-Chunked hierarchy (node i children) st (h, hs) w =
        from_loop hierarchy i children st (
          chunk_children-Looped (inner_st hierarchy (node i children) st).0 children
            (some (first_chunk hierarchy (node i children) st))
            (without_pending (inner_st hierarchy (node i children) st).1) i.start_point i.end_point
            hs (first_chunk-Reached hierarchy (node i children) st w)
            (without_pending-AllUpTo i.start_point (inner_st hierarchy (node i children) st).1))

    chunk_children-Looped :
        (hierarchy : List HierarchyObject) (children : Forest) (current : Option NeoSpan)
        (st : Shared) (p q : Point)
        → IsForest p q children
        → Reached p current
        → AllUpTo p st.pending_decorators
        → Looped q
            (stops_in grammar max_chars children)
            current
            (chunk_children list_of_set grammar max_chars source_code hierarchy children current st)
    chunk_children-Looped hierarchy none_left current st p q h r w =
        at_the_end hierarchy current st p q h r w
    chunk_children-Looped hierarchy (and_then child rest) current st p q (o, hn, hr) r w =
        let here : Point = (info child).start_point in
        let there : Point = (info child).end_point in
        let order : UpTo here there = IsNode-order child hn in
        let later : UpTo p there = UpTo-trans p here there o order in
        let noted = note_child list_of_set grammar max_chars source_code child st in
        elim (Branch-cases (branch_of list_of_set grammar max_chars source_code child current)) [
          | inl e ↦
              decorated_case list_of_set grammar max_chars source_code hierarchy child rest current
                st p q e
                (chunk_children-Looped hierarchy rest current
                  (waiting_child list_of_set grammar max_chars source_code hierarchy child rest
                    current st)
                  there q hr (Reached-later p there current later r)
                  (All-append (λ d. UpTo d there) noted.pending_decorators (here ∷ [])
                    (waits_on child st p there later w) (order, tt)))
          | inr (inl e) ↦
              let c = chunk_node-Chunked hierarchy child noted hn (waits_on child st p here o w) in
              large_case list_of_set grammar max_chars source_code hierarchy child rest current st p
                q e r c
                (chunk_children-Looped hierarchy rest none
                  (chunk_node list_of_set grammar max_chars source_code hierarchy child noted).1
                  there q hr tt c.waiting)
          | inr (inr (inl e)) ↦
              let waits = waits_on child st p here o w in
              let next =
                chunk_of list_of_set grammar max_chars source_code hierarchy
                  noted.pending_decorators child in
              split_case list_of_set grammar max_chars source_code hierarchy child rest current st p
                q e r order waits
                (chunk_children-Looped hierarchy rest (some next) (without_pending noted) there q hr
                  (next_chunk-Reached hierarchy child noted.pending_decorators order waits)
                  (without_pending-AllUpTo there noted))
          | inr (inr (inr e)) ↦
              let start =
                joined_start list_of_set grammar max_chars source_code hierarchy child p o order
                  current r in
              let end =
                joined_end list_of_set grammar max_chars source_code hierarchy child p o order
                  current r in
              joined_case list_of_set grammar max_chars source_code hierarchy child rest current st
                p q e order start end
                (joined_keeps list_of_set grammar max_chars source_code hierarchy child p o order
                  current r)
                (chunk_children-Looped hierarchy rest
                  (some (
                    joined_chunk list_of_set grammar max_chars source_code hierarchy current child))
                  noted there q hr
                  (joined_chunk-Reached
                    (joined_chunk list_of_set grammar max_chars source_code hierarchy current child)
                    here there start end order)
                  (waits_on child st p there later w))
        ]

-- In a tree whose nodes stand in the order of the text, every node at which the descent stops, one
-- of at most `max_chars` bytes that is no decorator, lies in a chunk, if it is not empty.
pub chunk_node-covers :
    (list_of_set : List Text → List Text) (grammar : Grammar) (max_chars : ℕ) (source_code : Text)
    (root : Node) (classes functions : List Text)
    → IsNode root
    → All
        (InChunk
          (chunk_node list_of_set grammar max_chars source_code [] root (record {
            all_classes = classes;
            all_functions = functions;
            pending_decorators = [];
          })).0)
        (stops grammar max_chars root)
chunk_node-covers list_of_set grammar max_chars source_code root classes functions h =
    (chunk_node-Chunked list_of_set grammar max_chars source_code [] root
      (record { all_classes = classes; all_functions = functions; pending_decorators = [] }) h
      tt).inside
