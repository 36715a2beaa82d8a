-- ===== src/Chunking/Metadata/Chunks/Rounds.antt =====
-- One round of the loop over the children, branch by branch.
use mathlib.Core.Path.{subst}
use deputydev_core.Prelude.{
  ℕ, List, [], ◌∷◌, ◌++◌, append_assoc, true, false, Option, none, some, ltb, All, All-append, ◌≡◌,
  inl, inr, sym, ap, ◌∙◌, arith,
}
use deputydev_core.Py.Chars.{Text, text_eq}
use deputydev_core.Chunking.Data.{HierarchyObject}
use deputydev_core.Chunking.Metadata.{Point, NeoSpan}
use deputydev_core.Chunking.Metadata.Nodes.{Node, Forest, and_then, info, Grammar}
use deputydev_core.Chunking.Metadata.Chunks.{
  Shared, valid_chunk, create_chunk, chunk_of, size, note_child, Branch, decorated, large, split,
  joined, by_branch, branch_of, joined_chunk, without_pending, chunk_node, chunk_children,
}
use deputydev_core.Chunking.Metadata.Chunks.Points.{
  UpTo, UpTo-refl, point_eq-earlier, AllUpTo, Covered-part,
}
use deputydev_core.Chunking.Metadata.Chunks.Steps.{
  actual_start-UpTo, branch_of-decorated, branch_of-large, branch_of-small,
}
use deputydev_core.Chunking.Metadata.Chunks.Trees.{
  Chunked, Holds, Holds-first, InChunk, InChunk-left, InChunk-right, Looped, Reached, Stretch,
  stops, stops_in,
}

module _ (list_of_set : List Text → List Text) (grammar : Grammar) (max_chars : ℕ)
    (source_code : Text) (hierarchy : List HierarchyObject) (child : Node) (rest : Forest)
    (current : Option NeoSpan) (st : Shared) where
  abbrev pub branch : Branch
  branch = branch_of list_of_set grammar max_chars source_code child current

  abbrev pub loop : Forest → Option NeoSpan → Shared → List NeoSpan × Option NeoSpan × Shared
  loop = chunk_children list_of_set grammar max_chars source_code hierarchy

  abbrev pub with_child : Shared
  with_child = note_child list_of_set grammar max_chars source_code child st

  abbrev pub waiting_child : Shared
  waiting_child = record with_child {
    pending_decorators = with_child.pending_decorators ++ (info child).start_point ∷ [];
  }

  abbrev pub of_child : List NeoSpan × Shared
  of_child = chunk_node list_of_set grammar max_chars source_code hierarchy child with_child

  abbrev pub behind_large : List NeoSpan × Option NeoSpan × Shared
  behind_large = loop rest none of_child.1

  abbrev pub next_chunk : NeoSpan
  next_chunk =
      chunk_of list_of_set grammar max_chars source_code hierarchy with_child.pending_decorators
        child

  abbrev pub behind_split : List NeoSpan × Option NeoSpan × Shared
  behind_split = loop rest (some next_chunk) (without_pending with_child)

  abbrev pub at_joined : NeoSpan
  at_joined = joined_chunk list_of_set grammar max_chars source_code hierarchy current child

  abbrev pub round : Branch → List NeoSpan × Option NeoSpan × Shared
  round b =
      by_branch b (loop rest current waiting_child)
        (valid_chunk current ++ (of_child.0 ++ behind_large.0), behind_large.1, behind_large.2)
        (valid_chunk current ++ behind_split.0, behind_split.1, behind_split.2)
        (loop rest (some at_joined) with_child)

  pub loop-round : (b : Branch) → branch ≡ b → loop (and_then child rest) current st ≡ round b
  unfolding chunk_children
  loop-round b e = ap (λ (x : Branch). round x) e

  abbrev pub here : Point
  here = (info child).start_point

  abbrev pub there : Point
  there = (info child).end_point

  pub stops_in-decorated :
      text_eq (info child).type grammar.decorator ≡ true
      → stops_in grammar max_chars (and_then child rest) ≡ stops_in grammar max_chars rest
  unfolding stops_in
  stops_in-decorated h = ground arith

  pub stops_in-large :
      text_eq (info child).type grammar.decorator ≡ false
      → ltb max_chars (size child) ≡ true
      → stops_in grammar max_chars (and_then child rest)
        ≡ stops grammar max_chars child ++ stops_in grammar max_chars rest
  unfolding stops_in
  stops_in-large h g = ground arith

  pub stops_in-small :
      text_eq (info child).type grammar.decorator ≡ false
      → ltb max_chars (size child) ≡ false
      → stops_in grammar max_chars (and_then child rest)
        ≡ (here, there) ∷ stops_in grammar max_chars rest
  unfolding stops_in
  stops_in-small h g = ground arith

  module _ (p q : Point) where
    -- The round of the branch that is taken is the round of the loop.
    pub rounded :
        (b : Branch) (units : List Stretch)
        → branch ≡ b
        → stops_in grammar max_chars (and_then child rest) ≡ units
        → Looped q units current (round b)
        → Looped q
            (stops_in grammar max_chars (and_then child rest))
            current
            (loop (and_then child rest) current st)
    rounded b units e u l =
        subst (λ r. Looped q (stops_in grammar max_chars (and_then child rest)) current r)
          (sym (loop-round b e)) (subst (λ us. Looped q us current (round b)) (sym u) l)

    pub Looped-large :
        (units : List Stretch)
        → Reached p current
        → Chunked there (stops grammar max_chars child) of_child.0 of_child.1
        → Looped q units none behind_large
        → Looped q (stops grammar max_chars child ++ units) current (round large)
    Looped-large units reached c l =
        let vc = valid_chunk current in
        let tail = behind_large.0 ++ valid_chunk behind_large.1 in
        let same : (vc ++ (of_child.0 ++ behind_large.0)) ++ valid_chunk behind_large.1
            ≡ vc ++ (of_child.0 ++ tail) =
          append_assoc vc (of_child.0 ++ behind_large.0) (valid_chunk behind_large.1)
          ∙ ap (λ (r : List NeoSpan). vc ++ r)
              (append_assoc of_child.0 behind_large.0 (valid_chunk behind_large.1)) in
        record {
          inside =
              subst (λ (o : List NeoSpan). All (InChunk o) (stops grammar max_chars child ++ units))
                (sym same)
                (InChunk-right vc (of_child.0 ++ tail) (stops grammar max_chars child ++ units) (
                  All-append (InChunk (of_child.0 ++ tail)) (stops grammar max_chars child) units
                    (InChunk-left of_child.0 tail (stops grammar max_chars child) c.inside)
                    (InChunk-right of_child.0 tail units l.inside)));
          held =
              subst (λ (o : List NeoSpan). Holds o current) (sym same)
                (Holds-first p current (of_child.0 ++ tail) reached);
          waiting = l.waiting;
        }

    pub Looped-split :
        (units : List Stretch)
        → Reached p current
        → UpTo here there
        → AllUpTo here with_child.pending_decorators
        → Looped q units (some next_chunk) behind_split
        → Looped q ((here, there) ∷ units) current (round split)
    unfolding create_chunk
    Looped-split units reached order waits l =
        let vc = valid_chunk current in
        let tail = behind_split.0 ++ valid_chunk behind_split.1 in
        let same : (vc ++ behind_split.0) ++ valid_chunk behind_split.1 ≡ vc ++ tail =
          append_assoc vc behind_split.0 (valid_chunk behind_split.1) in
        let early = actual_start-UpTo with_child.pending_decorators here waits in
        let first : InChunk tail (here, there) = λ e.
          Covered-part tail next_chunk.start there here there early (UpTo-refl there)
            (l.held (point_eq-earlier next_chunk.start here there early order e)) in
        record {
          inside =
              subst (λ (o : List NeoSpan). All (InChunk o) ((here, there) ∷ units)) (sym same)
                (InChunk-right vc tail ((here, there) ∷ units) (first, l.inside));
          held =
              subst (λ (o : List NeoSpan). Holds o current) (sym same)
                (Holds-first p current tail reached);
          waiting = l.waiting;
        }

    pub Looped-joined :
        (units : List Stretch)
        → UpTo here there
        → UpTo at_joined.start here
        → at_joined.end ≡ there
        → ((out : List NeoSpan) → InChunk out (at_joined.start, there) → Holds out current)
        → Looped q units (some at_joined) (loop rest (some at_joined) with_child)
        → Looped q ((here, there) ∷ units) current (round joined)
    Looped-joined units order start end keeps l =
        let r = loop rest (some at_joined) with_child in
        let out = r.0 ++ valid_chunk r.1 in
        let whole : InChunk out (at_joined.start, there) =
          subst (λ (x : Point). InChunk out (at_joined.start, x)) end l.held in
        record {
          inside = (
            λ e.
                Covered-part out at_joined.start there here there start (UpTo-refl there)
                  (whole (point_eq-earlier at_joined.start here there start order e)),
            l.inside,
          );
          held = keeps out whole;
          waiting = l.waiting;
        }

    pub decorated_case :
        branch ≡ decorated
        → Looped q (stops_in grammar max_chars rest) current (loop rest current waiting_child)
        → Looped q
            (stops_in grammar max_chars (and_then child rest))
            current
            (loop (and_then child rest) current st)
    decorated_case e l =
        rounded decorated (stops_in grammar max_chars rest) e
          (stops_in-decorated
            (branch_of-decorated list_of_set grammar max_chars source_code child current e))
          l

    pub large_case :
        branch ≡ large
        → Reached p current
        → Chunked there (stops grammar max_chars child) of_child.0 of_child.1
        → Looped q (stops_in grammar max_chars rest) none behind_large
        → Looped q
            (stops_in grammar max_chars (and_then child rest))
            current
            (loop (and_then child rest) current st)
    large_case e r c l =
        let (other, big) =
          branch_of-large list_of_set grammar max_chars source_code child current e in
        rounded large (stops grammar max_chars child ++ stops_in grammar max_chars rest) e
          (stops_in-large other big) (Looped-large (stops_in grammar max_chars rest) r c l)

    pub split_case :
        branch ≡ split
        → Reached p current
        → UpTo here there
        → AllUpTo here with_child.pending_decorators
        → Looped q (stops_in grammar max_chars rest) (some next_chunk) behind_split
        → Looped q
            (stops_in grammar max_chars (and_then child rest))
            current
            (loop (and_then child rest) current st)
    split_case e r order waits l =
        let (other, small) =
          branch_of-small list_of_set grammar max_chars source_code child current (inl e) in
        rounded split ((here, there) ∷ stops_in grammar max_chars rest) e
          (stops_in-small other small)
          (Looped-split (stops_in grammar max_chars rest) r order waits l)

    pub joined_case :
        branch ≡ joined
        → UpTo here there
        → UpTo at_joined.start here
        → at_joined.end ≡ there
        → ((out : List NeoSpan) → InChunk out (at_joined.start, there) → Holds out current)
        → Looped q
            (stops_in grammar max_chars rest)
            (some at_joined)
            (loop rest (some at_joined) with_child)
        → Looped q
            (stops_in grammar max_chars (and_then child rest))
            current
            (loop (and_then child rest) current st)
    joined_case e order start end keeps l =
        let (other, small) =
          branch_of-small list_of_set grammar max_chars source_code child current (inr e) in
        rounded joined ((here, there) ∷ stops_in grammar max_chars rest) e
          (stops_in-small other small)
          (Looped-joined (stops_in grammar max_chars rest) order start end keeps l)
