-- ===== src/Chunking/Metadata/Chunks/Trees.antt =====
-- Trees in the order of the text, and what the loop over the children keeps.
use deputydev_core.Prelude.{
  ℕ, List, [], ◌∷◌, ◌++◌, false, Option, none, some, ltb, All, ◌≡◌, inl, if◌then◌else◌,
}
use deputydev_core.Py.Chars.{text_eq}
use deputydev_core.Chunking.Metadata.{Point, point_eq, NeoSpan}
use deputydev_core.Chunking.Metadata.Nodes.{Node, Forest, node, none_left, and_then, info, Grammar}
use deputydev_core.Chunking.Metadata.Chunks.{Shared, valid_chunk, size}
use deputydev_core.Chunking.Metadata.Chunks.Points.{
  UpTo, UpTo-refl, AllUpTo, Covered, Covered-left, Covered-right,
}
use deputydev_core.Chunking.Metadata.Chunks.Steps.{valid_chunk-some}

-- A tree whose nodes stand in the order of the text.
unfoldable mutual
  pub IsNode : Node → Type 0
  IsNode (node i children) =
      UpTo i.start_point i.end_point × IsForest i.start_point i.end_point children

  pub IsForest : Point → Point → Forest → Type 0
  IsForest p q none_left = UpTo p q
  IsForest p q (and_then child rest) =
      UpTo p (info child).start_point × IsNode child × IsForest (info child).end_point q rest

abbrev pub Stretch : Type 0
Stretch = Point × Point

-- The nodes at which the descent stops: those of at most `max_chars` bytes that are no decorators.
unfoldable mutual
  pub stops : Grammar → ℕ → Node → List Stretch
  stops grammar max_chars (node i children) = stops_in grammar max_chars children

  pub stops_in : Grammar → ℕ → Forest → List Stretch
  stops_in grammar max_chars none_left = []
  stops_in grammar max_chars (and_then child rest) =
      let later = stops_in grammar max_chars rest in
      let inner = stops grammar max_chars child in
      if text_eq (info child).type grammar.decorator
      then later
      else if ltb max_chars (size child)
      then inner ++ later
      else ((info child).start_point, (info child).end_point) ∷ later

-- An empty stretch needs no chunk.
abbrev pub InChunk : List NeoSpan → Stretch → Type 0
InChunk out (i, j) = point_eq i j ≡ false → Covered out i j

-- What the current chunk is when the loop has come to `p`.
abbrev pub Reached : Point → Option NeoSpan → Type 0
Reached p none = Unit
Reached p (some c) = UpTo c.start c.end × UpTo c.end p

-- The current chunk is put out, or one that holds it.
abbrev pub Holds : List NeoSpan → Option NeoSpan → Type 0
Holds out none = Unit
Holds out (some c) = InChunk out (c.start, c.end)

-- What a call gives: the stretches lie in its chunks, and no decorator waits that starts behind `q`.
pub record Chunked (q : Point) (units : List Stretch) (out : List NeoSpan) (st : Shared)
    : Type 0 where
  pub inside : All (InChunk out) units
  pub waiting : AllUpTo q st.pending_decorators

pub record Looped (q : Point) (units : List Stretch) (current : Option NeoSpan)
    (r : List NeoSpan × Option NeoSpan × Shared) : Type 0 where
  pub inside : All (InChunk (r.0 ++ valid_chunk r.1)) units
  pub held : Holds (r.0 ++ valid_chunk r.1) current
  pub waiting : AllUpTo q r.2.pending_decorators

pub InChunk-right :
    (xs ys : List NeoSpan) (units : List Stretch)
    → All (InChunk ys) units
    → All (InChunk (xs ++ ys)) units
InChunk-right xs ys [] h = tt
InChunk-right xs ys ((i, j) ∷ units) (h, hs) =
    (λ e. Covered-right xs ys i j (h e), InChunk-right xs ys units hs)

pub InChunk-left :
    (xs ys : List NeoSpan) (units : List Stretch)
    → All (InChunk xs) units
    → All (InChunk (xs ++ ys)) units
InChunk-left xs ys [] h = tt
InChunk-left xs ys ((i, j) ∷ units) (h, hs) =
    (λ e. Covered-left xs ys i j (h e), InChunk-left xs ys units hs)

-- The chunk that is put out first holds itself.
pub Holds-first :
    (p : Point) (current : Option NeoSpan) (ys : List NeoSpan)
    → Reached p current
    → Holds (valid_chunk current ++ ys) current
Holds-first p none ys h = tt
Holds-first p (some c) ys (h, g) =
    λ e. rw (valid_chunk-some c h e) (inl (UpTo-refl c.start, UpTo-refl c.end))
