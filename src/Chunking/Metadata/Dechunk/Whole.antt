-- ===== src/Chunking/Metadata/Dechunk/Whole.antt =====
-- The rows of a file in the chunks of `chunk_code`.
use deputydev_core.Prelude.{ℕ, ◌≤◌, List, [], ◌∷◌, map, false, All, ◌≡◌, ◌⊎◌, inl, inr, arith}
use deputydev_core.Py.Chars.{Text}
use deputydev_core.Chunking.Metadata.{Point, point_eq, row, NeoSpan}
use deputydev_core.Chunking.Metadata.Nodes.{Node, Grammar}
use deputydev_core.Chunking.Metadata.Chunks.{Shared, chunk_node}
use deputydev_core.Chunking.Metadata.Chunks.Points.{UpTo-rows, Covered}
use deputydev_core.Chunking.Metadata.Chunks.Trees.{IsNode, Stretch, InChunk, stops}
use deputydev_core.Chunking.Metadata.Chunks.Cover.{chunk_node-covers}
use deputydev_core.Chunking.Metadata.Dechunk.{with_names, dechunk, chunk_code}
use deputydev_core.Chunking.Metadata.Dechunk.Rows.{Within, InOrder, dechunk-Keeps}

-- The rows from that of `i` to that of `j` lie in a chunk of the list.
abbrev pub RowsIn : List NeoSpan → Point → Point → Type 0
RowsIn [] i j = ⊥
RowsIn (r ∷ rs) i j = ((row r.start ≤ row i) × (row j ≤ row r.end)) ⊎ RowsIn rs i j

RowsIn-part :
    (rs : List NeoSpan) (c : NeoSpan) (i j : Point)
    → row c.start ≤ row i
    → row j ≤ row c.end
    → Within rs c
    → RowsIn rs i j
RowsIn-part [] c i j s e h = h
RowsIn-part (r ∷ rs) c i j s e (inl (h, g)) = inl (omega arith, omega arith)
RowsIn-part (r ∷ rs) c i j s e (inr h) = inr (RowsIn-part rs c i j s e h)

with_names-start :
    (f : List Text → List Text) (max_chars : ℕ) (st : Shared) (c : NeoSpan)
    → (with_names f max_chars st c).start ≡ c.start
unfolding with_names
with_names-start f max_chars st c = ground arith

with_names-end :
    (f : List Text → List Text) (max_chars : ℕ) (st : Shared) (c : NeoSpan)
    → (with_names f max_chars st c).end ≡ c.end
unfolding with_names
with_names-end f max_chars st c = ground arith

Covered-RowsIn :
    (f : List Text → List Text) (max_chars : ℕ) (st : Shared) (cs rs : List NeoSpan) (i j : Point)
    → Covered cs i j
    → All (Within rs) (map (with_names f max_chars st) cs)
    → RowsIn rs i j
Covered-RowsIn f max_chars st [] rs i j h w = absurd h
Covered-RowsIn f max_chars st (c ∷ cs) rs i j (inr h) (w, ws) =
    Covered-RowsIn f max_chars st cs rs i j h ws
Covered-RowsIn f max_chars st (c ∷ cs) rs i j (inl (s, e)) (w, ws) =
    let first : row (with_names f max_chars st c).start ≤ row i =
      rw (with_names-start f max_chars st c) (UpTo-rows c.start i s) in
    let last : row j ≤ row (with_names f max_chars st c).end =
      rw (with_names-end f max_chars st c) (UpTo-rows j c.end e) in
    RowsIn-part rs (with_names f max_chars st c) i j first last w

abbrev pub HasRows : List NeoSpan → Stretch → Type 0
HasRows rs (i, j) = point_eq i j ≡ false → RowsIn rs i j

HasRows-All :
    (f : List Text → List Text) (max_chars : ℕ) (st : Shared) (cs rs : List NeoSpan)
    (units : List Stretch)
    → All (InChunk cs) units
    → All (Within rs) (map (with_names f max_chars st) cs)
    → All (HasRows rs) units
HasRows-All f max_chars st cs rs [] h w = tt
HasRows-All f max_chars st cs rs ((i, j) ∷ units) (h, hs) w = (
  λ e. Covered-RowsIn f max_chars st cs rs i j (h e) w,
  HasRows-All f max_chars st cs rs units hs w,
)

abbrev pub no_names : Shared
no_names = record { all_classes = []; all_functions = []; pending_decorators = [] }

-- The chunks of a tree with the names that were found.
abbrev pub named_chunks : (List Text → List Text) → Grammar → ℕ → Text → Node → List NeoSpan
named_chunks f grammar max_chars source_code root =
    let r = chunk_node f grammar max_chars source_code [] root no_names in
    map (with_names f max_chars r.1) r.0

-- In a tree whose nodes stand in the order of the text, if the rows of its chunks are in order too,
-- the rows of every node at which the descent stops and that is not empty lie in one result of
-- `chunk_code`.
pub chunk_code-HasRows :
    (f : List Text → List Text) (grammar : Grammar) (max_chars : ℕ) (root : Node)
    (source_code : Text)
    → IsNode root
    → InOrder 0 0 (named_chunks f grammar max_chars source_code root)
    → All (HasRows (chunk_code f max_chars grammar root source_code)) (stops grammar max_chars root)
unfolding chunk_code
chunk_code-HasRows f grammar max_chars root source_code h o =
    let r = chunk_node f grammar max_chars source_code [] root no_names in
    HasRows-All f max_chars r.1 r.0
      (dechunk f max_chars (named_chunks f grammar max_chars source_code root))
      (stops grammar max_chars root)
      (chunk_node-covers f grammar max_chars source_code root [] [] h)
      (dechunk-Keeps f max_chars (named_chunks f grammar max_chars source_code root) o).covered
