-- ===== src/Chunking/Metadata/Chunks/Steps.antt =====
-- The rounds of the loop over the children, and what each leaves alone.
use deputydev_core.Prelude.{
  ℕ, List, [], ◌∷◌, true, false, Option, none, some, ltb, ◌≡◌, ◌⊎◌, inl, inr, refl, arith,
}
use deputydev_core.Py.Chars.{Text, text_eq}
use deputydev_core.Chunking.Data.{HierarchyObject}
use deputydev_core.Chunking.Metadata.{Point, point_eq, NeoSpan, is_some_span, span_rows, add_spans}
use deputydev_core.Chunking.Metadata.Nodes.{Node, info, Grammar}
use deputydev_core.Chunking.Metadata.Chunks.{
  Shared, valid_chunk, create_chunk, size, enter, note_child, Branch, decorated, large, split,
  joined, branch_of, joined_chunk, actual_start,
}
use deputydev_core.Chunking.Metadata.Chunks.Points.{UpTo, UpTo-refl, UpTo-rows, AllUpTo}

pub Branch-cases : (b : Branch) → (b ≡ decorated) ⊎ ((b ≡ large) ⊎ ((b ≡ split) ⊎ (b ≡ joined)))
Branch-cases decorated = inl refl
Branch-cases large = inr (inl refl)
Branch-cases split = inr (inr (inl refl))
Branch-cases joined = inr (inr (inr refl))

-- A span that ends behind its start is put out.
pub valid_chunk-some :
    (c : NeoSpan)
    → UpTo c.start c.end
    → point_eq c.start c.end ≡ false
    → valid_chunk (some c) ≡ c ∷ []
unfolding valid_chunk is_some_span span_rows
valid_chunk-some c h e = let rows = UpTo-rows c.start c.end h in ground arith

pub is_some_span-UpTo : (c : NeoSpan) → UpTo c.start c.end → is_some_span c ≡ true
unfolding is_some_span span_rows
is_some_span-UpTo c h = let rows = UpTo-rows c.start c.end h in ground arith

pub actual_start-UpTo : (ds : List Point) (p : Point) → AllUpTo p ds → UpTo (actual_start ds p) p
actual_start-UpTo [] p h = UpTo-refl p
actual_start-UpTo (d ∷ ds) p (h, hs) = h

module _ (list_of_set : List Text → List Text) (grammar : Grammar) (max_chars : ℕ)
    (source_code : Text) where
  pub enter-pending :
      (n : Node) (hierarchy : List HierarchyObject) (st : Shared)
      → (enter list_of_set grammar max_chars source_code n hierarchy st).1.pending_decorators
        ≡ st.pending_decorators
  unfolding enter
  enter-pending n hierarchy st = ground arith

  pub note_child-pending :
      (n : Node) (st : Shared)
      → (note_child list_of_set grammar max_chars source_code n st).pending_decorators
        ≡ st.pending_decorators
  unfolding note_child
  note_child-pending n st = ground arith

  -- A joined chunk ends with the child and starts where the current chunk does.
  pub joined_chunk-some :
      (hierarchy : List HierarchyObject) (c : NeoSpan) (child : Node)
      → UpTo c.start c.end
      → ((joined_chunk list_of_set grammar max_chars source_code hierarchy (some c) child).start
          ≡ c.start)
        × ((joined_chunk list_of_set grammar max_chars source_code hierarchy (some c) child).end
            ≡ (info child).end_point)
  unfolding joined_chunk add_spans create_chunk
  joined_chunk-some hierarchy c child h = rw (is_some_span-UpTo c h) (refl, refl)

  pub joined_chunk-none :
      (hierarchy : List HierarchyObject) (child : Node)
      → ((joined_chunk list_of_set grammar max_chars source_code hierarchy none child).start
          ≡ (info child).start_point)
        × ((joined_chunk list_of_set grammar max_chars source_code hierarchy none child).end
            ≡ (info child).end_point)
  unfolding joined_chunk create_chunk
  joined_chunk-none hierarchy child = (refl, refl)

  -- Which test chose the branch.
  pub branch_of-decorated :
      (child : Node) (current : Option NeoSpan)
      → branch_of list_of_set grammar max_chars source_code child current ≡ decorated
      → text_eq (info child).type grammar.decorator ≡ true
  unfolding branch_of
  branch_of-decorated child current h = ground arith

  pub branch_of-large :
      (child : Node) (current : Option NeoSpan)
      → branch_of list_of_set grammar max_chars source_code child current ≡ large
      → (text_eq (info child).type grammar.decorator ≡ false) × (ltb max_chars (size child) ≡ true)
  unfolding branch_of
  branch_of-large child current h = ground arith

  pub branch_of-small :
      (child : Node) (current : Option NeoSpan)
      → (branch_of list_of_set grammar max_chars source_code child current ≡ split)
        ⊎ (branch_of list_of_set grammar max_chars source_code child current ≡ joined)
      → (text_eq (info child).type grammar.decorator ≡ false) × (ltb max_chars (size child) ≡ false)
  unfolding branch_of
  branch_of-small child current (inl h) = ground arith
  branch_of-small child current (inr h) = ground arith
