-- ===== src/Chunking/Metadata/Chunks.antt =====
-- services/chunking/strategies/metadata_chunking/base_metadata_chunker.py: the chunks of a tree.
pub mod Points
pub mod Steps
pub mod Trees
pub mod Rounds
pub mod Cover
use deputydev_core.Prelude.{
  ℕ, ◌+◌, ◌-◌, List, [], ◌∷◌, ◌++◌, false, not, ◌&&◌, ◌||◌, Option, none, some, ltb, length,
  is_empty, if◌then◌else◌,
}
use deputydev_core.Py.Chars.{Text, codes, text_eq}
use deputydev_core.Chunking.Data.{HierarchyObject}
use deputydev_core.Chunking.Metadata.{
  Point, point_eq, NeoSpan, is_some_span, extract_lines, deduplicate_hierarchy, add_spans,
}
use deputydev_core.Chunking.Metadata.Nodes.{
  Node, Forest, node, none_left, and_then, info, Grammar, is_wrapper, is_function_node,
  is_class_node, is_namespace_node, is_node_breakable, extract_name, get_breakable_node_hierarchy,
}

-- The lists that all calls share: the names so far, and the starts of the decorators that no chunk
-- has taken yet.
pub record Shared : Type 0 where
  pub all_classes : List Text
  pub all_functions : List Text
  pub pending_decorators : List Point

-- A chunk that is there and not empty.
unfoldable pub valid_chunk : Option NeoSpan → List NeoSpan
unfolding is_some_span point_eq
valid_chunk none = []
valid_chunk (some c) = if is_some_span c && not (point_eq c.start c.end) then c ∷ [] else []

unfoldable pub chunk_length : Option NeoSpan → Text → ℕ
unfolding is_some_span extract_lines
chunk_length none source_code = 0
chunk_length (some c) source_code =
    if is_some_span c then length (extract_lines c source_code) else 0

-- The first decorator's start, if there is one.
abbrev pub actual_start : List Point → Point → Point
actual_start [] start_point = start_point
actual_start (d ∷ decorators) start_point = d

abbrev pub size : Node → ℕ
size n = (info n).end_byte - (info n).start_byte

-- `hierarchy.append`, and the name noted
unfoldable pub entered : Text → Option Text → List HierarchyObject → List HierarchyObject
entered type none hierarchy = hierarchy
entered type (some name) hierarchy =
    hierarchy ++ record { type = type; value = name; is_breakable_node = false } ∷ []

unfoldable pub noted : Option Text → List Text → List Text
noted none names = names
noted (some name) names = names ++ name ∷ []

-- Names that are not empty.
unfoldable pub noted_name : Option Text → List Text → List Text
noted_name none names = names
noted_name (some []) names = names
noted_name (some (c ∷ s)) names = names ++ (c ∷ s) ∷ []

pub data Branch : Type 0 where
  decorated large split joined : Branch

-- The body that a branch runs.
abbrev pub by_branch {ℓ} : {A : Type ℓ} → Branch → A → A → A → A → A
by_branch decorated a b c d = a
by_branch large a b c d = b
by_branch split a b c d = c
by_branch joined a b c d = d

unfoldable pub without_pending : Shared → Shared
without_pending st = record st { pending_decorators = [] }

module _ (list_of_set : List Text → List Text) (grammar : Grammar) (max_chars : ℕ)
    (source_code : Text) where
  unfoldable pub chunk_hierarchy : List HierarchyObject → ℕ → Node → List HierarchyObject
  unfolding is_node_breakable deduplicate_hierarchy get_breakable_node_hierarchy
  chunk_hierarchy hierarchy byte_size n =
      if is_node_breakable grammar n && ltb 0 byte_size
      then deduplicate_hierarchy (hierarchy ++ get_breakable_node_hierarchy grammar n)
      else hierarchy

  -- `create_chunk_with_decorators`; the caller empties the list of decorators that it hands over.
  unfoldable pub create_chunk :
      List HierarchyObject → Point → Point → ℕ → List Point → Node → NeoSpan
  unfolding is_node_breakable chunk_hierarchy
  create_chunk hierarchy start_point end_point byte_size decorators n = record {
    start = actual_start decorators start_point;
    end = end_point;
    metadata = record {
      hierarchy = chunk_hierarchy hierarchy byte_size n;
      dechunk = not (is_node_breakable grammar n);
      import_only_chunk = is_empty hierarchy && not (is_node_breakable grammar n);
      all_functions = [];
      all_classes = [];
      byte_size = byte_size;
    };
  }

  abbrev pub chunk_of : List HierarchyObject → List Point → Node → NeoSpan
  chunk_of hierarchy decorators n =
      create_chunk hierarchy (info n).start_point (info n).end_point (size n) decorators n

  -- A class, a function or a namespace that is no wrapper joins the hierarchy.
  unfoldable pub enter : Node → List HierarchyObject → Shared → List HierarchyObject × Shared
  unfolding is_class_node is_function_node is_namespace_node extract_name entered noted
  enter n hierarchy st =
      let name = extract_name grammar n in
      if is_wrapper grammar n
      then (hierarchy, st)
      else if is_class_node grammar n
      then (
        entered (codes "CLASS") name hierarchy,
        record st { all_classes = noted name st.all_classes },
      )
      else if is_function_node grammar n
      then (
        entered (codes "FUNCTION") name hierarchy,
        record st { all_functions = noted name st.all_functions },
      )
      else if is_namespace_node grammar n
      then (entered (info n).type name hierarchy, st)
      else (hierarchy, st)

  unfoldable pub note_child : Node → Shared → Shared
  unfolding is_class_node is_function_node extract_name noted_name
  note_child n st =
      let name = extract_name grammar n in
      if is_class_node grammar n
      then record st { all_classes = noted_name name st.all_classes }
      else if is_function_node grammar n
      then record st { all_functions = noted_name name st.all_functions }
      else st

  unfoldable pub branch_of : Node → Option NeoSpan → Branch
  unfolding text_eq chunk_length is_node_breakable
  branch_of child current =
      if text_eq (info child).type grammar.decorator
      then decorated
      else if ltb max_chars (size child)
      then large
      else if ltb max_chars (size child + chunk_length current source_code)
          || is_node_breakable grammar child
      then split
      else joined

  unfoldable pub joined_chunk : List HierarchyObject → Option NeoSpan → Node → NeoSpan
  unfolding is_some_span add_spans
  joined_chunk hierarchy none child = chunk_of hierarchy [] child
  joined_chunk hierarchy (some c) child =
      if is_some_span c
      then add_spans list_of_set c (chunk_of hierarchy [] child)
      else chunk_of hierarchy [] child

  unfoldable mutual
    -- The chunks and the shared lists behind the call; what it appends to `hierarchy` is popped again.
    pub chunk_node : List HierarchyObject → Node → Shared → List NeoSpan × Shared
    chunk_node hierarchy (node i children) st =
        let (inner, entered_st) = enter (node i children) hierarchy st in
        let first =
          create_chunk inner i.start_point i.start_point 0 entered_st.pending_decorators
            (node i children) in
        let (chunks, current, last_st) =
          chunk_children inner children (some first) (without_pending entered_st) in
        (chunks ++ valid_chunk current, last_st)

    -- The loop over the children: the chunks, `current_chunk` and the shared lists at its end.
    pub chunk_children :
        List HierarchyObject
        → Forest
        → Option NeoSpan
        → Shared
        → List NeoSpan × Option NeoSpan × Shared
    chunk_children hierarchy none_left current st = ([], current, st)
    chunk_children hierarchy (and_then child rest) current st =
        let noted_st = note_child child st in
        let pending = noted_st.pending_decorators ++ (info child).start_point ∷ [] in
        let behind_decorator =
          chunk_children hierarchy rest current
            (record noted_st { pending_decorators = pending }) in
        let of_child = chunk_node hierarchy child noted_st in
        let behind_large = chunk_children hierarchy rest none of_child.1 in
        let next = chunk_of hierarchy noted_st.pending_decorators child in
        let behind_split = chunk_children hierarchy rest (some next) (without_pending noted_st) in
        let behind_joined =
          chunk_children hierarchy rest (some (joined_chunk hierarchy current child)) noted_st in
        by_branch (branch_of child current) behind_decorator
          (valid_chunk current ++ (of_child.0 ++ behind_large.0), behind_large.1, behind_large.2)
          (valid_chunk current ++ behind_split.0, behind_split.1, behind_split.2) behind_joined
