-- ===== src/Examples/Chunks.antt =====
-- The chunks of a small tree.
use deputydev_core.Prelude.{ℕ, List, [], ◌∷◌, Bool, true, false, none, All, refl, inl, inr, arith}
use deputydev_core.Py.Chars.{Text, codes, text_eq}
use deputydev_core.Chunking.Data.{ChunkMetadata}
use deputydev_core.Chunking.Metadata.{
  Point, NeoSpan, is_some_span, span_rows, point_eq, extract_lines, add_spans, combine_meta_data,
  deduplicate_hierarchy, dedupe_from,
}
use deputydev_core.Chunking.Metadata.Nodes.{
  Node, node, none_left, and_then, is_class_node, is_function_node, is_namespace_node,
  is_node_breakable, has_type, any_child, is_in, extract_name, child_identifier,
  get_breakable_node_hierarchy, own_hierarchy, item_of,
}
use deputydev_core.Chunking.Metadata.Grammars.{python_grammar}
use deputydev_core.Chunking.Metadata.Chunks.{
  chunk_node, chunk_children, create_chunk, chunk_hierarchy, enter, entered, note_child, branch_of,
  chunk_length, valid_chunk, joined_chunk, without_pending, noted, noted_name,
}
use deputydev_core.Chunking.Metadata.Chunks.Trees.{IsNode, InChunk, stops}
use deputydev_core.Chunking.Metadata.Chunks.Cover.{chunk_node-covers}
use deputydev_core.Py.Lines.{splitlines, join_lf}
use deputydev_core.Chunking.Metadata.Dechunk.{dechunk, chunk_code, with_names}
use deputydev_core.Chunking.Metadata.Dechunk.Whole.{HasRows, named_chunks, chunk_code-HasRows}
use deputydev_core.Chunking.Metadata.Dechunk.Rows.{InOrder, Keeps, dechunk-Keeps}

abbrev no_order : List Text → List Text
no_order xs = xs

abbrev leaf : Text → Point → Point → ℕ → ℕ → Node
leaf type p q i j =
    node
      (record {
        type = type;
        start_point = p;
        end_point = q;
        start_byte = i;
        end_byte = j;
        text = [];
        name = none;
      })
      none_left

-- A function, a statement and a large statement of two parts.
abbrev tree : Node
tree =
    node
      (record {
        type = codes "module";
        start_point = (0, 0);
        end_point = (9, 0);
        start_byte = 0;
        end_byte = 90;
        text = [];
        name = none;
      })
      (and_then (leaf (codes "function_definition") (0, 0) (1, 5) 0 15) (
        and_then (leaf (codes "expression_statement") (2, 0) (2, 5) 16 21) (
          and_then
            (node
              (record {
                type = codes "if_statement";
                start_point = (3, 0);
                end_point = (8, 5);
                start_byte = 22;
                end_byte = 80;
                text = [];
                name = none;
              })
              (and_then (leaf (codes "block") (4, 2) (5, 0) 30 45)
                (and_then (leaf (codes "block") (6, 2) (8, 5) 60 80) none_left)))
            none_left)))

tree-IsNode : IsNode tree
unfolding IsNode
tree-IsNode = (
  inl (omega arith),
  (
    inr (refl, omega arith),
    (inl (omega arith), inl (omega arith)),
    (
      inl (omega arith),
      (inr (refl, omega arith), inr (refl, omega arith)),
      (
        inl (omega arith),
        (
          inl (omega arith),
          (
            inl (omega arith),
            (inl (omega arith), inl (omega arith)),
            (inl (omega arith), (inl (omega arith), inl (omega arith)), inr (refl, omega arith)),
          ),
        ),
        inl (omega arith),
      ),
    ),
  ),
)

chunk_node-covers_example :
    All
      (InChunk
        (chunk_node no_order python_grammar 20
          (codes "x")
          []
          tree
          (record { all_classes = []; all_functions = []; pending_decorators = [] })).0)
      (stops python_grammar 20 tree)
chunk_node-covers_example =
    chunk_node-covers no_order python_grammar 20 (codes "x") tree [] [] tree-IsNode

abbrev small : ℕ → Bool → ChunkMetadata
small n anew = record {
  hierarchy = [];
  dechunk = anew;
  import_only_chunk = false;
  all_functions = [];
  all_classes = [];
  byte_size = n;
}

abbrev three_chunks : List NeoSpan
three_chunks =
    record { start = (0, 0); end = (2, 0); metadata = small 10 true }
    ∷ record { start = (3, 0); end = (3, 9); metadata = small 5 true }
    ∷ record { start = (4, 0); end = (6, 0); metadata = small 9 true }
    ∷ []

three_chunks-InOrder : InOrder 0 0 three_chunks
three_chunks-InOrder = (
  omega arith,
  omega arith,
  omega arith,
  (omega arith, omega arith, omega arith, (omega arith, omega arith, omega arith, tt)),
)

dechunk-Keeps_example : Keeps no_order 20 three_chunks (dechunk no_order 20 three_chunks)
dechunk-Keeps_example = dechunk-Keeps no_order 20 three_chunks three_chunks-InOrder

their_chunks : InOrder 0 0 (named_chunks no_order python_grammar 20 (codes "x") tree)
unfolding chunk_node chunk_children create_chunk chunk_hierarchy enter entered note_child branch_of
    chunk_length valid_chunk joined_chunk without_pending is_some_span span_rows point_eq
    extract_lines splitlines join_lf add_spans combine_meta_data is_class_node is_function_node
    is_namespace_node is_node_breakable has_type any_child is_in text_eq extract_name
    child_identifier noted noted_name with_names get_breakable_node_hierarchy deduplicate_hierarchy
    dedupe_from own_hierarchy item_of
their_chunks = (omega arith, omega arith, omega arith, (omega arith, omega arith, omega arith, tt))

chunk_code-HasRows_example :
    All
      (HasRows (chunk_code no_order 20 python_grammar tree (codes "x")))
      (stops python_grammar 20 tree)
chunk_code-HasRows_example =
    chunk_code-HasRows no_order python_grammar 20 tree (codes "x") tree-IsNode their_chunks
