-- ===== src/Chunking/Metadata.antt =====
-- services/chunking/strategies/metadata_chunking/base_metadata_chunker.py, with NeoSpan of
-- services/chunking/dataclass/main.py and services/chunking/utils/chunk_utils.py: the data.
-- A tree is what tree-sitter parsed. `list(set(xs))` has no order of its own and is a parameter.
pub mod Nodes
pub mod Javascript
pub mod Grammars
pub mod Chunks
pub mod Dechunk
use deputydev_core.Prelude.{
  ℕ, ◌+◌, ◌-◌, List, [], ◌∷◌, ◌++◌, Bool, false, true, not, ◌&&◌, ◌||◌, Option, ◌==◌, length, slice,
  any_of, take, keep, if◌then◌else◌,
}
use deputydev_core.Py.Chars.{Text, text_eq, codes, is_space}
use deputydev_core.Py.Strip.{strip}
use deputydev_core.Py.Lines.{splitlines, join_lf}
use deputydev_core.Chunking.Data.{ChunkMetadata, HierarchyObject}

-- (row, column)
abbrev pub Point : Type 0
Point = ℕ × ℕ

abbrev pub row : Point → ℕ
row (r, c) = r

unfoldable pub point_eq : Point → Point → Bool
point_eq (r, c) (s, d) = r == s && c == d

pub record NeoSpan : Type 0 where
  pub start : Point
  pub end : Point
  pub metadata : ChunkMetadata

-- `len(span)`, and whether the span counts as true
unfoldable pub span_rows : NeoSpan → ℕ
span_rows s = row s.end + 1 - row s.start

unfoldable pub is_some_span : NeoSpan → Bool
unfolding span_rows
is_some_span s = not (span_rows s == 0)

unfoldable pub extract_lines : NeoSpan → Text → Text
unfolding splitlines join_lf
extract_lines s source_code = join_lf (slice (row s.start) (row s.end + 1) (splitlines source_code))

-- The first character of the lines that is no white space, empty if there is none.
unfoldable pub get_chunk_first_char : NeoSpan → Text → Text
unfolding extract_lines
get_chunk_first_char s source_code = take 1 (strip (extract_lines s source_code))

unfoldable pub non_whitespace_len : NeoSpan → Text → ℕ
unfolding extract_lines is_space
non_whitespace_len s source_code =
    length (keep (λ c. not (is_space c)) (extract_lines s source_code))

unfoldable pub supported_new_chunk_language : Text → Bool
unfolding text_eq
supported_new_chunk_language language =
    any_of (λ l. text_eq l language)
      (codes "python"
        ∷ codes "javascript"
        ∷ codes "typescript"
        ∷ codes "tsx"
        ∷ codes "java"
        ∷ codes "ruby"
        ∷ codes "kotlin"
        ∷ codes "swift"
        ∷ [])

unfoldable pub same_item : HierarchyObject → HierarchyObject → Bool
unfolding text_eq
same_item a b = text_eq a.type b.type && text_eq a.value b.value

-- The loop of `deduplicate_hierarchy`, with the items seen so far.
unfoldable pub dedupe_from : List HierarchyObject → List HierarchyObject → List HierarchyObject
dedupe_from seen [] = []
dedupe_from seen (item ∷ items) = elim (any_of (λ s. same_item s item) seen) [
  | true ↦ dedupe_from seen items
  | false ↦ item ∷ dedupe_from (item ∷ seen) items
]

unfoldable pub deduplicate_hierarchy : List HierarchyObject → List HierarchyObject
deduplicate_hierarchy hierarchy_list = dedupe_from [] hierarchy_list

module _ (list_of_set : List Text → List Text) where
  unfoldable pub combine_meta_data : ChunkMetadata → ChunkMetadata → ChunkMetadata
  combine_meta_data a b = record {
    hierarchy = deduplicate_hierarchy (a.hierarchy ++ b.hierarchy);
    dechunk = a.dechunk && b.dechunk;
    import_only_chunk = a.import_only_chunk || b.import_only_chunk;
    all_functions = list_of_set (a.all_functions ++ b.all_functions);
    all_classes = list_of_set (a.all_classes ++ b.all_classes);
    byte_size = a.byte_size + b.byte_size;
  }

  -- `a + b`; a pair counts as true, whatever it holds.
  unfoldable pub add_spans : NeoSpan → NeoSpan → NeoSpan
  unfolding combine_meta_data
  add_spans a b = record {
    start = a.start;
    end = b.end;
    metadata = combine_meta_data a.metadata b.metadata;
  }
