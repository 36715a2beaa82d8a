-- ===== src/Chunking/Metadata/Dechunk.antt =====
-- services/chunking/strategies/metadata_chunking/base_metadata_chunker.py: joining small chunks, and
-- the whole of `chunk_code`.
pub mod Rows
pub mod Whole
use deputydev_core.Prelude.{
  ℕ, ◌+◌, List, [], ◌∷◌, ◌++◌, map, Bool, false, true, not, ◌&&◌, ◌||◌, ltb, ◌==◌, if◌then◌else◌,
}
use deputydev_core.Py.Chars.{Text}
use deputydev_core.Chunking.Metadata.{row, NeoSpan, span_rows, add_spans}
use deputydev_core.Chunking.Metadata.Nodes.{Node, Grammar}
use deputydev_core.Chunking.Metadata.Chunks.{Shared, chunk_node}

-- `if previous_chunk and len(previous_chunk) > 0`
unfoldable pub put_out : NeoSpan → List NeoSpan
put_out c = if ltb 0 (span_rows c) then c ∷ [] else []

-- Whether the chunk starts a new one behind `previous`.
unfoldable pub starts_anew : ℕ → NeoSpan → NeoSpan → Bool
starts_anew max_chars previous chunk =
    not (row chunk.start == row previous.start)
    && (not chunk.metadata.dechunk
        || ltb max_chars (previous.metadata.byte_size + chunk.metadata.byte_size))

module _ (list_of_set : List Text → List Text) (max_chars : ℕ) where
  unfoldable pub dechunk_from : NeoSpan → List NeoSpan → List NeoSpan
  dechunk_from previous [] = put_out previous
  dechunk_from previous (chunk ∷ chunks) = elim (starts_anew max_chars previous chunk) [
    | true ↦ put_out previous ++ dechunk_from chunk chunks
    | false ↦ dechunk_from (add_spans list_of_set previous chunk) chunks
  ]

  unfoldable pub dechunk : List NeoSpan → List NeoSpan
  dechunk [] = []
  dechunk (chunk ∷ []) = chunk ∷ []
  dechunk (chunk ∷ next ∷ chunks) = dechunk_from chunk (next ∷ chunks)

  unfoldable pub with_names : Shared → NeoSpan → NeoSpan
  with_names st chunk =
      let named = record chunk.metadata {
        all_classes = list_of_set st.all_classes;
        all_functions = list_of_set st.all_functions;
      } in
      if chunk.metadata.import_only_chunk then record chunk { metadata = named } else chunk

  unfoldable pub chunk_code : Grammar → Node → Text → List NeoSpan
  chunk_code grammar root source_code =
      let start : Shared = record {
        all_classes = [];
        all_functions = [];
        pending_decorators = [];
      } in
      let (chunks, names) = chunk_node list_of_set grammar max_chars source_code [] root start in
      dechunk (map (with_names names) chunks)
