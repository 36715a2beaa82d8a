-- ===== src/Chunking/Source.antt =====
-- `chunk_source` of services/chunking/source_chunker.py. Parameters are the language of the path and
-- what the chunking strategy gives for the parsed source, `none` where parsing or chunking raises.
pub mod Plain
use deputydev_core.Prelude.{
  ℕ, zero, suc, ◌+◌, List, [], ◌∷◌, ◌++◌, Bool, true, false, Option, none, some, ◌&&◌, any_of,
  slice, map, if◌then◌else◌,
}
use deputydev_core.Py.Chars.{Text, codes, text_eq}
use deputydev_core.Py.Lines.{splitlines, join_lf}
use deputydev_core.Py.Numbers.{str}
use deputydev_core.Py.Result.{Result, ok, err}
use deputydev_core.Chunking.Data.{ChunkInfo, ChunkMetadata}
use deputydev_core.Chunking.Content.{LineChunk, ContentError, chunk_content}

-- What is read of a span of either strategy: its lines and its metadata.
pub record CodeChunk : Type 0 where
  pub start : ℕ
  pub stop : ℕ
  pub metadata : Option ChunkMetadata

unfoldable pub chunk_info : Text → Option Text → Text → ℕ → ℕ → Option ChunkMetadata → ChunkInfo
chunk_info path file_hash content start_line end_line metadata = record {
  content = content;
  source_details = record {
    file_path = path;
    file_hash = file_hash;
    start_line = start_line;
    end_line = end_line;
  };
  has_embedded_lines = false;
  metadata = metadata;
  embedding = none;
}

unfoldable pub denotation : ChunkInfo → Text
unfolding str
denotation c =
    c.source_details.file_path
    ++ (codes ":"
        ++ (str c.source_details.start_line ++ (codes "-" ++ str c.source_details.end_line)))

unfoldable pub is_supported : Text → Bool
unfolding text_eq
is_supported language = any_of (text_eq language) (
    codes "python"
    ∷ codes "javascript"
    ∷ codes "typescript"
    ∷ codes "tsx"
    ∷ codes "java"
    ∷ codes "ruby"
    ∷ codes "kotlin"
    ∷ codes "swift"
    ∷ [])

module _ (path : Text) (file_hash : Option Text) where
  unfoldable pub plain_chunks : List LineChunk → List ChunkInfo
  unfolding chunk_info
  plain_chunks chunks =
      map (λ c. chunk_info path file_hash c.chunk (c.start + 1) (c.stop + 1) none) chunks

  unfoldable pub code_chunk : List Text → CodeChunk → ChunkInfo
  unfolding chunk_info join_lf
  code_chunk file_contents c =
      chunk_info path file_hash (join_lf (slice c.start (c.stop + 1) file_contents)) (c.start + 1)
        (c.stop + 1) c.metadata

  -- The loop; a chunk of lines that another one had is left out.
  unfoldable pub code_chunks : List Text → List CodeChunk → List Text → List ChunkInfo
  unfolding code_chunk denotation text_eq
  code_chunks file_contents [] already_visited_chunk = []
  code_chunks file_contents (c ∷ cs) already_visited_chunk =
      let info = code_chunk file_contents c in
      let name = denotation info in
      let skipped = code_chunks file_contents cs already_visited_chunk in
      let added = info ∷ code_chunks file_contents cs (name ∷ already_visited_chunk) in
      if any_of (text_eq name) already_visited_chunk then skipped else added

  unfoldable pub chunk_source :
      Option Text
      → (Text → Bool → Option (List CodeChunk))
      → Bool
      → Text
      → Result ContentError (List ChunkInfo)
  unfolding plain_chunks code_chunks is_supported splitlines
  chunk_source none strategy use_new_chunking content = elim (chunk_content content 50 0) [
    | err e ↦ err e
    | ok chunks ↦ ok (plain_chunks chunks)
  ]
  chunk_source (some language) strategy use_new_chunking content =
      elim (strategy language (use_new_chunking && is_supported language)) [
        | none ↦ ok []
        | some chunks ↦ ok (code_chunks (splitlines content) chunks [])
      ]
