-- ===== src/Search/Stored.antt =====
-- services/search/vector_db_based/search.py, on the queries of Repository. The tables and the hash of
-- a content are parameters. A set of chunks is listed in the order of its making; the order in which
-- the code lists it is open. The score of a chunk is not read again, and left out.
pub mod Ordered
pub mod Found
use deputydev_core.Prelude.{
  ℕ, List, [], ◌∷◌, ◌++◌, map, Bool, true, false, ◌&&◌, ◌||◌, Option, none, some, ◌==◌, ltb, any_of,
  if◌then◌else◌,
}
use deputydev_core.Py.Chars.{Text, text_eq}
use deputydev_core.Py.Dict.{Dict, update}
use deputydev_core.Chunking.Data.{ChunkInfo, file_path, start_line}
use deputydev_core.Chunking.Store.{ChunkFileDto, ChunkDto, ChunkDtoWithVector}
use deputydev_core.Repository.{
  get_chunk_files_by_commit_hashes, get_only_import_chunk_files_by_commit_hashes,
  get_chunks_by_chunk_hashes,
}
use deputydev_core.Search.Order.{sort}

pub record Tables : Type 0 where
  pub chunk_files : List (Text × Text) → ℕ → List ChunkFileDto
  pub import_files : Bool → List (Text × Text) → ℕ → List ChunkFileDto
  pub chunks : List Text → ℕ → List ChunkDtoWithVector
  pub hybrid : List Text → Text → List ℕ → ℕ → List ChunkDto

unfoldable pub with_hash : Text → List ChunkFileDto → Option ChunkFileDto
unfolding text_eq
with_hash hash [] = none
with_hash hash (c ∷ cs) =
    let rest = with_hash hash cs in if text_eq c.chunk_hash hash then some c else rest

-- Each text with the first file that holds its chunk.
unfoldable pub matched : List ChunkDto → List ChunkFileDto → List (ChunkFileDto × Text)
unfolding with_hash
matched [] chunk_files = []
matched (dto ∷ dtos) chunk_files = elim (with_hash dto.chunk_hash chunk_files) [
  | none ↦ matched dtos chunk_files
  | some c ↦ (c, dto.text) ∷ matched dtos chunk_files
]

unfoldable pub found_info : ChunkFileDto × Text → ChunkInfo
found_info (c, text) = record {
  content = text;
  source_details = record {
    file_path = c.file_path;
    file_hash = some c.file_hash;
    start_line = c.start_line;
    end_line = c.end_line;
  };
  has_embedded_lines = false;
  metadata = c.meta_info;
  embedding = none;
}

-- Texts are compared by their code points.
unfoldable pub text_less : Text → Text → Bool
text_less s [] = false
text_less [] (d ∷ t) = true
text_less (c ∷ s) (d ∷ t) = ltb c d || (c == d && text_less s t)

unfoldable pub is_before : ChunkInfo → ChunkInfo → Bool
unfolding text_less text_eq
is_before c d =
    text_less (file_path c) (file_path d)
    || (text_eq (file_path c) (file_path d) && ltb (start_line c) (start_line d))

-- The import-only chunks of the files found.
unfoldable pub import_chunks : Tables → List (ChunkFileDto × Text) → List ChunkInfo
unfolding matched found_info
import_chunks tables found =
    let file_hashes = update [] (map (λ (c, text). (c.file_path, c.file_hash)) found) in
    let import_files =
      get_only_import_chunk_files_by_commit_hashes tables.import_files file_hashes in
    let import_dtos =
      map (λ d. d.dto)
        (get_chunks_by_chunk_hashes tables.chunks (map (λ c. c.chunk_hash) import_files)) in
    map found_info (matched import_dtos import_files)

module _ (content_hash : Text → Text) where
  -- Chunks are the same if the hashes of their contents are.
  unfoldable pub add_info : List ChunkInfo → List ChunkInfo → List ChunkInfo
  unfolding text_eq
  add_info found [] = found
  add_info found (c ∷ cs) =
      let is_there =
        any_of (λ d. text_eq (content_hash d.content) (content_hash c.content)) found in
      add_info (if is_there then found else found ++ c ∷ []) cs

  unfoldable pub with_imports : Tables → List (ChunkFileDto × Text) → List ChunkInfo
  unfolding found_info add_info
  with_imports tables found =
      add_info (add_info [] (map found_info found)) (import_chunks tables found)

  unfoldable pub found_chunks : Tables → Dict Text → Text → List ℕ → ℕ → Bool → List ChunkInfo
  unfolding matched found_info with_imports
  found_chunks tables commits query query_vector limit include_import_only_chunks =
      let chunk_files = get_chunk_files_by_commit_hashes tables.chunk_files commits in
      let dtos = tables.hybrid (map (λ c. c.chunk_hash) chunk_files) query query_vector limit in
      let found = matched dtos chunk_files in
      if include_import_only_chunks then with_imports tables found else map found_info found

  unfoldable pub search_stored : Tables → Dict Text → Text → List ℕ → ℕ → Bool → List ChunkInfo × ℕ
  unfolding is_before sort
  search_stored tables commits query query_vector limit include_import_only_chunks = (
    sort is_before
        (found_chunks tables commits query query_vector limit include_import_only_chunks),
    0,
  )
