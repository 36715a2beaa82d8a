-- ===== src/Chunking/Store.antt =====
-- `ChunkVectorStoreManager` of services/chunking/vector_store/chunk_vectore_store_manager.py: the
-- records handed to the vector store, and the chunks made from what it holds. The two tables are
-- parameters where they are read, results where they are written; the ids of their rows are left
-- out. Timestamps are natural numbers, `now` the clock's reading at each round; `content_hash` is the
-- text's xxhash.
pub mod RoundTrip
use deputydev_core.Prelude.{
  ℕ, zero, suc, ◌+◌, List, [], ◌∷◌, ◌++◌, Bool, true, false, Option, none, some, ◌==◌, length, last,
  is_empty, any_of, map, if◌then◌else◌,
}
use deputydev_core.Py.Chars.{Text, codes, text_eq}
use deputydev_core.Py.Dict.{Dict, lookup, has_key, set_item, update}
use deputydev_core.Py.Result.{Result, ok, err}
use deputydev_core.Chunking.Data.{ChunkInfo, ChunkMetadata, HierarchyObject}

pub record ChunkDto : Type 0 where
  pub chunk_hash : Text
  pub text : Text
  pub created_at : ℕ
  pub updated_at : ℕ

pub record ChunkDtoWithVector : Type 0 where
  pub dto : ChunkDto
  pub vector : List ℕ

pub record ChunkFileDto : Type 0 where
  pub file_path : Text
  pub chunk_hash : Text
  pub file_hash : Text
  pub start_line : ℕ
  pub end_line : ℕ
  pub created_at : ℕ
  pub updated_at : ℕ
  pub total_chunks : ℕ
  pub classes : List Text
  pub functions : List Text
  pub searchable_file_path : Text
  pub searchable_file_name : Text
  pub meta_info : Option ChunkMetadata
  pub has_imports : Bool

pub data StoreError : Type 0 where
  no_file_hash : StoreError

-- `s.add(x)`: a set is a list without repeats. The order in which the code lists a set is open.
unfoldable pub add_to_set : List Text → Text → List Text
unfolding text_eq
add_to_set s x = if any_of (text_eq x) s then s else s ++ x ∷ []

unfoldable pub symbols_from : List HierarchyObject → List Text → List Text → List Text × List Text
unfolding add_to_set text_eq
symbols_from [] functions classes = (functions, classes)
symbols_from (item ∷ items) functions classes =
    let as_function = symbols_from items (add_to_set functions item.value) classes in
    let as_class = symbols_from items functions (add_to_set classes item.value) in
    let skipped = symbols_from items functions classes in
    if text_eq item.type (codes "FUNCTION")
    then as_function
    else if text_eq item.type (codes "CLASS")
    then as_class
    else skipped

unfoldable pub get_symbols_from_hierarchy : List HierarchyObject → List Text × List Text
get_symbols_from_hierarchy hierarchy = symbols_from hierarchy [] []

unfoldable pub chunk_symbols : Option ChunkMetadata → List Text × List Text
unfolding get_symbols_from_hierarchy
chunk_symbols none = ([], [])
chunk_symbols (some m) = get_symbols_from_hierarchy m.hierarchy

-- `path.split("/")[-1]`
unfoldable pub base_name : Text → Text
base_name [] = []
base_name (c ∷ s) = let rest = base_name s in if any_of (λ d. d == 47) (c ∷ s) then rest else c ∷ s

unfoldable pub or_now : Option ℕ → ℕ → ℕ
or_now none now = now
or_now (some t) now = t

-- `if not file_hash`: the hash, unless it is missing or empty
unfoldable pub usable_hash : Option Text → Option Text
usable_hash none = none
usable_hash (some []) = none
usable_hash (some (c ∷ s)) = some (c ∷ s)

abbrev pub Stored : Type 0
Stored = List ChunkDtoWithVector × List ChunkFileDto

module _ (content_hash : Text → Text) (now : ℕ → ℕ) (created updated : Option ℕ) where
  unfoldable pub chunk_record : ℕ → ChunkInfo → ChunkDtoWithVector
  unfolding or_now
  chunk_record round chunk = record {
    dto = record {
      chunk_hash = content_hash chunk.content;
      text = chunk.content;
      created_at = or_now created (now round);
      updated_at = or_now updated (now round);
    };
    vector = elim chunk.embedding [ none ↦ [] | some v ↦ v ];
  }

  unfoldable pub chunk_file_record : ℕ → ℕ → Text → ChunkInfo → ChunkFileDto
  unfolding or_now base_name chunk_symbols
  chunk_file_record round total file_hash chunk = record {
    file_path = chunk.source_details.file_path;
    chunk_hash = content_hash chunk.content;
    file_hash = file_hash;
    start_line = chunk.source_details.start_line;
    end_line = chunk.source_details.end_line;
    created_at = or_now created (now round);
    updated_at = or_now updated (now round);
    total_chunks = total;
    classes = (chunk_symbols chunk.metadata).1;
    functions = (chunk_symbols chunk.metadata).0;
    searchable_file_path = chunk.source_details.file_path;
    searchable_file_name = base_name chunk.source_details.file_path;
    meta_info = chunk.metadata;
    has_imports = elim chunk.metadata [ none ↦ false | some m ↦ m.import_only_chunk ];
  }

  -- The loop over one file's chunks.
  unfoldable pub add_file_chunks : ℕ → ℕ → List ChunkInfo → Stored → Result StoreError (Stored × ℕ)
  unfolding usable_hash
  add_file_chunks total round [] stored = ok (stored, round)
  add_file_chunks total round (chunk ∷ chunks) (records, files) =
      let later : Text → Result StoreError (Stored × ℕ) = λ file_hash.
        add_file_chunks total (suc round) chunks (
          records ++ chunk_record round chunk ∷ [],
          files ++ chunk_file_record round total file_hash chunk ∷ [],
        ) in
      elim (usable_hash chunk.source_details.file_hash) [
        | none ↦ err no_file_hash
        | some file_hash ↦ later file_hash
      ]

  unfoldable pub add_chunks : ℕ → Dict (List ChunkInfo) → Stored → Result StoreError Stored
  add_chunks round [] stored = ok stored
  add_chunks round ((path, chunks) ∷ files) stored =
      elim (add_file_chunks (length chunks) round chunks stored) [
        | err e ↦ err e
        | ok (more, next) ↦ add_chunks next files more
      ]

  -- What is handed to the two `bulk_insert`s, if no exception is raised before them.
  unfoldable pub add_differential_chunks_to_store : Dict (List ChunkInfo) → Result StoreError Stored
  add_differential_chunks_to_store file_wise_chunks = add_chunks 0 file_wise_chunks ([], [])

-- (chunk_file, chunk, vector)
abbrev pub Row : Type 0
Row = ChunkFileDto × (ChunkDto × List ℕ)

-- `{chunk_and_vector[0].chunk_hash: chunk_and_vector for chunk_and_vector in stored}`
unfoldable pub by_chunk_hash : List (ChunkDto × List ℕ) → Dict (ChunkDto × List ℕ)
by_chunk_hash stored = update [] (map (λ c. (c.0.chunk_hash, c)) stored)

-- `d.setdefault(path, []).append(row)`
unfoldable pub append_row : Text → Row → Dict (List Row) → Dict (List Row)
unfolding text_eq
append_row path row [] = (path, row ∷ []) ∷ []
append_row path row ((p, rows) ∷ d) =
    let rest = append_row path row d in
    if text_eq p path then (p, rows ++ row ∷ []) ∷ d else (p, rows) ∷ rest

unfoldable pub group_rows :
    Dict (ChunkDto × List ℕ) → List ChunkFileDto → Dict (List Row) → Dict (List Row)
group_rows by_hash [] groups = groups
group_rows by_hash (f ∷ fs) groups = elim (lookup f.chunk_hash by_hash) [
  | none ↦ group_rows by_hash fs groups
  | some chunk ↦ group_rows by_hash fs (append_row f.file_path (f, chunk) groups)
]

unfoldable pub unique : List Text → List Text → List Text
unfolding add_to_set
unique s [] = s
unique s (x ∷ xs) = unique (add_to_set s x) xs

-- `get_chunks_by_chunk_hashes` is the query of the chunk table.
unfoldable pub get_file_wise_stored_chunks :
    (List Text → List (ChunkDto × List ℕ)) → List ChunkFileDto → Dict (List Row)
unfolding by_chunk_hash unique
get_file_wise_stored_chunks get_chunks_by_chunk_hashes chunk_files_in_db =
    let chunk_hashes = unique [] (map (λ f. f.chunk_hash) chunk_files_in_db) in
    group_rows (by_chunk_hash (get_chunks_by_chunk_hashes chunk_hashes)) chunk_files_in_db []

-- As many rows as the first one says there are.
unfoldable pub is_complete : List Row → Bool
is_complete [] = false
is_complete (row ∷ rows) = length (row ∷ rows) == row.0.total_chunks

unfoldable pub filter_out_invalid_files : Dict (List Row) → Dict (List Row)
filter_out_invalid_files [] = []
filter_out_invalid_files ((path, rows) ∷ files) =
    let rest = filter_out_invalid_files files in
    if is_complete rows then (path, rows) ∷ rest else rest

unfoldable pub chunk_info_of : Row → ChunkInfo
chunk_info_of (f, (chunk, vector)) = record {
  content = chunk.text;
  source_details = record {
    file_path = f.file_path;
    file_hash = some f.file_hash;
    start_line = f.start_line;
    end_line = f.end_line;
  };
  has_embedded_lines = false;
  metadata = f.meta_info;
  embedding = some vector;
}

unfoldable pub get_file_wise_chunk_infos : Dict (List Row) → Dict (List ChunkInfo)
get_file_wise_chunk_infos files = map (λ f. (f.0, map chunk_info_of f.1)) files

-- One batch of `get_valid_file_wise_stored_chunks`, up to the refresh of the timestamps.
unfoldable pub stored_chunks_of_batch :
    (List Text → List (ChunkDto × List ℕ)) → List ChunkFileDto → Dict (List ChunkInfo)
stored_chunks_of_batch get_chunks_by_chunk_hashes chunk_files_in_db = get_file_wise_chunk_infos (
    filter_out_invalid_files
      (get_file_wise_stored_chunks get_chunks_by_chunk_hashes chunk_files_in_db))
