-- ===== src/Repository.antt =====
-- services/repository/chunk_files_service.py and services/repository/chunk_service.py. The tables of
-- the vector database are parameters: a state, with the queries and the changes that the services
-- send to it. `while True` runs on fuel, `none` when it is used up.
pub mod Cleanup
pub mod Stored
pub mod Batches
use deputydev_core.Prelude.{
  ℕ, zero, suc, List, [], ◌∷◌, ◌++◌, map, Bool, true, false, ◌&&◌, ◌==◌, Option, none, some, concat,
  is_empty, length, sort_by, if◌then◌else◌,
}
use deputydev_core.Py.Chars.{Text, codes, text_eq}
use deputydev_core.Py.Dict.{Dict}
use deputydev_core.Py.Numbers.{str}
use deputydev_core.Py.Result.{Result, ok, err}
use deputydev_core.Chunking.Data.{ChunkMetadata, HierarchyObject}
use deputydev_core.Chunking.Indexing.{batches_from}
use deputydev_core.Chunking.Store.{ChunkFileDto, ChunkDtoWithVector, ChunkDto}

-- `xs[i : i + size] for i in range(0, len(xs), size)`
unfoldable pub batches_of {ℓ} : {A : Type ℓ} → ℕ → List A → List (List A)
batches_of size xs = batches_from (length xs) size xs

-- One query for each batch of 1000 keys, of 10000 rows at most; the results in a row.
unfoldable pub fetch_all {ℓ κ} : {K : Type ℓ} {R : Type κ} → (List K → ℕ → List R) → List K → List R
unfolding batches_of
fetch_all fetch_objects keys =
    concat (map (λ batch. fetch_objects batch 10000) (batches_of 1000 keys))

-- The two queries ask for the pairs of a path and a hash, the second also for `has_imports`.
unfoldable pub get_chunk_files_by_commit_hashes :
    (List (Text × Text) → ℕ → List ChunkFileDto) → Dict Text → List ChunkFileDto
get_chunk_files_by_commit_hashes fetch_objects file_to_commit_hashes =
    fetch_all fetch_objects file_to_commit_hashes

unfoldable pub get_only_import_chunk_files_by_commit_hashes :
    (Bool → List (Text × Text) → ℕ → List ChunkFileDto) → Dict Text → List ChunkFileDto
get_only_import_chunk_files_by_commit_hashes fetch_objects file_to_commit_hashes =
    fetch_all (fetch_objects true) file_to_commit_hashes

unfoldable pub get_chunks_by_chunk_hashes :
    (List Text → ℕ → List ChunkDtoWithVector) → List Text → List ChunkDtoWithVector
get_chunks_by_chunk_hashes fetch_objects chunk_hashes = fetch_all fetch_objects chunk_hashes

-- The two parts of the metadata that are stored.
unfoldable pub stored_metadata : Option ChunkMetadata → Option (List HierarchyObject × Bool)
stored_metadata none = none
stored_metadata (some m) = some (m.hierarchy, m.import_only_chunk)

-- The text from which the id of the row is made, and its properties, `meta_info` cut down.
pub record NewRow : Type 0 where
  pub uuid_key : Text
  pub properties : ChunkFileDto
  pub meta_info : Option (List HierarchyObject × Bool)

unfoldable pub uuid_key_of : ChunkFileDto → Text
unfolding str
uuid_key_of c = c.file_path ++ (c.file_hash ++ (str c.start_line ++ str c.end_line))

unfoldable pub bulk_insert : List ChunkFileDto → List NewRow
unfolding stored_metadata uuid_key_of
bulk_insert chunks =
    map
      (λ c. record {
        uuid_key = uuid_key_of c;
        properties = c;
        meta_info = stored_metadata c.meta_info;
      })
      chunks

-- `ChunkFileDTO(**properties)`: what is not stored of the metadata takes its default. There the
-- code has no `byte_size`, for which 0 stands.
unfoldable pub read_metadata : Option (List HierarchyObject × Bool) → Option ChunkMetadata
read_metadata none = none
read_metadata (some (hierarchy, import_only_chunk)) = some (record {
  hierarchy = hierarchy;
  dechunk = false;
  import_only_chunk = import_only_chunk;
  all_functions = [];
  all_classes = [];
  byte_size = 0;
})

unfoldable pub read_row : NewRow → ChunkFileDto
unfolding read_metadata
read_row row = record row.properties { meta_info = read_metadata row.meta_info }

-- The vector of a row is left out if it is empty.
unfoldable pub vector_of : ChunkDtoWithVector → Option (List ℕ)
vector_of c = if is_empty c.vector then none else some c.vector

unfoldable pub bulk_insert_chunks : List ChunkDtoWithVector → List (ChunkDto × Option (List ℕ))
unfolding vector_of
bulk_insert_chunks chunks = map (λ c. (c.dto, vector_of c)) chunks

-- What a search by key asks for.
pub data SearchFilter : Type 0 where
  class_contains function_contains path_equals : Text → SearchFilter

unfoldable pub search_filter : Text → Text → Option SearchFilter
unfolding text_eq
search_filter search_type search_key =
    if text_eq search_type (codes "class")
    then some (class_contains search_key)
    else if text_eq search_type (codes "function")
    then some (function_contains search_key)
    else if text_eq search_type (codes "file")
    then some (path_equals search_key)
    else none

pub data SearchError : Type 0 where
  no_filters : SearchError

-- An empty dictionary of files is no filter.
unfoldable pub get_chunk_files_matching_exact_search_key :
    (Dict Text → Option SearchFilter → ℕ → List ChunkFileDto)
    → Text
    → Text
    → Dict Text
    → Result SearchError (List ChunkFileDto)
unfolding search_filter
get_chunk_files_matching_exact_search_key fetch_objects search_key search_type files =
    let filter = search_filter search_type search_key in
    let found = sort_by (λ c. c.start_line) (fetch_objects files filter 200) in
    elim filter [ some f ↦ ok found | none ↦ if is_empty files then err no_filters else ok found ]

-- What a deletion reports.
pub record Deleted : Type 0 where
  pub successful : ℕ
  pub failed : ℕ

module _ {S : Type 0} (fetch_objects : S → ℕ → List Text)
    (delete_many : S → List Text → S × Deleted) where
  -- `cleanup_old_chunk_files` stops where a deletion reports nothing at all.
  unfoldable pub cleanup_old_chunk_files : ℕ → S → Option S
  cleanup_old_chunk_files zero s = none
  cleanup_old_chunk_files (suc fuel) s =
      let deletable_uuids = fetch_objects s 1000 in
      let (next, result) = delete_many s deletable_uuids in
      let on = cleanup_old_chunk_files fuel next in
      if is_empty deletable_uuids
      then some s
      else if result.successful == 0 && result.failed == 0
      then some next
      else on

  unfoldable pub cleanup_old_chunks : ℕ → S → Option S
  cleanup_old_chunks zero s = none
  cleanup_old_chunks (suc fuel) s =
      let deletable = fetch_objects s 1000 in
      let on = cleanup_old_chunks fuel (delete_many s deletable).0 in
      if is_empty deletable then some s else on

  -- The updates of a batch, one after the other; one that raises is logged and changes nothing.
  unfoldable pub safe_updates : (S → Text → Option S) → S → List Text → S
  safe_updates update s [] = s
  safe_updates update s (key ∷ keys) = elim (update s key) [
    | none ↦ safe_updates update s keys
    | some next ↦ safe_updates update next keys
  ]

  unfoldable pub update_batches : (S → Text → Option S) → S → List (List Text) → S
  update_batches update s [] = s
  update_batches update s (batch ∷ batches) =
      update_batches update (safe_updates update s batch) batches

  unfoldable pub update_timestamps : (S → Text → Option S) → S → List Text → S
  update_timestamps update s keys = update_batches update s (batches_of 500 keys)
