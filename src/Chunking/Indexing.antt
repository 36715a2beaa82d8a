-- ===== src/Chunking/Indexing.antt =====
-- `VectorDBChunker` of services/chunking/chunker/handlers/vector_db_chunker.py. What is not its own
-- is a parameter: the chunks that the file chunk creator cuts from a batch of files, the embeddings
-- of a list of texts, and the chunks that the store holds. A step's exceptions are those of the
-- store, which end the run.
pub mod Batches
use deputydev_core.Prelude.{
  ℕ, zero, suc, ◌+◌, List, [], ◌∷◌, ◌++◌, Bool, true, false, not, Option, none, some, length, take,
  drop, any_of, concat, map, if◌then◌else◌,
}
use deputydev_core.Py.Chars.{Text}
use deputydev_core.Py.Dict.{Dict, lookup, has_key, set_item, update}
use deputydev_core.Py.Result.{Result, ok, err}
use deputydev_core.Chunking.Data.{ChunkInfo}
use deputydev_core.Chunking.Store.{Stored, StoreError, add_differential_chunks_to_store}

-- The rounds of `range(0, len(files), size)`, as many as there are files at most.
unfoldable pub batches_from {ℓ} : {A : Type ℓ} → ℕ → ℕ → List A → List (List A)
batches_from zero size files = []
batches_from (suc fuel) size [] = []
batches_from (suc fuel) size (f ∷ fs) =
    take size (f ∷ fs) ∷ batches_from fuel size (drop size (f ∷ fs))

unfoldable pub batchify_files_for_insertion : Dict Text → ℕ → List (List (Text × Text))
batchify_files_for_insertion files_to_chunk size =
    batches_from (length files_to_chunk) size files_to_chunk

-- `for chunk, embedding in zip(chunks, embeddings): chunk.embedding = embedding`
unfoldable pub set_embeddings : List ChunkInfo → List (List ℕ) → List ChunkInfo
set_embeddings [] embeddings = []
set_embeddings (c ∷ cs) [] = c ∷ cs
set_embeddings (c ∷ cs) (v ∷ vs) = record c { embedding = some v } ∷ set_embeddings cs vs

unfoldable pub drop_embedding : ChunkInfo → ChunkInfo
drop_embedding c = record c { embedding = none }

-- The chunks of the files in a row, and a row of chunks cut into those of each file again.
unfoldable pub all_chunks : Dict (List ChunkInfo) → List ChunkInfo
all_chunks [] = []
all_chunks ((path, chunks) ∷ files) = chunks ++ all_chunks files

unfoldable pub with_chunks : Dict (List ChunkInfo) → List ChunkInfo → Dict (List ChunkInfo)
with_chunks [] row = []
with_chunks ((path, chunks) ∷ files) row =
    (path, take (length chunks) row) ∷ with_chunks files (drop (length chunks) row)

-- `if not chunk.embedding`
unfoldable pub has_embedding : ChunkInfo → Bool
has_embedding c = elim c.embedding [ none ↦ false | some [] ↦ false | some (x ∷ v) ↦ true ]

-- `files_to_chunk[file] = chunkable[file]` for each file of the repository with a chunk that has no
-- embedding
unfoldable pub add_missing : Dict Text → Dict (List ChunkInfo) → Dict Text → Dict Text
unfolding has_embedding
add_missing chunkable [] files_to_chunk = files_to_chunk
add_missing chunkable ((file, chunks) ∷ existing) files_to_chunk =
    let skipped = add_missing chunkable existing files_to_chunk in
    if any_of (λ c. not (has_embedding c)) chunks
    then elim (lookup file chunkable) [
      | none ↦ skipped
      | some file_hash ↦ add_missing chunkable existing (set_item file file_hash files_to_chunk)
    ]
    else skipped

unfoldable pub files_not_stored : Dict Text → Dict (List ChunkInfo) → Dict Text
files_not_stored [] existing = []
files_not_stored ((file, file_hash) ∷ chunkable) existing =
    let rest = files_not_stored chunkable existing in
    if has_key file existing then rest else (file, file_hash) ∷ rest

unfoldable pub files_to_index : Dict Text → Dict (List ChunkInfo) → Dict Text
unfolding add_missing files_not_stored
files_to_index chunkable existing =
    add_missing chunkable existing (files_not_stored chunkable existing)

-- The file chunk creator, the embedding manager, the store's hash of a text and its clock, and
-- `fetch_with_vector`.
pub record Indexer : Type 0 where
  pub create_chunks : List (Text × Text) → Dict (List ChunkInfo)
  pub embed : List ChunkInfo → List (List ℕ)
  pub content_hash : Text → Text
  pub now : ℕ → ℕ
  pub fetch_with_vector : Bool

-- `{**missing_file_wise_chunks, **existing_file_wise_chunks}`
unfoldable pub merge_existing :
    Dict (List ChunkInfo)
    → Result StoreError (Dict (List ChunkInfo) × List Stored)
    → Result StoreError (Dict (List ChunkInfo) × List Stored)
merge_existing existing (err e) = err e
merge_existing existing (ok (missing, log)) = ok (update missing existing, log)

module _ (indexer : Indexer) where
  unfoldable pub chunks_of_batch : List (Text × Text) → Dict (List ChunkInfo)
  unfolding all_chunks with_chunks set_embeddings
  chunks_of_batch batch =
      let files = indexer.create_chunks batch in
      let chunks = all_chunks files in
      with_chunks files (set_embeddings chunks (indexer.embed chunks))

  -- The chunks made, and what each batch handed to the store, in order.
  unfoldable pub store_batches :
      ℕ
      → List (List (Text × Text))
      → Dict (List ChunkInfo)
      → List Stored
      → Result StoreError (Dict (List ChunkInfo) × List Stored)
  unfolding chunks_of_batch drop_embedding
  store_batches timestamp [] all_files log = ok (all_files, log)
  store_batches timestamp (batch ∷ batches) all_files log =
      let files = chunks_of_batch batch in
      let returned =
        if indexer.fetch_with_vector
        then files
        else map (λ f. (f.0, map drop_embedding f.1)) files in
      elim (add_differential_chunks_to_store indexer.content_hash indexer.now (some timestamp)
        (some timestamp) files) [
          | err e ↦ err e
          | ok stored ↦
              store_batches timestamp batches (update all_files returned) (log ++ stored ∷ [])
        ]

  -- `all_file_wise_chunks`, and what was stored on the way. The batches hold 200 files.
  unfoldable pub index_files :
      ℕ
      → Dict Text
      → Dict (List ChunkInfo)
      → Result StoreError (Dict (List ChunkInfo) × List Stored)
  unfolding files_to_index batchify_files_for_insertion merge_existing
  index_files timestamp chunkable existing = merge_existing existing (
      store_batches timestamp (batchify_files_for_insertion (files_to_index chunkable existing) 200)
        [] [])

  unfoldable pub create_chunks_and_docs :
      ℕ → Dict Text → Dict (List ChunkInfo) → Result StoreError (List ChunkInfo)
  unfolding all_chunks
  create_chunks_and_docs timestamp chunkable existing =
      elim (index_files timestamp chunkable existing) [
        | err e ↦ err e
        | ok (files, log) ↦ ok (all_chunks files)
      ]
