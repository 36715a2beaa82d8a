-- ===== src/Chunking/Indexing/Batches.antt =====
-- Which files the batches hold, and which chunks a run returns.
use deputydev_core.Prelude.{
  ℕ, zero, suc, ◌≤◌, ◌<◌, List, [], ◌∷◌, some, length, drop, concat, length-take, length-drop,
  take-append-drop, All, ◌≡◌, refl, ap, sym, ◌∙◌, arith,
}
use deputydev_core.Py.Chars.{Text}
use deputydev_core.Py.Dict.{Dict, lookup, HasDistinctKeys, lookup-update_present}
use deputydev_core.Py.Result.{Result, ok, err}
use deputydev_core.Chunking.Data.{ChunkInfo}
use deputydev_core.Chunking.Store.{Stored, StoreError}
use deputydev_core.Chunking.Indexing.{
  batches_from, batchify_files_for_insertion, Indexer, index_files, merge_existing,
}

-- A batch of one file at least and `size` at most.
abbrev pub IsBatch : ℕ → List (Text × Text) → Type 0
IsBatch size batch = (0 < length batch) × (length batch ≤ size)

batches_from-concat :
    (fuel size : ℕ) (files : List (Text × Text))
    → 0 < size
    → length files ≤ fuel
    → (concat (batches_from fuel size files) ≡ files)
      × All (IsBatch size) (batches_from fuel size files)
unfolding batches_from
batches_from-concat zero size [] p h = (refl, tt)
batches_from-concat zero size (f ∷ fs) p h = absurd (omega arith)
batches_from-concat (suc fuel) size [] p h = (refl, tt)
batches_from-concat (suc fuel) size (f ∷ fs) p h =
    let (e, all) =
      batches_from-concat fuel size (drop size (f ∷ fs)) p
        (omega (arith, length-drop size (f ∷ fs))) in
    (
      rw e (take-append-drop size (f ∷ fs)),
      ((omega (arith, length-take size (f ∷ fs)), omega (arith, length-take size (f ∷ fs))), all),
    )

-- For a positive batch size, the batches hold every file once, in the order of the dictionary, and
-- none is empty or larger than the batch size.
pub concat-batchify_files_for_insertion :
    (files : Dict Text) (size : ℕ)
    → 0 < size
    → (concat (batchify_files_for_insertion files size) ≡ files)
      × All (IsBatch size) (batchify_files_for_insertion files size)
unfolding batchify_files_for_insertion
concat-batchify_files_for_insertion files size p =
    batches_from-concat (length files) size files p (omega arith)

files_or :
    Dict (List ChunkInfo)
    → Result StoreError (Dict (List ChunkInfo) × List Stored)
    → Dict (List ChunkInfo)
files_or d (ok (files, log)) = files
files_or d (err e) = d

merge_existing-lookup :
    (existing files : Dict (List ChunkInfo)) (log : List Stored)
    (made : Result StoreError (Dict (List ChunkInfo) × List Stored)) (file : Text)
    (chunks : List ChunkInfo)
    → HasDistinctKeys existing
    → lookup file existing ≡ some chunks
    → merge_existing existing made ≡ ok (files, log)
    → lookup file files ≡ some chunks
unfolding merge_existing files_or
merge_existing-lookup existing files log (err x) file chunks u h e = absurd (cc)
merge_existing-lookup existing files log (ok (missing, l)) file chunks u h e =
    ap (λ r. lookup file (files_or [] r)) (sym e)
    ∙ lookup-update_present file chunks missing existing u h

-- The chunks found in the store, a dictionary with no key twice, win: whatever a run that returns cut and embedded anew for a file
-- with a missing embedding, it returns the chunks that were in the store before.
pub index_files-keeps_stored :
    (indexer : Indexer) (timestamp : ℕ) (chunkable : Dict Text)
    (existing files : Dict (List ChunkInfo)) (log : List Stored) (file : Text)
    (chunks : List ChunkInfo)
    → HasDistinctKeys existing
    → lookup file existing ≡ some chunks
    → index_files indexer timestamp chunkable existing ≡ ok (files, log)
    → lookup file files ≡ some chunks
unfolding index_files
index_files-keeps_stored indexer timestamp chunkable existing files log file chunks u h e =
    merge_existing-lookup existing files log _ file chunks u h e
