-- ===== src/Examples/Rows.antt =====
-- Small tables.
use mathlib.Core.List.{Perm}
use mathlib.Core.List.Perm
use deputydev_core.Prelude.{
  take, any_of, true, false, ℕ, ◌-◌, List, [], ◌∷◌, none, some, ◌==◌, if◌then◌else◌, ◌≡◌, refl,
  arith,
}
use deputydev_core.Py.Chars.{Text, codes, text_eq}
use deputydev_core.Py.Dict.{Dict, has_key}
use deputydev_core.Chunking.Store.{ChunkFileDto}
use deputydev_core.Py.Result.{ok, err}
use deputydev_core.Py.Search.{starts_with}
use deputydev_core.Chunking.Manager.{Services, key_error, get_focus_chunk, get_relevant_chunks}
use deputydev_core.Chunking.Manager.Apart.{get_relevant_chunks-key_error}
use deputydev_core.Search.Order.{IsPairwise}
use deputydev_core.Search.Stored.Ordered.{IsNotAfter}
use deputydev_core.Search.Stored.Found.{Differ, has_hash, search_stored-finds}
use deputydev_core.Chunking.Indexing.{batches_from}
use deputydev_core.Search.Stored.{Tables, search_stored}
use deputydev_core.Repository.{
  fetch_all, batches_of, Deleted, cleanup_old_chunks, cleanup_old_chunk_files,
  get_chunk_files_by_commit_hashes,
}
use deputydev_core.Repository.Cleanup.{
  Progresses, IsClean, cleanup_old_chunks-IsClean, cleanup_stuck,
}
use deputydev_core.Repository.Batches.{rows_for}

-- A table of so many rows, found one at a time.
abbrev one_row : ℕ → ℕ → List Text
one_row n limit = if n == 0 then [] else codes "u" ∷ []

abbrev delete_row : ℕ → List Text → ℕ × Deleted
delete_row n uuids = (n - 1, record { successful = 1; failed = 0 })

one_row-Progresses : Progresses one_row delete_row (λ n. n)
one_row-Progresses s e = ground arith

cleanup_old_chunks-IsClean_example :
    (end : ℕ) × (cleanup_old_chunks one_row delete_row 4 3 ≡ some end)
    × IsClean one_row delete_row end
cleanup_old_chunks-IsClean_example =
    cleanup_old_chunks-IsClean one_row delete_row (λ n. n) 4 3 one_row-Progresses (omega arith)

abbrev always_one : ℕ → ℕ → List Text
always_one n limit = codes "u" ∷ []

abbrev fails : ℕ → List Text → ℕ × Deleted
fails n uuids = (n, record { successful = 0; failed = 1 })

cleanup_stuck_example :
    (cleanup_old_chunks always_one fails 9 0 ≡ none)
    × (cleanup_old_chunk_files always_one fails 9 0 ≡ none)
cleanup_stuck_example =
    cleanup_stuck always_one fails (λ s. Unit) (λ s h. (refl, omega arith, tt)) 9 0 tt

abbrev idle : Services
idle = record { search = λ query files. ok ([], 0); reranker = none; snippets = λ chunks. ok [] }

-- The directory `d` holds the focus file `d/a`.
get_relevant_chunks-key_error_example :
    get_relevant_chunks idle
      (codes "q")
      ((codes "d/a", codes "h") ∷ [])
      (some (codes "d/a" ∷ []))
      none
      (codes "d" ∷ [])
      false
    ≡ err key_error
unfolding has_key text_eq starts_with get_focus_chunk
get_relevant_chunks-key_error_example =
    get_relevant_chunks-key_error idle (codes "q") (codes "d/a") ((codes "d/a", codes "h") ∷ [])
      (codes "d/a" ∷ []) none (codes "d" ∷ []) false [] (refl, tt) refl refl refl refl refl

abbrev row : Text → Text → ChunkFileDto
row path hash = record {
  file_path = path;
  chunk_hash = hash;
  file_hash = codes "h";
  start_line = 1;
  end_line = 1;
  created_at = 0;
  updated_at = 0;
  total_chunks = 1;
  classes = [];
  functions = [];
  searchable_file_path = path;
  searchable_file_name = path;
  meta_info = none;
  has_imports = false;
}

-- Two rows for the file `a`, one for any other.
abbrev rows_of_file : Text × Text → List ChunkFileDto
rows_of_file (path, hash) =
    row path (codes "1") ∷ (if text_eq path (codes "a") then row path (codes "2") ∷ [] else [])

abbrev first_rows : List (Text × Text) → ℕ → List ChunkFileDto
first_rows batch limit = take limit (rows_for rows_of_file batch)

abbrev two_files : Dict Text
two_files = (codes "a", codes "h") ∷ (codes "b", codes "h") ∷ []

-- Two files, found in the wrong order, each with one chunk.
abbrev two_chunks : Tables
two_chunks = record {
  chunk_files = λ batch limit. row (codes "b") (codes "1") ∷ row (codes "a") (codes "2") ∷ [];
  import_files = λ imports batch limit. [];
  chunks = λ hashes limit. [];
  hybrid = λ hashes query vector limit.
      (record { chunk_hash = codes "1"; text = codes "x"; created_at = 0; updated_at = 0 })
      ∷ (record { chunk_hash = codes "2"; text = codes "y"; created_at = 0; updated_at = 0 })
      ∷ [];
}

search_stored-finds_example :
    IsPairwise IsNotAfter
      (search_stored (λ s. s) two_chunks ((codes "a", codes "h") ∷ []) (codes "q") [] 9 true).0
    × IsPairwise
        (Differ (λ s. s))
        (search_stored (λ s. s) two_chunks ((codes "a", codes "h") ∷ []) (codes "q") [] 9 true).0
    × (any_of
          (has_hash (λ s. s) (codes "y"))
          (search_stored (λ s. s) two_chunks ((codes "a", codes "h") ∷ []) (codes "q") [] 9 true).0
        ≡ true)
unfolding get_chunk_files_by_commit_hashes fetch_all batches_of batches_from text_eq
search_stored-finds_example =
    search_stored-finds (λ s. s) two_chunks ((codes "a", codes "h") ∷ []) (codes "q") [] 9
      (codes "y") refl
