-- ===== src/Repository/Stored.antt =====
-- Chunks that are stored in the table of files and fetched again.
use deputydev_core.Prelude.{
  ℕ, List, [], ◌∷◌, ◌++◌, map, length, false, Option, none, some, ◌≡◌, refl, ap, ◌∙◌, arith, All,
  Bool-cases, inl, inr,
}
use deputydev_core.Py.Chars.{Text, text_eq}
use deputydev_core.Py.Dict.{Dict, lookup}
use deputydev_core.Py.Result.{ok}
use deputydev_core.Chunking.Data.{ChunkInfo, ChunkMetadata}
use deputydev_core.Chunking.Store.{
  ChunkFileDto, ChunkDto, Row, Stored, append_row, group_rows, is_complete,
  filter_out_invalid_files, chunk_info_of, get_file_wise_chunk_infos, get_file_wise_stored_chunks,
  by_chunk_hash, unique, stored_chunks_of_batch, add_differential_chunks_to_store,
}
use deputydev_core.Chunking.Store.RoundTrip.{
  IsStorable, Finds, stored_chunks_of_batch-add_differential_chunks_to_store,
}
use deputydev_core.Repository.{read_row, bulk_insert, read_metadata, stored_metadata}

-- Of its metadata a chunk keeps the hierarchy, and whether it holds imports only.
abbrev pub kept_metadata : Option ChunkMetadata → Option ChunkMetadata
kept_metadata none = none
kept_metadata (some m) = some (record {
  hierarchy = m.hierarchy;
  dechunk = false;
  import_only_chunk = m.import_only_chunk;
  all_functions = [];
  all_classes = [];
  byte_size = 0;
})

abbrev pub kept_chunk : ChunkInfo → ChunkInfo
kept_chunk c = record c { metadata = kept_metadata c.metadata }

abbrev cut_row : ChunkFileDto → ChunkFileDto
cut_row f = record f { meta_info = kept_metadata f.meta_info }

abbrev cut_pair : Row → Row
cut_pair (f, chunk) = (cut_row f, chunk)

abbrev cut_groups : Dict (List Row) → Dict (List Row)
cut_groups [] = []
cut_groups ((path, rows) ∷ d) = (path, map cut_pair rows) ∷ cut_groups d

abbrev kept_groups : Dict (List ChunkInfo) → Dict (List ChunkInfo)
kept_groups [] = []
kept_groups ((path, cs) ∷ d) = (path, map kept_chunk cs) ∷ kept_groups d

read_metadata-stored_metadata :
    (m : Option ChunkMetadata) → read_metadata (stored_metadata m) ≡ kept_metadata m
unfolding read_metadata stored_metadata
read_metadata-stored_metadata none = refl
read_metadata-stored_metadata (some m) = refl

map-read_row-bulk_insert : (fs : List ChunkFileDto) → map read_row (bulk_insert fs) ≡ map cut_row fs
unfolding read_row bulk_insert
map-read_row-bulk_insert [] = refl
map-read_row-bulk_insert (f ∷ fs) =
    rw (read_metadata-stored_metadata f.meta_info, map-read_row-bulk_insert fs) refl

map-append-one :
    (rows : List Row) (row : Row)
    → map cut_pair (rows ++ row ∷ []) ≡ map cut_pair rows ++ cut_pair row ∷ []
map-append-one [] row = refl
map-append-one (r ∷ rows) row = ap (λ (rs : List Row). cut_pair r ∷ rs) (map-append-one rows row)

append_row-cut :
    (path : Text) (row : Row) (d : Dict (List Row))
    → append_row path (cut_pair row) (cut_groups d) ≡ cut_groups (append_row path row d)
unfolding append_row
append_row-cut path row [] = refl
append_row-cut path row ((p, rows) ∷ d) = elim (Bool-cases (text_eq p path)) [
  | inl e ↦ rw (e, map-append-one rows row) refl
  | inr e ↦
      rw e (ap (λ (g : Dict (List Row)). (p, map cut_pair rows) ∷ g) (append_row-cut path row d))
]

group_rows-cut :
    (by_hash : Dict (ChunkDto × List ℕ)) (fs : List ChunkFileDto) (d : Dict (List Row))
    → group_rows by_hash (map cut_row fs) (cut_groups d) ≡ cut_groups (group_rows by_hash fs d)
unfolding group_rows
group_rows-cut by_hash [] d = refl
group_rows-cut by_hash (f ∷ fs) d =
    elim (lookup f.chunk_hash by_hash)
      as (λ found.
        (elim found as (λ x. Dict (List Row)) [
          | none ↦ group_rows by_hash (map cut_row fs) (cut_groups d)
          | some chunk ↦
              group_rows by_hash (map cut_row fs)
                (append_row f.file_path (cut_row f, chunk) (cut_groups d))
        ])
        ≡ cut_groups (elim found as (λ x. Dict (List Row)) [
          | none ↦ group_rows by_hash fs d
          | some chunk ↦ group_rows by_hash fs (append_row f.file_path (f, chunk) d)
        ])) [
          | none ↦ group_rows-cut by_hash fs d
          | some chunk ↦
              ap (λ g. group_rows by_hash (map cut_row fs) g)
                (append_row-cut f.file_path (f, chunk) d)
              ∙ group_rows-cut by_hash fs (append_row f.file_path (f, chunk) d)
        ]

length-map_cut : (rows : List Row) → length (map cut_pair rows) ≡ length rows
length-map_cut [] = refl
length-map_cut (r ∷ rows) = omega (arith, length-map_cut rows)

is_complete-cut : (rows : List Row) → is_complete (map cut_pair rows) ≡ is_complete rows
unfolding is_complete
is_complete-cut [] = refl
is_complete-cut (r ∷ rows) = rw (length-map_cut rows) refl

filter_out_invalid_files-cut :
    (d : Dict (List Row))
    → filter_out_invalid_files (cut_groups d) ≡ cut_groups (filter_out_invalid_files d)
unfolding filter_out_invalid_files
filter_out_invalid_files-cut [] = refl
filter_out_invalid_files-cut ((path, rows) ∷ d) =
    rw (is_complete-cut rows, filter_out_invalid_files-cut d)
      (elim (Bool-cases (is_complete rows)) [ inl e ↦ rw e refl | inr e ↦ rw e refl ])

map-chunk_info_of-cut :
    (rows : List Row)
    → map chunk_info_of (map cut_pair rows) ≡ map kept_chunk (map chunk_info_of rows)
unfolding chunk_info_of
map-chunk_info_of-cut [] = refl
map-chunk_info_of-cut (r ∷ rows) = rw (map-chunk_info_of-cut rows) refl

get_file_wise_chunk_infos-cut :
    (d : Dict (List Row))
    → get_file_wise_chunk_infos (cut_groups d) ≡ kept_groups (get_file_wise_chunk_infos d)
unfolding get_file_wise_chunk_infos
get_file_wise_chunk_infos-cut [] = refl
get_file_wise_chunk_infos-cut ((path, rows) ∷ d) =
    rw (map-chunk_info_of-cut rows, get_file_wise_chunk_infos-cut d) refl

hashes-cut :
    (fs : List ChunkFileDto) → map (λ f. f.chunk_hash) (map cut_row fs) ≡ map (λ f. f.chunk_hash) fs
hashes-cut [] = refl
hashes-cut (f ∷ fs) = ap (λ (hs : List Text). f.chunk_hash ∷ hs) (hashes-cut fs)

stored_chunks_of_batch-cut :
    (query : List Text → List (ChunkDto × List ℕ)) (fs : List ChunkFileDto)
    → stored_chunks_of_batch query (map cut_row fs) ≡ kept_groups (stored_chunks_of_batch query fs)
unfolding stored_chunks_of_batch get_file_wise_stored_chunks
stored_chunks_of_batch-cut query fs =
    let by_hash = by_chunk_hash (query (unique [] (map (λ f. f.chunk_hash) fs))) in
    rw (hashes-cut fs, group_rows-cut by_hash fs [])
      (ap get_file_wise_chunk_infos (filter_out_invalid_files-cut (group_rows by_hash fs []))
        ∙ get_file_wise_chunk_infos-cut (filter_out_invalid_files (group_rows by_hash fs [])))

-- One file's chunks are handed to the store, each with a file hash, an embedding and no line numbers
-- in its text. If the table of files gives back the rows that `bulk_insert` wrote, and the table of
-- chunks finds, for their hashes, each chunk's text and vector, then fetching the file gives the
-- chunks that were stored, in order, but of their metadata only the hierarchy and whether they hold
-- imports only; the rest has its default.
pub stored_chunks_of_batch-bulk_insert :
    (content_hash : Text → Text) (now : ℕ → ℕ) (created updated : Option ℕ) (path : Text)
    (query : List Text → List (ChunkDto × List ℕ)) (c : ChunkInfo) (cs : List ChunkInfo)
    (stored : Stored)
    → All (IsStorable content_hash now created updated path) (c ∷ cs)
    → add_differential_chunks_to_store content_hash now created updated ((path, c ∷ cs) ∷ [])
      ≡ ok stored
    → All
        (Finds content_hash now created updated path
          (by_chunk_hash (query (unique [] (map (λ f. f.chunk_hash) stored.1)))))
        (c ∷ cs)
    → stored_chunks_of_batch query (map read_row (bulk_insert stored.1))
      ≡ (path, map kept_chunk (c ∷ cs)) ∷ []
stored_chunks_of_batch-bulk_insert content_hash now created updated path query c cs stored h e k =
    rw (map-read_row-bulk_insert stored.1) (
      stored_chunks_of_batch-cut query stored.1
      ∙ ap kept_groups (
          stored_chunks_of_batch-add_differential_chunks_to_store content_hash now created updated
            path query c cs stored h e k))
