-- ===== src/Examples/Files.antt =====
-- Small files chunked, stored, read and summarised.
use deputydev_core.Prelude.{
  any_of, ◌-◌, ℕ, ◌+◌, ◌*◌, ◌≤◌, ◌<◌, min, List, [], ◌∷◌, Bool, true, false, Option, none, some,
  leb, length, slice, concat, sort_by, All, ◌≡◌, refl, arith, map, inl, inr,
}
use deputydev_core.Py.Chars.{Text, codes, text_eq}
use deputydev_core.Py.Dict.{Dict, has_key, set_item, update, lookup, HasDistinctKeys}
use deputydev_core.Py.Lines.{split_lf, join_lf}
use deputydev_core.Py.Result.{ok}
use deputydev_core.Chunking.Data.{ChunkInfo, start_line}
use deputydev_core.Chunking.Content.{LineChunk, chunk_content}
use deputydev_core.Chunking.Content.Cover.{Some, Holds, chunk_content-covers, join_lf-chunk_content}
use deputydev_core.Chunking.Spans.{Bytes, Span, span, get_line_number, count_lines_before}
use deputydev_core.Chunking.Legacy.{
  Node, node, and_then, none_left, end_byte, coalesce_chunks, chunk_code,
}
use deputydev_core.Chunking.Legacy.Tiles.{Tiles, IsNode, coalesce_chunks-Tiles}
use deputydev_core.Chunking.Legacy.Lines.{LineTiles, chunk_code-LineTiles}
use deputydev_core.Chunking.Source.{chunk_source}
use deputydev_core.Chunking.Source.Plain.{join_lf-chunk_source}
use deputydev_core.Chunking.PrDiff.{diff_chunks}
use deputydev_core.Chunking.PrDiff.Bounds.{longest, diff_chunks-longest}
use deputydev_core.Chunking.Indexing.{
  Indexer, batchify_files_for_insertion, index_files, store_batches, batches_from,
}
use deputydev_core.Chunking.Indexing.Batches.{
  IsBatch, concat-batchify_files_for_insertion, index_files-keeps_stored,
}
use deputydev_core.Reranker.{rerank_group, is_inside}
use deputydev_core.Reranker.Nesting.{In, AreDistinct, rerank_group-covers}
use deputydev_core.Reranker.Duplicates.{same_count, rerank_group-duplicates}
use deputydev_core.Tokenizer.{get_all_tokens}
use deputydev_core.Tokenizer.Counts.{length-get_all_tokens}
use deputydev_core.FileReader.Read.{Reader, read_lines, chunk_info}
use deputydev_core.Chunking.Store.RoundTrip.{IsStorable, Finds}
use deputydev_core.Repository.{bulk_insert, read_row}
use deputydev_core.Repository.Stored.{kept_chunk, stored_chunks_of_batch-bulk_insert}
use deputydev_core.Chunking.Store.{
  Stored, ChunkDto, usable_hash, by_chunk_hash, unique, stored_chunks_of_batch, chunk_record,
  chunk_file_record, add_differential_chunks_to_store, add_chunks, add_file_chunks,
}
use deputydev_core.FileReader.Read.Window.{IsReadable, sound, read_lines-window}
use deputydev_core.Summary.{Numbered, sampled, calculate_skipped}
use deputydev_core.Summary.Skipped.{
  IsSeparated, is_within, is_skipped, calculate_skipped-IsSeparated,
}
use deputydev_core.Summary.Sampling.{IsNumbered, sampled-IsNumbered}

abbrev letters : Text
letters = codes "a\nb\nc\nd"

chunk_content-covers_example :
    (chunks : List LineChunk) × (chunk_content letters 2 1 ≡ ok chunks)
    × ((i : ℕ) → i < length (split_lf letters) → Some (Holds (split_lf letters) 2 i) chunks)
chunk_content-covers_example = chunk_content-covers letters 2 1 (omega arith)

join_lf-chunk_content_example :
    (chunks : List LineChunk) × (chunk_content letters 3 0 ≡ ok chunks)
    × (join_lf (map (λ c. c.chunk) chunks) ≡ letters)
join_lf-chunk_content_example = join_lf-chunk_content letters 3 (omega arith)

join_lf-chunk_source_example :
    (chunks : List ChunkInfo) × (chunk_source (codes "f") none none (λ l b. none) true letters
      ≡ ok chunks)
    × (join_lf (map (λ c. c.content) chunks) ≡ letters)
join_lf-chunk_source_example = join_lf-chunk_source (codes "f") none (λ l b. none) true letters

-- A root over seven bytes with two children, the second too large for one chunk.
abbrev root : Node
root = node 0 7 (and_then (node 0 2 none_left) (and_then (node 2 7 none_left) none_left))

root-IsNode : IsNode root
unfolding IsNode
root-IsNode = (
  omega arith,
  (omega arith, (omega arith, omega arith), (omega arith, (omega arith, omega arith), omega arith)),
)

abbrev decode : Bytes → Option Text
decode bytes = some bytes

last_line_is : get_line_number decode (end_byte root) letters ≡ some 4
unfolding get_line_number count_lines_before
last_line_is = refl

chunk_code-LineTiles_example :
    (chunks : List Span) × (chunk_code decode (some root) letters 3 1 ≡ some chunks)
    × LineTiles 0 4 chunks
chunk_code-LineTiles_example =
    chunk_code-LineTiles decode letters letters refl root 3 1 4 root-IsNode refl (omega arith)
      last_line_is

abbrev spans : List Span
spans = span 0 2 ∷ span 2 5 ∷ span 5 7 ∷ []

coalesce_chunks-Tiles_example : Tiles 0 7 (coalesce_chunks decode letters spans 1)
coalesce_chunks-Tiles_example =
    coalesce_chunks-Tiles decode letters 1 7 (span 0 2) (span 2 5 ∷ span 5 7 ∷ [])
      (refl, omega arith, (refl, omega arith, (refl, omega arith, refl)))

abbrev is_header : Text → Bool
is_header line = text_eq line (codes "a/f b/f")

abbrev diff_lines : List Text
diff_lines = codes "a/f b/f" ∷ codes "+x" ∷ codes "+y" ∷ codes "+z" ∷ []

diff_chunks-longest_example :
    All (λ c. length c ≤ longest 3 1) (diff_chunks is_header 3 1 diff_lines)
diff_chunks-longest_example = diff_chunks-longest is_header 3 1 (omega arith) diff_lines

abbrev files : Dict Text
files = (codes "f", codes "1") ∷ (codes "g", codes "2") ∷ (codes "h", codes "3") ∷ []

concat-batchify_files_for_insertion_example :
    (concat (batchify_files_for_insertion files 2) ≡ files)
    × All (IsBatch 2) (batchify_files_for_insertion files 2)
concat-batchify_files_for_insertion_example =
    concat-batchify_files_for_insertion files 2 (omega arith)

-- A chunk of the file f: its lines, and an embedding or none.
abbrev chunk_of : Text → ℕ → ℕ → Option (List ℕ) → ChunkInfo
chunk_of content i j embedding = record {
  content = content;
  source_details = record {
    file_path = codes "f";
    file_hash = some (codes "1");
    start_line = i;
    end_line = j;
  };
  has_embedded_lines = false;
  metadata = none;
  embedding = embedding;
}

abbrev indexer : Indexer
indexer = record {
  create_chunks = λ batch. (codes "f", chunk_of (codes "new") 1 1 none ∷ []) ∷ [];
  embed = λ chunks. (1 ∷ []) ∷ [];
  content_hash = λ t. t;
  now = λ i. i;
  fetch_with_vector = true;
}

abbrev existing : Dict (List ChunkInfo)
existing = (codes "f", chunk_of (codes "old") 1 1 none ∷ []) ∷ []

existing-HasDistinctKeys : HasDistinctKeys existing
unfolding has_key
existing-HasDistinctKeys = (refl, tt)

stored_f : lookup (codes "f") existing ≡ some (chunk_of (codes "old") 1 1 none ∷ [])
unfolding lookup text_eq
stored_f = refl

abbrev index_result : Dict (List ChunkInfo) × List Stored
index_result = (
  existing,
  (
    chunk_record (λ t. t) (λ i. i) (some 5) (some 5) 0 (chunk_of (codes "new") 1 1 (some (1 ∷ [])))
        ∷ [],
    chunk_file_record (λ t. t) (λ i. i) (some 5) (some 5) 0 1 (codes "1")
          (chunk_of (codes "new") 1 1 (some (1 ∷ [])))
        ∷ [],
  )
      ∷ [],
)

indexed : index_files indexer 5 files existing ≡ ok (index_result.0, index_result.1)
unfolding index_files store_batches batches_from lookup text_eq set_item has_key
    add_differential_chunks_to_store add_chunks add_file_chunks update
indexed = refl

index_files-keeps_stored_example :
    lookup (codes "f") index_result.0 ≡ some (chunk_of (codes "old") 1 1 none ∷ [])
index_files-keeps_stored_example =
    index_files-keeps_stored indexer 5 files existing index_result.0 index_result.1 (codes "f")
      (chunk_of (codes "old") 1 1 none ∷ []) existing-HasDistinctKeys stored_f indexed

abbrev three : List ChunkInfo
three =
    chunk_of (codes "abc") 1 9 none
    ∷ chunk_of (codes "b") 2 4 none
    ∷ chunk_of (codes "c") 8 12 none
    ∷ []

three-AreDistinct : AreDistinct (sort_by start_line three)
unfolding sort_by
three-AreDistinct = (
  (λ e. absurd (ground (arith, e.0)), (λ e. absurd (ground (arith, e.0)), tt)),
  ((λ e. absurd (ground (arith, e.0)), tt), (tt, tt)),
)

second-In : In (chunk_of (codes "b") 2 4 none) (sort_by start_line three)
unfolding sort_by
second-In = inr (inl refl)

rerank_group-covers_example :
    (k : ChunkInfo) × In k (rerank_group three)
    × (is_inside (chunk_of (codes "b") 2 4 none) k ≡ true)
rerank_group-covers_example =
    rerank_group-covers three (chunk_of (codes "b") 2 4 none) three-AreDistinct second-In

abbrev twice : List ChunkInfo
twice = chunk_of (codes "b") 2 4 none ∷ chunk_of (codes "b") 2 4 none ∷ []

two_copies : 2 ≤ same_count (chunk_of (codes "b") 2 4 none) (sort_by start_line twice)
unfolding sort_by same_count
two_copies = omega arith

rerank_group-duplicates_example : ¬ In (chunk_of (codes "b") 2 4 none) (rerank_group twice)
rerank_group-duplicates_example =
    rerank_group-duplicates twice (chunk_of (codes "b") 2 4 none) two_copies

abbrev tokens : List Text
tokens = codes "a" ∷ codes "b" ∷ codes "c" ∷ []

length-get_all_tokens_example :
    (length (get_all_tokens true true (record { tokens = tokens })).1 + 4 ≡ 4 * length tokens)
    × ((get_all_tokens true true (record { tokens = tokens })).0.tokens
        ≡ (get_all_tokens true true (record { tokens = tokens })).1)
length-get_all_tokens_example =
    length-get_all_tokens tokens (refl, (refl, (refl, tt))) (omega arith)

abbrev lines : List Text
lines = codes "a\n" ∷ codes "b\n" ∷ codes "c\n" ∷ codes "d" ∷ []

abbrev reader : Reader
reader = record {
  full_path = codes "/r/f";
  is_file = true;
  open_file = λ e. sound lines;
  summarize = λ n. none;
  max_requested_line_range = 2;
}

reader-IsReadable : IsReadable reader lines
reader-IsReadable = record {
  there = refl;
  opens = refl;
  nonempty = (refl, (refl, (refl, (refl, tt))));
  limit = omega arith;
}

read_lines-window_example :
    read_lines reader (some 2) (some 9)
    ≡ ok (record {
      chunk =
          chunk_info
            (codes "/r/f")
            (concat (slice (2 - 1) (min (min 9 (2 + 2 - 1)) (length lines)) lines))
            2
            (min (min 9 (2 + 2 - 1)) (length lines));
      eof = leb (length lines) (min (min 9 (2 + 2 - 1)) (length lines));
      was_summary = false;
      total_lines = length lines;
    })
read_lines-window_example =
    read_lines-window reader lines 2 9 reader-IsReadable (omega arith) (omega arith) (omega arith)

sampled-IsNumbered_example :
    (chosen : List Numbered) × (sampled 2 lines ≡ some chosen)
    × (length chosen ≤ 2)
    × All (IsNumbered lines) chosen
sampled-IsNumbered_example = sampled-IsNumbered 2 lines (omega arith)

calculate_skipped-IsSeparated_example :
    IsSeparated (calculate_skipped lines (2 ∷ []))
    × (any_of (is_within 2) (calculate_skipped lines (2 ∷ []))
        ≡ is_skipped (length lines) (2 ∷ []) 2)
calculate_skipped-IsSeparated_example = calculate_skipped-IsSeparated lines (2 ∷ []) 2

-- The chunk table answers every query with the one chunk stored.
abbrev table : List Text → List (ChunkDto × List ℕ)
table hashes =
    (
      record { chunk_hash = codes "abc"; text = codes "abc"; created_at = 0; updated_at = 0 },
      7 ∷ [],
    )
    ∷ []

abbrev to_store : ChunkInfo
to_store = record (chunk_of (codes "abc") 1 3 (some (7 ∷ []))) {
  metadata = some (record {
    hierarchy = record { type = codes "CLASS"; value = codes "A"; is_breakable_node = true } ∷ [];
    dechunk = true;
    import_only_chunk = true;
    all_functions = codes "g" ∷ [];
    all_classes = codes "A" ∷ [];
    byte_size = 3;
  });
}

to_store-IsStorable : All (IsStorable (λ t. t) (λ i. i) none none (codes "f")) (to_store ∷ [])
unfolding usable_hash
to_store-IsStorable = (
  record {
    hash = codes "1";
    here = refl;
    usable = refl;
    hash_is = refl;
    vector = 7 ∷ [];
    embedded = refl;
    plain = refl;
  },
  tt,
)

abbrev stored : Stored
stored = (
  chunk_record (λ t. t) (λ i. i) none none 0 to_store ∷ [],
  chunk_file_record (λ t. t) (λ i. i) none none 0 1 (codes "1") to_store ∷ [],
)

added :
    add_differential_chunks_to_store (λ t. t) (λ i. i) none none ((codes "f", to_store ∷ []) ∷ [])
    ≡ ok stored
unfolding add_differential_chunks_to_store add_chunks add_file_chunks usable_hash
added = refl

table-Finds :
    All
      (Finds
        (λ t. t)
        (λ i. i)
        none
        none
        (codes "f")
        (by_chunk_hash (table (unique [] (map (λ f. f.chunk_hash) stored.1)))))
      (to_store ∷ [])
unfolding by_chunk_hash lookup text_eq update
table-Finds = (
  (
    record { chunk_hash = codes "abc"; text = codes "abc"; created_at = 0; updated_at = 0 },
    7 ∷ [],
    refl,
    refl,
    refl,
  ),
  tt,
)

stored_chunks_of_batch-bulk_insert_example :
    stored_chunks_of_batch table (map read_row (bulk_insert stored.1))
    ≡ (codes "f", map kept_chunk (to_store ∷ [])) ∷ []
stored_chunks_of_batch-bulk_insert_example =
    stored_chunks_of_batch-bulk_insert (λ t. t) (λ i. i) none none (codes "f") table to_store []
      stored to_store-IsStorable added table-Finds
