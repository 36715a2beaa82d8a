-- ===== src/Chunking/Store/RoundTrip.antt =====
-- Chunks that are stored and fetched again.
use mathlib.Core.Path.{subst}
use deputydev_core.Prelude.{
  true, length, suc, arith, suc, ◌++◌, append_assoc, append-nil, map, refl, ap, sym, ◌∙◌, All, ℕ,
  List, [], ◌∷◌, false, Option, some, ◌≡◌,
}
use deputydev_core.Py.Chars.{text_eq_refl, Text}
use deputydev_core.Py.Dict.{Dict, lookup}
use deputydev_core.Py.Result.{Result, ok, err}
use deputydev_core.Chunking.Data.{ChunkInfo}
use deputydev_core.Chunking.Store.{
  StoreError, add_differential_chunks_to_store, by_chunk_hash, unique, stored_chunks_of_batch,
  get_file_wise_stored_chunks, add_chunks, filter_out_invalid_files, get_file_wise_chunk_infos,
  is_complete, chunk_record, append_row, ChunkDtoWithVector, Stored, chunk_file_record, group_rows,
  chunk_info_of, add_file_chunks, ChunkDto, ChunkFileDto, usable_hash, Row,
}

module _ (content_hash : Text → Text) (now : ℕ → ℕ) (created updated : Option ℕ) (path : Text) where
  -- A chunk of the file that can be stored: of this path, with a hash, an embedding, and line
  -- numbers that are not in its text.
  pub record IsStorable (c : ChunkInfo) : Type 0 where
    pub hash : Text
    pub here : c.source_details.file_path ≡ path
    pub usable : usable_hash c.source_details.file_hash ≡ some hash
    pub hash_is : c.source_details.file_hash ≡ some hash
    pub vector : List ℕ
    pub embedded : c.embedding ≡ some vector
    pub plain : c.has_embedded_lines ≡ false

  -- The table of chunks has this chunk under its hash.
  abbrev pub Finds : Dict (ChunkDto × List ℕ) → ChunkInfo → Type 0
  Finds by_hash c =
      (dto : ChunkDto) × (vector : List ℕ) × (lookup (content_hash c.content) by_hash
        ≡ some (dto, vector))
      × (dto.text ≡ c.content)
      × (c.embedding ≡ some vector)

  -- The records are those of the chunks, one by one.
  Records : ℕ → List ChunkFileDto → List ChunkInfo → Type 0
  Records total [] [] = Unit
  Records total [] (c ∷ cs) = ⊥
  Records total (f ∷ fs) [] = ⊥
  Records total (f ∷ fs) (c ∷ cs) =
      (round : ℕ) × (hash : Text) × (f
        ≡ chunk_file_record content_hash now created updated round total hash c)
      × (c.source_details.file_hash ≡ some hash)
      × Records total fs cs

  add_file_chunks-Records :
      (total round : ℕ) (cs : List ChunkInfo) (stored : Stored)
      → All IsStorable cs
      → (records : List ChunkDtoWithVector) × (fs : List ChunkFileDto) × (next : ℕ)
        × (add_file_chunks content_hash now created updated total round cs stored
            ≡ ok ((records, stored.1 ++ fs), next))
        × Records total fs cs
  unfolding add_file_chunks Records
  add_file_chunks-Records total round [] (records, files) h =
      (records, [], round, rw (append-nil files) refl, tt)
  add_file_chunks-Records total round (c ∷ cs) (records, files) (h, hs) =
      let f = chunk_file_record content_hash now created updated round total h.hash c in
      let (more, fs, next, e, r) =
        add_file_chunks-Records total (suc round) cs
          (records ++ chunk_record content_hash now created updated round c ∷ [], files ++ f ∷ [])
          hs in
      (
        more,
        f ∷ fs,
        next,
        rw (add_file_chunks, h.usable) (e ∙ rw (append_assoc files (f ∷ []) fs) refl),
        (round, h.hash, refl, h.hash_is, r),
      )

  chunk_info_of-chunk :
      (total round : ℕ) (hash : Text) (c : ChunkInfo) (dto : ChunkDto) (vector : List ℕ)
      → c.source_details.file_hash ≡ some hash
      → dto.text ≡ c.content
      → c.embedding ≡ some vector
      → c.has_embedded_lines ≡ false
      → chunk_info_of
          (chunk_file_record content_hash now created updated round total hash c, (dto, vector))
        ≡ c
  unfolding chunk_info_of chunk_file_record
  chunk_info_of-chunk total round hash c dto vector e text v plain =
      rw (text, ← e, ← v, ← plain) refl

  length-map : (rows : List Row) → length (map chunk_info_of rows) ≡ length rows
  length-map [] = refl
  length-map (row ∷ rows) = omega (arith, length-map rows)

  -- One record and the chunk found for it.
  record_row :
      (total round : ℕ) (hash : Text) (by_hash : Dict (ChunkDto × List ℕ)) (f : ChunkFileDto)
      (c : ChunkInfo)
      → f ≡ chunk_file_record content_hash now created updated round total hash c
      → c.source_details.file_hash ≡ some hash
      → IsStorable c
      → Finds by_hash c
      → (chunk : ChunkDto × List ℕ) × (lookup f.chunk_hash by_hash ≡ some chunk)
        × (f.file_path ≡ path)
        × (chunk_info_of (f, chunk) ≡ c)
  unfolding chunk_file_record
  record_row total round hash by_hash f c e eh h (dto, vector, found, text, v) = (
    (dto, vector),
    subst (λ g. lookup g.chunk_hash by_hash ≡ some (dto, vector)) (sym e) found,
    ap (λ g. g.file_path) e ∙ h.here,
    ap (λ g. chunk_info_of (g, (dto, vector))) e
        ∙ chunk_info_of-chunk total round hash c dto vector eh text v h.plain,
  )

  append_row-same :
      (rows : List Row) (row : Row)
      → append_row path row ((path, rows) ∷ []) ≡ (path, rows ++ row ∷ []) ∷ []
  unfolding append_row
  append_row-same rows row = rw (text_eq_refl path) refl

  group_rows-found :
      (by_hash : Dict (ChunkDto × List ℕ)) (f : ChunkFileDto) (fs : List ChunkFileDto)
      (groups : Dict (List Row)) (chunk : ChunkDto × List ℕ)
      → lookup f.chunk_hash by_hash ≡ some chunk
      → f.file_path ≡ path
      → group_rows by_hash (f ∷ fs) groups
        ≡ group_rows by_hash fs (append_row path (f, chunk) groups)
  unfolding group_rows
  group_rows-found by_hash f fs groups chunk at_hash at_path =
      rw (at_hash, group_rows)
        (ap (λ p. group_rows by_hash fs (append_row p (f, chunk) groups)) at_path)

  append_row-first : (row : Row) → append_row path row [] ≡ (path, row ∷ []) ∷ []
  unfolding append_row
  append_row-first row = refl

  group_rows-Records :
      (total : ℕ) (by_hash : Dict (ChunkDto × List ℕ)) (fs : List ChunkFileDto)
      (cs : List ChunkInfo) (rows : List Row)
      → Records total fs cs
      → All IsStorable cs
      → All (Finds by_hash) cs
      → (more : List Row) × (group_rows by_hash fs ((path, rows) ∷ []) ≡ (path, rows ++ more) ∷ [])
        × (map chunk_info_of more ≡ cs)
  unfolding group_rows Records
  group_rows-Records total by_hash [] [] rows r h k = ([], rw (append-nil rows) refl, refl)
  group_rows-Records total by_hash [] (c ∷ cs) rows r h k = elim r [ ]
  group_rows-Records total by_hash (f ∷ fs) [] rows r h k = elim r [ ]
  group_rows-Records total by_hash (f ∷ fs) (c ∷ cs) rows (round, hash, e, eh, r) (h, hs) (k, ks) =
      let (chunk, at_hash, at_path, same) = record_row total round hash by_hash f c e eh h k in
      let row : Row = (f, chunk) in
      let (more, e', m) = group_rows-Records total by_hash fs cs (rows ++ row ∷ []) r hs ks in
      (
        row ∷ more,
        group_rows-found by_hash f fs _ chunk at_hash at_path
            ∙ rw (append_row-same rows row) (e' ∙ rw (append_assoc rows (row ∷ []) more) refl),
        rw (same, m) refl,
      )

  -- The rows of a file whose chunks were all stored are complete.
  is_complete-Records :
      (f : ChunkFileDto) (fs : List ChunkFileDto) (c : ChunkInfo) (cs : List ChunkInfo)
      (chunk : ChunkDto × List ℕ) (rows : List Row)
      → Records (length (c ∷ cs)) (f ∷ fs) (c ∷ cs)
      → map chunk_info_of rows ≡ cs
      → is_complete ((f, chunk) ∷ rows) ≡ true
  unfolding is_complete Records chunk_file_record
  is_complete-Records f fs c cs chunk rows (round, hash, e, eh, r) m =
      let total : f.total_chunks ≡ suc (length cs) = ap (λ g. g.total_chunks) e in
      let size : length rows ≡ length cs = sym (length-map rows) ∙ ap length m in ground arith

  whole_group :
      (rows : List Row) (cs : List ChunkInfo)
      → is_complete rows ≡ true
      → map chunk_info_of rows ≡ cs
      → get_file_wise_chunk_infos (filter_out_invalid_files ((path, rows) ∷ [])) ≡ (path, cs) ∷ []
  unfolding get_file_wise_chunk_infos filter_out_invalid_files
  whole_group rows cs h m = rw (h, filter_out_invalid_files, m) refl

  fetched :
      (by_hash : Dict (ChunkDto × List ℕ)) (fs : List ChunkFileDto) (c : ChunkInfo)
      (cs : List ChunkInfo)
      → Records (length (c ∷ cs)) fs (c ∷ cs)
      → All IsStorable (c ∷ cs)
      → All (Finds by_hash) (c ∷ cs)
      → get_file_wise_chunk_infos (filter_out_invalid_files (group_rows by_hash fs []))
        ≡ (path, c ∷ cs) ∷ []
  unfolding Records
  fetched by_hash [] c cs r h k = elim r [ ]
  fetched by_hash (f ∷ fs) c cs (round, hash, e, eh, r) (h, hs) (k, ks) =
      let (chunk, at_hash, at_path, same) =
        record_row (length (c ∷ cs)) round hash by_hash f c e eh h k in
      let row : Row = (f, chunk) in
      let (more, e', m) = group_rows-Records (length (c ∷ cs)) by_hash fs cs (row ∷ []) r hs ks in
      let groups : group_rows by_hash (f ∷ fs) [] ≡ (path, row ∷ more) ∷ [] =
        group_rows-found by_hash f fs [] chunk at_hash at_path ∙ rw (append_row-first row) e' in
      let whole = is_complete-Records f fs c cs chunk more (round, hash, e, eh, r) m in
      rw groups (whole_group (row ∷ more) (c ∷ cs) whole (rw (same, m) refl))

  stored_or : Stored → Result StoreError Stored → Stored
  stored_or s (ok stored) = stored
  stored_or s (err e) = s

  add_differential_chunks_to_store-Records :
      (cs : List ChunkInfo)
      → All IsStorable cs
      → (records : List ChunkDtoWithVector) × (fs : List ChunkFileDto)
        × (add_differential_chunks_to_store content_hash now created updated ((path, cs) ∷ [])
            ≡ ok (records, fs))
        × Records (length cs) fs cs
  unfolding add_differential_chunks_to_store add_chunks
  add_differential_chunks_to_store-Records cs h =
      let (records, fs, next, e, r) = add_file_chunks-Records (length cs) 0 cs ([], []) h in
      (records, fs, rw (e, add_chunks) refl, r)

  -- One file's chunks are handed over, each with a file hash, an embedding and no line numbers in its
  -- text. If the chunk table finds, for the hashes of the rows, each chunk's text and vector under its
  -- hash, then the rows as they are handed over, before `bulk_insert` cuts them, make those chunks.
  pub stored_chunks_of_batch-add_differential_chunks_to_store :
      (query : List Text → List (ChunkDto × List ℕ)) (c : ChunkInfo) (cs : List ChunkInfo)
      (stored : Stored)
      → All IsStorable (c ∷ cs)
      → add_differential_chunks_to_store content_hash now created updated ((path, c ∷ cs) ∷ [])
        ≡ ok stored
      → All (Finds (by_chunk_hash (query (unique [] (map (λ f. f.chunk_hash) stored.1))))) (c ∷ cs)
      → stored_chunks_of_batch query stored.1 ≡ (path, c ∷ cs) ∷ []
  unfolding stored_chunks_of_batch get_file_wise_stored_chunks stored_or
  stored_chunks_of_batch-add_differential_chunks_to_store query c cs stored h e k =
      let (records, fs, e', r) = add_differential_chunks_to_store-Records (c ∷ cs) h in
      let same : fs ≡ stored.1 = ap (λ s. (stored_or ([], []) s).1) (sym e' ∙ e) in
      let by_hash = by_chunk_hash (query (unique [] (map (λ f. f.chunk_hash) stored.1))) in
      fetched by_hash stored.1 c cs (subst (λ gs. Records (length (c ∷ cs)) gs (c ∷ cs)) same r) h k
