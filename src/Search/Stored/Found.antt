-- ===== src/Search/Stored/Found.antt =====
-- What the search in the vector database returns, with the import-only chunks.
use mathlib.Core.Path.{subst}
use deputydev_core.Prelude.{
  ℕ, List, [], ◌∷◌, ◌++◌, map, Bool, true, false, ◌&&◌, none, some, any_of, any_of-append, All, ◌≡◌,
  refl, ◌∙◌, arith, Bool-cases, inl, inr,
}
use deputydev_core.Py.Chars.{Text, text_eq, text_eq_comm, text_eq_sound}
use deputydev_core.Py.Dict.{Dict}
use deputydev_core.Chunking.Data.{ChunkInfo}
use deputydev_core.Chunking.Store.{ChunkFileDto, ChunkDto}
use deputydev_core.Repository.{get_chunk_files_by_commit_hashes}
use deputydev_core.Search.Order.{IsPairwise, any_of-sort, sort-IsPairwise, sort-IsOrdered}
use deputydev_core.Search.Stored.{
  Tables, with_hash, matched, found_info, is_before, add_info, import_chunks, with_imports,
  found_chunks, search_stored,
}
use deputydev_core.Search.Stored.Ordered.{
  IsNotAfter, IsNotAfter-trans, is_before-IsNotAfter, is_before_none,
}

abbrev pub is_listed : List ChunkFileDto → ChunkDto → Bool
is_listed files dto = any_of (λ f. text_eq f.chunk_hash dto.chunk_hash) files

with_hash-some :
    (hash : Text) (files : List ChunkFileDto)
    → any_of (λ f. text_eq f.chunk_hash hash) files ≡ true
    → (c : ChunkFileDto) × (with_hash hash files ≡ some c)
unfolding with_hash
with_hash-some hash [] h = absurd (cc)
with_hash-some hash (f ∷ files) h = elim (Bool-cases (text_eq f.chunk_hash hash)) [
  | inl e ↦ (f, rw e refl)
  | inr e ↦ let (c, r) = with_hash-some hash files (ground arith) in (c, rw e r)
]

module _ (content_hash : Text → Text) where
  abbrev pub has_hash : Text → ChunkInfo → Bool
  has_hash hash c = text_eq (content_hash c.content) hash

  -- The contents differ, as far as their hashes tell.
  abbrev pub Differ : ChunkInfo → ChunkInfo → Type 0
  Differ c d = has_hash (content_hash d.content) c ≡ false

  -- A row of the search whose text has the hash, and which one of the files holds.
  abbrev pub is_hit : List ChunkFileDto → Text → ChunkDto → Bool
  is_hit files hash dto = text_eq (content_hash dto.text) hash && is_listed files dto

  Differ-sym : (c d : ChunkInfo) → Differ c d → Differ d c
  Differ-sym c d h = text_eq_comm (content_hash d.content) (content_hash c.content) ∙ h

  append-Differ :
      (found : List ChunkInfo) (c : ChunkInfo)
      → IsPairwise Differ found
      → any_of (has_hash (content_hash c.content)) found ≡ false
      → IsPairwise Differ (found ++ c ∷ [])
  append-Differ [] c o h = (tt, tt)
  append-Differ (d ∷ found) c (a, o) h =
      (All-one d found c a (ground arith), append-Differ found c o (ground arith))
    where
      All-one :
          (d : ChunkInfo) (found : List ChunkInfo) (c : ChunkInfo)
          → All (Differ d) found
          → Differ d c
          → All (Differ d) (found ++ c ∷ [])
      All-one d [] c a h = (h, tt)
      All-one d (e ∷ found) c (b, a) h = (b, All-one d found c a h)

  add_info-Differ :
      (found cs : List ChunkInfo)
      → IsPairwise Differ found
      → IsPairwise Differ (add_info content_hash found cs)
  unfolding add_info
  add_info-Differ found [] o = o
  add_info-Differ found (c ∷ cs) o =
      elim (Bool-cases (any_of (has_hash (content_hash c.content)) found)) [
        | inl e ↦ rw e (add_info-Differ found cs o)
        | inr e ↦ rw e (add_info-Differ (found ++ c ∷ []) cs (append-Differ found c o e))
      ]

  add_info-keeps :
      (hash : Text) (found cs : List ChunkInfo)
      → any_of (has_hash hash) found ≡ true
      → any_of (has_hash hash) (add_info content_hash found cs) ≡ true
  unfolding add_info
  add_info-keeps hash found [] h = h
  add_info-keeps hash found (c ∷ cs) h =
      elim (Bool-cases (any_of (has_hash (content_hash c.content)) found)) [
        | inl e ↦ rw e (add_info-keeps hash found cs h)
        | inr e ↦ rw e (
            add_info-keeps hash (found ++ c ∷ []) cs
              (ground (arith, any_of-append (has_hash hash) found (c ∷ []))))
      ]

  add_info-adds :
      (hash : Text) (found cs : List ChunkInfo)
      → any_of (has_hash hash) cs ≡ true
      → any_of (has_hash hash) (add_info content_hash found cs) ≡ true
  unfolding add_info
  add_info-adds hash found [] h = absurd (cc)
  add_info-adds hash found (c ∷ cs) h =
      elim (Bool-cases (any_of (has_hash (content_hash c.content)) found)) [
        | inl e ↦ rw e (elim (Bool-cases (has_hash hash c)) [
          | inl k ↦ add_info-keeps hash found cs (
              subst (λ (x : Text). any_of (has_hash x) found ≡ true)
                (text_eq_sound (content_hash c.content) hash k) e)
          | inr k ↦ add_info-adds hash found cs (ground arith)
        ])
        | inr e ↦ rw e (elim (Bool-cases (has_hash hash c)) [
          | inl k ↦
              add_info-keeps hash (found ++ c ∷ []) cs
                (ground (arith, any_of-append (has_hash hash) found (c ∷ [])))
          | inr k ↦ add_info-adds hash (found ++ c ∷ []) cs (ground arith)
        ])
      ]

  matched-later :
      (hash : Text) (dto : ChunkDto) (dtos : List ChunkDto) (files : List ChunkFileDto)
      → any_of (has_hash hash) (map found_info (matched dtos files)) ≡ true
      → any_of (has_hash hash) (map found_info (matched (dto ∷ dtos) files)) ≡ true
  unfolding matched
  matched-later hash dto dtos files h =
      elim (with_hash dto.chunk_hash files)
        as (λ found.
          any_of (has_hash hash) (
            map found_info (elim found as (λ x. List (ChunkFileDto × Text)) [
              | none ↦ matched dtos files
              | some c ↦ (c, dto.text) ∷ matched dtos files
            ]))
          ≡ true) [ none ↦ h | some c ↦ ground arith ]

  matched-hit :
      (hash : Text) (dtos : List ChunkDto) (files : List ChunkFileDto)
      → any_of (is_hit files hash) dtos ≡ true
      → any_of (has_hash hash) (map found_info (matched dtos files)) ≡ true
  unfolding matched found_info
  matched-hit hash [] files h = absurd (cc)
  matched-hit hash (dto ∷ dtos) files h = elim (Bool-cases (is_hit files hash dto)) [
    | inl e ↦
        let (c, r) = with_hash-some dto.chunk_hash files (ground arith) in
        rw (r, matched) (ground arith)
    | inr e ↦ matched-later hash dto dtos files (matched-hit hash dtos files (ground arith))
  ]

module _ (content_hash : Text → Text) (tables : Tables) (found : List (ChunkFileDto × Text)) where
  with_imports-Differ : IsPairwise (Differ content_hash) (with_imports content_hash tables found)
  unfolding with_imports
  with_imports-Differ =
      add_info-Differ content_hash (add_info content_hash [] (map found_info found))
        (import_chunks tables found) (add_info-Differ content_hash [] (map found_info found) tt)

  with_imports-has :
      (hash : Text)
      → any_of (has_hash content_hash hash) (map found_info found) ≡ true
      → any_of (has_hash content_hash hash) (with_imports content_hash tables found) ≡ true
  unfolding with_imports
  with_imports-has hash h =
      add_info-keeps content_hash hash (add_info content_hash [] (map found_info found))
        (import_chunks tables found) (add_info-adds content_hash hash [] (map found_info found) h)

-- The chunks that are found, import-only ones included, stand in the order of their paths and, in one
-- file, of their first lines; no two have the same content hash; and for each row of the search that
-- belongs to one of the files there is a chunk with its content hash.
pub search_stored-finds :
    (content_hash : Text → Text) (tables : Tables) (commits : Dict Text) (query : Text)
    (query_vector : List ℕ) (limit : ℕ) (hash : Text)
    → any_of
        (is_hit content_hash (get_chunk_files_by_commit_hashes tables.chunk_files commits) hash)
        (tables.hybrid
          (map (λ c. c.chunk_hash) (get_chunk_files_by_commit_hashes tables.chunk_files commits))
          query
          query_vector
          limit)
      ≡ true
    → IsPairwise IsNotAfter
        (search_stored content_hash tables commits query query_vector limit true).0
      × IsPairwise
          (Differ content_hash)
          (search_stored content_hash tables commits query query_vector limit true).0
      × (any_of
            (has_hash content_hash hash)
            (search_stored content_hash tables commits query query_vector limit true).0
          ≡ true)
unfolding search_stored found_chunks
search_stored-finds content_hash tables commits query query_vector limit hash h =
    let files = get_chunk_files_by_commit_hashes tables.chunk_files commits in
    let hits = tables.hybrid (map (λ c. c.chunk_hash) files) query query_vector limit in
    let all = with_imports content_hash tables (matched hits files) in
    (
      sort-IsOrdered is_before IsNotAfter is_before-IsNotAfter is_before_none IsNotAfter-trans all,
      sort-IsPairwise is_before (Differ content_hash) (Differ-sym content_hash) all
          (with_imports-Differ content_hash tables (matched hits files)),
      any_of-sort is_before (has_hash content_hash hash) all
          ∙ with_imports-has content_hash tables (matched hits files) hash
              (matched-hit content_hash hash hits files h),
    )
