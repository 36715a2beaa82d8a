-- ===== src/Chunking/Source/Plain.antt =====
-- Files of no known language.
use deputydev_core.Prelude.{List, [], ◌∷◌, Bool, Option, none, map, ◌≡◌, refl, ap, ◌∙◌, arith}
use deputydev_core.Py.Chars.{Text}
use deputydev_core.Py.Lines.{join_lf}
use deputydev_core.Py.Result.{ok}
use deputydev_core.Chunking.Data.{ChunkInfo}
use deputydev_core.Chunking.Content.{LineChunk}
use deputydev_core.Chunking.Content.Cover.{join_lf-chunk_content}
use deputydev_core.Chunking.Source.{CodeChunk, plain_chunks, chunk_source, chunk_info}

plain_chunks-content :
    (path : Text) (file_hash : Option Text) (chunks : List LineChunk)
    → map (λ c. c.content) (plain_chunks path file_hash chunks) ≡ map (λ c. c.chunk) chunks
unfolding plain_chunks chunk_info
plain_chunks-content path file_hash [] = refl
plain_chunks-content path file_hash (c ∷ cs) =
    ap (λ (r : List Text). c.chunk ∷ r) (plain_chunks-content path file_hash cs)

-- A file of no known language is always chunked, and its chunks' texts, joined by line feeds, are
-- the file again.
pub join_lf-chunk_source :
    (path : Text) (file_hash : Option Text) (strategy : Text → Bool → Option (List CodeChunk))
    (use_new_chunking : Bool) (content : Text)
    → (chunks : List ChunkInfo) × (chunk_source path file_hash none strategy use_new_chunking
          content
        ≡ ok chunks)
      × (join_lf (map (λ c. c.content) chunks) ≡ content)
unfolding chunk_source
join_lf-chunk_source path file_hash strategy use_new_chunking content =
    let (chunks, e, joined) = join_lf-chunk_content content 50 (omega arith) in
    (
      plain_chunks path file_hash chunks,
      rw (chunk_source, e) refl,
      ap join_lf (plain_chunks-content path file_hash chunks) ∙ joined,
    )
