-- ===== src/Search.antt =====
-- services/search: the search in freshly cut chunks and the search in the vector database.
pub mod Order
pub mod Lexical
pub mod Stored
pub mod Native
use deputydev_core.Prelude.{
  ◌∷◌, ℕ, List, [], Option, none, some, Bool, true, false, is_empty, if◌then◌else◌,
}
use deputydev_core.Py.Chars.{Text}
use deputydev_core.Py.Dict.{Dict}
use deputydev_core.Py.Result.{Result, ok, err}
use deputydev_core.Chunking.Data.{ChunkInfo}
use deputydev_core.Search.Lexical.{Floats}
use deputydev_core.Search.Native.{Vectors, Texts, search_native}
use deputydev_core.Search.Stored.{Tables, search_stored}

pub data SearchTypes : Type 0 where
  native vector_db_based : SearchTypes

-- The ValueErrors.
pub data SearchError : Type 0 where
  no_chunking_handler no_client no_query_vector no_files : SearchError

module _ {F V : Type 0} (f : Floats F) (v : Vectors F V) (t : Texts)
    (content_hash : Text → Text) where
  unfoldable pub search_in_database :
      Text
      → Dict Text
      → Option (List ℕ)
      → Option Tables
      → ℕ
      → Result SearchError (List ChunkInfo × Option ℕ)
  unfolding search_stored
  search_in_database query files query_vector none limit = err no_client
  search_in_database query files none (some tables) limit = err no_query_vector
  search_in_database query [] (some vector) (some tables) limit = err no_files
  search_in_database query (file ∷ files) (some vector) (some tables) limit =
      let (chunks, tokens) =
        search_stored content_hash tables (file ∷ files) query vector limit true in
      ok (chunks, some tokens)

  -- A chunking handler is given by the chunks that it cuts.
  unfoldable pub perform_search :
      Text
      → Dict Text
      → SearchTypes
      → ℕ
      → Option (List ChunkInfo)
      → Option (List ℕ)
      → Option Tables
      → Result SearchError (List ChunkInfo × Option ℕ)
  unfolding search_native search_in_database
  perform_search query files native limit none query_vector client = err no_chunking_handler
  perform_search query files native limit (some chunks) query_vector client =
      ok (search_native f v t query chunks limit)
  perform_search query files vector_db_based limit handler query_vector client =
      search_in_database query files query_vector client limit

unfoldable pub perform_semantic_search :
    (Text → Text) → Text → Dict Text → ℕ → List ℕ → Tables → List ChunkInfo
unfolding search_stored
perform_semantic_search content_hash query files limit query_vector tables =
    (search_stored content_hash tables files query query_vector limit false).0
