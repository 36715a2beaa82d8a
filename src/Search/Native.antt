-- ===== src/Search/Native.antt =====
-- services/search/native/search.py and services/search/native/vector_search.py. The chunks are given;
-- the embeddings and numpy's cosines and means are parameters.
use deputydev_core.Prelude.{ℕ, ◌+◌, List, [], ◌∷◌, map, Bool, true, false, Option, none, some, take}
use deputydev_core.Py.Chars.{Text}
use deputydev_core.Py.Dict.{Dict, lookup, set_item, update}
use deputydev_core.Chunking.Data.{ChunkInfo}
use deputydev_core.Chunking.PrDiff.{chunk_pr_diff}
use deputydev_core.Chunking.Render.{denotation, get_chunk_content_with_meta_data}
use deputydev_core.Search.Lexical.{Floats, lexical_search}
use deputydev_core.Search.Order.{sort}

-- `embed` is told whether to store the embeddings.
pub record Vectors (F V : Type 0) : Type 0 where
  pub embed : List Text → Bool → List V × ℕ
  pub cosine_similarity : V → List V → List F
  pub mean : List (List F) → List F

-- What the index and the query's chunks are made with.
pub record Texts : Type 0 where
  pub tokens_of : Text → List Text
  pub token_freq_of : Text → Dict ℕ
  pub is_header : Text → Bool
  pub token_count : Text → ℕ
  pub token_limit : ℕ
  pub show_list : List Text → Text

module _ {F V : Type 0} (f : Floats F) (v : Vectors F V) (t : Texts) where
  unfoldable pub get_query_texts_similarity : Text → List Text → List F × Option ℕ
  get_query_texts_similarity query [] = ([], none)
  get_query_texts_similarity query (text ∷ texts) =
      let (text_embeddings, text_tokens) = v.embed (text ∷ texts) true in
      let query_chunks = chunk_pr_diff t.is_header 200 15 t.token_count t.token_limit query in
      let (query_embeddings, query_tokens) = v.embed query_chunks false in
      (
        v.mean (map (λ q. v.cosine_similarity q text_embeddings) query_embeddings),
        some (text_tokens + query_tokens),
      )

  unfoldable pub shown : ChunkInfo → Bool → Text
  shown c add_class_function_info =
      get_chunk_content_with_meta_data t.show_list c false false add_class_function_info

  unfoldable pub create_chunk_str_to_contents : List ChunkInfo → Dict Text
  unfolding denotation shown
  create_chunk_str_to_contents chunks = update [] (map (λ c. (denotation c, shown c true)) chunks)

  -- The i-th score goes to the i-th chunk.
  unfoldable pub scores_by_place : List ChunkInfo → List F → List (Text × F)
  unfolding denotation
  scores_by_place [] scores = []
  scores_by_place (c ∷ chunks) [] = []
  scores_by_place (c ∷ chunks) (s ∷ scores) = (denotation c, s) ∷ scores_by_place chunks scores

  unfoldable pub compute_vector_search_scores : Text → List ChunkInfo → Dict F × Option ℕ
  unfolding get_query_texts_similarity create_chunk_str_to_contents scores_by_place
  compute_vector_search_scores query chunks =
      let contents = map (λ (d, content). content) (create_chunk_str_to_contents chunks) in
      let (scores, tokens) = get_query_texts_similarity query contents in
      (update [] (scores_by_place chunks scores), tokens)

  unfoldable pub chunks_to_docs : List ChunkInfo → List (Text × Text)
  unfolding denotation shown
  chunks_to_docs chunks = map (λ c. (denotation c, shown c true)) chunks

  -- The loop puts the score of each chunk into the lexical scores.
  unfoldable pub combined : Dict F → Dict F → List ChunkInfo → Dict F
  unfolding denotation lookup set_item
  combined vector_scores scores [] = scores
  combined vector_scores scores (c ∷ chunks) =
      let vector_score : F = elim (lookup (denotation c) vector_scores) [
        | none ↦ f.decimal 4 2
        | some s ↦ s
      ] in
      let score : F = elim (lookup (denotation c) scores) [
        | some s ↦ f.add s (f.mul vector_score (f.decimal 35 1))
        | none ↦ f.mul (f.decimal 2 2) vector_score
      ] in
      combined vector_scores (set_item (denotation c) score scores) chunks

  -- Behind the loop each chunk has a score.
  unfoldable pub score_of : Dict F → ChunkInfo → F
  unfolding denotation lookup
  score_of scores c = elim (lookup (denotation c) scores) [ none ↦ f.decimal 0 0 | some s ↦ s ]

  unfoldable pub search_native : Text → List ChunkInfo → ℕ → List ChunkInfo × Option ℕ
  unfolding chunks_to_docs compute_vector_search_scores combined score_of sort
  search_native query all_chunks max_chunks_to_return =
      let lexical =
        lexical_search f t.tokens_of t.token_freq_of query (chunks_to_docs all_chunks) in
      let (vector_scores, input_tokens) = compute_vector_search_scores query all_chunks in
      let scores = combined vector_scores lexical all_chunks in
      let ranked = sort (λ c d. f.less (score_of scores d) (score_of scores c)) all_chunks in
      (take max_chunks_to_return ranked, input_tokens)
