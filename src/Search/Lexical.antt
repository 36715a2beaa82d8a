-- ===== src/Search/Lexical.antt =====
-- services/search/native/lexical_search.py: the inverted index and its BM25 scores. The arithmetic of
-- floats is a parameter; numbers that the code keeps as whole floats are natural numbers. The ids of
-- documents count from 0, so a dictionary on them is a list. The tokens of a text are given.
use deputydev_core.Prelude.{
  ℕ, ◌+◌, List, [], ◌∷◌, ◌++◌, Bool, none, some, ◌==◌, length, get_elem?, if◌then◌else◌,
}
use deputydev_core.Py.Chars.{Text}
use deputydev_core.Py.Dict.{Dict, lookup, has_key, set_item}
use deputydev_core.Py.Result.{Result, ok, err, ◌>>=◌}
use deputydev_core.Search.Order.{sort}

pub data ScoreError : Type 0 where
  zero_division domain_error key_error : ScoreError

-- Floats: `decimal n k` is the literal n / 10 ^ k.
pub record Floats (F : Type 0) : Type 0 where
  pub decimal : ℕ → ℕ → F
  pub less : F → F → Bool
  pub add : F → F → F
  pub sub : F → F → F
  pub mul : F → F → F
  pub div : F → F → Result ScoreError F
  pub log : F → Result ScoreError F

pub record LexicalSearch : Type 0 where
  pub inverted_index : Dict (List (ℕ × ℕ))
  pub doc_lengths : List ℕ
  pub total_doc_length : ℕ
  pub metadata : List Text

abbrev pub new_index : LexicalSearch
new_index = record { inverted_index = []; doc_lengths = []; total_doc_length = 0; metadata = [] }

-- `self.inverted_index[token]`, the empty list for a new token
unfoldable pub postings_of : Text → Dict (List (ℕ × ℕ)) → List (ℕ × ℕ)
postings_of token d = elim (lookup token d) [ none ↦ [] | some ps ↦ ps ]

unfoldable pub post_tokens : ℕ → Dict ℕ → Dict (List (ℕ × ℕ)) → Dict (List (ℕ × ℕ))
unfolding postings_of
post_tokens doc_id [] d = d
post_tokens doc_id ((token, freq) ∷ freqs) d =
    post_tokens doc_id freqs (set_item token (postings_of token d ++ (doc_id, freq) ∷ []) d)

unfoldable pub total : Dict ℕ → ℕ
total [] = 0
total ((token, freq) ∷ freqs) = freq + total freqs

unfoldable pub add_document : Text → Dict ℕ → LexicalSearch → LexicalSearch
unfolding post_tokens total
add_document title token_freq index = record {
  inverted_index = post_tokens (length index.doc_lengths) token_freq index.inverted_index;
  doc_lengths = index.doc_lengths ++ total token_freq ∷ [];
  total_doc_length = index.total_doc_length + total token_freq;
  metadata = index.metadata ++ title ∷ [];
}

-- The documents, a title and a content each.
unfoldable pub add_documents : (Text → Dict ℕ) → List (Text × Text) → LexicalSearch → LexicalSearch
unfolding add_document
add_documents token_freq_of [] index = index
add_documents token_freq_of ((title, content) ∷ docs) index =
    add_documents token_freq_of docs (add_document title (token_freq_of content) index)

unfoldable pub create_lexical_search_tokens : (Text → Dict ℕ) → List (Text × Text) → LexicalSearch
unfolding add_documents
create_lexical_search_tokens token_freq_of docs = add_documents token_freq_of docs new_index

module _ {F : Type 0} (f : Floats F) where
  abbrev pub nat : ℕ → F
  nat n = f.decimal n 0

  -- `self.k1 * (1 - self.b + self.b * relative_length)`
  unfoldable pub length_factor : F → F
  length_factor relative_length =
      f.mul (f.decimal 12 1)
        (f.add (f.sub (nat 1) (f.decimal 75 2)) (f.mul (f.decimal 75 2) relative_length))

  unfoldable pub bm25 : LexicalSearch → ℕ → Text → ℕ → Result ScoreError F
  unfolding postings_of length_factor
  bm25 index doc_id term term_freq =
      let num_docs = length index.doc_lengths in
      let found = length (postings_of term index.inverted_index) in
      f.div (f.add (f.sub (nat num_docs) (nat found)) (f.decimal 5 1))
        (f.add (nat found) (f.decimal 5 1))
      >>= (λ ratio. f.log (f.add ratio (nat 1)) >>= (λ idf.
          elim (get_elem? index.doc_lengths doc_id) [
            | none ↦ err key_error
            | some doc_length ↦ f.div (nat index.total_doc_length) (nat num_docs) >>= (λ average.
                f.div (nat doc_length) average >>= (λ relative_length.
                  f.div (f.mul (f.add (f.decimal 12 1) (nat 1)) (nat term_freq))
                    (f.add (nat term_freq) (length_factor relative_length))
                  >>= (λ tf. ok (f.mul idf tf))))
          ]))

  -- `scores[doc_id] += score`, from 0 for a new id
  unfoldable pub add_score : ℕ → F → List (ℕ × F) → List (ℕ × F)
  add_score doc_id score [] = (doc_id, f.add (nat 0) score) ∷ []
  add_score doc_id score ((i, s) ∷ scores) =
      let rest = add_score doc_id score scores in
      if i == doc_id then (i, f.add s score) ∷ scores else (i, s) ∷ rest

  unfoldable pub score_postings :
      LexicalSearch → Text → List (ℕ × ℕ) → List (ℕ × F) → Result ScoreError (List (ℕ × F))
  unfolding add_score
  score_postings index token [] scores = ok scores
  score_postings index token ((doc_id, term_freq) ∷ postings) scores =
      bm25 index doc_id token term_freq
      >>= (λ score. score_postings index token postings (add_score doc_id score scores))

  unfoldable pub score_tokens :
      LexicalSearch → List Text → List (ℕ × F) → Result ScoreError (List (ℕ × F))
  unfolding score_postings postings_of
  score_tokens index [] scores = ok scores
  score_tokens index (token ∷ tokens) scores =
      score_postings index token (postings_of token index.inverted_index) scores
      >>= (λ next. score_tokens index tokens next)

  unfoldable pub with_titles : LexicalSearch → List (ℕ × F) → Result ScoreError (List (Text × F))
  with_titles index [] = ok []
  with_titles index ((doc_id, score) ∷ scores) = elim (get_elem? index.metadata doc_id) [
    | none ↦ err key_error
    | some title ↦ with_titles index scores >>= (λ rest. ok ((title, score) ∷ rest))
  ]

  -- The highest score first. A result holds the title a second time, as its metadata.
  unfoldable pub search_document : LexicalSearch → List Text → Result ScoreError (List (Text × F))
  unfolding score_tokens sort with_titles
  search_document index query_tokens =
      score_tokens index query_tokens []
      >>= (λ scores. with_titles index (sort (λ x y. f.less y.1 x.1) scores))

  -- The first score of each title.
  unfoldable pub first_scores : Dict F → List (Text × F) → Dict F
  unfolding has_key set_item
  first_scores res [] = res
  first_scores res ((title, score) ∷ results) =
      first_scores (if has_key title res then res else set_item title score res) results

  unfoldable pub max_of : F → Dict F → F
  max_of best [] = best
  max_of best ((title, score) ∷ res) = max_of (if f.less best score then score else best) res

  unfoldable pub min_of : F → Dict F → F
  min_of best [] = best
  min_of best ((title, score) ∷ res) = min_of (if f.less score best then score else best) res

  unfoldable pub scaled : F → F → Dict F → Result ScoreError (Dict F)
  scaled min_score max_score [] = ok []
  scaled min_score max_score ((title, score) ∷ res) =
      f.div (f.sub score min_score) (f.sub max_score min_score)
      >>= (λ v. scaled min_score max_score res >>= (λ rest. ok ((title, v) ∷ rest)))

  unfoldable pub normalized : Dict F → Result ScoreError (Dict F)
  unfolding max_of min_of scaled
  normalized [] = ok []
  normalized ((title, score) ∷ res) =
      let max_score = max_of score res in
      let lowest = min_of score res in
      scaled (if f.less lowest max_score then lowest else nat 0) max_score ((title, score) ∷ res)

  -- An exception is logged, and nothing found.
  unfoldable pub search_index : LexicalSearch → List Text → Dict F
  unfolding search_document first_scores normalized
  search_index index query_tokens =
      elim (search_document index query_tokens
        >>= (λ results. normalized (first_scores [] results))) [ ok res ↦ res | err e ↦ [] ]

  -- The query's tokens are the list of them, with its repeats.
  unfoldable pub lexical_search :
      (Text → List Text) → (Text → Dict ℕ) → Text → List (Text × Text) → Dict F
  unfolding search_index create_lexical_search_tokens
  lexical_search tokens_of token_freq_of query all_docs =
      search_index (create_lexical_search_tokens token_freq_of all_docs) (tokens_of query)
