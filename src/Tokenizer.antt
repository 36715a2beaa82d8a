-- ===== src/Tokenizer.antt =====
-- services/tokenizer/tokenize.py: the n-grams of `ContentTokenizer`. The tokens of the content,
-- which the constructor finds by regular expressions, are given. A previous token that is `None` or
-- empty fails the same test, so both are the empty text.
pub mod Counts
use deputydev_core.Prelude.{
  ℕ, List, [], ◌∷◌, ◌++◌, Bool, true, false, not, ◌&&◌, is_empty, if◌then◌else◌, ◌≡◌, refl,
}
use deputydev_core.Py.Chars.{Text, codes}

abbrev joint : Text
joint = codes "_"

unfoldable pub bigrams_from : Text → List Text → List Text → List Text
bigrams_from prev [] res = res
bigrams_from prev (token ∷ tokens) res =
    bigrams_from token tokens
      (if not (is_empty prev) then res ++ (prev ++ (joint ++ token)) ∷ [] else res)

unfoldable pub construct_bigrams : List Text → List Text
unfolding bigrams_from
construct_bigrams tokens = bigrams_from [] tokens []

unfoldable pub trigrams_from : Text → Text → List Text → List Text → List Text
trigrams_from prev_prev prev [] res = res
trigrams_from prev_prev prev (token ∷ tokens) res = trigrams_from prev token tokens (
    if not (is_empty prev) && not (is_empty prev_prev)
    then res ++ (prev_prev ++ (joint ++ (prev ++ (joint ++ token)))) ∷ []
    else res)

unfoldable pub construct_trigrams : List Text → List Text
unfolding trigrams_from
construct_trigrams tokens = trigrams_from [] [] tokens []

-- The object: `get_all_tokens` extends the list `self.tokens` in place, and returns that list.
pub record ContentTokenizer : Type 0 where
  pub tokens : List Text

unfoldable pub extend : ContentTokenizer → List Text → ContentTokenizer
extend t more = record { tokens = t.tokens ++ more }

unfoldable pub get_all_tokens : Bool → Bool → ContentTokenizer → ContentTokenizer × List Text
unfolding extend construct_bigrams construct_trigrams
get_all_tokens include_bigrams include_trigrams t =
    let t' = if include_bigrams then extend t (construct_bigrams t.tokens) else t in
    let t'' = if include_trigrams then extend t' (construct_trigrams t'.tokens) else t' in
    (t'', t''.tokens)
