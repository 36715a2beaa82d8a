-- ===== src/Tokenizer/Counts.antt =====
-- How many tokens `get_all_tokens` returns.
use deputydev_core.Prelude.{
  ◌+◌, ◌-◌, ◌*◌, ◌≤◌, List, [], ◌∷◌, ◌++◌, true, false, is_empty, length, length-append, All,
  All-append, Bool-cases, inl, inr, ◌≡◌, refl, ap, arith,
}
use deputydev_core.Py.Chars.{Text, codes}
use deputydev_core.Tokenizer.{
  bigrams_from, construct_bigrams, trigrams_from, construct_trigrams, get_all_tokens,
}

abbrev pub AreNonempty : List Text → Type 0
AreNonempty = All (λ (t : Text). is_empty t ≡ false)

length-bigrams_from :
    (prev : Text) (tokens res : List Text)
    → is_empty prev ≡ false
    → AreNonempty tokens
    → length (bigrams_from prev tokens res) ≡ length res + length tokens
unfolding bigrams_from
length-bigrams_from prev [] res h hs = omega arith
length-bigrams_from prev (t ∷ ts) res h (k, ks) = ground (
  arith,
  length-bigrams_from t ts (res ++ (prev ++ (codes "_" ++ t)) ∷ []) k ks,
  length-append res ((prev ++ (codes "_" ++ t)) ∷ []),
)

length-construct_bigrams :
    (tokens : List Text)
    → AreNonempty tokens
    → length (construct_bigrams tokens) ≡ length tokens - 1
unfolding construct_bigrams
length-construct_bigrams [] h = refl
length-construct_bigrams (t ∷ ts) (h, hs) = omega (arith, length-bigrams_from t ts [] h hs)

length-trigrams_from :
    (prev_prev prev : Text) (tokens res : List Text)
    → is_empty prev_prev ≡ false
    → is_empty prev ≡ false
    → AreNonempty tokens
    → length (trigrams_from prev_prev prev tokens res) ≡ length res + length tokens
unfolding trigrams_from
length-trigrams_from pp p [] res g h hs = omega arith
length-trigrams_from pp p (t ∷ ts) res g h (k, ks) = ground (
  arith,
  length-trigrams_from p t ts (res ++ (pp ++ (codes "_" ++ (p ++ (codes "_" ++ t)))) ∷ []) h k ks,
  length-append res ((pp ++ (codes "_" ++ (p ++ (codes "_" ++ t)))) ∷ []),
)

length-construct_trigrams :
    (tokens : List Text)
    → AreNonempty tokens
    → length (construct_trigrams tokens) ≡ length tokens - 2
unfolding construct_trigrams
length-construct_trigrams [] h = refl
length-construct_trigrams (t ∷ []) h = refl
length-construct_trigrams (t ∷ u ∷ ts) (h, (k, ks)) =
    ground (arith, length-trigrams_from t u ts [] h k ks)

joined_nonempty : (s t : Text) → is_empty (s ++ (codes "_" ++ t)) ≡ false
joined_nonempty [] t = refl
joined_nonempty (c ∷ s) t = refl

bigrams_from-AreNonempty :
    (prev : Text) (tokens res : List Text)
    → AreNonempty res
    → AreNonempty (bigrams_from prev tokens res)
unfolding bigrams_from
bigrams_from-AreNonempty prev [] res h = h
bigrams_from-AreNonempty prev (t ∷ ts) res h = elim (Bool-cases (is_empty prev)) [
  | inl e ↦ rw (e, bigrams_from) (bigrams_from-AreNonempty t ts res h)
  | inr e ↦
      rw (e, bigrams_from)
        (bigrams_from-AreNonempty t ts (res ++ (prev ++ (codes "_" ++ t)) ∷ [])
          (All-append (λ (u : Text). is_empty u ≡ false) res _ h (joined_nonempty prev t, tt)))
]

-- The bigrams are appended to the very list that the trigrams are then built from.
get_all_tokens_lem :
    (tokens : List Text)
    → (get_all_tokens true true (record { tokens = tokens })).1
      ≡ (tokens ++ construct_bigrams tokens)
        ++ construct_trigrams (tokens ++ construct_bigrams tokens)
unfolding get_all_tokens
get_all_tokens_lem tokens = refl

-- With bigrams and trigrams, `n` tokens, two at least and none empty, give 4 n - 4 tokens: the
-- trigrams are taken over the tokens and the bigrams behind them. (The tokens, their bigrams and
-- their trigrams alone would be 3 n - 3.) The object is left with the longer list.
pub length-get_all_tokens :
    (tokens : List Text)
    → AreNonempty tokens
    → 2 ≤ length tokens
    → (length (get_all_tokens true true (record { tokens = tokens })).1 + 4 ≡ 4 * length tokens)
      × ((get_all_tokens true true (record { tokens = tokens })).0.tokens
          ≡ (get_all_tokens true true (record { tokens = tokens })).1)
length-get_all_tokens tokens h n =
    let bigrams = construct_bigrams tokens in
    let grown = tokens ++ bigrams in
    let full : AreNonempty grown =
      All-append (λ (u : Text). is_empty u ≡ false) tokens bigrams h
        (unfold construct_bigrams in bigrams_from-AreNonempty [] tokens [] tt) in
    (
      omega (
        arith,
        ap length (get_all_tokens_lem tokens),
        length-append grown (construct_trigrams grown),
        length-construct_trigrams grown full,
        length-append tokens bigrams,
        length-construct_bigrams tokens h,
      ),
      unfold get_all_tokens in refl,
    )
