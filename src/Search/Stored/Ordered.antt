-- ===== src/Search/Stored/Ordered.antt =====
-- The order of paths and lines in which the search in the vector database returns its chunks.
use native.Mathlib.Decide.{dec_lt}
use deputydev_core.Prelude.{
  ℕ, ◌<◌, ◌≤◌, [], ◌∷◌, true, false, ◌≡◌, ◌⊎◌, refl, sym, ap, ◌∙◌, arith, Bool-cases, inl, inr,
}
use mathlib.Core.Path.{subst}
use deputydev_core.Py.Chars.{Text, text_eq, text_eq_refl, text_eq_sound}
use deputydev_core.Chunking.Data.{ChunkInfo, file_path, start_line}
use deputydev_core.Search.Stored.{text_less, is_before}

-- The lexicographic order of texts by their code points.
abbrev pub IsLess : Text → Text → Type 0
IsLess s [] = ⊥
IsLess [] (d ∷ t) = Unit
IsLess (c ∷ s) (d ∷ t) = (c < d) ⊎ ((c ≡ d) × IsLess s t)

-- By path, and in one file by the first line.
abbrev pub IsNotAfter : ChunkInfo → ChunkInfo → Type 0
IsNotAfter c d =
    IsLess (file_path c) (file_path d)
    ⊎ ((file_path c ≡ file_path d) × (start_line c ≤ start_line d))

text_less-IsLess : (s t : Text) → text_less s t ≡ true → IsLess s t
unfolding text_less
text_less-IsLess s [] h = absurd (ground arith)
text_less-IsLess [] (d ∷ t) h = tt
text_less-IsLess (c ∷ s) (d ∷ t) h = elim (dec_lt c d) [
  | yes l ↦ inl l
  | no l ↦ inr (ground arith, text_less-IsLess s t (ground arith))
]

text_less_none : (s t : Text) → text_less s t ≡ false → IsLess t s ⊎ (s ≡ t)
unfolding text_less
text_less_none [] [] h = inr refl
text_less_none (c ∷ s) [] h = inl tt
text_less_none [] (d ∷ t) h = absurd (cc)
text_less_none (c ∷ s) (d ∷ t) h = elim (dec_lt d c) [
  | yes l ↦ inl (inl l)
  | no l ↦
      let same : d ≡ c = ground arith in
      elim (text_less_none s t (ground arith)) [
        | inl r ↦ inl (inr (same, r))
        | inr e ↦ inr (ap (λ (x : ℕ). x ∷ s) (sym same) ∙ ap (λ (r : Text). d ∷ r) e)
      ]
]

IsLess-trans : (s t u : Text) → IsLess s t → IsLess t u → IsLess s u
IsLess-trans s t [] h k = k
IsLess-trans s [] (e ∷ u) h k = absurd h
IsLess-trans [] (d ∷ t) (e ∷ u) h k = tt
IsLess-trans (c ∷ s) (d ∷ t) (e ∷ u) (inl h) (inl k) = inl (omega arith)
IsLess-trans (c ∷ s) (d ∷ t) (e ∷ u) (inl h) (inr (k, ks)) = inl (omega arith)
IsLess-trans (c ∷ s) (d ∷ t) (e ∷ u) (inr (h, hs)) (inl k) = inl (omega arith)
IsLess-trans (c ∷ s) (d ∷ t) (e ∷ u) (inr (h, hs)) (inr (k, ks)) =
    inr (h ∙ k, IsLess-trans s t u hs ks)

pub IsNotAfter-trans : (b c d : ChunkInfo) → IsNotAfter b c → IsNotAfter c d → IsNotAfter b d
IsNotAfter-trans b c d (inl h) (inl k) =
    inl (IsLess-trans (file_path b) (file_path c) (file_path d) h k)
IsNotAfter-trans b c d (inl h) (inr (k, ks)) = inl (subst (λ p. IsLess (file_path b) p) k h)
IsNotAfter-trans b c d (inr (h, hs)) (inl k) = inl (subst (λ p. IsLess p (file_path d)) (sym h) k)
IsNotAfter-trans b c d (inr (h, hs)) (inr (k, ks)) = inr (h ∙ k, omega arith)

pub is_before-IsNotAfter : (c d : ChunkInfo) → is_before c d ≡ true → IsNotAfter c d
unfolding is_before
is_before-IsNotAfter c d h = elim (Bool-cases (text_less (file_path c) (file_path d))) [
  | inl e ↦ inl (text_less-IsLess (file_path c) (file_path d) e)
  | inr e ↦ inr (text_eq_sound (file_path c) (file_path d) (ground arith), ground arith)
]

pub is_before_none : (c d : ChunkInfo) → is_before c d ≡ false → IsNotAfter d c
unfolding is_before
is_before_none c d h = elim (text_less_none (file_path c) (file_path d) (ground arith)) [
  | inl l ↦ inl l
  | inr e ↦
      let same : text_eq (file_path c) (file_path d) ≡ true =
        subst (λ p. text_eq (file_path c) p ≡ true) e (text_eq_refl (file_path c)) in
      inr (sym e, ground arith)
]
