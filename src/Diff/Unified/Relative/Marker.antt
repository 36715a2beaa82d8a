-- ===== src/Diff/Unified/Relative/Marker.antt =====
-- The marker of a RelativeIndenter.
use deputydev_core.Prelude.{
  any_of-append, sym, ℕ, zero, suc, ◌+◌, List, [], ◌∷◌, false, some, ◌==◌, concat, All, ◌≡◌, ap,
  ◌∙◌, arith, Bool-cases, Option-cases, inl, inr,
}
use deputydev_core.Py.Chars.{Text}
use deputydev_core.Py.Result.{ok}
use deputydev_core.Diff.Unified.Relative.{
  arrow, has_char, select_from, select_unique_marker, relative_indenter,
}

select_from-absent :
    (n m : ℕ) (chars : Text) → select_from n chars ≡ some m → has_char m chars ≡ false
unfolding select_from
select_from-absent zero m chars h = absurd (cc)
select_from-absent (suc n) m chars h = elim (Bool-cases (has_char (0x10001 + n) chars)) [
  | inl e ↦ select_from-absent n m chars (ground arith)
  | inr e ↦
      let same : 0x10001 + n ≡ m = ground arith in ap (λ (k : ℕ). has_char k chars) (sym same) ∙ e
]

has_char-concat :
    (m : ℕ) (texts : List Text)
    → has_char m (concat texts) ≡ false
    → All (λ text. has_char m text ≡ false) texts
has_char-concat m [] h = _
has_char-concat m (t ∷ texts) h = (
  ground (arith, any_of-append (λ d. d == m) t (concat texts)),
  has_char-concat m texts (ground (arith, any_of-append (λ d. d == m) t (concat texts))),
)

-- The marker stands in none of the texts.
pub relative_indenter-absent :
    (texts : List Text) (m : ℕ)
    → relative_indenter texts ≡ ok m
    → All (λ text. has_char m text ≡ false) texts
unfolding relative_indenter select_unique_marker
relative_indenter-absent texts m h =
    has_char-concat m texts (elim (Bool-cases (has_char arrow (concat texts))) [
      | inl e ↦ elim (Option-cases (select_from 0xfffff (concat texts))) [
        | inl n ↦ absurd (ground arith)
        | inr (k, s) ↦
            let same : k ≡ m = ground arith in
            ap (λ (c : ℕ). has_char c (concat texts)) (sym same)
            ∙ select_from-absent 0xfffff k (concat texts) s
      ]
      | inr e ↦
          let same : arrow ≡ m = ground arith in
          ap (λ (c : ℕ). has_char c (concat texts)) (sym same) ∙ e
    ])
