-- ===== src/Py/Search/Laws.antt =====
-- Laws of `find` and `replace`.
use deputydev_core.Prelude.{
  ◌∙◌, ◌-◌, take, drop, is_empty, zero, suc, ℕ, ◌+◌, ◌≤◌, [], ◌∷◌, ◌++◌, true, false, none, some,
  ◌≡◌, refl, ap, arith, length, Bool-cases, Option-cases, inl, inr,
}
use deputydev_core.Py.Chars.{Text}
use deputydev_core.Py.Search.{
  starts_with, ends_with_char, find, contains, replace, replace_from, count, count_from,
}

length-starts_with : (t s : Text) → starts_with t s ≡ true → length t ≤ length s
unfolding starts_with
length-starts_with [] s h = omega arith
length-starts_with (c ∷ t) [] h = ground arith
length-starts_with (c ∷ t) (d ∷ s) h = ground (arith, length-starts_with t s)

-- An occurrence lies in the text.
pub find-le : (t s : Text) (i : ℕ) → find t s ≡ some i → i + length t ≤ length s
unfolding find
find-le t [] i h = ground (arith, length-starts_with t [])
find-le t (c ∷ s) i h = elim (Bool-cases (starts_with t (c ∷ s))) [
  | inl here ↦ ground (arith, length-starts_with t (c ∷ s) here)
  | inr later ↦ elim (Option-cases (find t s)) [
    | inl e ↦ ground arith
    | inr (j, e) ↦ ground (arith, find-le t s j e)
  ]
]

find-cons_none :
    (c : ℕ) (t : Text) (d : ℕ) (s : Text)
    → find (c ∷ t) (d ∷ s) ≡ none
    → (starts_with (c ∷ t) (d ∷ s) ≡ false) × (find (c ∷ t) s ≡ none)
unfolding find
find-cons_none c t d s h = elim (Option-cases (find (c ∷ t) s)) [
  | inl e ↦ (ground arith, e)
  | inr (j, e) ↦ absurd (ground arith)
]

-- Where a text does not occur, there is nothing to replace.
replace_from-absent :
    (c : ℕ) (t r s : Text) → find (c ∷ t) s ≡ none → replace_from 0 (c ∷ t) r s ≡ s
unfolding replace_from find
replace_from-absent c t r [] h = refl
replace_from-absent c t r (d ∷ s) h =
    let (absent, none_later) = find-cons_none c t d s h in
    rw (absent, replace_from) (ap (λ (u : Text). d ∷ u) (replace_from-absent c t r s none_later))

pub replace-absent : (c : ℕ) (t r s : Text) → contains (c ∷ t) s ≡ false → replace (c ∷ t) r s ≡ s
unfolding replace contains
replace-absent c t r s h = ground (arith, replace_from-absent c t r s)

pub ends_with_char-append : (c : ℕ) (s : Text) → ends_with_char c (s ++ c ∷ []) ≡ true
unfolding ends_with_char
ends_with_char-append c [] = ground arith
ends_with_char-append c (d ∷ []) = ground arith
ends_with_char-append c (d ∷ e ∷ s) = ends_with_char-append c (e ∷ s)

-- Where the pass counts nothing, it replaces nothing.
replace_from-drop : (k : ℕ) (t r s : Text) → count_from k t s ≡ 0 → replace_from k t r s ≡ drop k s
unfolding count_from replace_from
replace_from-drop zero t r [] h = refl
replace_from-drop (suc k) t r [] h = refl
replace_from-drop (suc k) t r (c ∷ s) h = replace_from-drop k t r s h
replace_from-drop zero t r (c ∷ s) h = elim (Bool-cases (starts_with t (c ∷ s))) [
  | inl e ↦ absurd (ground arith)
  | inr e ↦ ground (arith, replace_from-drop zero t r s)
]

replace_from_hit :
    (c : ℕ) (t r : Text) (d : ℕ) (s : Text)
    → starts_with (c ∷ t) (d ∷ s) ≡ true
    → replace_from 0 (c ∷ t) r (d ∷ s) ≡ r ++ replace_from (length t) (c ∷ t) r s
unfolding replace_from
replace_from_hit c t r d s e =
    let pred : length (c ∷ t) - 1 ≡ length t = omega arith in
    rw (e, replace_from) (ap (λ (n : ℕ). r ++ replace_from n (c ∷ t) r s) pred)

replace_from_miss :
    (c : ℕ) (t r : Text) (d : ℕ) (s : Text)
    → starts_with (c ∷ t) (d ∷ s) ≡ false
    → replace_from 0 (c ∷ t) r (d ∷ s) ≡ d ∷ replace_from 0 (c ∷ t) r s
unfolding replace_from
replace_from_miss c t r d s e = rw (e, replace_from) refl

replace_from-once :
    (c : ℕ) (t r s : Text) (i : ℕ)
    → find (c ∷ t) s ≡ some i
    → count_from 0 (c ∷ t) s ≡ 1
    → replace_from 0 (c ∷ t) r s ≡ take i s ++ (r ++ drop (i + length (c ∷ t)) s)
unfolding count_from find
replace_from-once c t r [] i h k = absurd (ground arith)
replace_from-once c t r (d ∷ s) i h k = elim (Bool-cases (starts_with (c ∷ t) (d ∷ s))) [
  | inl e ↦
      let start : i ≡ 0 = ground arith in
      let pred : length (c ∷ t) - 1 ≡ length t = omega arith in
      let same : suc (length t) ≡ 0 + length (c ∷ t) = omega arith in
      let none_left : count_from (length t) (c ∷ t) s ≡ 0 = ground arith in
      rw (start, replace_from_hit c t r d s e, replace_from-drop (length t) (c ∷ t) r s none_left)
        (ap (λ (n : ℕ). r ++ drop n (d ∷ s)) same)
  | inr e ↦ elim (Option-cases (find (c ∷ t) s)) [
    | inl n ↦ absurd (ground arith)
    | inr (j, f) ↦
        let start : i ≡ suc j = ground arith in
        let same : suc (j + length (c ∷ t)) ≡ suc j + length (c ∷ t) = omega arith in
        let once : count_from 0 (c ∷ t) s ≡ 1 = ground arith in
        rw (start, replace_from_miss c t r d s e)
          (ap (λ (u : Text). d ∷ u) (replace_from-once c t r s j f once)
            ∙ ap (λ (n : ℕ). d ∷ (take j s ++ (r ++ drop n (d ∷ s)))) same)
  ]
]

-- A text that occurs once is replaced there, and nothing else is changed.
pub replace-once :
    (t r s : Text) (i : ℕ)
    → find t s ≡ some i
    → count t s ≡ 1
    → is_empty t ≡ false
    → replace t r s ≡ take i s ++ (r ++ drop (i + length t) s)
unfolding replace count
replace-once [] r s i h k n = absurd (ground arith)
replace-once (c ∷ t) r s i h k n = replace_from-once c t r s i h k
