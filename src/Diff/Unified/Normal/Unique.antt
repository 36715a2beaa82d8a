-- ===== src/Diff/Unified/Normal/Unique.antt =====
-- The hunks of a diff, each text once.
use mathlib.Core.Path.{subst}
use deputydev_core.Prelude.{
  sym, ℕ, List, [], ◌∷◌, map, true, false, ◌||◌, concat, any_of, All, is_empty, ◌≡◌, ap, arith,
  Bool-cases, inl, inr, ◌⊎◌,
}
use deputydev_core.Py.Chars.{Text, text_eq, text_eq_refl, text_eq_sound}
use deputydev_core.Py.Result.{ok, Result-cases}
use deputydev_core.Diff.Unified.Normal.{normalize_hunk, unique_edits, get_unique_normalized_edits}

abbrev pub Member : Text → List Text → Type 0
Member t [] = ⊥
Member t (s ∷ seen) = (t ≡ s) ⊎ Member t seen

abbrev pub texts : List (List Text) → List Text
texts edits = map (λ e. concat e) edits

abbrev pub NoRepeat : List Text → Type 0
NoRepeat [] = Unit
NoRepeat (t ∷ ts) = (¬ Member t ts) × NoRepeat ts

Member-seen : (t : Text) (seen : List Text) → any_of (λ s. text_eq s t) seen ≡ true → Member t seen
Member-seen t [] h = cc
Member-seen t (s ∷ seen) h = elim (Bool-cases (text_eq s t)) [
  | inl e ↦ inl (sym (text_eq_sound s t e))
  | inr e ↦ inr (Member-seen t seen (ground arith))
]

not-Member-seen :
    (t : Text) (seen : List Text) → any_of (λ s. text_eq s t) seen ≡ false → ¬ Member t seen
not-Member-seen t [] h m = m
not-Member-seen t (s ∷ seen) h (inl e) = ground (arith, text_eq_refl t, e)
not-Member-seen t (s ∷ seen) h (inr m) = not-Member-seen t seen (ground arith) m

fresh-absent :
    (t : Text) (seen ts : List Text) → All (λ s. ¬ Member s (t ∷ seen)) ts → ¬ Member t ts
fresh-absent t seen [] h m = m
fresh-absent t seen (s ∷ ts) (h, hs) (inl e) = h (inl (sym e))
fresh-absent t seen (s ∷ ts) (h, hs) (inr m) = fresh-absent t seen ts hs m

fresh-tail :
    (t : Text) (seen ts : List Text)
    → All (λ s. ¬ Member s (t ∷ seen)) ts
    → All (λ s. ¬ Member s seen) ts
fresh-tail t seen [] h = tt
fresh-tail t seen (s ∷ ts) (h, hs) = (λ m. h (inr m), fresh-tail t seen ts hs)

module _ (unified_diff : List Text → List Text → ℕ → List Text) where
  abbrev pub Covered : List Text → List (List Text) → List Text → Type 0
  Covered seen edits hunk =
      (e : List Text)
      → normalize_hunk unified_diff hunk ≡ ok e
      → is_empty e ≡ false
      → Member (concat e) (texts edits) ⊎ Member (concat e) seen

  -- No edit is empty or has the text of another or of one seen, and every hunk that is not empty
  -- when normalised has its text among them or among those seen.
  pub record IsUnique (seen : List Text) (hunks edits : List (List Text)) : Type 0 where
    pub distinct : NoRepeat (texts edits)
    pub fresh : All (λ t. ¬ Member t seen) (texts edits)
    pub filled : All (λ e. is_empty e ≡ false) edits
    pub covered : All (Covered seen edits) hunks

  skip-IsUnique :
      (seen : List Text) (hunk e : List Text) (hunks edits : List (List Text))
      → normalize_hunk unified_diff hunk ≡ ok e
      → (is_empty e || any_of (λ s. text_eq s (concat e)) seen) ≡ true
      → IsUnique seen hunks edits
      → IsUnique seen (hunk ∷ hunks) edits
  skip-IsUnique seen hunk e hunks edits n s u = record {
    distinct = u.distinct;
    fresh = u.fresh;
    filled = u.filled;
    covered = (
      λ e' n' f.
          let same : e ≡ e' = ground arith in
          inr (
            subst (λ (x : List Text). Member (concat x) seen) same
              (Member-seen (concat e) seen (ground arith))),
      u.covered,
    );
  }

  Covered-cons :
      (seen : List Text) (e : List Text) (edits hunks : List (List Text))
      → All (Covered (concat e ∷ seen) edits) hunks
      → All (Covered seen (e ∷ edits)) hunks
  Covered-cons seen e edits [] h = tt
  Covered-cons seen e edits (hunk ∷ hunks) (h, hs) = (
    λ d n f. elim (h d n f) [
      | inl m ↦ inl (inr m)
      | inr (inl same) ↦ inl (inl same)
      | inr (inr m) ↦ inr m
    ],
    Covered-cons seen e edits hunks hs,
  )

  pick-IsUnique :
      (seen : List Text) (hunk e : List Text) (hunks edits : List (List Text))
      → normalize_hunk unified_diff hunk ≡ ok e
      → (is_empty e || any_of (λ s. text_eq s (concat e)) seen) ≡ false
      → IsUnique (concat e ∷ seen) hunks edits
      → IsUnique seen (hunk ∷ hunks) (e ∷ edits)
  pick-IsUnique seen hunk e hunks edits n s u = record {
    distinct = (fresh-absent (concat e) seen (texts edits) u.fresh, u.distinct);
    fresh = (
      not-Member-seen (concat e) seen (ground arith),
      fresh-tail (concat e) seen (texts edits) u.fresh,
    );
    filled = (ground arith, u.filled);
    covered = (
      λ e' n' f.
          let same : e ≡ e' = ground arith in
          inl (inl (ap (λ (x : List Text). concat x) (sym same))),
      Covered-cons seen e edits hunks u.covered,
    );
  }

  unique_edits-IsUnique :
      (seen : List Text) (hunks edits : List (List Text))
      → unique_edits unified_diff seen hunks ≡ ok edits
      → IsUnique seen hunks edits
  unfolding unique_edits
  unique_edits-IsUnique seen [] edits h =
      let none_left : [] ≡ edits = ground arith in
      subst (λ (x : List (List Text)). IsUnique seen [] x) none_left
        (record { distinct = tt; fresh = tt; filled = tt; covered = tt })
  unique_edits-IsUnique seen (hunk ∷ hunks) edits h =
      elim (Result-cases (normalize_hunk unified_diff hunk)) [
        | inr (x, n) ↦ absurd (ground arith)
        | inl (e, n) ↦ elim (Bool-cases (is_empty e || any_of (λ s. text_eq s (concat e)) seen)) [
          | inl s ↦
              skip-IsUnique seen hunk e hunks edits n s
                (unique_edits-IsUnique seen hunks edits (ground arith))
          | inr s ↦ elim (Result-cases (unique_edits unified_diff (concat e ∷ seen) hunks)) [
            | inr (x, r) ↦ absurd (ground arith)
            | inl (rest, r) ↦
                let same : e ∷ rest ≡ edits = ground arith in
                subst (λ (es : List (List Text)). IsUnique seen (hunk ∷ hunks) es) same
                  (pick-IsUnique seen hunk e hunks rest n s
                    (unique_edits-IsUnique (concat e ∷ seen) hunks rest r))
          ]
        ]
      ]

  -- The edits of a diff: none is empty, no two have the same text, and every hunk that is not empty
  -- when normalised has its text among them.
  pub get_unique_normalized_edits-IsUnique :
      (hunks edits : List (List Text))
      → get_unique_normalized_edits unified_diff hunks ≡ ok edits
      → IsUnique [] hunks edits
  unfolding get_unique_normalized_edits
  get_unique_normalized_edits-IsUnique hunks edits h = unique_edits-IsUnique [] hunks edits h
