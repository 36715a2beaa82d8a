-- ===== src/Py/Dict.antt =====
-- Dictionaries with text keys, as their items in the order of insertion.
use mathlib.Core.Path.{subst}
use deputydev_core.Prelude.{
  arith, List, [], ◌∷◌, Bool, false, ◌||◌, Option, none, some, if◌then◌else◌, ◌≡◌, refl, ap, sym,
  ◌∙◌, Bool-cases, inl, inr,
}
use deputydev_core.Py.Chars.{text_eq_sound, text_eq_refl, Text, text_eq}

abbrev pub Dict {ℓ} : Type ℓ → Type ℓ
Dict V = List (Text × V)

module _ {ℓ} {V : Type ℓ} where
  -- `d.get(k)`
  unfoldable pub lookup : Text → Dict V → Option V
  lookup k [] = none
  lookup k ((j, v) ∷ d) = let rest = lookup k d in if text_eq j k then some v else rest

  -- `k in d`
  unfoldable pub has_key : Text → Dict V → Bool
  has_key k [] = false
  has_key k ((j, v) ∷ d) = text_eq j k || has_key k d

  -- `d[k] = v`: a key that is there keeps its place.
  unfoldable pub set_item : Text → V → Dict V → Dict V
  set_item k v [] = (k, v) ∷ []
  set_item k v ((j, w) ∷ d) =
      let rest = set_item k v d in if text_eq j k then (j, v) ∷ d else (j, w) ∷ rest

  -- `d.update(e)`, also `{**d, **e}`; on an empty `d`, the dictionary of the items of a list
  unfoldable pub update : Dict V → Dict V → Dict V
  unfolding set_item
  update d [] = d
  update d ((k, v) ∷ e) = update (set_item k v d) e

  pub lookup-set_item_same : (k : Text) (v : V) (d : Dict V) → lookup k (set_item k v d) ≡ some v
  unfolding lookup set_item
  lookup-set_item_same k v [] = rw (text_eq_refl k) refl
  lookup-set_item_same k v ((j, w) ∷ d) = elim (Bool-cases (text_eq j k)) [
    | inl e ↦ rw (e, e) refl
    | inr e ↦ rw (e, e) (lookup-set_item_same k v d)
  ]

  pub lookup-set_item_other :
      (k j : Text) (v : V) (d : Dict V)
      → text_eq j k ≡ false
      → lookup k (set_item j v d) ≡ lookup k d
  unfolding lookup set_item
  lookup-set_item_other k j v [] h = rw h refl
  lookup-set_item_other k j v ((i, w) ∷ d) h = elim (Bool-cases (text_eq i j)) [
    | inl e ↦
        let other : text_eq i k ≡ false =
          subst (λ (x : Text). text_eq x k ≡ false) (sym (text_eq_sound i j e)) h in
        rw (e, other) refl
    | inr e ↦
        rw e (
          ap (λ (r : Option V). if text_eq i k then some w else r)
            (lookup-set_item_other k j v d h))
  ]

  has_key-lookup : (k : Text) (d : Dict V) → has_key k d ≡ false → lookup k d ≡ none
  unfolding has_key lookup
  has_key-lookup k [] h = refl
  has_key-lookup k ((j, v) ∷ d) h = elim (Bool-cases (text_eq j k)) [
    | inl e ↦ absurd (ground arith)
    | inr e ↦ rw e (has_key-lookup k d (ground arith))
  ]

  -- Keys that the second dictionary lacks keep their value.
  pub lookup-update_absent :
      (k : Text) (d e : Dict V) → has_key k e ≡ false → lookup k (update d e) ≡ lookup k d
  unfolding update has_key
  lookup-update_absent k d [] h = refl
  lookup-update_absent k d ((j, v) ∷ e) h =
      lookup-update_absent k (set_item j v d) e (ground arith)
      ∙ lookup-set_item_other k j v d (ground arith)

  -- No key is there twice.
  abbrev pub HasDistinctKeys : Dict V → Type 0
  HasDistinctKeys [] = Unit
  HasDistinctKeys ((k, v) ∷ d) = (has_key k d ≡ false) × HasDistinctKeys d

  -- Keys that the second dictionary has take its value.
  pub lookup-update_present :
      (k : Text) (v : V) (d e : Dict V)
      → HasDistinctKeys e
      → lookup k e ≡ some v
      → lookup k (update d e) ≡ some v
  unfolding update lookup
  lookup-update_present k v d [] u h = absurd (cc)
  lookup-update_present k v d ((j, w) ∷ e) (n, u) h = elim (Bool-cases (text_eq j k)) [
    | inl same ↦
        let here : some w ≡ some v = rw same at h in
        let key = text_eq_sound j k same in
        lookup-update_absent k (set_item j w d) e (rw key at n)
        ∙ ap (λ (x : Text). lookup k (set_item x w d)) key
        ∙ lookup-set_item_same k w d
        ∙ here
    | inr other ↦ lookup-update_present k v (set_item j w d) e u (rw other at h)
  ]
