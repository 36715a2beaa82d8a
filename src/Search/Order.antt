-- ===== src/Search/Order.antt =====
-- `sorted` for keys that are compared by a test of their own, as floats and texts are.
use deputydev_core.Prelude.{
  List, [], ◌∷◌, Bool, true, false, if◌then◌else◌, any_of, All, ◌||◌, arith, refl, ◌≡◌, Bool-cases,
  inl, inr,
}

-- Any element stands in the relation to each one behind it.
abbrev pub IsPairwise {ℓ} : {A : Type ℓ} → (A → A → Type 0) → List A → Type 0
IsPairwise R [] = Unit
IsPairwise R (x ∷ xs) = All (R x) xs × IsPairwise R xs

module _ {ℓ} {A : Type ℓ} (less : A → A → Bool) where
  -- Behind the elements that are less, so equal ones keep their order.
  unfoldable pub insert_before : A → List A → List A
  insert_before x [] = x ∷ []
  insert_before x (y ∷ ys) =
      let rest = insert_before x ys in if less y x then y ∷ rest else x ∷ y ∷ ys

  unfoldable pub sort : List A → List A
  unfolding insert_before
  sort [] = []
  sort (x ∷ xs) = insert_before x (sort xs)

  any_of-insert_before :
      (p : A → Bool) (x : A) (ys : List A) → any_of p (insert_before x ys) ≡ (p x || any_of p ys)
  unfolding insert_before
  any_of-insert_before p x [] = refl
  any_of-insert_before p x (y ∷ ys) = ground (arith, any_of-insert_before p x ys)

  pub any_of-sort : (p : A → Bool) (xs : List A) → any_of p (sort xs) ≡ any_of p xs
  unfolding sort
  any_of-sort p [] = refl
  any_of-sort p (x ∷ xs) = ground (arith, any_of-insert_before p x (sort xs), any_of-sort p xs)

  All-insert_before :
      (P : A → Type 0) (x : A) (ys : List A) → P x → All P ys → All P (insert_before x ys)
  unfolding insert_before
  All-insert_before P x [] h hs = (h, tt)
  All-insert_before P x (y ∷ ys) h (a, hs) = elim (Bool-cases (less y x)) [
    | inl e ↦ rw e (a, All-insert_before P x ys h hs)
    | inr e ↦ rw e (h, (a, hs))
  ]

  All-sort : (P : A → Type 0) (xs : List A) → All P xs → All P (sort xs)
  unfolding sort
  All-sort P [] h = tt
  All-sort P (x ∷ xs) (a, h) = All-insert_before P x (sort xs) a (All-sort P xs h)

  module _ (R : A → A → Type 0) where
    -- A relation that a pair has both ways does not depend on the order.
    module _ (symmetric : (x y : A) → R x y → R y x) where
      insert_before-IsPairwise :
          (x : A) (ys : List A) → All (R x) ys → IsPairwise R ys → IsPairwise R (insert_before x ys)
      unfolding insert_before
      insert_before-IsPairwise x [] h o = (tt, tt)
      insert_before-IsPairwise x (y ∷ ys) (a, h) (b, o) = elim (Bool-cases (less y x)) [
        | inl e ↦
            rw e
              (All-insert_before (R y) x ys (symmetric x y a) b, insert_before-IsPairwise x ys h o)
        | inr e ↦ rw e ((a, h), (b, o))
      ]

      pub sort-IsPairwise : (xs : List A) → IsPairwise R xs → IsPairwise R (sort xs)
      unfolding sort
      sort-IsPairwise [] h = tt
      sort-IsPairwise (x ∷ xs) (a, h) =
          insert_before-IsPairwise x (sort xs) (All-sort (R x) xs a) (sort-IsPairwise xs h)

    -- The relation of an order that the test decides.
    module _ (less-rel : (x y : A) → less x y ≡ true → R x y)
        (less-none : (x y : A) → less x y ≡ false → R y x)
        (transitive : (x y z : A) → R x y → R y z → R x z) where
      All-later : (x y : A) (zs : List A) → R x y → All (R y) zs → All (R x) zs
      All-later x y [] h hs = tt
      All-later x y (z ∷ zs) h (a, hs) = (transitive x y z h a, All-later x y zs h hs)

      insert_before-IsOrdered :
          (x : A) (ys : List A) → IsPairwise R ys → IsPairwise R (insert_before x ys)
      unfolding insert_before
      insert_before-IsOrdered x [] o = (tt, tt)
      insert_before-IsOrdered x (y ∷ ys) (b, o) = elim (Bool-cases (less y x)) [
        | inl e ↦
            rw e (All-insert_before (R y) x ys (less-rel y x e) b, insert_before-IsOrdered x ys o)
        | inr e ↦ let first = less-none y x e in rw e ((first, All-later x y ys first b), (b, o))
      ]

      pub sort-IsOrdered : (xs : List A) → IsPairwise R (sort xs)
      unfolding sort
      sort-IsOrdered [] = tt
      sort-IsOrdered (x ∷ xs) = insert_before-IsOrdered x (sort xs) (sort-IsOrdered xs)
