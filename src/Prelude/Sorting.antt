-- ===== src/Prelude/Sorting.antt =====
-- `sorted(xs, key=k)` and `xs.sort(key=k)` for a number as the key: a stable sort.
use Prim.Native.Nat.{ℕ, ◌≤◌}
use mathlib.Core.Logic.{inl, inr}
use mathlib.Core.List.{List, [], ◌∷◌, Perm}
use mathlib.Core.List.Perm
use native.Mathlib.Omega.{arith}
use deputydev_core.Prelude.Tests.{leb, if◌then◌else◌, Bool-cases}
use deputydev_core.Prelude.Lists.{All}

module _ {ℓ} {A : Type ℓ} (key : A → ℕ) where
  -- In front of the first element whose key is not smaller, so equal keys keep their order.
  unfoldable pub insert_by : A → List A → List A
  insert_by x [] = x ∷ []
  insert_by x (y ∷ ys) =
      let rest = insert_by x ys in if leb (key x) (key y) then x ∷ y ∷ ys else y ∷ rest

  unfoldable pub sort_by : List A → List A
  unfolding insert_by
  sort_by [] = []
  sort_by (x ∷ xs) = insert_by x (sort_by xs)

  abbrev pub IsSorted : List A → Type 0
  IsSorted [] = Unit
  IsSorted (x ∷ xs) = All (λ y. key x ≤ key y) xs × IsSorted xs

  pub All-le_trans :
      (a b : ℕ) (xs : List A) → a ≤ b → All (λ y. b ≤ key y) xs → All (λ y. a ≤ key y) xs
  All-le_trans a b [] h hs = tt
  All-le_trans a b (x ∷ xs) h (hx, hs) = (omega arith, All-le_trans a b xs h hs)

  All-insert_by :
      (a : ℕ) (x : A) (xs : List A)
      → a ≤ key x
      → All (λ y. a ≤ key y) xs
      → All (λ y. a ≤ key y) (insert_by x xs)
  unfolding insert_by
  All-insert_by a x [] h hs = (h, tt)
  All-insert_by a x (y ∷ ys) h (hy, hs) = elim (Bool-cases (leb (key x) (key y))) [
    | inl e ↦ rw e (h, (hy, hs))
    | inr e ↦ rw e (hy, All-insert_by a x ys h hs)
  ]

  insert_by-IsSorted : (x : A) (xs : List A) → IsSorted xs → IsSorted (insert_by x xs)
  unfolding insert_by
  insert_by-IsSorted x [] h = (tt, tt)
  insert_by-IsSorted x (y ∷ ys) (hy, hs) = elim (Bool-cases (leb (key x) (key y))) [
    | inl e ↦ rw e ((ground arith, All-le_trans (key x) (key y) ys (ground arith) hy), (hy, hs))
    | inr e ↦ rw e (All-insert_by (key y) x ys (ground arith) hy, insert_by-IsSorted x ys hs)
  ]

  pub sort_by-IsSorted : (xs : List A) → IsSorted (sort_by xs)
  unfolding sort_by
  sort_by-IsSorted [] = tt
  sort_by-IsSorted (x ∷ xs) = insert_by-IsSorted x (sort_by xs) (sort_by-IsSorted xs)

  insert_by-perm : (x : A) (xs : List A) → Perm (insert_by x xs) (x ∷ xs)
  unfolding insert_by
  insert_by-perm x [] = Perm.refl _
  insert_by-perm x (y ∷ ys) = elim (Bool-cases (leb (key x) (key y))) [
    | inl e ↦ rw e (Perm.refl _)
    | inr e ↦ rw e (Perm.trans (Perm.cons y (insert_by-perm x ys)) (Perm.swap x y ys))
  ]

  pub sort_by-perm : (xs : List A) → Perm (sort_by xs) xs
  unfolding sort_by
  sort_by-perm [] = Perm.refl _
  sort_by-perm (x ∷ xs) = Perm.trans (insert_by-perm x (sort_by xs)) (Perm.cons x (sort_by-perm xs))

module _ {ℓ κ} {A : Type ℓ} (P : A → Type κ) (key : A → ℕ) where
  All-insert : (x : A) (xs : List A) → P x → All P xs → All P (insert_by key x xs)
  unfolding insert_by
  All-insert x [] h hs = (h, tt)
  All-insert x (y ∷ ys) h (hy, hs) = elim (Bool-cases (leb (key x) (key y))) [
    | inl e ↦ rw e (h, (hy, hs))
    | inr e ↦ rw e (hy, All-insert x ys h hs)
  ]

  pub All-sort_by : (xs : List A) → All P xs → All P (sort_by key xs)
  unfolding sort_by
  All-sort_by [] h = tt
  All-sort_by (x ∷ xs) (h, hs) = All-insert x (sort_by key xs) h (All-sort_by xs hs)
