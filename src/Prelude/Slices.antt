-- ===== src/Prelude/Slices.antt =====
-- Python slices `xs[i:j]` for 0 ≤ i, and the laws by which adjacent slices fit together.
use Prim.Native.Nat.{ℕ, zero, suc, ◌+◌, ◌-◌, ◌≤◌, min}
use mathlib.Core.Path.{◌≡◌, refl, ap}
use mathlib.Core.List.{List, [], ◌∷◌, ◌++◌}
use native.Mathlib.Omega.{arith}
use deputydev_core.Prelude.Lists.{length, take, drop, length-take, length-drop}

module _ {ℓ} {A : Type ℓ} where
  -- An end before the start gives the empty slice, an end past the list stops at the list's end.
  abbrev pub slice : ℕ → ℕ → List A → List A
  slice i j xs = take (j - i) (drop i xs)

  pub length-slice : (i j : ℕ) (xs : List A) → length (slice i j xs) ≡ min (j - i) (length xs - i)
  length-slice i j xs = omega (arith, length-take (j - i) (drop i xs), length-drop i xs)

  pub drop-all : (n : ℕ) (xs : List A) → length xs ≤ n → drop n xs ≡ []
  drop-all zero [] h = refl
  drop-all zero (x ∷ xs) h = absurd (omega arith)
  drop-all (suc n) [] h = refl
  drop-all (suc n) (x ∷ xs) h = drop-all n xs (omega arith)

  pub take-all : (n : ℕ) (xs : List A) → length xs ≤ n → take n xs ≡ xs
  take-all zero [] h = refl
  take-all zero (x ∷ xs) h = absurd (omega arith)
  take-all (suc n) [] h = refl
  take-all (suc n) (x ∷ xs) h = ap (λ (r : List A). x ∷ r) (take-all n xs (omega arith))

  pub drop-drop : (m n k : ℕ) (xs : List A) → m + n ≡ k → drop n (drop m xs) ≡ drop k xs
  drop-drop zero n k xs e = let e' : n ≡ k = omega arith in ap (λ (t : ℕ). drop t xs) e'
  drop-drop (suc m) n zero xs e = absurd (omega arith)
  drop-drop (suc m) zero (suc k) [] e = refl
  drop-drop (suc m) (suc n) (suc k) [] e = refl
  drop-drop (suc m) n (suc k) (x ∷ xs) e = drop-drop m n k xs (omega arith)

  pub take-append-take :
      (n m k : ℕ) (xs : List A) → n + m ≡ k → take n xs ++ take m (drop n xs) ≡ take k xs
  take-append-take zero m k xs e = let e' : m ≡ k = omega arith in ap (λ (t : ℕ). take t xs) e'
  take-append-take (suc n) m zero xs e = absurd (omega arith)
  take-append-take (suc n) zero (suc k) [] e = refl
  take-append-take (suc n) (suc m) (suc k) [] e = refl
  take-append-take (suc n) m (suc k) (x ∷ xs) e =
      ap (λ (r : List A). x ∷ r) (take-append-take n m k xs (omega arith))

  -- Adjacent slices join: what is read up to `i` and from `i` to `j` is what is read up to `j`.
  pub take-append-slice : (i j : ℕ) (xs : List A) → i ≤ j → take i xs ++ slice i j xs ≡ take j xs
  take-append-slice i j xs h = take-append-take i (j - i) j xs (omega arith)

  pub slice-append-slice :
      (i j k : ℕ) (xs : List A) → i ≤ j → j ≤ k → slice i j xs ++ slice j k xs ≡ slice i k xs
  slice-append-slice i j k xs h h' =
      rw (← drop-drop i (j - i) j xs (omega arith))
        (take-append-take (j - i) (k - j) (k - i) (drop i xs) (omega arith))

  -- Behind a prefix of known length: what is read inside it, and what follows it.
  pub take-take-append :
      (k j : ℕ) (xs ys : List A) → k ≤ j → j ≤ length xs → take k (take j xs ++ ys) ≡ take k xs
  take-take-append zero j xs ys h l = refl
  take-take-append (suc k) zero xs ys h l = absurd (omega arith)
  take-take-append (suc k) (suc j) [] ys h l = absurd (omega arith)
  take-take-append (suc k) (suc j) (x ∷ xs) ys h l =
      ap (λ (r : List A). x ∷ r) (take-take-append k j xs ys (omega arith) (omega arith))

  pub drop-take-append : (j : ℕ) (xs ys : List A) → j ≤ length xs → drop j (take j xs ++ ys) ≡ ys
  drop-take-append zero xs ys l = refl
  drop-take-append (suc j) [] ys l = absurd (omega arith)
  drop-take-append (suc j) (x ∷ xs) ys l = drop-take-append j xs ys (omega arith)
