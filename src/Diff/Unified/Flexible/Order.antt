-- ===== src/Diff/Unified/Flexible/Order.antt =====
-- The order in which strategies and contexts are tried.
use deputydev_core.Prelude.{
  ◌∙◌, List, [], ◌∷◌, true, false, Option, All, ◌≡◌, sym, arith, Bool-cases, inl, inr,
}
use deputydev_core.Py.Chars.{Text}
use deputydev_core.Py.Result.{Result, ok, Result-cases}
use deputydev_core.Diff.Unified.Relative.{Failure}
use deputydev_core.Diff.Unified.Flexible.{is_found, first_found}

-- A call that returns, but with nothing that counts as a result.
abbrev pub NotFound : Result Failure (Option Text) → Type 0
NotFound r = (o : Option Text) × (r ≡ ok o) × (is_found o ≡ false)

module _ {ℓ} {A : Type ℓ} (f : A → Result Failure (Option Text)) where
  -- `res` is the first result: an element gives it, and those before it gave none.
  pub data FirstFound (res : Option Text) : List A → Type ℓ where
    here : {x : A} {xs : List A} → f x ≡ ok res → FirstFound res (x ∷ xs)
    later : {x : A} {xs : List A} → NotFound (f x) → FirstFound res xs → FirstFound res (x ∷ xs)

  pub first_found_here :
      (x : A) (xs : List A) (o : Option Text)
      → f x ≡ ok o
      → is_found o ≡ true
      → first_found f (x ∷ xs) ≡ ok o
  unfolding first_found
  first_found_here x xs o p q = ground arith

  pub first_found_later :
      (x : A) (xs : List A) (o : Option Text)
      → f x ≡ ok o
      → is_found o ≡ false
      → first_found f (x ∷ xs) ≡ first_found f xs
  unfolding first_found
  first_found_later x xs o p q = ground arith

  pub first_found-FirstFound :
      (res : Option Text) (xs : List A)
      → first_found f xs ≡ ok res
      → is_found res ≡ true
      → FirstFound res xs
  unfolding first_found
  first_found-FirstFound res [] h g = absurd (unfold is_found in ground arith)
  first_found-FirstFound res (x ∷ xs) h g = elim (Result-cases (f x)) [
    | inr (e, p) ↦ absurd (ground arith)
    | inl (o, p) ↦ elim (Bool-cases (is_found o)) [
      | inl q ↦ here (p ∙ (sym (first_found_here x xs o p q) ∙ h))
      | inr q ↦
          later (o, p, q) (first_found-FirstFound res xs (sym (first_found_later x xs o p q) ∙ h) g)
    ]
  ]

  pub first_found-NotFound :
      (xs : List A) → NotFound (first_found f xs) → All (λ x. NotFound (f x)) xs
  unfolding first_found
  first_found-NotFound [] n = tt
  first_found-NotFound (x ∷ xs) (res, h, g) = elim (Result-cases (f x)) [
    | inr (e, p) ↦ absurd (ground arith)
    | inl (o, p) ↦ elim (Bool-cases (is_found o)) [
      | inl q ↦ absurd (ground (arith, first_found_here x xs o p q))
      | inr q ↦
          ((o, p, q), first_found-NotFound xs (res, sym (first_found_later x xs o p q) ∙ h, g))
    ]
  ]
