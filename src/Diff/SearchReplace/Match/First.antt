-- ===== src/Diff/SearchReplace/Match/First.antt =====
-- The loop `for i in range(n): if test(i): return i`, then `return None`.
use deputydev_core.Prelude.{
  ℕ, zero, suc, ◌+◌, ◌≤◌, ◌<◌, Bool, true, false, Option, none, some, ◌≡◌, arith, if◌then◌else◌,
}

first_from : ℕ → ℕ → (ℕ → Bool) → Option ℕ
first_from zero i test = none
first_from (suc n) i test = let rest = first_from n (i + 1) test in if test i then some i else rest

unfoldable pub first_index : ℕ → (ℕ → Bool) → Option ℕ
unfolding first_from
first_index n test = first_from n 0 test

first_from_sound :
    (n i : ℕ) (test : ℕ → Bool) (r : ℕ)
    → first_from n i test ≡ some r
    → (i ≤ r) × (r < i + n) × (test r ≡ true)
unfolding first_from
first_from_sound zero i test r h = ground arith
first_from_sound (suc n) i test r h = ground (arith, first_from_sound n (i + 1) test r)

-- The index returned is in the range and passes the test.
pub first_index_sound :
    (n : ℕ) (test : ℕ → Bool) (r : ℕ) → first_index n test ≡ some r → (r < n) × (test r ≡ true)
unfolding first_index
first_index_sound n test r h = ground (arith, first_from_sound n 0 test r h)

module _ (test : ℕ → Bool) where
  at_same : (i j : ℕ) → i ≡ j → test i ≡ false → test j ≡ false
  at_same i j e h = rw (← e) h

  first_from_least : (n i r j : ℕ) → first_from n i test ≡ some r → i ≤ j → j < r → test j ≡ false
  unfolding first_from
  first_from_least zero i r j h k l = ground arith
  first_from_least (suc n) i r j h k l = ground (arith, at_same i j, first_from_least n (i + 1) r j)

  first_from-none : (n i j : ℕ) → first_from n i test ≡ none → i ≤ j → j < i + n → test j ≡ false
  unfolding first_from
  first_from-none zero i j h k l = ground arith
  first_from-none (suc n) i j h k l = ground (arith, at_same i j, first_from-none n (i + 1) j)

-- No smaller index passes the test.
pub first_index_least :
    (n : ℕ) (test : ℕ → Bool) (r j : ℕ) → first_index n test ≡ some r → j < r → test j ≡ false
unfolding first_index
first_index_least n test r j h k = first_from_least test n 0 r j h (omega arith) k

-- If none is returned, none passes.
pub first_index-none :
    (n : ℕ) (test : ℕ → Bool) (j : ℕ) → first_index n test ≡ none → j < n → test j ≡ false
unfolding first_index
first_index-none n test j h k = first_from-none test n 0 j h (omega arith) (omega arith)
