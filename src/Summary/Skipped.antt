-- ===== src/Summary/Skipped.antt =====
-- The line numbers that the skipped ranges hold.
use deputydev_core.Prelude.{
  ℕ, zero, suc, ◌+◌, ◌≤◌, ◌<◌, List, [], ◌∷◌, Bool, not, ◌&&◌, ◌||◌, ltb, leb, ◌==◌, length, keep,
  any_of, is_empty, ◌≡◌, refl, ap, ◌∙◌, arith, Bool-cases, inl, inr,
}
use deputydev_core.Py.Chars.{Text}
use deputydev_core.Summary.{count_from, ranges_from, ranges_of, skipped_nums, calculate_skipped}

abbrev pub is_within : ℕ → ℕ × ℕ → Bool
is_within n (start, stop) = leb start n && leb n stop

-- A line of the file that is not included; with no line included there is none.
abbrev pub is_skipped : ℕ → List ℕ → ℕ → Bool
is_skipped total included n =
    not (is_empty included) && ltb 0 n && leb n total && not (any_of (λ m. m == n) included)

-- The ranges are not empty, and a line that is in none lies between any two of them.
abbrev pub StartsBehind : ℕ → List (ℕ × ℕ) → Type 0
StartsBehind n [] = Unit
StartsBehind n ((start, stop) ∷ ranges) = n < start

abbrev pub IsSeparated : List (ℕ × ℕ) → Type 0
IsSeparated [] = Unit
IsSeparated ((start, stop) ∷ ranges) =
    (start ≤ stop) × StartsBehind (stop + 1) ranges × IsSeparated ranges

abbrev IsRising : ℕ → List ℕ → Type 0
IsRising n [] = Unit
IsRising n (m ∷ ms) = (n ≤ m) × IsRising (suc m) ms

IsRising-lower : (m n : ℕ) (ns : List ℕ) → m ≤ n → IsRising n ns → IsRising m ns
IsRising-lower m n [] h r = tt
IsRising-lower m n (k ∷ ns) h (a, r) = (omega arith, r)

keep-IsRising : (p : ℕ → Bool) (n : ℕ) (ns : List ℕ) → IsRising n ns → IsRising n (keep p ns)
keep-IsRising p n [] r = tt
keep-IsRising p n (k ∷ ns) (a, r) = elim (Bool-cases (p k)) [
  | inl e ↦ rw e (a, keep-IsRising p (suc k) ns r)
  | inr e ↦ rw e (IsRising-lower n (suc k) (keep p ns) (omega arith) (keep-IsRising p (suc k) ns r))
]

count_from-IsRising : (n k : ℕ) → IsRising n (count_from n k)
unfolding count_from
count_from-IsRising n zero = tt
count_from-IsRising n (suc k) = (omega arith, count_from-IsRising (suc n) k)

any_of-keep :
    (p : ℕ → Bool) (n : ℕ) (ns : List ℕ)
    → any_of (λ m. m == n) (keep p ns) ≡ (p n && any_of (λ m. m == n) ns)
any_of-keep p n [] = ground arith
any_of-keep p n (k ∷ ns) = elim (Bool-cases (k == n)) [
  | inl e ↦ let same : k ≡ n = ground arith in ground (arith, any_of-keep p n ns, ap p same)
  | inr e ↦ ground (arith, any_of-keep p n ns)
]

any_of-count_from : (m n k : ℕ) → any_of (λ i. i == m) (count_from n k) ≡ (leb n m && ltb m (n + k))
unfolding count_from
any_of-count_from m n zero = ground arith
any_of-count_from m n (suc k) = ground (arith, any_of-count_from m (suc n) k)

ranges_from-starts :
    (start stop : ℕ) (nums : List ℕ) (n : ℕ)
    → n < start
    → StartsBehind n (ranges_from start stop nums)
unfolding ranges_from
ranges_from-starts start stop [] n h = h
ranges_from-starts start stop (num ∷ nums) n h = elim (Bool-cases (num == stop + 1)) [
  | inl e ↦ rw e (ranges_from-starts start num nums n h)
  | inr e ↦ rw e h
]

ranges_from-IsSeparated :
    (start stop : ℕ) (nums : List ℕ)
    → start ≤ stop
    → IsRising (suc stop) nums
    → IsSeparated (ranges_from start stop nums)
unfolding ranges_from
ranges_from-IsSeparated start stop [] h r = (h, tt, tt)
ranges_from-IsSeparated start stop (num ∷ nums) h (a, r) = elim (Bool-cases (num == stop + 1)) [
  | inl e ↦ rw e (ranges_from-IsSeparated start num nums (omega arith) r)
  | inr e ↦ rw e (
    h,
    ranges_from-starts num num nums (stop + 1) (ground arith),
    ranges_from-IsSeparated num num nums (omega arith) r,
  )
]

ranges_from-within :
    (n start stop : ℕ) (nums : List ℕ)
    → start ≤ stop
    → any_of (is_within n) (ranges_from start stop nums)
      ≡ (is_within n (start, stop) || any_of (λ m. m == n) nums)
unfolding ranges_from
ranges_from-within n start stop [] h = refl
ranges_from-within n start stop (num ∷ nums) h = elim (Bool-cases (num == stop + 1)) [
  | inl e ↦ rw e (ground (arith, ranges_from-within n start num nums (ground arith)))
  | inr e ↦ rw e (ground (arith, ranges_from-within n num num nums (omega arith)))
]

ranges_of-IsSeparated : (n : ℕ) (nums : List ℕ) → IsRising n nums → IsSeparated (ranges_of nums)
unfolding ranges_of
ranges_of-IsSeparated n [] r = tt
ranges_of-IsSeparated n (num ∷ nums) (a, r) = ranges_from-IsSeparated num num nums (omega arith) r

ranges_of-within :
    (n : ℕ) (nums : List ℕ) → any_of (is_within n) (ranges_of nums) ≡ any_of (λ m. m == n) nums
unfolding ranges_of
ranges_of-within n [] = refl
ranges_of-within n (num ∷ nums) = ground (arith, ranges_from-within n num num nums (omega arith))

in_file :
    (included : Bool) (n total : ℕ)
    → (not included && (leb 1 n && ltb n (1 + total))) ≡ (ltb 0 n && leb n total && not included)
in_file included n total = ground arith

-- The skipped ranges are not empty, each ends at least two lines before the next one starts, and a
-- line is in one of them exactly if lines are included, it is a line of the file and not included.
pub calculate_skipped-IsSeparated :
    (lines : List Text) (included : List ℕ) (n : ℕ)
    → IsSeparated (calculate_skipped lines included)
      × (any_of (is_within n) (calculate_skipped lines included)
          ≡ is_skipped (length lines) included n)
unfolding calculate_skipped skipped_nums
calculate_skipped-IsSeparated lines [] n = (tt, refl)
calculate_skipped-IsSeparated lines (m ∷ ms) n =
    let left_out : ℕ → Bool = λ k. not (any_of (λ i. i == k) (m ∷ ms)) in
    let all = count_from 1 (length lines) in
    (
      ranges_of-IsSeparated 1 (keep left_out all)
          (keep-IsRising left_out 1 all (count_from-IsRising 1 (length lines))),
      ranges_of-within n (keep left_out all)
          ∙ any_of-keep left_out n all
          ∙ rw (any_of-count_from n 1 (length lines))
              (in_file (any_of (λ i. i == n) (m ∷ ms)) n (length lines)),
    )
