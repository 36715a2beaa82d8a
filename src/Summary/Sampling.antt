-- ===== src/Summary/Sampling.antt =====
-- The lines that a sample names.
use mathlib.Core.Path.{subst}
use native.Mathlib.Decide.{dec_lt}
use native.Mathlib.Nat.{mod-lt, div-add-mod'}
use deputydev_core.Prelude.{
  ◌*◌, ◌%◌, leb→le, drop-drop, ℕ, zero, suc, ◌+◌, ◌-◌, ◌*◌, ◌/◌, ◌≤◌, ◌<◌, List, [], ◌∷◌, false,
  some, leb, ◌==◌, length, take, drop, get_elem?, All, length-take, ◌≡◌, refl, ap, sym, ◌∙◌, arith,
  Bool-cases, inl, inr,
}
use deputydev_core.Py.Chars.{Text}
use deputydev_core.Summary.{sampled_every, Numbered, number_from, every, sampled}

-- The number of a line is its place in the file, from 1 on.
abbrev pub IsNumbered : List Text → Numbered → Type 0
IsNumbered lines (n, line) = (0 < n) × (get_elem? lines (n - 1) ≡ some line)

get_elem?-drop :
    (i : ℕ) (xs : List Text) (x : Text) (rest : List Text)
    → x ∷ rest ≡ drop i xs
    → get_elem? xs i ≡ some x
get_elem?-drop zero [] x rest e = absurd (cc)
get_elem?-drop zero (y ∷ xs) x rest e = ap (λ ls. get_elem? ls 0) (sym e)
get_elem?-drop (suc i) [] x rest e = absurd (cc)
get_elem?-drop (suc i) (y ∷ xs) x rest e = get_elem?-drop i xs x rest e

first-IsNumbered :
    (start : ℕ) (all : List Text) (line : Text) (lines : List Text)
    → line ∷ lines ≡ drop start all
    → IsNumbered all (start + 1, line)
first-IsNumbered start all line lines e =
    let same : start + 1 - 1 ≡ start = omega arith in
    (omega arith, rw same (get_elem?-drop start all line lines e))

arith_swap : (m n : ℕ) → m + n + 1 ≡ m + 1 + n
arith_swap m n = omega arith

-- Every `interval` lines from line `start + 1` on.
every-IsNumbered :
    (fuel interval start : ℕ) (all lines : List Text)
    → lines ≡ drop start all
    → 0 < interval
    → All (IsNumbered all) (number_from (start + 1) interval (every fuel interval lines))
unfolding every number_from
every-IsNumbered zero interval start all lines e p = tt
every-IsNumbered (suc fuel) interval start all [] e p = tt
every-IsNumbered (suc fuel) interval start all (line ∷ lines) e p = (
  first-IsNumbered start all line lines e,
  subst
      (λ n.
        All (IsNumbered all)
          (number_from n interval (every fuel interval (drop interval (line ∷ lines)))))
      (arith_swap start interval)
      (every-IsNumbered fuel interval (start + interval) all (drop interval (line ∷ lines))
        (ap (λ (r : List Text). drop interval r) e
          ∙ drop-drop start interval (start + interval) all refl)
        p),
)

-- The lines in a row, from line `start + 1` on.
number_from-IsNumbered :
    (start : ℕ) (all lines : List Text)
    → lines ≡ drop start all
    → All (IsNumbered all) (number_from (start + 1) 1 lines)
unfolding number_from
number_from-IsNumbered start all [] e = tt
number_from-IsNumbered start all (line ∷ lines) e = (
  first-IsNumbered start all line lines e,
  number_from-IsNumbered (start + 1) all lines
      (ap (λ (r : List Text). drop 1 r) e ∙ drop-drop start 1 (start + 1) all refl),
)

number_from-take :
    (P : Numbered → Type 0) (m n step : ℕ) (lines : List Text)
    → All P (number_from n step lines)
    → All P (number_from n step (take m lines))
unfolding number_from
number_from-take P zero n step lines h = tt
number_from-take P (suc m) n step [] h = tt
number_from-take P (suc m) n step (line ∷ lines) (h, hs) =
    (h, number_from-take P m (n + step) step lines hs)

length-number_from :
    (n step : ℕ) (lines : List Text) → length (number_from n step lines) ≡ length lines
unfolding number_from
length-number_from n step [] = refl
length-number_from n step (line ∷ lines) = omega (arith, length-number_from (n + step) step lines)

div-pos : (m n : ℕ) → 0 < n → n ≤ m → 0 < m / n
div-pos m n p h = elim (dec_lt 0 (m / n)) [
  | yes q ↦ q
  | no q ↦
      let none_left : m / n ≡ 0 = omega arith in
      let parts : m / n * n + m % n ≡ m = div-add-mod' m n in
      let small : m % n < n = mod-lt m p in
      let all_left : 0 * n + m % n ≡ m = rw none_left at parts in absurd (omega arith)
]

-- With a positive limit the sampling returns, gives at most that many lines, and gives each of them
-- with the number it has in the file.
pub sampled-IsNumbered :
    (max_lines : ℕ) (lines : List Text)
    → 0 < max_lines
    → (chosen : List Numbered) × (sampled max_lines lines ≡ some chosen)
      × (length chosen ≤ max_lines)
      × All (IsNumbered lines) chosen
unfolding sampled sampled_every
sampled-IsNumbered max_lines lines p = elim (Bool-cases (leb (length lines) max_lines)) [
  | inl e ↦ (
    number_from 1 1 lines,
    rw e refl,
    omega (arith, leb→le (length lines) max_lines e, length-number_from 1 1 lines),
    number_from-IsNumbered 0 lines lines refl,
  )
  | inr e ↦
      let positive : (max_lines == 0) ≡ false = ground arith in
      let interval = length lines / max_lines in
      let kept = every (length lines) interval lines in
      (
        number_from 1 interval (take max_lines kept),
        rw (e, positive) refl,
        omega (
          arith,
          length-number_from 1 interval (take max_lines kept),
          length-take max_lines kept,
        ),
        number_from-take (IsNumbered lines) max_lines 1 interval kept (
            every-IsNumbered (length lines) interval 0 lines lines refl
              (div-pos (length lines) max_lines p (ground arith))),
      )
]
