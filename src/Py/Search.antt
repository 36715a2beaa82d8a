-- ===== src/Py/Search.antt =====
-- `startswith`, `endswith`, `find`, `in`, `count` and `replace` on texts.
pub mod Laws
use deputydev_core.Prelude.{
  ℕ, zero, suc, ◌+◌, ◌-◌, [], ◌∷◌, ◌++◌, Bool, true, false, ◌&&◌, Option, none, some, ◌==◌, length,
  is_empty, last, if◌then◌else◌,
}
use deputydev_core.Py.Chars.{Text}

-- `s.startswith(t)`, the prefix first
unfoldable pub starts_with : Text → Text → Bool
starts_with [] s = true
starts_with (c ∷ t) [] = false
starts_with (c ∷ t) (d ∷ s) = c == d && starts_with t s

-- `s.endswith(c)` for a text of one character
unfoldable pub ends_with_char : ℕ → Text → Bool
ends_with_char c s = elim (last s) [ none ↦ false | some d ↦ c == d ]

abbrev pub one_later : Option ℕ → Option ℕ
one_later none = none
one_later (some i) = some (suc i)

-- `s.find(t)`, with `none` for -1
unfoldable pub find : Text → Text → Option ℕ
find t [] = if is_empty t then some 0 else none
find t (c ∷ s) = let rest = find t s in if starts_with t (c ∷ s) then some 0 else one_later rest

-- `t in s`
unfoldable pub contains : Text → Text → Bool
unfolding find starts_with
contains t s = elim (find t s) [ none ↦ false | some i ↦ true ]

-- `s.count(t)` and `s.replace(t, r)` for a text `t` that is not empty: the first argument is how
-- many characters of the last occurrence are still to pass.
count_from : ℕ → Text → Text → ℕ
count_from k t [] = 0
count_from (suc k) t (c ∷ s) = count_from k t s
count_from zero t (c ∷ s) = elim (starts_with t (c ∷ s)) [
  | true ↦ suc (count_from (length t - 1) t s)
  | false ↦ count_from zero t s
]

replace_from : ℕ → Text → Text → Text → Text
replace_from k t r [] = []
replace_from (suc k) t r (c ∷ s) = replace_from k t r s
replace_from zero t r (c ∷ s) = elim (starts_with t (c ∷ s)) [
  | true ↦ r ++ replace_from (length t - 1) t r s
  | false ↦ c ∷ replace_from zero t r s
]

-- The empty text stands before each character and at the end.
unfoldable pub count : Text → Text → ℕ
unfolding count_from starts_with
count [] s = length s + 1
count (d ∷ t) s = count_from 0 (d ∷ t) s

interleave : Text → Text → Text
interleave r [] = r
interleave r (c ∷ s) = r ++ c ∷ interleave r s

unfoldable pub replace : Text → Text → Text → Text
unfolding replace_from starts_with interleave
replace [] r s = interleave r s
replace (d ∷ t) r s = replace_from 0 (d ∷ t) r s

-- `s.rfind(t)`, with `none` for -1
unfoldable pub rfind : Text → Text → Option ℕ
rfind t [] = if is_empty t then some 0 else none
rfind t (c ∷ s) = elim (rfind t s) [
  | none ↦ if starts_with t (c ∷ s) then some 0 else none
  | some i ↦ some (suc i)
]
