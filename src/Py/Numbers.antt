-- ===== src/Py/Numbers.antt =====
-- `str(n)` for a natural number.
use deputydev_core.Prelude.{ℕ, zero, suc, ◌+◌, ◌/◌, ◌%◌, [], ◌∷◌, ◌++◌, ltb, if◌then◌else◌}
use deputydev_core.Py.Chars.{Text}

-- A number has no more digits than its value plus one.
unfoldable pub digits : ℕ → ℕ → Text
digits zero n = []
digits (suc fuel) n =
    let front = digits fuel (n / 10) in
    if ltb n 10 then (48 + n) ∷ [] else front ++ (48 + n % 10) ∷ []

unfoldable pub str : ℕ → Text
unfolding digits
str n = digits (suc n) n
