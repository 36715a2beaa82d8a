-- ===== src/Repository/Batches.antt =====
-- That the batches of a query lose no row.
use mathlib.Core.List.{Perm}
use mathlib.Core.List.Perm
use deputydev_core.Prelude.{ℕ, ◌≤◌, List, map, concat, length}
use deputydev_core.Py.Dict.{Dict}

module _ {K R : Type 0} (rows_of : K → List R) where
  -- The rows that a table has for a list of keys.
  abbrev pub rows_for : List K → List R
  rows_for keys = concat (map rows_of keys)

  -- A query gives, in some order, all the rows that it asks for, if they are no more than its limit.
  abbrev pub IsQuery : (List K → ℕ → List R) → Type 0
  IsQuery fetch_objects =
      (keys : List K) (limit : ℕ)
      → length (rows_for keys) ≤ limit
      → Perm (fetch_objects keys limit) (rows_for keys)

  abbrev pub HasFew : K → Type 0
  HasFew k = length (rows_of k) ≤ 10
