-- ===== src/Diff/Unified/Flexible.antt =====
-- services/diff/algo_runners/unified_diff/search_and_replace.py: the strategies and the order in
-- which they are tried.
pub mod Order
pub mod Literal
pub mod Marked
use deputydev_core.Prelude.{
  ℕ, List, [], ◌∷◌, ◌++◌, map, Bool, true, false, Option, none, some, ◌==◌, concat, is_empty,
  if◌then◌else◌,
}
use deputydev_core.Py.Chars.{Text, newline, is_crlf}
use deputydev_core.Py.Lines.{splitlines_keep}
use deputydev_core.Py.Result.{Result, ok, err, ◌>>=◌}
use deputydev_core.Py.Search.{count, replace}
use deputydev_core.Py.Strip.{strip_by}
use deputydev_core.Diff.Unified.Relative.{
  Failure, value_error, search_text_not_unique, index_error, relative_indenter, make_relative,
  make_absolute,
}

-- `if res`
unfoldable pub is_found : Option Text → Bool
is_found none = false
is_found (some []) = false
is_found (some (c ∷ s)) = true

-- A loop that returns the first result that is found.
unfoldable pub first_found {ℓ} :
    {A : Type ℓ} → (A → Result Failure (Option Text)) → List A → Result Failure (Option Text)
first_found f [] = ok none
first_found f (x ∷ xs) =
    f x >>= (λ res. elim (is_found res) [ true ↦ ok res | false ↦ first_found f xs ])

-- A strategy takes the list of texts.
abbrev pub Strategy : Type 0
Strategy = List Text → Result Failure (Option Text)

-- (strip_blank_lines, relative_indent, reverse_lines)
abbrev pub Preproc : Type 0
Preproc = Bool × Bool × Bool

unfoldable pub all_preprocs : List Preproc
all_preprocs =
    (false, false, false) ∷ (true, false, false) ∷ (false, true, false) ∷ (true, true, false) ∷ []

-- The texts are unpacked, `search_text, replace_text, original_text = texts`.
unfoldable pub search_and_replace : Strategy
unfolding count replace
search_and_replace (search_text ∷ replace_text ∷ original_text ∷ []) =
    if count search_text original_text == 0
    then ok none
    else ok (some (replace search_text replace_text original_text))
search_and_replace texts = err value_error

unfoldable pub reverse_onto : List Text → List Text → List Text
reverse_onto out [] = out
reverse_onto out (l ∷ ls) = reverse_onto (l ∷ out) ls

unfoldable pub reverse_lines : Text → Text
unfolding reverse_onto splitlines_keep
reverse_lines text = concat (reverse_onto [] (splitlines_keep text))

unfoldable pub make_all_relative : ℕ → List Text → Result Failure (List Text)
make_all_relative marker [] = ok []
make_all_relative marker (text ∷ texts) =
    make_relative marker text
    >>= (λ first. make_all_relative marker texts >>= (λ rest. ok (first ∷ rest)))

unfoldable pub relative_indent : List Text → Result Failure (ℕ × List Text)
relative_indent texts =
    relative_indenter texts
    >>= (λ ri. make_all_relative ri texts >>= (λ relative. ok (ri, relative)))

unfoldable pub strip_blank_lines : List Text → List Text
unfolding strip_by is_crlf
strip_blank_lines texts = map (λ text. strip_by is_crlf text ++ newline) texts

unfoldable pub reversed_result : Bool → Option Text → Option Text
unfolding is_found reverse_lines
reversed_result reverse none = none
reversed_result reverse (some res) =
    if reverse then (if is_empty res then some res else some (reverse_lines res)) else some res

-- `except ValueError: return`
unfoldable pub caught : Result Failure Text → Result Failure (Option Text)
caught (ok res) = ok (some res)
caught (err value_error) = ok none
caught (err search_text_not_unique) = ok none
caught (err index_error) = err index_error

-- With no `RelativeIndenter` the result stays as it is.
unfoldable pub absolute_result : Option ℕ → Option Text → Result Failure (Option Text)
unfolding caught make_absolute
absolute_result none res = ok res
absolute_result (some ri) none = ok none
absolute_result (some ri) (some []) = ok (some [])
absolute_result (some ri) (some (c ∷ s)) = caught (make_absolute ri (c ∷ s))

unfoldable pub prepared : Bool → List Text → Result Failure (Option ℕ × List Text)
unfolding relative_indent
prepared true texts = relative_indent texts >>= (λ (ri, relative). ok (some ri, relative))
prepared false texts = ok (none, texts)

unfoldable pub try_strategy : List Text → Strategy → Preproc → Result Failure (Option Text)
try_strategy texts strategy (strip_blank, relative, reverse) =
    let stripped = if strip_blank then strip_blank_lines texts else texts in
    prepared relative stripped >>= (λ (ri, dented).
      strategy (if reverse then map reverse_lines dented else dented)
      >>= (λ res. absolute_result ri (reversed_result reverse res)))

unfoldable pub flexible_search_and_replace :
    List Text → List (Strategy × List Preproc) → Result Failure (Option Text)
flexible_search_and_replace texts strategies =
    first_found (λ (strategy, preprocs). first_found (try_strategy texts strategy) preprocs)
      strategies
