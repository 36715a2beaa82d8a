-- ===== src/Diff/Unified/Flexible/Literal.antt =====
-- The literal strategy comes first.
use deputydev_core.Prelude.{◌≢◌, [], ◌∷◌, true, false, some, ◌≡◌, refl, arith, is_empty}
use deputydev_core.Py.Chars.{Text}
use deputydev_core.Py.Result.{ok}
use deputydev_core.Py.Search.{count, replace}
use deputydev_core.Diff.Unified.Flexible.{
  is_found, first_found, all_preprocs, search_and_replace, prepared, absolute_result,
  reversed_result, try_strategy, flexible_search_and_replace,
}
use deputydev_core.Diff.Unified.Flexible.Order.{first_found_here}

try_strategy-plain :
    (search repl original : Text)
    → count search original ≢ 0
    → try_strategy (search ∷ repl ∷ original ∷ []) search_and_replace (false, false, false)
      ≡ ok (some (replace search repl original))
unfolding try_strategy prepared search_and_replace reversed_result absolute_result
try_strategy-plain search repl original h = ground arith

pub is_found-some : (s : Text) → is_empty s ≡ false → is_found (some s) ≡ true
unfolding is_found
is_found-some [] h = absurd (cc)
is_found-some (c ∷ s) h = refl

-- If a text occurs and the content with each occurrence replaced is not empty, that content is the
-- result, and nothing else is tried.
pub flexible_search_and_replace-literal :
    (search repl original : Text)
    → count search original ≢ 0
    → is_empty (replace search repl original) ≡ false
    → flexible_search_and_replace
        (search ∷ repl ∷ original ∷ [])
        ((search_and_replace, all_preprocs) ∷ [])
      ≡ ok (some (replace search repl original))
unfolding flexible_search_and_replace all_preprocs
flexible_search_and_replace-literal search repl original h n =
    let texts = search ∷ repl ∷ original ∷ [] in
    let found = is_found-some (replace search repl original) n in
    let try = try_strategy texts search_and_replace in
    first_found_here (λ (strategy, preprocs). first_found (try_strategy texts strategy) preprocs)
      (search_and_replace, all_preprocs) [] (some (replace search repl original))
      (first_found_here try (false, false, false) _ (some (replace search repl original))
        (try_strategy-plain search repl original h) found)
      found
