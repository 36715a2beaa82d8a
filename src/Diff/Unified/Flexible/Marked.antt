-- ===== src/Diff/Unified/Flexible/Marked.antt =====
-- The marker that is chosen for the texts serves all of them.
use deputydev_core.Prelude.{ℕ, List, [], ◌∷◌, map, false, All, ◌≡◌, refl}
use deputydev_core.Py.Chars.{Text}
use deputydev_core.Py.Lines.{splitlines_keep}
use deputydev_core.Py.Result.{ok}
use deputydev_core.Diff.Unified.Relative.{
  has_char, relative_indenter, relative_lines, make_relative,
}
use deputydev_core.Diff.Unified.Relative.Marker.{relative_indenter-absent}
use deputydev_core.Diff.Unified.Flexible.{make_all_relative, relative_indent}

abbrev pub relative_text : ℕ → Text → Text
relative_text marker text = relative_lines marker [] (splitlines_keep text)

make_all_relative-absent :
    (marker : ℕ) (texts : List Text)
    → All (λ text. has_char marker text ≡ false) texts
    → make_all_relative marker texts ≡ ok (map (relative_text marker) texts)
unfolding make_all_relative make_relative
make_all_relative-absent marker [] h = refl
make_all_relative-absent marker (text ∷ texts) (h, hs) =
    rw (h, make_all_relative-absent marker texts hs) refl

-- Once a marker is found, no text is refused for holding it: every text is rewritten with that
-- marker.
pub relative_indent-marker :
    (texts : List Text) (marker : ℕ)
    → relative_indenter texts ≡ ok marker
    → relative_indent texts ≡ ok (marker, map (relative_text marker) texts)
unfolding relative_indent
relative_indent-marker texts marker h =
    rw (h, make_all_relative-absent marker texts (relative_indenter-absent texts marker h)) refl
