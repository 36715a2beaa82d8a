-- ===== src/Diff/SearchReplace/Locate/Bounds.antt =====
-- The span that `locate_span` returns lies in the normalised text, whichever layer found it.
use mathlib.Core.Option.{some-injective}
use deputydev_core.Prelude.{
  take-append-take, ℕ, ◌+◌, ◌≤◌, ◌-◌, List, Option, none, some, ◌≡◌, refl, ap, arith, length,
  length-append, take, drop, slice, concat, concat-append, take-append-drop, Option-cases, inl, inr,
}
use deputydev_core.Py.Chars.{Text}
use deputydev_core.Py.Lines.{concat-splitlines_keep}
use deputydev_core.Py.Search.{find}
use deputydev_core.Py.Search.Laws.{find-le}
use deputydev_core.Diff.SearchReplace.Prep.{prep, normalise}
use deputydev_core.Diff.SearchReplace.Match.{
  find_indent_flexible, line_trimmed_match, anchor_line_match,
}
use deputydev_core.Diff.SearchReplace.Fuzzy.{replace_closest_edit_distance}
use deputydev_core.Diff.SearchReplace.Locate.{
  line_span, span_at, exact_span, fuzzy_span, locate_span, ◌or_else◌,
}

-- A span of a text of `n` characters.
abbrev pub Within : ℕ → ℕ × ℕ → Type 0
Within n s = (s.0 ≤ s.1) × (s.1 ≤ n)

-- If there is a span, it lies in the text.
pub record AllWithin (n : ℕ) (found : Option (ℕ × ℕ)) : Type 0 where
  pub at : (s : ℕ × ℕ) → found ≡ some s → Within n s

AllWithin-none : (n : ℕ) → AllWithin n none
AllWithin-none n = record { at = λ s e. absurd (ground arith) }

AllWithin-some : (n : ℕ) (s : ℕ × ℕ) → Within n s → AllWithin n (some s)
AllWithin-some n s h = record { at = λ t e. ground (arith, some-injective e) }

length-concat-take :
    (lines : List Text) (i : ℕ) → length (concat (take i lines)) ≤ length (concat lines)
length-concat-take lines i = omega (
  arith,
  ap (λ (ls : List Text). length (concat ls)) (take-append-drop i lines),
  ap length (concat-append (take i lines) (drop i lines)),
  length-append (concat (take i lines)) (concat (drop i lines)),
)

-- The lines from `i` on follow those in front of them.
chars-slice :
    (lines : List Text) (i j : ℕ)
    → length (concat (take i lines)) + length (concat (slice i j lines))
      ≡ length (concat (take (i + (j - i)) lines))
chars-slice lines i j =
    let before = take i lines in
    let inside = slice i j lines in
    omega (
      arith,
      ap (λ (ls : List Text). length (concat ls))
          (take-append-take i (j - i) (i + (j - i)) lines refl),
      ap length (concat-append before inside),
      length-append (concat before) (concat inside),
    )

line_span-Within :
    (lines : List Text) (i j : ℕ) → Within (length (concat lines)) (line_span lines i j)
unfolding line_span
line_span-Within lines i j =
    omega (arith, chars-slice lines i j, length-concat-take lines (i + (j - i)))

module _ (lines : List Text) (total : ℕ) (t : length (concat lines) ≡ total) where
  span_at-AllWithin : (n : ℕ) (found : Option ℕ) → AllWithin total (span_at lines n found)
  unfolding span_at
  span_at-AllWithin n none = AllWithin-none _
  span_at-AllWithin n (some i) =
      AllWithin-some _ _ (omega (arith, line_span-Within lines i (i + n)))

  fuzzy_span-AllWithin :
      (matches : Text → Text → ℕ) (part : Text) (n : ℕ)
      → AllWithin total (fuzzy_span matches lines part n)
  unfolding fuzzy_span
  fuzzy_span-AllWithin matches part n =
      elim (Option-cases (replace_closest_edit_distance matches lines part n)) [
        | inl e ↦ rw (e, fuzzy_span) (AllWithin-none _)
        | inr ((i, j), e) ↦
            rw (e, fuzzy_span) (AllWithin-some _ _ (omega (arith, line_span-Within lines i j)))
      ]

exact_span-AllWithin : (whole part : Text) → AllWithin (length whole) (exact_span whole part)
unfolding exact_span
exact_span-AllWithin whole part = elim (Option-cases (find part whole)) [
  | inl e ↦ rw (e, exact_span) (AllWithin-none _)
  | inr (i, e) ↦ rw (e, exact_span) (AllWithin-some _ _ (omega (arith, find-le part whole i e)))
]

or_else-AllWithin :
    {n : ℕ} {r s : Option (ℕ × ℕ)} → AllWithin n r → AllWithin n s → AllWithin n (r or_else s)
or_else-AllWithin {r = none} h k = k
or_else-AllWithin {r = some r} h k = h

length-prep_lines : (whole : Text) → length (concat (prep whole).1) ≡ length (prep whole).0
unfolding prep
length-prep_lines whole = ap length (concat-splitlines_keep (normalise whole))

locate_span-AllWithin :
    (matches : Text → Text → ℕ) (whole part : Text)
    → AllWithin (length (prep whole).0) (locate_span matches whole part)
unfolding locate_span
locate_span-AllWithin matches whole part =
    let lines = (prep whole).1 in
    let part_lines = (prep part).1 in
    let n = length part_lines in
    let total = length (prep whole).0 in
    let t = length-prep_lines whole in
    or_else-AllWithin (exact_span-AllWithin (prep whole).0 (prep part).0) (
      or_else-AllWithin (span_at-AllWithin lines total t n (find_indent_flexible lines part_lines))
        (or_else-AllWithin (span_at-AllWithin lines total t n (line_trimmed_match lines part_lines))
          (or_else-AllWithin
            (span_at-AllWithin lines total t n (anchor_line_match lines part_lines))
            (fuzzy_span-AllWithin lines total t matches (prep part).0 n))))

-- A span that `locate_span` returns, by whichever of its five layers, lies in the normalised text.
pub locate_span-Within :
    (matches : Text → Text → ℕ) (whole part : Text) (i j : ℕ)
    → locate_span matches whole part ≡ some (i, j)
    → (i ≤ j) × (j ≤ length (prep whole).0)
locate_span-Within matches whole part i j e = (locate_span-AllWithin matches whole part).at (i, j) e
