-- ===== src/Diff/Unified/Hunks.antt =====
-- Hunks that are printed and read back.
use deputydev_core.Prelude.{
  ℕ, List, [], ◌∷◌, ◌++◌, append_assoc, append-nil, Bool, true, false, map, ◌≡◌, refl, ◌∙◌,
}
use deputydev_core.Py.Chars.{Text}
use deputydev_core.Diff.Unified.{State, before_after_from, hunk_to_before_after}

-- A line of a hunk: its first character and the rest of it, which is not empty.
pub data Change : Type 0 where
  kept removed added : Change

abbrev pub sign : Change → ℕ
sign kept = 32
sign removed = 45
sign added = 43

-- (change, first character of the line, rest of the line)
abbrev pub HunkLine : Type 0
HunkLine = Change × (ℕ × Text)

abbrev pub printed : HunkLine → Text
printed (change, (d, s)) = sign change ∷ d ∷ s

abbrev pub old_lines : List HunkLine → List Text
old_lines [] = []
old_lines ((kept, (d, s)) ∷ ls) = (d ∷ s) ∷ old_lines ls
old_lines ((removed, (d, s)) ∷ ls) = (d ∷ s) ∷ old_lines ls
old_lines ((added, (d, s)) ∷ ls) = old_lines ls

abbrev pub new_lines : List HunkLine → List Text
new_lines [] = []
new_lines ((kept, (d, s)) ∷ ls) = (d ∷ s) ∷ new_lines ls
new_lines ((removed, (d, s)) ∷ ls) = new_lines ls
new_lines ((added, (d, s)) ∷ ls) = (d ∷ s) ∷ new_lines ls

before_after_from-printed :
    (ls : List HunkLine) (before after : List Text)
    → before_after_from before after (map printed ls)
      ≡ (before ++ old_lines ls, after ++ new_lines ls)
unfolding before_after_from
before_after_from-printed [] before after = rw (append-nil before, append-nil after) refl
before_after_from-printed ((kept, (d, s)) ∷ ls) before after =
    before_after_from-printed ls (before ++ (d ∷ s) ∷ []) (after ++ (d ∷ s) ∷ [])
    ∙ rw
        (
          append_assoc before ((d ∷ s) ∷ []) (old_lines ls),
          append_assoc after ((d ∷ s) ∷ []) (new_lines ls),
        )
        refl
before_after_from-printed ((removed, (d, s)) ∷ ls) before after =
    before_after_from-printed ls (before ++ (d ∷ s) ∷ []) after
    ∙ rw (append_assoc before ((d ∷ s) ∷ []) (old_lines ls)) refl
before_after_from-printed ((added, (d, s)) ∷ ls) before after =
    before_after_from-printed ls before (after ++ (d ∷ s) ∷ [])
    ∙ rw (append_assoc after ((d ∷ s) ∷ []) (new_lines ls)) refl

-- A printed hunk, no line of it empty, is read back: the lines kept and removed, and those kept and
-- added, each in order.
pub hunk_to_before_after-printed :
    (ls : List HunkLine) → hunk_to_before_after (map printed ls) ≡ (old_lines ls, new_lines ls)
unfolding hunk_to_before_after
hunk_to_before_after-printed ls = before_after_from-printed ls [] []

-- Whether a hunk has a line that is removed or added.
unfoldable pub changes : List HunkLine → Bool
changes [] = false
changes ((kept, l) ∷ ls) = changes ls
changes ((removed, l) ∷ ls) = true
changes ((added, l) ∷ ls) = true

abbrev at : List (List Text) → Bool → List Text → State
at edits keeper hunk = record { edits = edits; keeper = keeper; hunk = hunk }

-- Hunks, each followed by a line that opens the next one.
abbrev pub blocks : Text → List (List HunkLine) → List Text
blocks position [] = []
blocks position (h ∷ hs) = map printed h ++ position ∷ blocks position hs
