-- ===== src/Py/Lines.antt =====
-- `str.splitlines`, with and without the line ends, `str.split("\n")` and `"\n".join`.
use deputydev_core.Prelude.{
  any_of, ℕ, List, [], ◌∷◌, ◌++◌, Bool, false, not, ◌&&◌, ◌==◌, ◌≡◌, ◌≢◌, refl, arith, concat,
  is_empty, map, if◌then◌else◌,
}
use deputydev_core.Py.Chars.{Text, lf, cr, is_line_end}

abbrev pub starts_lf : Text → Bool
starts_lf [] = false
starts_lf (c ∷ s) = c == lf

-- Whether a line ends behind `c`, with `s` to come: `\r\n` is one line end.
unfoldable pub ends_line : ℕ → Text → Bool
unfolding is_line_end
ends_line c s = is_line_end c && not (c == cr && starts_lf s)

-- `c` in front of the first line.
abbrev pub on_first : ℕ → List Text → List Text
on_first c [] = (c ∷ []) ∷ []
on_first c (l ∷ ls) = (c ∷ l) ∷ ls

-- `s.splitlines(keepends=True)`
unfoldable pub splitlines_keep : Text → List Text
unfolding ends_line
splitlines_keep [] = []
splitlines_keep (c ∷ s) =
    let rest = splitlines_keep s in if ends_line c s then (c ∷ []) ∷ rest else on_first c rest

-- A line without its line end.
unfoldable pub chomp : Text → Text
unfolding is_line_end
chomp [] = []
chomp (c ∷ []) = if is_line_end c then [] else c ∷ []
chomp (c ∷ d ∷ s) =
    let rest = chomp (d ∷ s) in if is_empty s && (c == cr && d == lf) then [] else c ∷ rest

-- `s.splitlines()`
unfoldable pub splitlines : Text → List Text
unfolding splitlines_keep chomp
splitlines s = map chomp (splitlines_keep s)

-- `s.split("\n")`: always at least one part.
unfoldable pub split_lf : Text → List Text
split_lf [] = [] ∷ []
split_lf (c ∷ s) = let rest = split_lf s in if c == lf then [] ∷ rest else on_first c rest

-- `"\n".join(ls)`
unfoldable pub join_lf : List Text → Text
join_lf [] = []
join_lf (l ∷ []) = l
join_lf (l ∷ m ∷ ls) = l ++ lf ∷ join_lf (m ∷ ls)

concat-on_first : (c : ℕ) (ls : List Text) → concat (on_first c ls) ≡ c ∷ concat ls
concat-on_first c [] = refl
concat-on_first c (l ∷ ls) = refl

-- The lines with their ends spell the text.
pub concat-splitlines_keep : (s : Text) → concat (splitlines_keep s) ≡ s
unfolding splitlines_keep
concat-splitlines_keep [] = refl
concat-splitlines_keep (c ∷ s) =
    ground (arith, concat-splitlines_keep s, concat-on_first c (splitlines_keep s))

join_lf-on_first :
    (c : ℕ) (l : Text) (ls : List Text) → join_lf ((c ∷ l) ∷ ls) ≡ c ∷ join_lf (l ∷ ls)
unfolding join_lf
join_lf-on_first c l [] = refl
join_lf-on_first c l (m ∷ ls) = refl

pub split_lf-ne-nil : (s : Text) → split_lf s ≢ []
unfolding split_lf
split_lf-ne-nil [] = ground arith
split_lf-ne-nil (c ∷ s) = ground (arith, split_lf-ne-nil s)

join_lf-first : (c : ℕ) (ls : List Text) → ls ≢ [] → join_lf (on_first c ls) ≡ c ∷ join_lf ls
join_lf-first c [] h = absurd (h refl)
join_lf-first c (l ∷ ls) h = join_lf-on_first c l ls

join_lf-cons : (ls : List Text) → ls ≢ [] → join_lf ([] ∷ ls) ≡ lf ∷ join_lf ls
unfolding join_lf
join_lf-cons [] h = absurd (h refl)
join_lf-cons (l ∷ ls) h = refl

-- Joining the parts of a split gives the text back.
pub join_lf-split_lf : (s : Text) → join_lf (split_lf s) ≡ s
unfolding split_lf
join_lf-split_lf [] = unfold join_lf in refl
join_lf-split_lf (c ∷ s) = ground (
  arith,
  join_lf-split_lf s,
  join_lf-first c (split_lf s) (split_lf-ne-nil s),
  join_lf-cons (split_lf s) (split_lf-ne-nil s),
)

-- A line without a line end inside it, ended by `\n`, is the first line of the text.
pub splitlines_keep-line :
    (s t : Text)
    → any_of is_line_end s ≡ false
    → splitlines_keep (s ++ lf ∷ t) ≡ (s ++ lf ∷ []) ∷ splitlines_keep t
unfolding splitlines_keep is_line_end ends_line
splitlines_keep-line [] t h = refl
splitlines_keep-line (c ∷ s) t h = ground (arith, splitlines_keep-line s t)

pub splitlines_keep-crlf_line :
    (s t : Text)
    → any_of is_line_end s ≡ false
    → splitlines_keep (s ++ cr ∷ lf ∷ t) ≡ (s ++ cr ∷ lf ∷ []) ∷ splitlines_keep t
unfolding splitlines_keep is_line_end ends_line
splitlines_keep-crlf_line [] t h = refl
splitlines_keep-crlf_line (c ∷ s) t h = ground (arith, splitlines_keep-crlf_line s t)
