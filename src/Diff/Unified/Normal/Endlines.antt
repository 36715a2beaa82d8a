-- ===== src/Diff/Unified/Normal/Endlines.antt =====
-- Line ends of the content.
use deputydev_core.Prelude.{
  List, [], ◌∷◌, ◌++◌, append_assoc, map, Bool, true, false, concat, any_of, All, if◌then◌else◌,
  ◌≡◌, refl, ap, ◌∙◌, arith,
}
use deputydev_core.Py.Chars.{Text, newline, crlf, is_line_end, is_crlf}
use deputydev_core.Py.Lines.{splitlines_keep, splitlines_keep-line, splitlines_keep-crlf_line}
use deputydev_core.Py.Strip.{rstrip_by-append, rstrip_by-none}
use deputydev_core.Diff.Unified.Normal.{with_lf, normalize_endlines_content}

-- A line, and whether it ends in `\r\n`.
abbrev pub Line : Type 0
Line = Text × Bool

abbrev pub ended : Line → Text
ended (body, is_crlf_line) = body ++ (if is_crlf_line then crlf else newline)

abbrev pub ended_lf : Line → Text
ended_lf (body, is_crlf_line) = body ++ newline

abbrev pub IsLine : Line → Type 0
IsLine (body, is_crlf_line) = any_of is_line_end body ≡ false

crlf_of-line_end : (s : Text) → any_of is_line_end s ≡ false → any_of is_crlf s ≡ false
unfolding is_line_end is_crlf
crlf_of-line_end [] h = refl
crlf_of-line_end (c ∷ s) h = ground (arith, crlf_of-line_end s)

with_lf-ended : (l : Line) → IsLine l → with_lf (ended l) ≡ ended_lf l
unfolding with_lf
with_lf-ended (body, true) h =
    ap (λ (s : Text). s ++ newline)
      (rstrip_by-append is_crlf body crlf (unfold is_crlf in refl)
        ∙ rstrip_by-none is_crlf body (crlf_of-line_end body h))
with_lf-ended (body, false) h =
    ap (λ (s : Text). s ++ newline)
      (rstrip_by-append is_crlf body newline (unfold is_crlf in refl)
        ∙ rstrip_by-none is_crlf body (crlf_of-line_end body h))

splitlines_keep-ended :
    (ls : List Line) → All IsLine ls → splitlines_keep (concat (map ended ls)) ≡ map ended ls
splitlines_keep-ended [] h = unfold splitlines_keep in refl
splitlines_keep-ended ((body, true) ∷ ls) (h, hs) =
    rw
      (
        append_assoc body crlf (concat (map ended ls)),
        splitlines_keep-crlf_line body (concat (map ended ls)) h,
        splitlines_keep-ended ls hs,
      )
      refl
splitlines_keep-ended ((body, false) ∷ ls) (h, hs) =
    rw
      (
        append_assoc body newline (concat (map ended ls)),
        splitlines_keep-line body (concat (map ended ls)) h,
        splitlines_keep-ended ls hs,
      )
      refl

with_lf-lines : (ls : List Line) → All IsLine ls → map with_lf (map ended ls) ≡ map ended_lf ls
with_lf-lines [] h = refl
with_lf-lines (l ∷ ls) (h, hs) = λ i. with_lf-ended l h i ∷ with_lf-lines ls hs i

-- Of a content whose lines end in `\n` or `\r\n`, mixed at will, and hold no other line end, the
-- normalised content has the same lines, each ended by `\n`.
pub normalize_endlines_content-lines :
    (ls : List Line)
    → All IsLine ls
    → normalize_endlines_content (concat (map ended ls)) ≡ concat (map ended_lf ls)
unfolding normalize_endlines_content
normalize_endlines_content-lines ls h = rw (splitlines_keep-ended ls h, with_lf-lines ls h) refl
