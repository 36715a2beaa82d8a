-- ===== src/Diff/Unified/Relative/RoundTrip.antt =====
-- Relative indents and back.
use deputydev_core.Prelude.{
  take-replicate, drop-replicate_append, any_of-append, any_of-replicate, length-replicate,
  replicate-append, drop-replicate, take-replicate_append, append-nil, lt→ltb, ◌⊎◌, ◌<◌,
  length-append, ℕ, zero, suc, ◌-◌, List, [], ◌∷◌, ◌++◌, map, true, false, ◌==◌, concat, any_of,
  All, ◌≡◌, refl, ap, ◌∙◌, arith, inl, inr, replicate, length, append_assoc,
}
use deputydev_core.Py.Chars.{space_of_line_end, Text, lf, is_line_end, is_space, is_crlf}
use deputydev_core.Py.Lines.{splitlines_keep, splitlines_keep-line}
use deputydev_core.Py.Result.{ok, ◌>>=◌}
use deputydev_core.Py.Search.{starts_with}
use deputydev_core.Py.Strip.{rstrip_by-none, rstrip_by-append, lstrip_by, lstrip, rstrip_by}
use deputydev_core.Diff.Unified.Relative.{
  starts_with, has_char, len_indent, cur_indent, relative_lines, make_relative, dent_of, indented,
  out_line, absolute_lines, checked, make_absolute,
}

-- A line: how many blanks it starts with, and the rest of it.
abbrev pub Line : Type 0
Line = ℕ × Text

abbrev pub printed : Line → Text
printed (k, body) = replicate k 32 ++ (body ++ lf ∷ [])

abbrev pub file : List Line → Text
file ls = concat (map printed ls)

abbrev pub Starts : ℕ → Text → Type 0
Starts k [] = k ≡ 0
Starts k (c ∷ s) = is_space c ≡ false

-- The rest of the line starts with no white space and has no line end and no marker; an empty line
-- has no indent.
pub record IsPlain (marker : ℕ) (l : Line) : Type 0 where
  pub starts : Starts l.0 l.1
  pub one_line : any_of is_line_end l.1 ≡ false
  pub unmarked : has_char marker l.1 ≡ false

crlf_of-line_end : (s : Text) → any_of is_line_end s ≡ false → any_of is_crlf s ≡ false
unfolding is_line_end is_crlf
crlf_of-line_end [] h = refl
crlf_of-line_end (c ∷ s) h = ground (arith, crlf_of-line_end s)

chomped : (s : Text) → any_of is_line_end s ≡ false → rstrip_by is_crlf (s ++ lf ∷ []) ≡ s
chomped s h =
    rstrip_by-append is_crlf s (lf ∷ []) (unfold is_crlf in refl)
    ∙ rstrip_by-none is_crlf s (crlf_of-line_end s h)

lstrip-blanks : (k : ℕ) (body : Text) → Starts k body → lstrip (replicate k 32 ++ body) ≡ body
unfolding lstrip_by is_space
lstrip-blanks zero [] st = refl
lstrip-blanks zero (c ∷ s) st = rw (st, is_space) refl
lstrip-blanks (suc k) [] st = absurd (omega arith)
lstrip-blanks (suc k) (c ∷ s) st = lstrip-blanks k (c ∷ s) st

one_line-blanks :
    (k : ℕ) (body : Text)
    → any_of is_line_end body ≡ false
    → any_of is_line_end (replicate k 32 ++ body) ≡ false
unfolding is_line_end
one_line-blanks k body h =
    any_of-append is_line_end (replicate k 32) body
    ∙ ground (arith, any_of-replicate is_line_end k 32 refl)

len_indent-printed :
    (k : ℕ) (body : Text)
    → Starts k body
    → any_of is_line_end body ≡ false
    → len_indent (printed (k, body)) ≡ k
unfolding len_indent
len_indent-printed k body st h =
    rw
      (
        ← append_assoc (replicate k 32) body (lf ∷ []),
        chomped (replicate k 32 ++ body) (one_line-blanks k body h),
        lstrip-blanks k body st,
      )
      (omega (arith, length-append (replicate k 32) body, length-replicate k 32))

compared : (p k : ℕ) → (p < k) ⊎ ((k < p) ⊎ (p ≡ k))
compared p k = ground arith

not_line_end : (c : ℕ) → is_space c ≡ false → is_line_end c ≡ false
not_line_end c h = ground (arith, space_of_line_end c)

starts_with-blanks :
    (marker n : ℕ) → is_space marker ≡ false → starts_with (marker ∷ []) (replicate n 32) ≡ false
unfolding starts_with is_space
starts_with-blanks marker zero h = refl
starts_with-blanks marker (suc n) h = ground arith

starts_with-markers : (marker n : ℕ) → 0 < n → starts_with (marker ∷ []) (replicate n marker) ≡ true
unfolding starts_with
starts_with-markers marker zero h = absurd (omega arith)
starts_with-markers marker (suc n) h = ground arith

indented-more :
    (marker p k : ℕ)
    → is_space marker ≡ false
    → p < k
    → indented marker (replicate p 32) (replicate (k - p) 32) ≡ replicate k 32
unfolding indented
indented-more marker p k h l =
    rw (starts_with-blanks marker (k - p) h) (replicate-append p (k - p) k 32 (omega arith))

indented-less :
    (marker p k : ℕ)
    → k < p
    → indented marker (replicate p 32) (replicate (p - k) marker) ≡ replicate k 32
unfolding indented
indented-less marker p k l =
    rw
      (
        starts_with-markers marker (p - k) (omega arith),
        length-replicate p 32,
        length-replicate (p - k) marker,
        take-replicate (p - (p - k)) p 32 (omega arith),
      )
      (ap (λ (n : ℕ). replicate n 32) (omega arith))

indented-same : (marker p k : ℕ) → p ≡ k → indented marker (replicate p 32) [] ≡ replicate k 32
unfolding indented starts_with
indented-same marker p k l = append-nil (replicate p 32) ∙ ap (λ (n : ℕ). replicate n 32) l

dent_of-line : (s : Text) → any_of is_line_end s ≡ false → dent_of (s ++ lf ∷ []) ≡ s
unfolding dent_of
dent_of-line s h = chomped s h

out_line-line :
    (k : ℕ) (body : Text)
    → Starts k body
    → any_of is_line_end body ≡ false
    → out_line (replicate k 32) (body ++ lf ∷ []) ≡ printed (k, body)
unfolding out_line
out_line-line k [] st h = rw (chomped [] refl, st) refl
out_line-line k (c ∷ s) st h = rw (chomped (c ∷ s) h) refl

module _ (marker : ℕ) (h : is_space marker ≡ false) where
  cur_indent-more :
      (p k : ℕ) → p < k → cur_indent marker p k (replicate k 32) ≡ replicate (k - p) 32
  unfolding cur_indent
  cur_indent-more p k l = rw (lt→ltb p k l) (
      drop-replicate (length (replicate k 32) - (k - p)) k (k - p) 32
        (omega (arith, length-replicate k 32)))

  cur_indent-less :
      (p k : ℕ) → k < p → cur_indent marker p k (replicate k 32) ≡ replicate (p - k) marker
  unfolding cur_indent
  cur_indent-less p k l = ground arith

  cur_indent-same : (p k : ℕ) → p ≡ k → cur_indent marker p k (replicate k 32) ≡ []
  unfolding cur_indent
  cur_indent-same p k l = ground arith

  cur_indent-one_line :
      (p k : ℕ) → any_of is_line_end (cur_indent marker p k (replicate k 32)) ≡ false
  cur_indent-one_line p k = elim (compared p k) [
    | inl l ↦
        rw (cur_indent-more p k l)
          (any_of-replicate is_line_end (k - p) 32 (unfold is_line_end in refl))
    | inr (inl l) ↦
        rw (cur_indent-less p k l)
          (any_of-replicate is_line_end (p - k) marker (not_line_end marker h))
    | inr (inr l) ↦ rw (cur_indent-same p k l) refl
  ]

  indented-cur_indent :
      (p k : ℕ)
      → indented marker (replicate p 32) (cur_indent marker p k (replicate k 32)) ≡ replicate k 32
  indented-cur_indent p k = elim (compared p k) [
    | inl l ↦ rw (cur_indent-more p k l) (indented-more marker p k h l)
    | inr (inl l) ↦ rw (cur_indent-less p k l) (indented-less marker p k l)
    | inr (inr l) ↦ rw (cur_indent-same p k l) (indented-same marker p k l)
  ]

  absolute_lines-relative_lines :
      (p : ℕ) (ls : List Line)
      → All (IsPlain marker) ls
      → absolute_lines marker
          (replicate p 32)
          (splitlines_keep (relative_lines marker (replicate p 32) (map printed ls)))
        ≡ ok (file ls)
  unfolding relative_lines absolute_lines
  absolute_lines-relative_lines p [] plain = unfold splitlines_keep in refl
  absolute_lines-relative_lines p ((k, body) ∷ ls) (l, plain) =
      let R = relative_lines marker (replicate k 32) (map printed ls) in
      let cur = cur_indent marker p k (replicate k 32) in
      rw
        (
          len_indent-printed k body l.starts l.one_line,
          take-replicate_append k 32 (body ++ lf ∷ []),
          drop-replicate_append k 32 (body ++ lf ∷ []),
          length-replicate p 32,
          append_assoc body (lf ∷ []) R,
          splitlines_keep-line cur (body ++ lf ∷ R) (cur_indent-one_line p k),
          splitlines_keep-line body R l.one_line,
          dent_of-line cur (cur_indent-one_line p k),
          indented-cur_indent p k,
          absolute_lines-relative_lines k ls plain,
          out_line-line k body l.starts l.one_line,
        )
        refl

  has_char-file : (ls : List Line) → All (IsPlain marker) ls → has_char marker (file ls) ≡ false
  has_char-file [] plain = refl
  has_char-file ((k, body) ∷ ls) (l, plain) =
      let rest = has_char-file ls plain in
      let test = λ (d : ℕ). d == marker in
      let blank : (32 == marker) ≡ false = unfold is_space in ground (arith, h) in
      let end : (10 == marker) ≡ false = unfold is_space in ground (arith, h) in
      ground (
        arith,
        l.unmarked,
        rest,
        blank,
        end,
        any_of-append test (printed (k, body)) (file ls),
        any_of-append test (replicate k 32) (body ++ lf ∷ []),
        any_of-append test body (lf ∷ []),
        any_of-replicate test k 32 blank,
      )

  splitlines_keep-file :
      (ls : List Line) → All (IsPlain marker) ls → splitlines_keep (file ls) ≡ map printed ls
  splitlines_keep-file [] plain = unfold splitlines_keep in refl
  splitlines_keep-file ((k, body) ∷ ls) (l, plain) =
      rw
        (
          append_assoc (replicate k 32) (body ++ lf ∷ []) (file ls),
          append_assoc body (lf ∷ []) (file ls),
          ← append_assoc (replicate k 32) body (lf ∷ file ls),
          splitlines_keep-line (replicate k 32 ++ body) (file ls)
              (one_line-blanks k body l.one_line),
          splitlines_keep-file ls plain,
          append_assoc (replicate k 32) body (lf ∷ []),
        )
        refl

  -- For a file that is indented by blanks alone, has no white space on its empty lines and holds
  -- neither the marker nor a line end other than `\n`, make_absolute gives back the file that
  -- make_relative was given.
  pub make_absolute-make_relative :
      (ls : List Line)
      → All (IsPlain marker) ls
      → (make_relative marker (file ls) >>= (λ text. make_absolute marker text)) ≡ ok (file ls)
  unfolding make_relative make_absolute checked
  make_absolute-make_relative ls plain =
      rw
        (
          has_char-file ls plain,
          splitlines_keep-file ls plain,
          absolute_lines-relative_lines 0 ls plain,
          has_char-file ls plain,
        )
        refl
