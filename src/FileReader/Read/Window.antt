-- ===== src/FileReader/Read/Window.antt =====
-- The window of lines that a call reads.
use deputydev_core.Prelude.{
  length-drop, ℕ, zero, suc, ◌+◌, ◌-◌, ◌≤◌, ◌<◌, min, List, [], ◌∷◌, ◌++◌, append_assoc, append-nil,
  Bool, true, false, ltb, leb, length, take, drop, slice, concat, is_empty, All, ◌≡◌, refl, ap, sym,
  ◌∙◌, arith, none, some, inr,
}
use deputydev_core.Py.Chars.{Text}
use deputydev_core.Py.Result.{Result, ok}
use deputydev_core.Chunking.Data.{ChunkInfo}
use deputydev_core.FileReader.Stream.{utf_8, Fault, TextFile, readline}
use deputydev_core.FileReader.Read.{
  is_none, or_default, read_counted, count_total_lines, read_raw_chunk, raised, read_with_encoding,
  Reader, chunk_info, skip_lines, read_up_to, read_lines,
}

-- What the library promises of the lines it delivers before the end of the file.
abbrev pub IsLine : Text → Type 0
IsLine line = is_empty line ≡ false

-- A file that is read without a fault.
abbrev pub sound : List Text → TextFile
sound lines = record { lines = lines; fault = none }

skip_lines-drop :
    (n i : ℕ) (lines : List Text)
    → All IsLine lines
    → n ≤ length lines
    → skip_lines n i (sound lines) ≡ ok (inr (sound (drop n lines)))
unfolding skip_lines readline
skip_lines-drop zero i lines h l = refl
skip_lines-drop (suc n) i [] h l = absurd (omega arith)
skip_lines-drop (suc n) i (line ∷ lines) (h, hs) l =
    rw h (skip_lines-drop n (suc i) lines hs (omega arith))

read_eq :
    (s t : Text) (m n : ℕ) (a b : Bool)
    → s ≡ t
    → m ≡ n
    → a ≡ b
    → ◌≡◌ {A = Result Fault (Text × ℕ × Bool)} (ok (s, m, a)) (ok (t, n, b))
read_eq s t m n a b e e' e'' = rw (e, e', e'') refl

-- The loop behind its first round: `line_end` is then the last line read.
read_up_to-take :
    (n start idx : ℕ) (lines : List Text) (content : Text)
    → All IsLine lines
    → read_up_to n start (suc idx) (sound lines) content (start + idx)
      ≡ ok (
        content ++ concat (take n lines),
        start + idx + min n (length lines),
        ltb (length lines) n,
      )
unfolding read_up_to readline
read_up_to-take zero start idx lines content h =
    read_eq content (content ++ []) (start + idx) (start + idx + min 0 (length lines)) false
      (ltb (length lines) 0) (sym (append-nil content)) (omega arith) (ground arith)
read_up_to-take (suc n) start idx [] content h =
    read_eq content (content ++ []) (start + idx) (start + idx + min (suc n) 0) true (ltb 0 (suc n))
      (sym (append-nil content)) (omega arith) (ground arith)
read_up_to-take (suc n) start idx (line ∷ lines) content (h, hs) = rw h (
    let same : start + suc idx ≡ suc (start + idx) = omega arith in
    read_up_to-take n start (suc idx) lines (content ++ line) hs
    ∙ read_eq _ _ _ _ _ _ (append_assoc content line (concat (take n lines))) (omega arith)
        (ground arith))

-- The first window of a file, where it has a first line.
read_up_to-first :
    (n start : ℕ) (lines : List Text)
    → All IsLine lines
    → 0 < n
    → 0 < length lines
    → read_up_to n start 0 (sound lines) [] start
      ≡ ok (concat (take n lines), start + min n (length lines) - 1, ltb (length lines) n)
unfolding read_up_to readline
read_up_to-first zero start lines h p q = absurd (omega arith)
read_up_to-first (suc n) start [] h p q = absurd (omega arith)
read_up_to-first (suc n) start (line ∷ lines) (h, hs) p q = rw h (
    read_up_to-take n start 0 lines line hs ∙ read_eq _ _ _ _ _ _ refl (omega arith) (ground arith))

All-drop : (n : ℕ) (lines : List Text) → All IsLine lines → All IsLine (drop n lines)
All-drop zero lines h = h
All-drop (suc n) [] h = tt
All-drop (suc n) (line ∷ lines) (h, hs) = All-drop n lines hs

take-min : (n k : ℕ) (lines : List Text) → k ≡ min n (length lines) → take n lines ≡ take k lines
take-min zero zero lines e = refl
take-min zero (suc k) lines e = absurd (omega arith)
take-min (suc n) zero [] e = refl
take-min (suc n) (suc k) [] e = refl
take-min (suc n) zero (line ∷ lines) e = absurd (omega arith)
take-min (suc n) (suc k) (line ∷ lines) e =
    ap (λ (r : List Text). line ∷ r) (take-min n k lines (omega arith))

response_eq :
    (path s t : Text) (start m n : ℕ) (a b : Bool)
    → s ≡ t
    → m ≡ n
    → a ≡ b
    → ◌≡◌ {A = Result Fault (ChunkInfo × Bool)}
        (ok (chunk_info path s start m, a))
        (ok (chunk_info path t start n, b))
response_eq path s t start m n a b e e' e'' = rw (e, e', e'') refl

module _ (reader : Reader) (lines : List Text) where
  -- The file is there, is UTF-8, and its lines are not empty.
  pub record IsReadable : Type 0 where
    pub there : reader.is_file ≡ true
    pub opens : reader.open_file utf_8 ≡ sound lines
    pub nonempty : All IsLine lines
    pub limit : 0 < reader.max_requested_line_range

  read_with_encoding-window :
      (start stop last : ℕ)
      → IsReadable
      → 0 < start
      → start ≤ stop
      → start ≤ length lines
      → last ≡ min (min stop (start + reader.max_requested_line_range - 1)) (length lines)
      → read_with_encoding reader start stop (length lines) utf_8
        ≡ ok (
          chunk_info reader.full_path (concat (slice (start - 1) last lines)) start last,
          leb (length lines) last,
        )
  unfolding read_with_encoding
  read_with_encoding-window start stop last r p q l e =
      rw (r.opens, skip_lines-drop (start - 1) 0 lines r.nonempty (omega arith))
        (let rest = drop (start - 1) lines in
          let left = length-drop (start - 1) lines in
          let k = min reader.max_requested_line_range (stop + 1 - start) in
          let limit = r.limit in
          rw
            (read_up_to-first k start rest (All-drop (start - 1) lines r.nonempty) (omega arith)
              (omega arith))
            (response_eq reader.full_path _ _ start _ _ _ _
              (ap concat (take-min k (last - (start - 1)) rest (omega arith))) (omega arith)
              (ground arith)))

  count_total_lines-length : IsReadable → count_total_lines reader ≡ ok (length lines)
  unfolding count_total_lines
  count_total_lines-length r =
      rw (r.there, r.opens) (ap (λ (f : TextFile). ok (length f.lines)) r.opens)

  read_raw_chunk-window :
      (start stop last : ℕ)
      → IsReadable
      → 0 < start
      → start ≤ stop
      → start ≤ length lines
      → last ≡ min (min stop (start + reader.max_requested_line_range - 1)) (length lines)
      → read_raw_chunk reader start stop (length lines)
        ≡ ok (record {
          chunk = chunk_info reader.full_path (concat (slice (start - 1) last lines)) start last;
          eof = leb (length lines) last;
          was_summary = false;
          total_lines = length lines;
        })
  unfolding read_raw_chunk
  read_raw_chunk-window start stop last r p q l e =
      rw (read_with_encoding-window start stop last r p q l e, read_raw_chunk) refl

  read_counted-range :
      (start stop : ℕ)
      → 0 < start
      → start ≤ stop
      → 0 < length lines
      → read_counted reader (some start) (some stop) (length lines)
        ≡ read_raw_chunk reader start
            (min stop (start + reader.max_requested_line_range - 1))
            (length lines)
  unfolding read_counted or_default is_none
  read_counted-range zero stop p q l = absurd (omega arith)
  read_counted-range (suc start) zero p q l = absurd (omega arith)
  read_counted-range (suc start) (suc stop) p q l = ground arith

  -- For a file that is there and reads as UTF-8 without a fault, a positive limit, and a range of
  -- lines, both ends given and in order, that starts inside the file: the call returns the lines from
  -- the first to the last asked for, cut at the limit of lines per call and at the end of the file,
  -- names exactly them, and says "end of file" just when the last line of the file is among them.
  pub read_lines-window :
      (start stop : ℕ)
      → IsReadable
      → 0 < start
      → start ≤ stop
      → start ≤ length lines
      → let last = min (min stop (start + reader.max_requested_line_range - 1)) (length lines) in
        read_lines reader (some start) (some stop)
        ≡ ok (record {
          chunk = chunk_info reader.full_path (concat (slice (start - 1) last lines)) start last;
          eof = leb (length lines) last;
          was_summary = false;
          total_lines = length lines;
        })
  unfolding read_lines raised
  read_lines-window start stop r p q l =
      let limit = r.limit in
      rw
        (
          count_total_lines-length r,
          read_lines,
          read_counted-range start stop p q (omega arith),
          read_raw_chunk-window start (min stop (start + reader.max_requested_line_range - 1))
              (min (min stop (start + reader.max_requested_line_range - 1)) (length lines)) r p
              (omega arith) l (omega arith),
        )
        refl
