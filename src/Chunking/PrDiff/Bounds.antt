-- ===== src/Chunking/PrDiff/Bounds.antt =====
-- How long the chunks of a pull request's diff are.
use deputydev_core.Prelude.{
  ℕ, ◌+◌, ◌-◌, ◌≤◌, ◌<◌, max, List, [], ◌∷◌, ◌++◌, Bool, false, Option, none, some, leb, ◌==◌,
  length, is_empty, length-append, length-drop, All, All-append, ◌≡◌, refl, arith, Bool-cases, inl,
  inr,
}
use deputydev_core.Py.Chars.{Text}
use deputydev_core.Chunking.PrDiff.{
  State, last_lines, header_lines, closed, next_chunk, new_file, add_line, step, run, diff_chunks,
}

-- The longest chunk: `max_lines` lines, or a header, the overlap and one line more.
abbrev pub longest : ℕ → ℕ → ℕ
longest max_lines overlap = max max_lines (overlap + 2)

-- The count is that of the lines; the chunk in progress can take one line more.
pub record IsBounded (max_lines overlap : ℕ) (s : State) : Type 0 where
  pub short : All (λ c. length c ≤ longest max_lines overlap) s.chunks
  pub counted : s.line_count ≡ length s.current_chunk
  pub room : length s.current_chunk < longest max_lines overlap

length-header_lines : (h : Option Text) → length (header_lines h) ≤ 1
unfolding header_lines
length-header_lines none = omega arith
length-header_lines (some []) = omega arith
length-header_lines (some (c ∷ s)) = omega arith

length-last_lines : (n : ℕ) (xs : List Text) → 0 < n → length (last_lines n xs) ≤ n
unfolding last_lines
length-last_lines n xs p =
    let positive : (n == 0) ≡ false = ground arith in
    rw positive (omega (arith, length-drop (length xs - n) xs))

closed-short :
    (n : ℕ) (s : State)
    → All (λ c. length c ≤ n) s.chunks
    → length s.current_chunk ≤ n
    → All (λ c. length c ≤ n) (closed s)
unfolding closed
closed-short n s h k = elim (Bool-cases (is_empty s.current_chunk)) [
  | inl e ↦ rw e h
  | inr e ↦ rw e (All-append (λ c. length c ≤ n) s.chunks (s.current_chunk ∷ []) h (k, tt))
]

module _ (is_header : Text → Bool) (max_lines overlap : ℕ) (p : 0 < overlap) where
  step-IsBounded :
      (s : State) (line : Text)
      → IsBounded max_lines overlap s
      → IsBounded max_lines overlap (step is_header max_lines overlap s line)
  unfolding step new_file add_line next_chunk
  step-IsBounded s line b =
      let n = longest max_lines overlap in
      let room = b.room in
      let counted = b.counted in
      let grown = length-append s.current_chunk (line ∷ []) in
      elim (Bool-cases (is_header line)) [
        | inl e ↦ rw e (record {
          short = closed-short n s b.short (omega arith);
          counted = refl;
          room = omega arith;
        })
        | inr e ↦ elim (Bool-cases (leb max_lines (s.line_count + 1))) [
          | inl full ↦
              let more = s.current_chunk ++ line ∷ [] in
              let lines = length-append (header_lines s.file_header) (last_lines overlap more) in
              let header = length-header_lines s.file_header in
              let tail = length-last_lines overlap more p in
              rw (e, full)
                (record {
                  short =
                      All-append (λ c. length c ≤ n) s.chunks (more ∷ []) b.short
                        ((omega arith), tt);
                  counted = refl;
                  room = omega arith;
                })
          | inr free ↦
              let below : s.line_count + 1 < max_lines = ground arith in
              rw (e, free) (record { short = b.short; counted = omega arith; room = omega arith })
        ]
      ]

  run-IsBounded :
      (s : State) (lines : List Text)
      → IsBounded max_lines overlap s
      → IsBounded max_lines overlap (run is_header max_lines overlap s lines)
  unfolding run
  run-IsBounded s [] b = b
  run-IsBounded s (line ∷ lines) b =
      run-IsBounded (step is_header max_lines overlap s line) lines (step-IsBounded s line b)

  -- With a positive overlap no chunk has more lines than `max_lines`, or than the overlap and two
  -- more where that is larger.
  pub diff_chunks-longest :
      (lines : List Text)
      → All
          (λ c. length c ≤ longest max_lines overlap)
          (diff_chunks is_header max_lines overlap lines)
  unfolding diff_chunks
  diff_chunks-longest lines =
      let start : State = record {
        chunks = [];
        current_chunk = [];
        line_count = 0;
        file_header = none;
      } in
      let b =
        run-IsBounded start lines (record { short = tt; counted = refl; room = omega arith }) in
      let room = b.room in
      closed-short (longest max_lines overlap) (run is_header max_lines overlap start lines) b.short
        (omega arith)
