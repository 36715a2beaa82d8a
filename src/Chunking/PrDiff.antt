-- ===== src/Chunking/PrDiff.antt =====
-- `chunk_pr_diff` of services/chunking/source_chunker.py. The token count, the limit of the
-- configuration and what the regular expression for a file's header matches are parameters. A chunk
-- stays the list of its lines until it is joined.
pub mod Bounds
use deputydev_core.Prelude.{
  ℕ, zero, suc, ◌+◌, ◌-◌, List, [], ◌∷◌, ◌++◌, Bool, true, false, Option, none, some, ltb, leb,
  ◌==◌, length, drop, is_empty, map, if◌then◌else◌,
}
use deputydev_core.Py.Chars.{Text}
use deputydev_core.Py.Lines.{split_lf, join_lf}

pub record State : Type 0 where
  pub chunks : List (List Text)
  pub current_chunk : List Text
  pub line_count : ℕ
  pub file_header : Option Text

-- `xs[-n:]`, which is all of `xs` for 0
unfoldable pub last_lines : ℕ → List Text → List Text
last_lines n xs = if n == 0 then xs else drop (length xs - n) xs

unfoldable pub header_lines : Option Text → List Text
header_lines none = []
header_lines (some []) = []
header_lines (some (c ∷ s)) = (c ∷ s) ∷ []

-- `if current_chunk: chunks.append(current_chunk)`
unfoldable pub closed : State → List (List Text)
closed s = if is_empty s.current_chunk then s.chunks else s.chunks ++ s.current_chunk ∷ []

module _ (is_header : Text → Bool) (max_lines overlap : ℕ) where
  -- The chunk is full: the next one starts with the header and the last lines of this one.
  unfoldable pub next_chunk : State → State
  unfolding last_lines header_lines
  next_chunk s =
      let lines = header_lines s.file_header ++ last_lines overlap s.current_chunk in
      record {
        chunks = s.chunks ++ s.current_chunk ∷ [];
        current_chunk = lines;
        line_count = length lines;
        file_header = s.file_header;
      }

  unfoldable pub new_file : State → Text → State
  unfolding closed
  new_file s line = record {
    chunks = closed s;
    current_chunk = line ∷ [];
    line_count = 1;
    file_header = some line;
  }

  unfoldable pub add_line : State → Text → State
  add_line s line = record s {
    current_chunk = s.current_chunk ++ line ∷ [];
    line_count = s.line_count + 1;
  }

  unfoldable pub step : State → Text → State
  unfolding next_chunk new_file add_line
  step s line =
      if is_header line
      then new_file s line
      else if leb max_lines (s.line_count + 1)
      then next_chunk (add_line s line)
      else add_line s line

  unfoldable pub run : State → List Text → State
  unfolding step
  run s [] = s
  run s (line ∷ lines) = run (step s line) lines

  unfoldable pub diff_chunks : List Text → List (List Text)
  unfolding run closed
  diff_chunks lines =
      closed
        (run (record { chunks = []; current_chunk = []; line_count = 0; file_header = none }) lines)

  unfoldable pub chunk_pr_diff : (Text → ℕ) → ℕ → Text → List Text
  unfolding diff_chunks split_lf join_lf
  chunk_pr_diff token_count token_limit diff_content =
      if ltb (token_count diff_content) token_limit
      then diff_content ∷ []
      else map join_lf (diff_chunks (split_lf diff_content))
