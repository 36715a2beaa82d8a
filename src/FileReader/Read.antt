-- ===== src/FileReader/Read.antt =====
-- `IterativeFileReader` of iterative_file_reader.py. The requests' validator lets only positive line
-- numbers through, so they are natural numbers; on them a range with a negative length is empty, as
-- `range` has it. `full_path` is `Path(repo_path) / file_path`; `summarize` is the content that the
-- summarization service gives, `none` where it raises.
pub mod Window
use deputydev_core.Prelude.{
  ◌&&◌, ℕ, zero, suc, ◌+◌, ◌-◌, min, List, [], ◌∷◌, ◌++◌, Bool, true, false, ◌||◌, Option, none,
  some, ltb, leb, ◌==◌, is_empty, if◌then◌else◌, inl, inr, ◌⊎◌,
}
use deputydev_core.Py.Chars.{Text}
use deputydev_core.Py.Result.{Result, ok, err, ◌>>=◌}
use deputydev_core.Chunking.Data.{ChunkInfo}
use deputydev_core.FileReader.Stream.{
  Encoding, utf_8, latin_1, Fault, unicode_decode_error, other_error, TextFile, readline,
  count_lines,
}

pub record IterativeFileReaderResponse : Type 0 where
  pub chunk : ChunkInfo
  pub eof : Bool
  pub was_summary : Bool
  pub total_lines : ℕ

pub data ReadError : Type 0 where
  invalid_tool_params : ReadError

-- The disk, the file's path and the reader's limit.
pub record Reader : Type 0 where
  pub full_path : Text
  pub is_file : Bool
  pub open_file : Encoding → TextFile
  pub summarize : ℕ → Option Text
  pub max_requested_line_range : ℕ

-- `max_requested_line_range or 1000`
unfoldable pub range_limit : Option ℕ → ℕ
range_limit none = 1000
range_limit (some zero) = 1000
range_limit (some (suc n)) = suc n

unfoldable pub chunk_info : Text → Text → ℕ → ℕ → ChunkInfo
chunk_info path content start stop = record {
  content = content;
  source_details = record {
    file_path = path;
    file_hash = none;
    start_line = start;
    end_line = stop;
  };
  has_embedded_lines = false;
  metadata = none;
  embedding = none;
}

-- The number of rounds done at the end of the file, or the file behind the lines skipped.
unfoldable pub skip_lines : ℕ → ℕ → TextFile → Result Fault (ℕ ⊎ TextFile)
unfolding readline
skip_lines zero line_iterator file = ok (inr file)
skip_lines (suc n) line_iterator file = readline file >>= λ (line, rest).
    let later = skip_lines n (suc line_iterator) rest in
    if is_empty line then ok (inl line_iterator) else later

-- (file_content, actual_line_end, eof_reached)
unfoldable pub read_up_to : ℕ → ℕ → ℕ → TextFile → Text → ℕ → Result Fault (Text × ℕ × Bool)
unfolding readline
read_up_to zero start_line line_idx file content line_end = ok (content, line_end, false)
read_up_to (suc n) start_line line_idx file content line_end = readline file >>= λ (line, rest).
    let later =
      read_up_to n start_line (suc line_idx) rest (content ++ line) (start_line + line_idx) in
    if is_empty line then ok (content, line_end, true) else later

-- The exceptions that reach the caller.
pub data ReadLinesError : Type 0 where
  count_failed : ReadError → ReadLinesError
  read_failed : Fault → ReadLinesError

unfoldable pub raised {ℓ} : {A : Type ℓ} → Result Fault A → Result ReadLinesError A
raised (ok a) = ok a
raised (err e) = err (read_failed e)

-- `x or default`
unfoldable pub or_default : Option ℕ → ℕ → ℕ
or_default none default = default
or_default (some zero) default = default
or_default (some (suc n)) default = suc n

unfoldable pub is_none : Option ℕ → Bool
is_none none = true
is_none (some n) = false

module _ (reader : Reader) where
  unfoldable pub count_total_lines : Result ReadError ℕ
  unfolding count_lines
  count_total_lines =
      let count : ℕ = elim (count_lines (reader.open_file utf_8)) [
        | ok n ↦ n
        | err unicode_decode_error ↦ elim (count_lines (reader.open_file latin_1)) [
          | ok n ↦ n
          | err e ↦ 0
        ]
        | err other_error ↦ 0
      ] in
      if reader.is_file then ok count else err invalid_tool_params

  unfoldable pub read_with_encoding : ℕ → ℕ → ℕ → Encoding → Result Fault (ChunkInfo × Bool)
  unfolding skip_lines read_up_to chunk_info
  read_with_encoding start_line end_line total_lines encoding =
      skip_lines (start_line - 1) 0 (reader.open_file encoding) >>= λ found. elim found [
        | inl i ↦ ok (chunk_info reader.full_path [] (i + 1) (i + 1), true)
        | inr file ↦
            read_up_to (min reader.max_requested_line_range (end_line + 1 - start_line)) start_line
              0 file [] start_line
            >>= λ (content, line_end, eof). ok (
              chunk_info reader.full_path content start_line line_end,
              leb total_lines line_end || eof,
            )
      ]

  -- An exception in the second attempt is raised inside the handler of the first one.
  unfoldable pub read_raw_chunk : ℕ → ℕ → ℕ → Result Fault IterativeFileReaderResponse
  unfolding read_with_encoding chunk_info
  read_raw_chunk start_line end_line total_lines =
      let response : ChunkInfo → Bool → IterativeFileReaderResponse = λ chunk eof. record {
        chunk = chunk;
        eof = eof;
        was_summary = false;
        total_lines = total_lines;
      } in
      elim (read_with_encoding start_line end_line total_lines utf_8) [
        | ok (chunk, eof) ↦ ok (response chunk eof)
        | err unicode_decode_error ↦
            read_with_encoding start_line end_line total_lines latin_1 >>= λ (chunk, eof).
            ok (response chunk eof)
        | err other_error ↦
            ok (response (chunk_info reader.full_path [] start_line start_line) true)
      ]

  unfoldable pub give_summary : ℕ → ℕ → ℕ → Result Fault IterativeFileReaderResponse
  unfolding read_raw_chunk chunk_info
  give_summary start_line end_line total_lines = elim (reader.summarize 200) [
    | some summary ↦ ok (record {
      chunk = chunk_info reader.full_path summary start_line end_line;
      eof = true;
      was_summary = true;
      total_lines = total_lines;
    })
    | none ↦
        read_raw_chunk start_line (min (start_line + reader.max_requested_line_range - 1) end_line)
          total_lines
  ]

  unfoldable pub empty_response : ℕ → ℕ → IterativeFileReaderResponse
  unfolding chunk_info
  empty_response line total_lines = record {
    chunk = chunk_info reader.full_path [] line line;
    eof = true;
    was_summary = false;
    total_lines = total_lines;
  }

  -- `read_lines` behind the count.
  unfoldable pub read_counted : Option ℕ → Option ℕ → ℕ → Result Fault IterativeFileReaderResponse
  unfolding or_default is_none empty_response
  read_counted start_line end_line total_lines =
      let start = or_default start_line 1 in
      let stop = or_default end_line total_lines in
      let limit = reader.max_requested_line_range in
      if total_lines == 0
      then ok (empty_response 1 0)
      else if ltb stop start
      then ok (empty_response start total_lines)
      else if is_none start_line && is_none end_line && ltb limit (stop + 1 - start)
      then give_summary start stop total_lines
      else read_raw_chunk start (min stop (start + limit - 1)) total_lines

  unfoldable pub read_lines :
      Option ℕ → Option ℕ → Result ReadLinesError IterativeFileReaderResponse
  read_lines start_line end_line = elim count_total_lines [
    | err e ↦ err (count_failed e)
    | ok total_lines ↦ raised (read_counted start_line end_line total_lines)
  ]
