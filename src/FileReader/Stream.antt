-- ===== src/FileReader/Stream.antt =====
-- The text files that iterative_file_reader.py reads with aiofiles. What is on disk is a parameter:
-- for each encoding, the lines that iteration delivers, ends of line kept, and the exception that it
-- raises after them, if any.
use deputydev_core.Prelude.{ℕ, List, [], ◌∷◌, Option, none, some, length}
use deputydev_core.Py.Chars.{Text}
use deputydev_core.Py.Result.{Result, ok, err}

pub data Encoding : Type 0 where
  utf_8 latin_1 : Encoding

pub data Fault : Type 0 where
  unicode_decode_error other_error : Fault

pub record TextFile : Type 0 where
  pub lines : List Text
  pub fault : Option Fault

-- `file.readline()`: the line, empty at the end of the file, and the rest.
unfoldable pub readline : TextFile → Result Fault (Text × TextFile)
readline file = elim file.lines [
  | [] ↦ elim file.fault [ none ↦ ok ([], file) | some e ↦ err e ]
  | (line ∷ rest) ↦ ok (line, record { lines = rest; fault = file.fault })
]

-- `line_count += 1` for each line of the file.
unfoldable pub count_lines : TextFile → Result Fault ℕ
count_lines file = elim file.fault [ none ↦ ok (length file.lines) | some e ↦ err e ]
