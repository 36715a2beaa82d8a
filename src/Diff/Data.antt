-- ===== src/Diff/Data.antt =====
-- services/diff/dataclasses/main.py: the requests and responses of the diff runners. Line numbers
-- are natural numbers: a negative one meets no line, just as 0 does.
use deputydev_core.Prelude.{ℕ, List}
use deputydev_core.Py.Chars.{Text}

pub data DiffTypes : Type 0 where
  udiff line_numbered search_and_replace : DiffTypes

-- (start_line, end_line, replacement_text)
pub record DiffChunk : Type 0 where
  pub start_line : ℕ
  pub end_line : ℕ
  pub diff : Text

-- The union over the three data classes, which the field `type` tells apart.
pub data DiffData : Type 0 where
  udiff_data : Text → DiffData
  line_numbered_data : List DiffChunk → DiffData
  search_and_replace_data : Text → DiffData

pub record FileDiffApplicationRequest : Type 0 where
  pub file_path : Text
  pub repo_path : Text
  pub current_content : Text
  pub diff_data : DiffData

pub record FileDiffApplicationResponse : Type 0 where
  pub new_file_path : Text
  pub new_content : Text
