-- ===== src/Chunking/Data.antt =====
-- services/chunking/chunk_info.py and services/chunking/dataclass/main.py: chunks and their
-- metadata. Line numbers are natural numbers. An embedding is a list of doubles, which are only
-- stored and passed on, so each stands as its 64-bit pattern; `search_score` is not read by what is
-- modelled. `byte_size` is set by the chunker; 0 stands for None, which only fetched chunks have.
use deputydev_core.Prelude.{ℕ, List, Option, Bool}
use deputydev_core.Py.Chars.{Text}

pub record HierarchyObject : Type 0 where
  pub type : Text
  pub value : Text
  pub is_breakable_node : Bool

pub record ChunkMetadata : Type 0 where
  pub hierarchy : List HierarchyObject
  pub dechunk : Bool
  pub import_only_chunk : Bool
  pub all_functions : List Text
  pub all_classes : List Text
  pub byte_size : ℕ

pub record ChunkSourceDetails : Type 0 where
  pub file_path : Text
  pub file_hash : Option Text
  pub start_line : ℕ
  pub end_line : ℕ

pub record ChunkInfo : Type 0 where
  pub content : Text
  pub source_details : ChunkSourceDetails
  pub has_embedded_lines : Bool
  pub metadata : Option ChunkMetadata
  pub embedding : Option (List ℕ)

abbrev pub file_path : ChunkInfo → Text
file_path c = c.source_details.file_path

abbrev pub start_line : ChunkInfo → ℕ
start_line c = c.source_details.start_line

abbrev pub end_line : ChunkInfo → ℕ
end_line c = c.source_details.end_line
