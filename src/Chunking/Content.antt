-- ===== src/Chunking/Content.antt =====
-- `chunk_content` of services/chunking/source_chunker.py. The loop takes as much fuel as there are
-- lines: `start` grows by one at least in each round.
pub mod Cover
use deputydev_core.Prelude.{
  ℕ, zero, suc, ◌+◌, ◌-◌, min, List, [], ◌∷◌, Bool, true, false, ltb, leb, length, slice,
  if◌then◌else◌, ◌≡◌, refl, map,
}
use deputydev_core.Py.Chars.{Text, codes}
use deputydev_core.Py.Lines.{split_lf, join_lf}
use deputydev_core.Py.Result.{Result, ok, err}
use deputydev_core.Chunking.Data.{ChunkInfo}

-- (start, end, chunk)
pub record LineChunk : Type 0 where
  pub start : ℕ
  pub stop : ℕ
  pub chunk : Text

pub data ContentError : Type 0 where
  overlap_not_smaller : ContentError

module _ (lines : List Text) (line_count step : ℕ) where
  unfoldable pub chunk_at : ℕ → LineChunk
  unfolding join_lf
  chunk_at start =
      let stop = min (start + line_count) (length lines) in
      record { start = start; stop = stop; chunk = join_lf (slice start stop lines) }

  unfoldable pub chunks_from : ℕ → ℕ → List LineChunk
  chunks_from zero start = []
  chunks_from (suc fuel) start = elim (ltb start (length lines)) [
    | true ↦ chunk_at start ∷ chunks_from fuel (start + step)
    | false ↦ []
  ]

unfoldable pub chunk_content : Text → ℕ → ℕ → Result ContentError (List LineChunk)
unfolding split_lf
chunk_content content line_count overlap =
    let lines = split_lf content in
    if leb line_count overlap
    then err overlap_not_smaller
    else ok (chunks_from lines line_count (line_count - overlap) (length lines) 0)
