-- ===== src/Repository/Cleanup.antt =====
-- When the deletion of old rows ends.
use deputydev_core.Prelude.{
  ℕ, zero, suc, ◌+◌, ◌<◌, List, true, false, none, some, is_empty, ◌≡◌, inl, inr, refl, arith,
  Bool-cases,
}
use deputydev_core.Py.Chars.{Text}
use deputydev_core.Repository.{Deleted, cleanup_old_chunk_files, cleanup_old_chunks}

module _ {S : Type 0} (fetch_objects : S → ℕ → List Text)
    (delete_many : S → List Text → S × Deleted) where
  -- The table as a deletion leaves it.
  abbrev pub after : S → S
  after s = (delete_many s (fetch_objects s 1000)).0

  abbrev pub reported : S → Deleted
  reported s = (delete_many s (fetch_objects s 1000)).1

  -- A measure of the rows that are left falls with each deletion of rows that were found.
  abbrev pub Progresses : (S → ℕ) → Type 0
  Progresses left = (s : S) → is_empty (fetch_objects s 1000) ≡ false → left (after s) < left s

  abbrev pub IsClean : S → Type 0
  IsClean s = is_empty (fetch_objects s 1000) ≡ true

  -- If each deletion leaves fewer rows, the loop over the chunks ends with nothing left to delete,
  -- after as many rounds as there are rows, and one.
  pub cleanup_old_chunks-IsClean :
      (left : S → ℕ) (fuel : ℕ) (s : S)
      → Progresses left
      → left s < fuel
      → (end : S) × (cleanup_old_chunks fetch_objects delete_many fuel s ≡ some end) × IsClean end
  unfolding cleanup_old_chunks
  cleanup_old_chunks-IsClean left zero s p h = absurd (omega arith)
  cleanup_old_chunks-IsClean left (suc fuel) s p h =
      elim (Bool-cases (is_empty (fetch_objects s 1000))) [
        | inl e ↦ (s, rw e refl, e)
        | inr e ↦
            let fewer = p s e in
            let (end, r, c) = cleanup_old_chunks-IsClean left fuel (after s) p (omega arith) in
            (end, rw e r, c)
      ]

  -- If a deletion always leaves rows to delete and reports some row, deleted or failed, neither loop
  -- ends: no fuel gives a result.
  pub cleanup_stuck :
      (Stuck : S → Type 0)
      → ((s : S)
          → Stuck s
          → (is_empty (fetch_objects s 1000) ≡ false)
            × (0 < (reported s).successful + (reported s).failed)
            × Stuck (after s))
      → (fuel : ℕ) (s : S) → Stuck s
      → (cleanup_old_chunks fetch_objects delete_many fuel s ≡ none)
        × (cleanup_old_chunk_files fetch_objects delete_many fuel s ≡ none)
  unfolding cleanup_old_chunks cleanup_old_chunk_files
  cleanup_stuck Stuck keeps zero s h = (refl, refl)
  cleanup_stuck Stuck keeps (suc fuel) s h =
      let (found, some_row, next) = keeps s h in
      let (chunks, files) = cleanup_stuck Stuck keeps fuel (after s) next in
      (ground arith, ground arith)
