-- ===== src/Reranker.antt =====
-- services/reranker/handlers/heuristic_based.py. A dictionary is the list of its items in the order
-- of insertion.
pub mod Nesting
pub mod Duplicates
use deputydev_core.Prelude.{
  ℕ, List, [], ◌∷◌, ◌++◌, Bool, true, false, not, ◌&&◌, leb, any_of, sort_by, if◌then◌else◌,
}
use deputydev_core.Py.Chars.{Text, text_eq}
use deputydev_core.Chunking.Data.{ChunkInfo, file_path, start_line, end_line}

abbrev pub Groups : Type 0
Groups = List (Text × List ChunkInfo)

-- `source_to_chunks[path].append(chunk)`, behind an empty list for a path that is not there yet
unfoldable pub add_to_group : ChunkInfo → Groups → Groups
unfolding text_eq
add_to_group c [] = (file_path c, c ∷ []) ∷ []
add_to_group c ((path, cs) ∷ groups) =
    let rest = add_to_group c groups in
    if text_eq path (file_path c) then (path, cs ++ c ∷ []) ∷ groups else (path, cs) ∷ rest

unfoldable pub group_from : Groups → List ChunkInfo → Groups
unfolding add_to_group
group_from groups [] = groups
group_from groups (c ∷ cs) = group_from (add_to_group c groups) cs

-- `chunk` lies inside `c`, ends included.
unfoldable pub is_inside : ChunkInfo → ChunkInfo → Bool
is_inside chunk c = leb (start_line c) (start_line chunk) && leb (end_line chunk) (end_line c)

-- The chunks that lie inside no other one of the list; `before` holds those already passed.
unfoldable pub drop_nested : List ChunkInfo → List ChunkInfo → List ChunkInfo
drop_nested before [] = []
drop_nested before (c ∷ after) =
    let rest = drop_nested (before ++ c ∷ []) after in
    if not (any_of (is_inside c) (before ++ after)) then c ∷ rest else rest

unfoldable pub rerank_group : List ChunkInfo → List ChunkInfo
rerank_group chunks = drop_nested [] (sort_by start_line chunks)

unfoldable pub rerank_groups : Groups → List ChunkInfo
rerank_groups [] = []
rerank_groups ((path, cs) ∷ groups) = rerank_group cs ++ rerank_groups groups

unfoldable pub rerank : List ChunkInfo → List ChunkInfo → List ChunkInfo
rerank focus_chunks relevant_chunks =
    rerank_groups (group_from [] (focus_chunks ++ relevant_chunks))
