-- ===== src/Chunking/Legacy.antt =====
-- `LegacyChunker` of services/chunking/strategies/legacy_chunker.py. A tree is what tree-sitter
-- parsed: the byte range of each node and its children. An exception in `decode` ends the call.
pub mod Tiles
pub mod Lines
use deputydev_core.Prelude.{
  ℕ, zero, suc, ◌+◌, ◌-◌, min, max, List, [], ◌∷◌, ◌++◌, Bool, true, false, ◌&&◌, ◌||◌, not, Option,
  none, some, ltb, leb, ◌==◌, length, take, slice, last, keep, any_of, is_empty, if◌then◌else◌,
}
use deputydev_core.Py.Chars.{Text, lf}
use deputydev_core.Py.Strip.{strip}
use deputydev_core.Diff.LineNumbered.{drop_last}
use deputydev_core.Chunking.Spans.{Bytes, Span, span, span_len, get_line_number, non_whitespace_len}

mutual
  pub data Node : Type 0 where
    node : ℕ → ℕ → Forest → Node

  pub data Forest : Type 0 where
    none_left : Forest
    and_then : Node → Forest → Forest

abbrev pub start_byte : Node → ℕ
start_byte (node i j children) = i

abbrev pub end_byte : Node → ℕ
end_byte (node i j children) = j

-- `[Span(i, j)]` if `i < j`
unfoldable pub span_if : ℕ → ℕ → List Span
span_if i j = if ltb i j then span i j ∷ [] else []

unfoldable mutual
  pub traverse_node : ℕ → Node → ℕ → List Span
  traverse_node max_chars (node i j children) current_start =
      let (chunks, chunk_start) = traverse_children max_chars children current_start in
      chunks ++ span_if chunk_start j

  -- The loop over the children: the chunks and the last `chunk_start`.
  pub traverse_children : ℕ → Forest → ℕ → List Span × ℕ
  traverse_children max_chars none_left chunk_start = ([], chunk_start)
  traverse_children max_chars (and_then child rest) chunk_start =
      let inner = traverse_node max_chars child (start_byte child) in
      let behind = traverse_children max_chars rest (end_byte child) in
      let from_child = traverse_children max_chars rest (start_byte child) in
      let on = traverse_children max_chars rest chunk_start in
      if ltb max_chars (end_byte child - start_byte child)
      then (span_if chunk_start (start_byte child) ++ (inner ++ behind.0), behind.1)
      else if ltb (chunk_start + max_chars) (end_byte child)
      then (span_if chunk_start (start_byte child) ++ from_child.0, from_child.1)
      else on

unfoldable pub create_ast_chunks : Node → ℕ → List Span
create_ast_chunks root_node max_chars = traverse_node max_chars root_node (start_byte root_node)

-- Behind the check for one chunk: each span ends where the next one starts, the last at `end_byte`.
unfoldable pub extend_to_next : List Span → ℕ → List Span
extend_to_next [] end_byte = []
extend_to_next (c ∷ []) end_byte = span c.start end_byte ∷ []
extend_to_next (c ∷ d ∷ cs) end_byte = span c.start d.start ∷ extend_to_next (d ∷ cs) end_byte

unfoldable pub fill_chunk_gaps : List Span → ℕ → List Span
fill_chunk_gaps [] end_byte = []
fill_chunk_gaps (c ∷ []) end_byte = span 0 end_byte ∷ []
fill_chunk_gaps (c ∷ d ∷ cs) end_byte = extend_to_next (c ∷ d ∷ cs) end_byte

unfoldable pub merge_spans : Span → Span → Span
unfolding span_len
merge_spans s t =
    if span_len s == 0
    then t
    else if span_len t == 0
    then s
    else span (min s.start t.start) (max s.stop t.stop)

unfoldable pub is_closing : Text → Bool
is_closing [] = false
is_closing (c ∷ s) = (c == 41) || ((c == 125) || (c == 93))

-- `coalesced[-1] = self._merge_spans(coalesced[-1], chunk)`
unfoldable pub merge_into_last : List Span → Span → List Span
merge_into_last [] chunk = []
merge_into_last (s ∷ []) chunk = merge_spans s chunk ∷ []
merge_into_last (s ∷ t ∷ ss) chunk = s ∷ merge_into_last (t ∷ ss) chunk

module _ (decode : Bytes → Option Text) (content : Bytes) where
  unfoldable pub extract_chunk_content : Span → Text
  extract_chunk_content s = elim (decode (slice s.start s.stop content)) [
    | none ↦ []
    | some text ↦ text
  ]

  unfoldable pub starts_with_closing_delimiter : Span → Bool
  unfolding is_closing
  starts_with_closing_delimiter s = is_closing (strip (extract_chunk_content s))

  unfoldable pub is_over : ℕ → Span → Span → Bool
  unfolding non_whitespace_len span_len
  is_over coalesce merged_chunk current_chunk =
      let merged_content = extract_chunk_content merged_chunk in
      ltb coalesce (non_whitespace_len merged_content)
      && (any_of (λ c. c == lf) merged_content && ltb 0 (span_len current_chunk))

  unfoldable pub coalesce_loop : ℕ → List Span → List Span → Span → List Span × Span
  coalesce_loop coalesce [] coalesced current_chunk = (coalesced, current_chunk)
  coalesce_loop coalesce (chunk ∷ chunks) coalesced current_chunk =
      let merged_chunk = merge_spans current_chunk chunk in
      let joined =
        coalesce_loop coalesce chunks (merge_into_last coalesced chunk)
          (span chunk.stop chunk.stop) in
      let split = coalesce_loop coalesce chunks (coalesced ++ current_chunk ∷ []) chunk in
      let grown = coalesce_loop coalesce chunks coalesced merged_chunk in
      if starts_with_closing_delimiter merged_chunk && not (is_empty coalesced)
      then joined
      else if is_over coalesce merged_chunk current_chunk
      then split
      else grown

  unfoldable pub coalesce_chunks : List Span → ℕ → List Span
  coalesce_chunks [] coalesce = []
  coalesce_chunks (c ∷ cs) coalesce =
      let (coalesced, current_chunk) = coalesce_loop coalesce (c ∷ cs) [] (span 0 0) in
      if ltb 0 (span_len current_chunk) then coalesced ++ current_chunk ∷ [] else coalesced

  -- The first chunk starts at line 0, each other one behind the line of its first byte.
  unfoldable pub start_line_of : Bool → Span → Option ℕ
  start_line_of true chunk = some 0
  start_line_of false chunk = elim (get_line_number decode chunk.start content) [
    | none ↦ none
    | some n ↦ some (n + 1)
  ]

  -- One round: the chunk's lines, if there are any.
  unfoldable pub line_chunk : Bool → Span → Option (List Span)
  unfolding start_line_of
  line_chunk is_first chunk = elim (start_line_of is_first chunk) [
    | none ↦ none
    | some start_line ↦ elim (get_line_number decode chunk.stop content) [
      | none ↦ none
      | some end_line ↦ some (if leb start_line end_line then span start_line end_line ∷ [] else [])
    ]
  ]

  unfoldable pub line_chunks_from : Bool → List Span → Option (List Span)
  line_chunks_from is_first [] = some []
  line_chunks_from is_first (chunk ∷ chunks) =
      let rest = line_chunks_from false chunks in
      elim (line_chunk is_first chunk) [
        | none ↦ none
        | some lines ↦ elim rest [ none ↦ none | some more ↦ some (lines ++ more) ]
      ]

  unfoldable pub convert_to_line_chunks : List Span → Option (List Span)
  convert_to_line_chunks byte_chunks = line_chunks_from true byte_chunks

-- The last two spans merged.
unfoldable pub merge_last_two : List Span → List Span
merge_last_two [] = []
merge_last_two (s ∷ []) = s ∷ []
merge_last_two (s ∷ t ∷ []) = merge_spans s t ∷ []
merge_last_two (s ∷ t ∷ u ∷ ss) = s ∷ merge_last_two (t ∷ u ∷ ss)

unfoldable pub last_is_short : List Span → ℕ → Bool
unfolding span_len
last_is_short ss coalesce = elim (last ss) [ none ↦ false | some s ↦ ltb (span_len s) coalesce ]

unfoldable pub finalize_chunks : List Span → ℕ → List Span
finalize_chunks chunks coalesce =
    let non_empty_chunks = keep (λ s. ltb 0 (span_len s)) chunks in
    if leb (length non_empty_chunks) 1
    then non_empty_chunks
    else if last_is_short non_empty_chunks coalesce
    then merge_last_two non_empty_chunks
    else non_empty_chunks

-- The root is absent where the source has no tree or no root node.
unfoldable pub chunk_code : (Bytes → Option Text) → Option Node → Bytes → ℕ → ℕ → Option (List Span)
chunk_code decode none content max_chars coalesce = some []
chunk_code decode (some root) content max_chars coalesce =
    let initial_chunks = create_ast_chunks root max_chars in
    let filled_chunks = fill_chunk_gaps initial_chunks (end_byte root) in
    let coalesced_chunks = coalesce_chunks decode content filled_chunks coalesce in
    elim (convert_to_line_chunks decode content coalesced_chunks) [
      | none ↦ none
      | some line_chunks ↦ some (finalize_chunks line_chunks coalesce)
    ]
