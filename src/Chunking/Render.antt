-- ===== src/Chunking/Render.antt =====
-- services/chunking/chunk_info.py: a chunk as text. How Python shows a list of texts is a parameter.
use deputydev_core.Prelude.{
  ℕ, suc, ◌+◌, List, [], ◌∷◌, ◌++◌, Bool, true, false, not, ◌&&◌, none, some, ltb, replicate,
  is_empty, if◌then◌else◌,
}
use deputydev_core.Py.Chars.{Text, codes, newline}
use deputydev_core.Py.Lines.{splitlines, join_lf}
use deputydev_core.Py.Numbers.{str}
use deputydev_core.Py.Search.{count}
use deputydev_core.Chunking.Data.{
  HierarchyObject, ChunkMetadata, ChunkInfo, file_path, start_line, end_line,
}

-- `f"{i + start_line}: {line}"` for each line
unfoldable pub numbered_lines : ℕ → List Text → List Text
unfolding str
numbered_lines n [] = []
numbered_lines n (line ∷ lines) = (str n ++ (codes ": " ++ line)) ∷ numbered_lines (suc n) lines

unfoldable pub get_chunk_content : ChunkInfo → Bool → Bool → Text
unfolding numbered_lines splitlines join_lf count
get_chunk_content c add_ellipsis add_lines =
    let lines = splitlines c.content in
    let snippet = join_lf (if add_lines then numbered_lines (start_line c) lines else lines) in
    let opened =
      if add_ellipsis && ltb 0 (start_line c) then codes "...\n" ++ snippet else snippet in
    if add_ellipsis && ltb (end_line c) (count newline c.content + 1)
    then opened ++ codes "\n..."
    else opened

-- Up to the first item that belongs to the chunk's own node.
unfoldable pub hierarchy_data : ℕ → List HierarchyObject → List Text
hierarchy_data idx [] = []
hierarchy_data idx (item ∷ items) =
    let indent = replicate idx 9 in
    let rest = hierarchy_data (suc idx) items in
    if item.is_breakable_node
    then []
    else (indent ++ (item.type ++ (codes "  " ++ item.value))) ∷ (indent ++ codes "\t...") ∷ rest

unfoldable pub denotation : ChunkInfo → Text
unfolding str
denotation c = file_path c ++ (codes ":" ++ (str (start_line c) ++ (codes "-" ++ str (end_line c))))

module _ (show_list : List Text → Text) where
  -- The notes on the names that may use the imports.
  unfoldable pub users_note : Bool → Text → List Text → Text
  users_note add_class_function_info kind names =
      if add_class_function_info && not (is_empty names)
      then codes "\n Below "
        ++ (kind ++ (codes " may use the imports in this snippet: \n " ++ show_list names))
      else []

  unfoldable pub notes_of : Text → ChunkMetadata → Bool → Text
  unfolding users_note hierarchy_data join_lf
  notes_of path m add_class_function_info =
      let hierarchy = hierarchy_data 0 m.hierarchy in
      let shown =
        if is_empty hierarchy
        then []
        else codes "\n Snippet hierarchy represented in pseudo code format: \n"
          ++ (join_lf hierarchy ++ newline) in
      users_note add_class_function_info (codes "classes") m.all_classes
      ++ (users_note add_class_function_info (codes "functions") m.all_functions
          ++ (codes "\n File path: " ++ (path ++ shown)))

  unfoldable pub get_meta_data_notes : ChunkInfo → Bool → Text
  unfolding notes_of
  get_meta_data_notes c add_class_function_info = elim c.metadata [
    | none ↦ []
    | some m ↦ notes_of (file_path c) m add_class_function_info
  ]

  unfoldable pub get_chunk_content_with_meta_data : ChunkInfo → Bool → Bool → Bool → Text
  unfolding get_chunk_content get_meta_data_notes
  get_chunk_content_with_meta_data c add_ellipsis add_lines add_class_function_info =
      let chunk_content = get_chunk_content c add_ellipsis add_lines in
      let meta_data = get_meta_data_notes c add_class_function_info in
      if is_empty meta_data
      then chunk_content
      else codes "<meta_data>"
        ++ (meta_data ++ (codes "\n</meta_data>\n<code>\n" ++ (chunk_content ++ codes "\n</code>")))

  unfoldable pub get_xml : ChunkInfo → Text
  unfolding denotation get_chunk_content_with_meta_data
  get_xml c =
      codes "<chunk source=\""
      ++ (denotation c
          ++ (codes "\">\n"
              ++ (get_chunk_content_with_meta_data c false (not c.has_embedded_lines) true
                  ++ codes "\n</chunk>")))
