-- ===== src/Chunking/Manager.antt =====
-- services/chunking/chunking_manager.py. The search, the reranker, the disk and the reading of
-- integers are parameters; the search takes a query and the files to look in, and gives chunks and a
-- number of tokens.
pub mod Apart
use deputydev_core.Prelude.{
  ℕ, List, [], ◌∷◌, ◌++◌, map, Bool, true, false, not, ◌&&◌, ◌||◌, Option, none, some, any_of, keep,
  is_empty, if◌then◌else◌,
}
use deputydev_core.Py.Chars.{Text, codes, lf, text_eq}
use deputydev_core.Py.Dict.{Dict, lookup, has_key, set_item}
use deputydev_core.Py.Result.{Result, ok, err, ◌>>=◌}
use deputydev_core.Py.Search.{starts_with}
use deputydev_core.Chunking.Data.{ChunkInfo}

-- `{user_query}` and the contents, each on lines of its own
unfoldable pub build_focus_query : Text → List ChunkInfo → Text
build_focus_query user_query [] = user_query
build_focus_query user_query (c ∷ cs) = build_focus_query (user_query ++ lf ∷ c.content) cs

unfoldable pub exclude_focused_chunks : List ChunkInfo → List ChunkInfo → List ChunkInfo
unfolding text_eq
exclude_focused_chunks related_chunk focus_chunks_details =
    keep (λ c. not (any_of (λ f. text_eq f.content c.content) focus_chunks_details)) related_chunk

-- The files of a directory. The order in which the code lists their set is open; here it is that of
-- their discovery.
unfoldable pub files_under : Text → Dict Text → List Text
unfolding starts_with
files_under directory [] = []
files_under directory ((path, hash) ∷ files) =
    let rest = files_under directory files in
    if starts_with directory path then path ∷ rest else rest

unfoldable pub add_new : List Text → List Text → List Text
unfolding text_eq
add_new found [] = found
add_new found (p ∷ ps) = add_new (if any_of (text_eq p) found then found else found ++ p ∷ []) ps

unfoldable pub focus_files_from : List Text → Dict Text → List Text → List Text
focus_files_from found files [] = found
focus_files_from found files (directory ∷ directories) =
    focus_files_from (add_new found (files_under directory files)) files directories

unfoldable pub get_focus_files_from_focus_directories : Dict Text → List Text → List Text
get_focus_files_from_focus_directories files directories = focus_files_from [] files directories

-- `del d[k]`
unfoldable pub del_item : Text → Dict Text → Dict Text
unfolding text_eq
del_item k [] = []
del_item k ((j, v) ∷ d) = let rest = del_item k d in if text_eq j k then d else (j, v) ∷ rest

pub data ManagerError : Type 0 where
  key_error extend_of_none search_failed rerank_failed snippet_failed : ManagerError

-- The loop of `del`, which raises for a path that is not there.
unfoldable pub delete_files : List Text → Dict Text → Result ManagerError (Dict Text)
delete_files [] files = ok files
delete_files (path ∷ paths) files =
    let rest = delete_files paths (del_item path files) in
    if has_key path files then rest else err key_error

-- `{path: files[path] for path in focus_file_paths if path in files}`
unfoldable pub filtered_from : Dict Text → List Text → Dict Text → Dict Text
unfolding lookup set_item
filtered_from found [] files = found
filtered_from found (path ∷ paths) files = elim (lookup path files) [
  | none ↦ filtered_from found paths files
  | some hash ↦ filtered_from (set_item path hash found) paths files
]

unfoldable pub filtered_files : List Text → Dict Text → Dict Text
unfolding filtered_from
filtered_files paths files = filtered_from [] paths files

pub record Services : Type 0 where
  pub search : Text → Dict Text → Result ManagerError (List ChunkInfo × ℕ)
  pub reranker :
      Option (List ChunkInfo → List ChunkInfo → Text → Result ManagerError (List ChunkInfo))
  pub snippets : List Text → Result ManagerError (List ChunkInfo)

-- Lists that the caller may leave out: `none` and the empty list are both false.
abbrev pub given : Option (List Text) → List Text
given none = []
given (some xs) = xs

-- `focus_files.extend(...)` raises where no list was given.
unfoldable pub all_focus_files :
    Option (List Text) → List Text → Dict Text → Result ManagerError (List Text)
all_focus_files focus_files [] files = ok (given focus_files)
all_focus_files none (d ∷ directories) files = err extend_of_none
all_focus_files (some focus_files) (d ∷ directories) files =
    ok (focus_files ++ get_focus_files_from_focus_directories files (d ∷ directories))

module _ (services : Services) where
  unfoldable pub get_focus_chunk :
      Text
      → Option (List Text)
      → Option (List Text)
      → Dict Text
      → Result ManagerError (List ChunkInfo)
  unfolding filtered_files build_focus_query
  get_focus_chunk query focus_files focus_chunks files =
      (if is_empty (given focus_chunks) then ok [] else services.snippets (given focus_chunks))
      >>= (λ user_defined.
          if is_empty (given focus_files)
          then ok user_defined
          else services.search (build_focus_query query user_defined)
              (filtered_files (given focus_files) files)
            >>= (λ (sorted, tokens). ok (user_defined ++ sorted)))

  unfoldable pub rerank_related_chunks :
      Text → List ChunkInfo → List ChunkInfo → Result ManagerError (List ChunkInfo)
  rerank_related_chunks query related focus =
      let apart = exclude_focused_chunks related focus in
      elim services.reranker [ none ↦ ok apart | some rerank ↦ rerank focus apart query ]

  -- The reranked chunks, the number of tokens and the focus chunks; `none` for the empty text that
  -- stands in their place when only the focus chunks are asked for.
  unfoldable pub get_relevant_chunks :
      Text
      → Dict Text
      → Option (List Text)
      → Option (List Text)
      → List Text
      → Bool
      → Result ManagerError (List ChunkInfo × ℕ × Option (List ChunkInfo))
  get_relevant_chunks query files focus_files focus_chunks focus_directories only_focus =
      get_focus_chunk query focus_files focus_chunks files >>= (λ focus.
        if only_focus && not (is_empty focus)
        then ok (focus, 0, none)
        else all_focus_files focus_files focus_directories files >>= (λ paths.
          delete_files paths files >>= (λ others.
            services.search (build_focus_query query focus) others >>= (λ (related, tokens).
              rerank_related_chunks query related focus
              >>= (λ reranked. ok (reranked, tokens, some focus))))))
