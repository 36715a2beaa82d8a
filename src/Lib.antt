-- ===== src/Lib.antt =====
-- Verification of deputydev_core, the library under deputydev_core/ of the repository: applying diffs
-- to files, cutting files into chunks, storing and ranking the chunks, reading and summarising files.
-- All source paths below are relative to deputydev_core/.
--
-- Parts and files:
-- - Prelude: Boolean tests, lists measured by native numbers, slices and a stable sort, shared by
--   all parts. Py: the methods of Python's `str`, dictionaries and exceptions that the code uses. A
--   text is the list of its code points; a dictionary is the list of its items in insertion order;
--   a call that may raise is a Result.
-- - Diff.Data: services/diff/dataclasses/main.py. Diff.LineNumbered: `LineNumberedDiffAlgoRunner` of
--   services/diff/algo_runners/line_numbered_diff/runner.py; the loop over the lines is `step` on a
--   record of its variables. Diff.SearchReplace: `SearchAndReplaceAlgoRunner` of
--   services/diff/algo_runners/search_and_replace/runner.py, in the order of its methods: Prep, Match,
--   Fuzzy, Locate (`locate_span`), Blocks (the parser as a step relation on its place in the loops)
--   and Runner (`apply_diff`: `locate_all` is pass 1, `overlaps` pass 2, `pieces` pass 3, `restore`
--   the newline style). Diff.Unified: services/diff/algo_runners/unified_diff: the
--   hunks of runner.py in Unified itself, Relative and Flexible for search_and_replace.py (the class
--   RelativeIndenter, the strategies), Apply (`_directly_apply_hunk`, `_apply_partial_hunk`), Normal
--   (cleaning) and Runner (`apply_hunk`, `do_replace`, `apply_diff`). Diff.Applicator:
--   services/diff/diff_applicator.py, which calls the three runners.
-- - Chunking.Data: services/chunking/chunk_info.py and services/chunking/dataclass/main.py.
--   Chunking.Content, Chunking.PrDiff and Chunking.Source: `chunk_content`, `chunk_pr_diff` and
--   `chunk_source` of services/chunking/source_chunker.py. Chunking.Spans and Chunking.Legacy:
--   services/chunking/strategies/legacy_chunker.py with services/chunking/utils/chunk_utils.py; a tree
--   is the byte ranges of its nodes. Chunking.Metadata: services/chunking/strategies/
--   metadata_chunking/base_metadata_chunker.py with `NeoSpan`; Nodes holds the kinds and names of
--   nodes, Grammars the identifiers of the languages, Javascript the methods that this language
--   replaces, Chunks `chunk_node_with_meta_data` (the lists that its calls share are the state
--   `Shared`) and Dechunk `dechunk` and `chunk_code`.
--   Chunking.Store: services/chunking/vector_store/
--   chunk_vectore_store_manager.py. Chunking.Indexing: services/chunking/chunker/handlers/
--   vector_db_chunker.py, which stores by Chunking.Store. Chunking.Render: a chunk as text, in
--   services/chunking/chunk_info.py. Chunking.Manager: services/chunking/chunking_manager.py.
-- - Reranker: services/reranker/handlers/heuristic_based.py. Tokenizer: services/tokenizer/tokenize.py.
-- - FileReader: services/tools/iterative_file_reader; Stream is the file as aiofiles delivers it.
-- - Summary: services/file_summarization/file_summarizer.py.
-- - Repository: services/repository/chunk_files_service.py and chunk_service.py; a table is a state
--   that the queries read and the changes move on.
-- - Search: services/search. Search.Lexical is native/lexical_search.py, Search.Native the rest of
--   native with chunks_to_docs of services/chunking/document.py, Search.Stored the search in the
--   vector database on the queries of Repository; Search itself chooses between them.
-- - Examples: runs on small inputs.
--
-- Fuel: `chunks_from` takes the number of lines, since the start grows by one at least in each
-- round; `batches_from` the number of files and `every` the number of lines, for the same reason;
-- `digits` one more than the number, which has no more digits; `select_from` the number of code
-- points that the search tries. The cleaning loops of Repository run on fuel because the table decides
-- when they end. All other loops recurse on a list, a
-- count or the tree. Numbers are natural numbers; where the source subtracts, its result is not
-- negative on the inputs modelled, or a negative one acts as zero (an empty `range`, an empty slice).
--
-- Parameters: the diffs of difflib and diff_match_patch, whether a file exists, difflib's sizes of
-- matching blocks, UTF-8 decoding, the parsed tree, the chunking strategy and the language of a path,
-- the disk, the hash of a text, the clock, the embeddings, the tables of the vector database, the
-- search that the chunking manager is given, the arithmetic of floats, the reranker, how a list is
-- shown, the order in which a set is listed, the token count and the regular expression for a diff's
-- header.
--
-- Not modelled: the chunks of a tree with the methods that the JavaScript chunker replaces, the task
-- that refreshes timestamps in the background, shared chunks, the search tools, the tree-sitter and
-- regular-expression summaries, the words that the tokenizer cuts, and the code that only talks to
-- services, databases and processes (clients, initialization, authentication, MCP).

pub mod Prelude
pub mod Py
pub mod Diff
pub mod Chunking
pub mod Reranker
pub mod Tokenizer
pub mod FileReader
pub mod Summary
pub mod Repository
pub mod Search
pub mod Examples
