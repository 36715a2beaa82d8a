-- ===== src/Summary.antt =====
-- services/file_summarization/file_summarizer.py: what it does with lines and line numbers. The
-- content types of the ranges are not read by what is modelled.
pub mod Sampling
pub mod Skipped
use deputydev_core.Prelude.{
  ℕ, zero, suc, ◌+◌, ◌-◌, ◌*◌, ◌/◌, min, List, [], ◌∷◌, ◌++◌, Bool, true, false, not, ◌&&◌, ◌||◌,
  Option, none, some, ltb, leb, ◌==◌, length, take, drop, slice, keep, any_of, is_empty, map,
  concat, if◌then◌else◌,
}
use deputydev_core.Py.Chars.{Text, codes, text_eq}
use deputydev_core.Py.Lines.{join_lf}
use deputydev_core.Py.Numbers.{str}
use deputydev_core.Py.Search.{contains, ends_with_char}
use deputydev_core.Py.Strip.{strip}

-- (start_line, line)
abbrev pub Numbered : Type 0
Numbered = ℕ × Text

unfoldable pub number_from : ℕ → ℕ → List Text → List Numbered
number_from n step [] = []
number_from n step (line ∷ lines) = (n, line) ∷ number_from (n + step) step lines

-- `[lines[i] for i in range(0, len(lines), interval)]`: a round for each line at most.
unfoldable pub every : ℕ → ℕ → List Text → List Text
every zero interval lines = []
every (suc fuel) interval [] = []
every (suc fuel) interval (line ∷ lines) = line ∷ every fuel interval (drop interval (line ∷ lines))

-- `f"{start_line}: {line}"`
unfoldable pub formatted : Numbered → Text
unfolding str
formatted (n, line) = str n ++ codes ": " ++ line

unfoldable pub sampled_every : ℕ → ℕ → List Text → List Numbered
unfolding number_from every
sampled_every interval max_lines lines =
    number_from 1 interval (take max_lines (every (length lines) interval lines))

-- The lines chosen, with their numbers; they are in order, so the sort that follows in the code
-- leaves them as they are. `none` where the division by `max_lines` raises.
unfoldable pub sampled : ℕ → List Text → Option (List Numbered)
unfolding number_from sampled_every
sampled max_lines lines =
    if leb (length lines) max_lines
    then some (number_from 1 1 lines)
    else if max_lines == 0
    then none
    else some (sampled_every (length lines / max_lines) max_lines lines)

unfoldable pub sample_lines : ℕ → List Text → Option (List Text)
unfolding formatted
sample_lines max_lines lines = elim (sampled max_lines lines) [
  | none ↦ none
  | some ls ↦ some (map formatted ls)
]

-- `range(n, n + count)`
unfoldable pub count_from : ℕ → ℕ → List ℕ
count_from n zero = []
count_from n (suc k) = n ∷ count_from (suc n) k

-- (start_line, end_line)
unfoldable pub ranges_from : ℕ → ℕ → List ℕ → List (ℕ × ℕ)
ranges_from start stop [] = (start, stop) ∷ []
ranges_from start stop (num ∷ nums) =
    let on = ranges_from start num nums in
    let next = ranges_from num num nums in if num == stop + 1 then on else (start, stop) ∷ next

unfoldable pub ranges_of : List ℕ → List (ℕ × ℕ)
unfolding ranges_from
ranges_of [] = []
ranges_of (num ∷ nums) = ranges_from num num nums

-- `sorted(set(range(1, len(lines) + 1)) - set(included))`
unfoldable pub skipped_nums : List Text → List ℕ → List ℕ
unfolding count_from
skipped_nums lines included =
    keep (λ n. not (any_of (λ m. m == n) included)) (count_from 1 (length lines))

unfoldable pub calculate_skipped : List Text → List ℕ → List (ℕ × ℕ)
unfolding ranges_of skipped_nums
calculate_skipped lines [] = []
calculate_skipped lines (m ∷ ms) = ranges_of (skipped_nums lines (m ∷ ms))

unfoldable pub is_one_of : Text → List Text → Bool
unfolding text_eq
is_one_of t names = any_of (text_eq t) names

-- The lines of a signature: up to one with a colon or a brace, or one that ends its parameters.
unfoldable pub signature_lines : List Text → Text → List Text
unfolding contains ends_with_char
signature_lines [] seen = []
signature_lines (line ∷ lines) seen =
    let all = seen ++ line in
    let more = signature_lines lines all in
    if contains (codes ":") line || contains (codes "{") line
    then line ∷ []
    else if ends_with_char 41 (strip line) && contains (codes "(") all
    then line ∷ []
    else line ∷ more

-- A line that is there, by its number from 1 on.
unfoldable pub line_at : List Text → ℕ → Text
line_at [] i = []
line_at (line ∷ lines) zero = line
line_at (line ∷ lines) (suc i) = line_at lines i

-- `max_signature_lines` is the constant of utils/constants. Line numbers count from 1.
unfoldable pub get_declaration_content : ℕ → List Text → ℕ → ℕ → Text → Text
unfolding is_one_of signature_lines line_at join_lf
get_declaration_content max_signature_lines lines start_line end_line node_type =
    if ltb (length lines) start_line
    then []
    else if is_one_of node_type (
        codes "import_statement"
        ∷ codes "import_declaration"
        ∷ codes "import_from_statement"
        ∷ codes "decorator"
        ∷ [])
    then line_at lines (start_line - 1)
    else if is_one_of node_type (
        codes "function_definition"
        ∷ codes "function_declaration"
        ∷ codes "method_definition"
        ∷ codes "class_definition"
        ∷ codes "class_declaration"
        ∷ [])
    then join_lf (
        signature_lines
          (slice (start_line - 1)
            (start_line - 1 + min max_signature_lines (end_line + 1 - start_line)) lines)
          [])
    else line_at lines (start_line - 1)

unfoldable pub map_node_type : Text → Text
unfolding is_one_of contains
map_node_type node_type =
    let has : Text → Bool = λ t. contains t node_type in
    if has (codes "class")
    then codes "class"
    else if has (codes "function") || has (codes "method")
    then codes "function"
    else if has (codes "import")
    then codes "import"
    else if has (codes "decorator") || has (codes "annotation")
    then codes "decorator"
    else if is_one_of node_type
        (codes "interface_declaration" ∷ codes "enum_declaration" ∷ codes "struct_declaration" ∷ [])
    then codes "declaration"
    else codes "code_structure"
