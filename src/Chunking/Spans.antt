-- ===== src/Chunking/Spans.antt =====
-- Byte and line spans of services/chunking/dataclass/main.py and the helpers of
-- services/chunking/utils/chunk_utils.py. The spans of the legacy chunker all have the default
-- metadata, which is left out; they start at or before their end, so their lengths are natural
-- numbers. Bytes are natural numbers; `decode` is `bytes.decode("utf-8")`, `none` where it raises.
use deputydev_core.Prelude.{
  ℕ, suc, ◌+◌, ◌-◌, List, [], ◌∷◌, Option, none, some, not, leb, ◌==◌, length, keep, is_empty,
  if◌then◌else◌,
}
use deputydev_core.Py.Chars.{Text, lf, is_space}

abbrev pub Bytes : Type 0
Bytes = List ℕ

pub record Span : Type 0 where
  pub start : ℕ
  pub stop : ℕ

abbrev pub span : ℕ → ℕ → Span
span i j = record { start = i; stop = j }

-- `len(span)`, one more than the difference of the ends
unfoldable pub span_len : Span → ℕ
span_len s = s.stop + 1 - s.start

-- The loop over the text with its break; `i` is the index of the next character.
unfoldable pub count_lines_before : ℕ → ℕ → Text → ℕ → ℕ
count_lines_before index i [] line_number = line_number
count_lines_before index i (char ∷ text) line_number =
    let next =
      count_lines_before index (suc i) text (if char == lf then suc line_number else line_number) in
    if leb index i then line_number else next

unfoldable pub get_line_number : (Bytes → Option Text) → ℕ → Bytes → Option ℕ
get_line_number decode index source_code =
    if is_empty source_code
    then some 1
    else if index == 0
    then some 1
    else elim (decode source_code) [
      | none ↦ none
      | some text ↦ some (count_lines_before index 0 text 1)
    ]

unfoldable pub non_whitespace_len : Text → ℕ
unfolding is_space
non_whitespace_len s = length (keep (λ c. not (is_space c)) s)
