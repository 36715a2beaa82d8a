-- ===== src/Diff/SearchReplace/Fuzzy.antt =====
-- `replace_closest_edit_distance` and `find_similar_lines` of search_and_replace/runner.py.
-- `difflib.SequenceMatcher(None, a, b).ratio()` is `2.0 * M / T` with `M` the size of the matching
-- blocks and `T` the two lengths added, and 1.0 if `T` is 0. The size `M` is a parameter. A ratio is
-- kept as the pair of numerator and denominator.
use deputydev_core.Prelude.{
  ℕ, zero, suc, ◌+◌, ◌-◌, ◌*◌, ◌/◌, ◌%◌, min, max, List, [], Bool, ◌&&◌, ◌||◌, Option, none, some,
  ltb, ◌==◌, length, slice, concat, if◌then◌else◌,
}
use deputydev_core.Py.Chars.{Text}
use deputydev_core.Py.Lines.{splitlines, join_lf}

pub record Ratio : Type 0 where
  pub num : ℕ
  pub den : ℕ

unfoldable pub ratio_of : ℕ → ℕ → Ratio
ratio_of m t = if t == 0 then record { num = 1; den = 1 } else record { num = 2 * m; den = t }

-- `r > s`
unfoldable pub above : Ratio → Ratio → Bool
above r s = ltb (s.num * r.den) (r.num * s.den)

unfoldable pub zero_ratio : Ratio
zero_ratio = record { num = 0; den = 1 }

-- `n * 0.9` and `n * 1.1` as doubles. The factors are 8106479329266893 / 2^53 and
-- 4953959590107546 / 2^52, and a product keeps 53 binary digits, ties to even.
half_up : ℕ → ℕ → ℕ
half_up p unit =
    let q = p / unit in
    let r = p % unit in
    if ltb unit (2 * r) || (2 * r == unit && q % 2 == 1) then (q + 1) * unit else q * unit

-- The unit of the last of the 53 digits of a product below 2^(53 + fuel).
last_digit : ℕ → ℕ → ℕ → ℕ
last_digit zero p unit = unit
last_digit (suc fuel) p unit =
    let more = last_digit fuel p (2 * unit) in
    if ltb p (unit * 9007199254740992) then unit else more

unfoldable pub as_double : ℕ → ℕ
unfolding half_up last_digit
as_double p = half_up p (last_digit 64 p 1)

-- `max(1, math.floor(target_len * 0.9))`
unfoldable pub min_len : ℕ → ℕ
unfolding as_double
min_len n = max 1 (as_double (n * 8106479329266893) / 9007199254740992)

-- `math.ceil(target_len * 1.1)`
unfoldable pub max_len : ℕ → ℕ
unfolding as_double
max_len n = (as_double (n * 4953959590107546) + 4503599627370495) / 4503599627370496

-- The best window so far: its ratio and its span of lines.
pub record Best : Type 0 where
  pub ratio : Ratio
  pub start : ℕ
  pub stop : ℕ

module _ (matches : Text → Text → ℕ) (whole_lines : List Text) (part : Text) where
  unfoldable pub try_window : ℕ → ℕ → Best → Best
  unfolding ratio_of above
  try_window length_ i best =
      let chunk = concat (slice i (i + length_) whole_lines) in
      let ratio = ratio_of (matches chunk part) (length chunk + length part) in
      if above ratio best.ratio
      then record { ratio = ratio; start = i; stop = i + length_ }
      else best

  -- `for i in range(len(whole_lines) - length + 1)`, `n` rounds from `i` on
  unfoldable pub try_starts : ℕ → ℕ → ℕ → Best → Best
  try_starts length_ zero i best = best
  try_starts length_ (suc n) i best = try_starts length_ n (i + 1) (try_window length_ i best)

  -- `for length in range(min_len, max_len + 1)`, `n` rounds from `length_` on
  unfoldable pub try_lengths : ℕ → ℕ → Best → Best
  try_lengths zero length_ best = best
  try_lengths (suc n) length_ best =
      try_lengths n (length_ + 1) (try_starts length_ (length whole_lines + 1 - length_) 0 best)

  -- `None` below the threshold 0.8
  unfoldable pub replace_closest_edit_distance : ℕ → Option (ℕ × ℕ)
  unfolding try_window try_starts try_lengths zero_ratio min_len max_len
  replace_closest_edit_distance target_len =
      let best =
        try_lengths (max_len target_len + 1 - min_len target_len) (min_len target_len)
          (record { ratio = zero_ratio; start = 0; stop = 0 }) in
      if ltb (best.ratio.num * 10) (best.ratio.den * 8) then none else some (best.start, best.stop)

module _ (line_matches : List Text → List Text → ℕ) (needles hay : List Text) where
  unfoldable pub try_context : ℕ → ℕ → Best → Best
  unfolding ratio_of above
  try_context zero i best = best
  try_context (suc n) i best =
      let chunk = slice i (i + length needles) hay in
      let ratio = ratio_of (line_matches needles chunk) (length needles + length chunk) in
      try_context n (i + 1) (
        if above ratio best.ratio
        then record { ratio = ratio; start = i; stop = i + length needles }
        else best)

-- The threshold is 0.6; the context is three lines on either side.
unfoldable pub find_similar_lines : (List Text → List Text → ℕ) → Text → Text → Text
unfolding try_context zero_ratio splitlines join_lf
find_similar_lines line_matches search_lines content =
    let needles = splitlines search_lines in
    let hay = splitlines content in
    let best =
      try_context line_matches needles hay (length hay + 1 - length needles) 0
        (record { ratio = zero_ratio; start = 0; stop = 0 }) in
    if ltb (best.ratio.num * 10) (best.ratio.den * 6)
    then []
    else join_lf (slice (best.start - 3) (min (length hay) (best.start + length needles + 3)) hay)
