-- ===== src/Diff/SearchReplace/Runner/Outcome.antt =====
-- What `apply_diff` returns and what it raises.
use mathlib.Core.List.{map-append}
use deputydev_core.Py.Search.Laws.{replace-absent, ends_with_char-append}
use deputydev_core.Prelude.{
  is_empty, ◌≢◌, sort_by, ℕ, ◌+◌, List, [], ◌∷◌, ◌++◌, append_assoc, append-nil, Bool, true, false,
  not, ◌||◌, none, some, ◌≡◌, refl, ap, sym, ◌∙◌, arith, length, keep, map, All, All-append,
  Bool-cases, Option-cases, inl, inr,
}
use deputydev_core.Py.Chars.{cr, text_eq_refl, Text}
use deputydev_core.Py.Strip.{is_blank}
use deputydev_core.Diff.SearchReplace.Prep.{
  Prepared, prep_with_trailing, with_final_newline, normalise, prep,
}
use deputydev_core.Diff.SearchReplace.Locate.{locate_span}
use deputydev_core.Diff.SearchReplace.Locate.Bounds.{locate_span-Within}
use deputydev_core.Diff.SearchReplace.Runner.{
  replace, newline, lf, text_eq, overlaps, pieces, ok, restore, crlf, contains, failed_edits, err,
  FileDiffApplicationResponse, apply_matches, apply_edits, Difflib, EditError, Match, Located,
  edit_error, locate_edit, locate_all,
}
use deputydev_core.Diff.SearchReplace.Runner.Edits.{pieces-sort_by, one_by_one, InText}

module _ (difflib : Difflib) (text : Text) where
  -- Whether an edit has a place: it appends, or its SEARCH text is located.
  unfoldable pub has_place : Text × Text → Bool
  has_place (orig, repl) =
      is_blank orig || elim (locate_span difflib.matches text orig) [ none ↦ false | some s ↦ true ]

  abbrev pub edit_of : EditError → Text × Text
  edit_of e = (e.original, e.replacement)

  abbrev match : ℕ → ℕ → Text → Match
  match i j repl = record { start = i; stop = j; repl = repl }

  -- The three cases of one round of pass 1.
  module _ (idx : ℕ) (orig repl : Text) (found : Located) where
    locate_edit_blank :
        is_blank orig ≡ true
        → locate_edit difflib text idx orig repl found
          ≡ record found { matches = found.matches ++ match (length text) (length text) repl ∷ [] }
    unfolding locate_edit
    locate_edit_blank h = rw h

    locate_edit_located :
        (i j : ℕ)
        → is_blank orig ≡ false
        → locate_span difflib.matches text orig ≡ some (i, j)
        → locate_edit difflib text idx orig repl found
          ≡ record found { matches = found.matches ++ match i j repl ∷ [] }
    unfolding locate_edit
    locate_edit_located i j h k = rw (h, k)

    locate_edit_failed :
        is_blank orig ≡ false
        → locate_span difflib.matches text orig ≡ none
        → locate_edit difflib text idx orig repl found
          ≡ record found { errors = found.errors ++ edit_error difflib text idx orig repl ∷ [] }
    unfolding locate_edit
    locate_edit_failed h k = rw (h, k)

    locate_edit-errors :
        map edit_of (locate_edit difflib text idx orig repl found).errors
        ≡ map edit_of found.errors ++ keep (λ e. not (has_place e)) ((orig, repl) ∷ [])
    unfolding has_place
    locate_edit-errors = elim (Bool-cases (is_blank orig)) [
      | inl h ↦ rw (locate_edit_blank h, h) (sym (append-nil (map edit_of found.errors)))
      | inr h ↦ elim (Option-cases (locate_span difflib.matches text orig)) [
        | inl k ↦
            rw (locate_edit_failed h k, h, k)
              (map-append edit_of found.errors (edit_error difflib text idx orig repl ∷ [])
                ∙ (unfold edit_error in refl))
        | inr ((i, j), k) ↦
            rw (locate_edit_located i j h k, h, k) (sym (append-nil (map edit_of found.errors)))
      ]
    ]

    locate_edit-InText :
        (prep text).0 ≡ text
        → All (InText (length text)) found.matches
        → All (InText (length text)) (locate_edit difflib text idx orig repl found).matches
    locate_edit-InText e hs = elim (Bool-cases (is_blank orig)) [
      | inl h ↦
          rw (locate_edit_blank h)
            (All-append (InText (length text)) found.matches _ hs ((omega arith, omega arith), tt))
      | inr h ↦ elim (Option-cases (locate_span difflib.matches text orig)) [
        | inl k ↦ rw (locate_edit_failed h k) hs
        | inr ((i, j), k) ↦
            let within = rw e at (locate_span-Within difflib.matches text orig i j k) in
            rw (locate_edit_located i j h k)
              (All-append (InText (length text)) found.matches _ hs (within, tt))
      ]
    ]

  keep-append :
      (p : Text × Text → Bool) (xs ys : List (Text × Text))
      → keep p (xs ++ ys) ≡ keep p xs ++ keep p ys
  keep-append p [] ys = refl
  keep-append p (x ∷ xs) ys = ground (arith, keep-append p xs ys)

  locate_all-errors :
      (edits : List (Text × Text)) (idx : ℕ) (found : Located)
      → map edit_of (locate_all difflib text idx edits found).errors
        ≡ map edit_of found.errors ++ keep (λ e. not (has_place e)) edits
  unfolding locate_all
  locate_all-errors [] idx found = sym (append-nil (map edit_of found.errors))
  locate_all-errors ((orig, repl) ∷ edits) idx found =
      let next = locate_edit difflib text idx orig repl found in
      locate_all-errors edits (idx + 1) next
      ∙ ap (λ es. es ++ keep (λ e. not (has_place e)) edits)
          (locate_edit-errors idx orig repl found)
      ∙ append_assoc (map edit_of found.errors) (keep (λ e. not (has_place e)) ((orig, repl) ∷ []))
          (keep (λ e. not (has_place e)) edits)
      ∙ ap (λ es. map edit_of found.errors ++ es)
          (sym (keep-append (λ e. not (has_place e)) ((orig, repl) ∷ []) edits))

  locate_all-InText :
      (edits : List (Text × Text)) (idx : ℕ) (found : Located)
      → (prep text).0 ≡ text
      → All (InText (length text)) found.matches
      → All (InText (length text)) (locate_all difflib text idx edits found).matches
  unfolding locate_all
  locate_all-InText [] idx found e hs = hs
  locate_all-InText ((orig, repl) ∷ edits) idx found e hs =
      locate_all-InText edits (idx + 1) (locate_edit difflib text idx orig repl found) e
        (locate_edit-InText idx orig repl found e hs)

with_final_newline_idem :
    (s : Text) → with_final_newline (with_final_newline s) ≡ with_final_newline s
unfolding with_final_newline
with_final_newline_idem [] = refl
with_final_newline_idem (c ∷ s) = ground (arith, ends_with_char-append lf (c ∷ s))

-- A normalised text in which no "\r\n" is left is normalised as it is. (One is left of "\r\r\n".)
normalise_idem :
    (content : Text)
    → contains crlf (normalise content) ≡ false
    → normalise (normalise content) ≡ normalise content
unfolding normalise
normalise_idem content h =
    ap with_final_newline (replace-absent cr (lf ∷ []) newline (normalise content) h)
    ∙ with_final_newline_idem (replace crlf newline content)

is_empty-false {ℓ} : {A : Type ℓ} (xs : List A) → xs ≢ [] → is_empty xs ≡ false
is_empty-false [] h = absurd (h refl)
is_empty-false (x ∷ xs) h = refl

is_empty→nil {ℓ} : {A : Type ℓ} (xs : List A) → is_empty xs ≡ true → xs ≡ []
is_empty→nil [] h = refl
is_empty→nil (x ∷ xs) h = cc

abbrev pub no_match : Located
no_match = record { errors = []; matches = [] }

-- The three ways in which `apply_matches` ends, and when.
module _ (file_path content : Text) (prepared : Prepared) (found : Located) where
  abbrev new_text : Text
  new_text = restore prepared (pieces prepared.content_lf 0 (sort_by (λ m. m.start) found.matches))

  apply_matches_errors :
      found.errors ≢ []
      → apply_matches file_path content true prepared found ≡ err (failed_edits found.errors)
  unfolding apply_matches
  apply_matches_errors h = rw (is_empty-false found.errors h)

  apply_matches_ok :
      (r : FileDiffApplicationResponse)
      → apply_matches file_path content true prepared found ≡ ok r
      → (found.errors ≡ [])
        × (overlaps (sort_by (λ m. m.start) found.matches) ≡ false)
        × (r.new_content ≡ new_text)
        × (text_eq new_text content ≡ false)
  unfolding apply_matches
  apply_matches_ok r e = ground (arith, is_empty→nil found.errors)

module _ (difflib : Difflib) (file_path content : Text) (edits : List (Text × Text)) where
  abbrev pub norm : Text
  norm = normalise content

  abbrev pub found : Located
  found = locate_all difflib norm 1 edits no_match

  abbrev pub spans : List Match
  spans = sort_by (λ m. m.start) found.matches

  abbrev pub unplaced : List (Text × Text)
  unplaced = keep (λ e. not (has_place difflib norm e)) edits

  errors-unplaced : map (edit_of difflib norm) found.errors ≡ unplaced
  errors-unplaced = locate_all-errors difflib norm edits 1 no_match

  spans-InText : contains crlf norm ≡ false → All (InText (length norm)) found.matches
  spans-InText h =
      locate_all-InText difflib norm edits 1 no_match
        (unfold prep prep_with_trailing in normalise_idem content h) tt

  -- `apply_edits` on a request with an edit, in the terms above.
  apply_edits_lem :
      edits ≢ []
      → apply_edits difflib file_path content true edits
        ≡ apply_matches file_path content true (prep_with_trailing content) found
  unfolding apply_edits prep_with_trailing
  apply_edits_lem h = rw (is_empty-false edits h)

  -- For a file whose normalised text has no CR LF left, a request with edits succeeds only if every
  -- edit has a place and the spans, sorted, do not overlap; the new content is then the normalised file with the edits made one by one, in the
  -- newline style of the file, and differs from the file.
  pub apply_edits-ok :
      (r : FileDiffApplicationResponse)
      → edits ≢ []
      → contains crlf norm ≡ false
      → apply_edits difflib file_path content true edits ≡ ok r
      → (unplaced ≡ [])
        × (overlaps spans ≡ false)
        × (r.new_content ≡ restore (prep_with_trailing content) (one_by_one norm spans))
        × (r.new_content ≢ content)
  apply_edits-ok r h n e =
      let prepared = prep_with_trailing content in
      let (none_failed, apart, new, differs) =
        apply_matches_ok file_path content prepared found r (sym (apply_edits_lem h) ∙ e) in
      (
        sym errors-unplaced ∙ ap (map (edit_of difflib norm)) none_failed,
        apart,
        new
            ∙ (unfold prep_with_trailing in
                ap (restore prepared) (pieces-sort_by norm found.matches (spans-InText n) apart)),
        λ same. cc (differs, new, same, text_eq_refl content),
      )

  -- If some edit has no place, the request raises the errors of exactly the edits that have none,
  -- in order.
  pub apply_edits-unplaced :
      unplaced ≢ []
      → (es : List EditError) × (apply_edits difflib file_path content true edits
          ≡ err (failed_edits es))
        × (map (edit_of difflib norm) es ≡ unplaced)
  apply_edits-unplaced h = (
    found.errors,
    apply_edits_lem (λ e. h (ap (keep (λ p. not (has_place difflib norm p))) e))
        ∙ apply_matches_errors file_path content (prep_with_trailing content) found
            (λ e. h (sym errors-unplaced ∙ ap (map (edit_of difflib norm)) e)),
    errors-unplaced,
  )
