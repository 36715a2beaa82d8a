-- ===== src/Diff/Unified/Runner/Sections.antt =====
-- Cutting a hunk into its context and its changes.
use deputydev_core.Prelude.{
  ℕ, List, [], ◌∷◌, ◌++◌, append_assoc, append-nil, map, Bool, true, false, not, ◌==◌, concat,
  concat-append, All, All-append, if◌then◌else◌, ◌≡◌, ◌⊎◌, inl, inr, refl, ap, sym, ◌∙◌, arith,
  Bool-cases,
}
use deputydev_core.Py.Chars.{Text}
use deputydev_core.Py.Result.{ok}
use deputydev_core.Diff.Unified.Runner.{
  op_class, ops_of, Cut, cut_step, cut_run, cut_end, sections_of,
}

-- The operation of a line, 0 for an empty one.
unfoldable pub class_of : Text → ℕ
class_of [] = 0
class_of (c ∷ s) = op_class c

-- The operations of the lines of context and of the changed lines.
abbrev pub code : Bool → ℕ
code context = if context then 32 else 120

abbrev pub IsOperation : Text → Type 0
IsOperation line = (class_of line ≡ 32) ⊎ (class_of line ≡ 120)

abbrev pub Uniform : Bool → List Text → Type 0
Uniform context section = All (λ line. class_of line ≡ code context) section

-- Sections of context and of changes in turn, the first one of context if the test is true.
abbrev pub Alternating : Bool → List (List Text) → Type 0
Alternating context [] = Unit
Alternating context (section ∷ sections) =
    Uniform context section × Alternating (not context) sections

-- Which kind of section comes next.
abbrev pub next_is_context : Bool → List (List Text) → Bool
next_is_context context [] = context
next_is_context context (section ∷ sections) = next_is_context (not context) sections

Alternating-snoc :
    (context : Bool) (sections : List (List Text)) (section : List Text)
    → Alternating context sections
    → Uniform (next_is_context context sections) section
    → Alternating context (sections ++ section ∷ [])
Alternating-snoc context [] section a u = (u, tt)
Alternating-snoc context (s ∷ sections) section (v, a) u =
    (v, Alternating-snoc (not context) sections section a u)

next_is_context-snoc :
    (context : Bool) (sections : List (List Text)) (section : List Text)
    → next_is_context context (sections ++ section ∷ []) ≡ not (next_is_context context sections)
next_is_context-snoc context [] section = refl
next_is_context-snoc context (s ∷ sections) section =
    next_is_context-snoc (not context) sections section

-- What the loop keeps, with the lines it has seen.
record Keeps (seen : List Text) (s : Cut) : Type 0 where
  pub spelled : concat s.sections ++ s.section ≡ seen
  pub alternate : Alternating true s.sections
  pub uniform : Uniform (next_is_context true s.sections) s.section
  pub current : s.cur_op ≡ code (next_is_context true s.sections)

other_code :
    (c k : ℕ) (context : Bool)
    → (c ≡ 32) ⊎ (c ≡ 120)
    → k ≡ code context
    → (c == k) ≡ false
    → c ≡ code (not context)
other_code c k true o h e = ground arith
other_code c k false o h e = ground arith

concat-snoc :
    (sections : List (List Text)) (section : List Text)
    → concat (sections ++ section ∷ []) ≡ concat sections ++ section
concat-snoc sections section = concat-append sections (section ∷ []) ∙ rw (append-nil section) refl

cut_step-Keeps :
    (seen : List Text) (s : Cut) (line : Text)
    → Keeps seen s
    → IsOperation line
    → Keeps (seen ++ line ∷ []) (cut_step s (class_of line) line)
unfolding cut_step
cut_step-Keeps seen s line k o = elim (Bool-cases (class_of line == s.cur_op)) [
  | inl e ↦
      let same : class_of line ≡ code (next_is_context true s.sections) =
        ground (arith, k.current) in
      rw e (record {
        spelled =
            sym (append_assoc (concat s.sections) s.section (line ∷ []))
            ∙ ap (λ (r : List Text). r ++ line ∷ []) k.spelled;
        alternate = k.alternate;
        uniform =
            All-append (λ l. class_of l ≡ code (next_is_context true s.sections)) s.section
              (line ∷ []) k.uniform (same, tt);
        current = k.current;
      })
  | inr e ↦
      let other =
        other_code (class_of line) s.cur_op (next_is_context true s.sections) o k.current e in
      let turned : class_of line ≡ code (next_is_context true (s.sections ++ s.section ∷ [])) =
        other ∙ ap code (sym (next_is_context-snoc true s.sections s.section)) in
      rw e (record {
        spelled =
            ap (λ (r : List Text). r ++ line ∷ []) (concat-snoc s.sections s.section ∙ k.spelled);
        alternate = Alternating-snoc true s.sections s.section k.alternate k.uniform;
        uniform = (turned, tt);
        current = turned;
      })
]

cut_run-Keeps :
    (seen : List Text) (s : Cut) (hunk : List Text)
    → Keeps seen s
    → All IsOperation hunk
    → Keeps (seen ++ hunk) (cut_run s (map class_of hunk) hunk)
unfolding cut_run
cut_run-Keeps seen s [] k o = rw (append-nil seen) k
cut_run-Keeps seen s (line ∷ hunk) k (o, os) =
    let next =
      cut_run-Keeps (seen ++ line ∷ []) (cut_step s (class_of line) line) hunk
        (cut_step-Keeps seen s line k o) os in
    rw (append_assoc seen (line ∷ []) hunk) at next

-- The sections spell the hunk, context and changes take turns, and context comes first and last.
pub record IsCut (hunk : List Text) (sections : List (List Text)) : Type 0 where
  pub spelled : concat sections ≡ hunk
  pub alternate : Alternating true sections
  pub ends_in_context : next_is_context true sections ≡ false

cut_end-IsCut : (seen : List Text) (s : Cut) → Keeps seen s → IsCut seen (cut_end s)
unfolding cut_end
cut_end-IsCut seen s k =
    let closed = s.sections ++ s.section ∷ [] in
    let spelled : concat closed ≡ seen = concat-snoc s.sections s.section ∙ k.spelled in
    let alternate = Alternating-snoc true s.sections s.section k.alternate k.uniform in
    let turned = next_is_context-snoc true s.sections s.section in
    elim (Bool-cases (next_is_context true s.sections)) [
      | inl e ↦
          let context : (s.cur_op == 32) ≡ true = ground (arith, k.current) in
          rw context (record {
            spelled = spelled;
            alternate = alternate;
            ends_in_context = turned ∙ ap not e;
          })
      | inr e ↦
          let changed : (s.cur_op == 32) ≡ false = ground (arith, k.current) in
          rw changed (record {
            spelled = concat-snoc closed [] ∙ append-nil (concat closed) ∙ spelled;
            alternate = Alternating-snoc true closed [] alternate tt;
            ends_in_context = next_is_context-snoc true closed [] ∙ ap not (turned ∙ ap not e);
          })
    ]

pub ops_of-map : (hunk : List Text) → All IsOperation hunk → ops_of hunk ≡ ok (map class_of hunk)
unfolding ops_of class_of
ops_of-map [] o = refl
ops_of-map ([] ∷ hunk) (o, os) = absurd (ground arith)
ops_of-map ((c ∷ s) ∷ hunk) (o, os) = rw (ops_of-map hunk os) refl

-- A hunk whose lines start with a blank, a line feed, `-` or `+` is cut into sections that spell it,
-- of context and of changes in turn, the first and the last of context.
pub sections_of-IsCut :
    (hunk : List Text) (ops : List ℕ)
    → All IsOperation hunk
    → ops_of hunk ≡ ok ops
    → IsCut hunk (sections_of ops hunk)
unfolding sections_of
sections_of-IsCut hunk ops o h =
    let start : Cut = record { cur_op = 32; section = []; sections = [] } in
    let first : Keeps [] start = record {
      spelled = refl;
      alternate = tt;
      uniform = tt;
      current = refl;
    } in
    let same : ops ≡ map class_of hunk = ground (arith, ops_of-map hunk o) in
    rw same (
      cut_end-IsCut hunk (cut_run start (map class_of hunk) hunk)
        (cut_run-Keeps [] start hunk first o))
