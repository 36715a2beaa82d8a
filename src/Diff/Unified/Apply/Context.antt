-- ===== src/Diff/Unified/Apply/Context.antt =====
-- Which context a hunk is applied with.
use mathlib.Core.Path.{subst}
use deputydev_core.Prelude.{
  ◌∙◌, ℕ, zero, suc, ◌≤◌, ◌<◌, ◌+◌, ◌-◌, List, true, Option, length, All, ◌≡◌, ap, sym, arith, inl,
  inr, ◌⊎◌,
}
use deputydev_core.Py.Chars.{Text}
use deputydev_core.Py.Result.{Result, ok}
use deputydev_core.Diff.Unified.Relative.{Failure}
use deputydev_core.Diff.Unified.Flexible.{is_found, first_found}
use deputydev_core.Diff.Unified.Flexible.Order.{
  NotFound, FirstFound, here, later, first_found-FirstFound, first_found-NotFound,
}
use deputydev_core.Diff.Unified.Apply.{down_from, with_context, try_context, apply_partial_hunk}

at_most : (j n : ℕ) → j ≤ suc n → (j ≤ n) ⊎ (j ≡ suc n)
at_most j n h = ground arith

All-down_from : (P : ℕ → Type 0) (n j : ℕ) → All P (down_from n) → j ≤ n → P j
unfolding down_from
All-down_from P zero zero (p, _) h = p
All-down_from P zero (suc j) (p, _) h = absurd (omega arith)
All-down_from P (suc n) j (p, ps) h = elim (at_most j n h) [
  | inl l ↦ All-down_from P n j ps l
  | inr e ↦ subst P (sym e) p
]

module _ (f : ℕ → Result Failure (Option Text)) (res : Option Text) where
  -- `k` is the greatest number up to `n` whose call gives a result.
  record IsGreatest (n k : ℕ) : Type 0 where
    pub bounded : k ≤ n
    pub gives : f k ≡ ok res
    pub others : (j : ℕ) → k < j → j ≤ n → NotFound (f j)

  greatest : (n : ℕ) → FirstFound f res (down_from n) → (k : ℕ) × IsGreatest n k
  unfolding down_from
  greatest zero (here h) =
      (zero, record { bounded = omega arith; gives = h; others = λ j l m. absurd (omega arith) })
  greatest zero (later n t) = elim t [ ]
  greatest (suc n) (here h) =
      (suc n, record { bounded = omega arith; gives = h; others = λ j l m. absurd (omega arith) })
  greatest (suc n) (later h t) =
      let (k, g) = greatest n t in
      (
        k,
        record {
          bounded = omega (arith, g.bounded);
          gives = g.gives;
          others = λ j l m. elim (at_most j n m) [
            | inl b ↦ g.others j l b
            | inr e ↦ subst (λ (i : ℕ). NotFound (f i)) (sym e) h
          ];
        },
      )

module _ (content : Text) (preceding_context changes following_context : List Text) where
  -- The context of `p` lines before and `q` lines behind the changes gives `res`, and none that
  -- is larger does, nor one of its size with more lines before.
  pub record IsLargest (res : Option Text) (p q : ℕ) : Type 0 where
    pub before_bounded : p ≤ length preceding_context
    pub behind_bounded : q ≤ length following_context
    pub gives : with_context content preceding_context changes following_context p q ≡ ok res
    pub others :
        (a b : ℕ)
        → a ≤ length preceding_context
        → b ≤ length following_context
        → (p + q < a + b) ⊎ ((p + q ≡ a + b) × (p < a))
        → NotFound (with_context content preceding_context changes following_context a b)

  try_context-inside :
      (total p : ℕ)
      → p ≤ total
      → total - p ≤ length following_context
      → try_context content preceding_context changes following_context total p
        ≡ with_context content preceding_context changes following_context p (total - p)
  unfolding try_context
  try_context-inside total p h g = ground arith

  try_context-found :
      (res : Option Text) (total p : ℕ)
      → try_context content preceding_context changes following_context total p ≡ ok res
      → is_found res ≡ true
      → (p ≤ total) × (total - p ≤ length following_context)
  unfolding try_context is_found
  try_context-found res total p h g = ground arith

  try_context-sum :
      (a b : ℕ)
      → b ≤ length following_context
      → NotFound (try_context content preceding_context changes following_context (a + b) a)
      → NotFound (with_context content preceding_context changes following_context a b)
  try_context-sum a b h n =
      let e : a + b - a ≡ b = omega arith in
      subst NotFound
        (try_context-inside (a + b) a (omega arith) (omega arith)
          ∙ ap (with_context content preceding_context changes following_context a) e)
        n

  -- If the partial application finds a result, it is that of the largest context that gives one,
  -- with as many lines before the changes as can be; every context tried before it gave none.
  pub apply_partial_hunk-IsLargest :
      (res : Option Text)
      → apply_partial_hunk content preceding_context changes following_context ≡ ok res
      → is_found res ≡ true
      → (p q : ℕ) × IsLargest res p q
  unfolding apply_partial_hunk
  apply_partial_hunk-IsLargest res h g =
      let lp = length preceding_context in
      let lf = length following_context in
      let try = try_context content preceding_context changes following_context in
      let outer = λ (total : ℕ). first_found (try total) (down_from lp) in
      let (k, gk) =
        greatest outer res (lp + lf) (first_found-FirstFound outer res (down_from (lp + lf)) h g) in
      let (p, gp) =
        greatest (try k) res lp (first_found-FirstFound (try k) res (down_from lp) gk.gives g) in
      let (pk, kf) = try_context-found res k p gp.gives g in
      (
        p,
        k - p,
        record {
          before_bounded = gp.bounded;
          behind_bounded = kf;
          gives = sym (try_context-inside k p pk kf) ∙ gp.gives;
          others = λ a b la lb larger. try_context-sum a b lb (elim larger [
            | inl more ↦
                All-down_from (λ j. NotFound (try (a + b) j)) lp a
                  (first_found-NotFound (try (a + b)) (down_from lp)
                    (gk.others (a + b) (omega arith) (omega arith)))
                  la
            | inr (same, before) ↦
                subst (λ (n : ℕ). NotFound (try n a)) (omega arith) (gp.others a before la)
          ]);
        },
      )
