-- ===== src/Py/Strip.antt =====
-- `lstrip`, `rstrip` and `strip`, over the set of characters that a test gives.
use deputydev_core.Prelude.{
  List, [], ◌∷◌, ◌++◌, Bool, true, false, ◌&&◌, ◌≡◌, refl, arith, is_empty, any_of, all_of,
  if◌then◌else◌,
}
use deputydev_core.Py.Chars.{Text, is_space}

module _ {ℓ} {A : Type ℓ} (p : A → Bool) where
  unfoldable pub lstrip_by : List A → List A
  lstrip_by [] = []
  lstrip_by (c ∷ s) = let rest = lstrip_by s in if p c then rest else c ∷ s

  unfoldable pub rstrip_by : List A → List A
  rstrip_by [] = []
  rstrip_by (c ∷ s) = let rest = rstrip_by s in if is_empty rest && p c then [] else c ∷ rest

  unfoldable pub strip_by : List A → List A
  unfolding lstrip_by rstrip_by
  strip_by s = rstrip_by (lstrip_by s)

abbrev pub lstrip : Text → Text
lstrip = lstrip_by is_space

abbrev pub rstrip : Text → Text
rstrip = rstrip_by is_space

abbrev pub strip : Text → Text
strip = strip_by is_space

-- `not s.strip()`
unfoldable pub is_blank : Text → Bool
unfolding strip_by is_space
is_blank s = is_empty (strip s)

module _ {ℓ} {A : Type ℓ} (p : A → Bool) where
  pub lstrip_by-all : (s : List A) → is_empty (lstrip_by p s) ≡ all_of p s
  unfolding lstrip_by
  lstrip_by-all [] = refl
  lstrip_by-all (c ∷ s) = ground (arith, lstrip_by-all s)

  pub rstrip_by-all : (s : List A) → is_empty (rstrip_by p s) ≡ all_of p s
  unfolding rstrip_by
  rstrip_by-all [] = refl
  rstrip_by-all (c ∷ s) = ground (arith, rstrip_by-all s)

  -- A trailing stretch in the set does not count.
  pub rstrip_by-append : (s t : List A) → all_of p t ≡ true → rstrip_by p (s ++ t) ≡ rstrip_by p s
  unfolding rstrip_by
  rstrip_by-append [] [] h = refl
  rstrip_by-append [] (d ∷ t) h = ground (arith, rstrip_by-all t)
  rstrip_by-append (c ∷ s) t h = ground (arith, rstrip_by-append s t h)

  append-char_nonempty : (s : List A) (c : A) → is_empty (s ++ c ∷ []) ≡ false
  append-char_nonempty [] c = refl
  append-char_nonempty (d ∷ s) c = refl

  -- Nothing is stripped before a character that is not in the set.
  pub rstrip_by-keep : (s : List A) (c : A) → p c ≡ false → rstrip_by p (s ++ c ∷ []) ≡ s ++ c ∷ []
  unfolding rstrip_by
  rstrip_by-keep [] c h = ground arith
  rstrip_by-keep (d ∷ s) c h = rw (rstrip_by-keep s c h, append-char_nonempty s c)

  pub rstrip_by-none : (s : List A) → any_of p s ≡ false → rstrip_by p s ≡ s
  unfolding rstrip_by
  rstrip_by-none [] h = refl
  rstrip_by-none (c ∷ s) h = ground (arith, rstrip_by-none s)
