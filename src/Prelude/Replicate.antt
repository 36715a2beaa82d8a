-- ===== src/Prelude/Replicate.antt =====
-- Lists that repeat one number.
use Prim.Native.Nat.{ℕ, zero, suc, ◌+◌, ◌-◌, ◌≤◌}
use mathlib.Core.Path.{◌≡◌, refl, ap}
use mathlib.Core.Bool.{Bool, false}
use mathlib.Core.List.{List, ◌∷◌, ◌++◌}
use native.Mathlib.Omega.{arith}
use deputydev_core.Prelude.Lists.{length, take, drop, replicate, any_of}

pub any_of-replicate : (p : ℕ → Bool) (n c : ℕ) → p c ≡ false → any_of p (replicate n c) ≡ false
any_of-replicate p zero c h = refl
any_of-replicate p (suc n) c h = ground (arith, any_of-replicate p n c h)

pub length-replicate : (n c : ℕ) → length (replicate n c) ≡ n
length-replicate zero c = refl
length-replicate (suc n) c = omega (arith, length-replicate n c)

pub take-replicate : (n m c : ℕ) → n ≤ m → take n (replicate m c) ≡ replicate n c
take-replicate zero m c h = refl
take-replicate (suc n) zero c h = absurd (omega arith)
take-replicate (suc n) (suc m) c h = ap (λ (r : List ℕ). c ∷ r) (take-replicate n m c (omega arith))

pub drop-replicate : (n m k c : ℕ) → m - n ≡ k → drop n (replicate m c) ≡ replicate k c
drop-replicate zero m k c e = let e' : m ≡ k = omega arith in ap (λ (n : ℕ). replicate n c) e'
drop-replicate (suc n) zero zero c e = refl
drop-replicate (suc n) zero (suc k) c e = absurd (omega arith)
drop-replicate (suc n) (suc m) k c e = drop-replicate n m k c (omega arith)

pub replicate-append : (a b k c : ℕ) → a + b ≡ k → replicate a c ++ replicate b c ≡ replicate k c
replicate-append zero b k c e = let e' : b ≡ k = omega arith in ap (λ (n : ℕ). replicate n c) e'
replicate-append (suc a) b zero c e = absurd (omega arith)
replicate-append (suc a) b (suc k) c e =
    ap (λ (r : List ℕ). c ∷ r) (replicate-append a b k c (omega arith))

pub take-replicate_append : (k c : ℕ) (t : List ℕ) → take k (replicate k c ++ t) ≡ replicate k c
take-replicate_append zero c t = refl
take-replicate_append (suc k) c t = ap (λ (r : List ℕ). c ∷ r) (take-replicate_append k c t)

pub drop-replicate_append : (k c : ℕ) (t : List ℕ) → drop k (replicate k c ++ t) ≡ t
drop-replicate_append zero c t = refl
drop-replicate_append (suc k) c t = drop-replicate_append k c t
