-- ===== src/Chunking/Metadata/Chunks/Points.antt =====
-- The order of the points of a text, and the spans that lie in others.
use deputydev_core.Prelude.{
  ◌≤◌, ◌<◌, List, [], ◌∷◌, ◌++◌, false, All, ◌≡◌, ◌⊎◌, inl, inr, refl, arith,
}
use deputydev_core.Chunking.Metadata.{Point, point_eq, NeoSpan}

abbrev pub UpTo : Point → Point → Type 0
UpTo p q = (p.0 < q.0) ⊎ ((p.0 ≡ q.0) × (p.1 ≤ q.1))

pub UpTo-refl : (p : Point) → UpTo p p
UpTo-refl p = inr (refl, omega arith)

pub UpTo-trans : (p q r : Point) → UpTo p q → UpTo q r → UpTo p r
UpTo-trans p q r h g = ground arith

pub UpTo-rows : (p q : Point) → UpTo p q → p.0 ≤ q.0
UpTo-rows p q h = ground arith

-- What starts no later and ends at the end of something that is not empty is not empty.
pub point_eq-earlier :
    (p q r : Point) → UpTo p q → UpTo q r → point_eq q r ≡ false → point_eq p r ≡ false
unfolding point_eq
point_eq-earlier p q r h g e = ground arith

pub point_eq-longer :
    (p q r : Point) → UpTo p q → UpTo q r → point_eq p q ≡ false → point_eq p r ≡ false
unfolding point_eq
point_eq-longer p q r h g e = ground arith

abbrev pub AllUpTo : Point → List Point → Type 0
AllUpTo p ds = All (λ d. UpTo d p) ds

pub AllUpTo-trans : (p q : Point) (ds : List Point) → UpTo p q → AllUpTo p ds → AllUpTo q ds
AllUpTo-trans p q [] l h = tt
AllUpTo-trans p q (d ∷ ds) l (h, hs) = (UpTo-trans d p q h l, AllUpTo-trans p q ds l hs)

-- A stretch of the text lies in a chunk of the list.
abbrev pub Covered : List NeoSpan → Point → Point → Type 0
Covered [] i j = ⊥
Covered (c ∷ cs) i j = (UpTo c.start i × UpTo j c.end) ⊎ Covered cs i j

pub Covered-left : (xs ys : List NeoSpan) (i j : Point) → Covered xs i j → Covered (xs ++ ys) i j
Covered-left [] ys i j h = absurd h
Covered-left (x ∷ xs) ys i j (inl h) = inl h
Covered-left (x ∷ xs) ys i j (inr h) = inr (Covered-left xs ys i j h)

pub Covered-right : (xs ys : List NeoSpan) (i j : Point) → Covered ys i j → Covered (xs ++ ys) i j
Covered-right [] ys i j h = h
Covered-right (x ∷ xs) ys i j h = inr (Covered-right xs ys i j h)

-- A part of what is covered.
pub Covered-part :
    (xs : List NeoSpan) (i j k l : Point) → UpTo i k → UpTo l j → Covered xs i j → Covered xs k l
Covered-part [] i j k l s e h = h
Covered-part (x ∷ xs) i j k l s e (inl (h, g)) =
    inl (UpTo-trans x.start i k h s, UpTo-trans l j x.end e g)
Covered-part (x ∷ xs) i j k l s e (inr h) = inr (Covered-part xs i j k l s e h)
