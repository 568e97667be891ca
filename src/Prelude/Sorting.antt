-- ===== src/Prelude/Sorting.antt =====
-- What the stable sort gives: the same elements, in order.
use mathlib.Core.Path.{◌≡◌}
use mathlib.Core.Logic.{inl, inr}
use mathlib.Core.Bool.{Bool, true, false}
use mathlib.Core.List.{List, [], ◌∷◌, Perm}
use mathlib.Core.List.Perm
use seg.Prelude.Tests.{Bool-cases}
use seg.Prelude.Lists.{insert_by, sort_by, All, All-map, All-insert_by}

-- Every element is related to all that stand behind it.
abbrev pub InOrder : {A : Type 0} → (A → A → Type 0) → List A → Type 0
InOrder R [] = Unit
InOrder R (x ∷ xs) = All (R x) xs × InOrder R xs

pub InOrder-map :
    {A : Type 0} (R S : A → A → Type 0)
    → ((x y : A) → R x y → S x y)
    → (xs : List A) → InOrder R xs
    → InOrder S xs
InOrder-map R S f [] h = tt
InOrder-map R S f (x ∷ xs) h = (All-map (f x) xs h.0, InOrder-map R S f xs h.1)

module _ {A : Type 0} (first : A → A → Bool) where
  abbrev pub Ordered : List A → Type 0
  Ordered = InOrder (λ x y. first x y ≡ true)

  insert_by-perm : (x : A) (ys : List A) → Perm (insert_by first x ys) (x ∷ ys)
  insert_by-perm x [] = Perm.refl (x ∷ [])
  insert_by-perm x (y ∷ ys) = elim (Bool-cases (first x y)) [
    | inl e ↦ rw e (Perm.refl (x ∷ y ∷ ys))
    | inr e ↦ rw e (Perm.trans (Perm.cons y (insert_by-perm x ys)) (Perm.swap x y ys))
  ]

  pub sort_by-perm : (xs : List A) → Perm (sort_by first xs) xs
  sort_by-perm [] = Perm.refl []
  sort_by-perm (x ∷ xs) =
      Perm.trans (insert_by-perm x (sort_by first xs)) (Perm.cons x (sort_by-perm xs))

  module _ (total : (x y : A) → first x y ≡ false → first y x ≡ true)
      (trans : (x y z : A) → first x y ≡ true → first y z ≡ true → first x z ≡ true) where
    insert_by-Ordered : (x : A) (ys : List A) → Ordered ys → Ordered (insert_by first x ys)
    insert_by-Ordered x [] h = (tt, tt)
    insert_by-Ordered x (y ∷ ys) h = elim (Bool-cases (first x y)) [
      | inl e ↦ rw e ((e, All-map (λ z. trans x y z e) ys h.0), h)
      | inr e ↦ rw e (All-insert_by _ first x ys (total x y e) h.0, insert_by-Ordered x ys h.1)
    ]

    pub sort_by-Ordered : (xs : List A) → Ordered (sort_by first xs)
    sort_by-Ordered [] = tt
    sort_by-Ordered (x ∷ xs) = insert_by-Ordered x (sort_by first xs) (sort_by-Ordered xs)
