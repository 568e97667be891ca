-- ===== src/Prelude/Rows.antt =====
-- Tables as lists of rows: what an update, a deletion and an insertion at the end keep.
use mathlib.Core.Path.{◌≡◌, refl, subst}
use mathlib.Core.Bool.{Bool, true, false}
use mathlib.Core.List.{List, [], ◌∷◌, ◌++◌, map}
use mathlib.Core.Option.{none, some}
use mathlib.Core.Logic.{inl, inr}
use native.Mathlib.Omega.{arith}
use seg.Prelude.Tests.{Bool-cases}
use seg.Prelude.Lists.{All, All-append, All-filter, filter, find, any}
use seg.Prelude.Sorting.{InOrder}

module _ {A : Type 0} where
  -- What a search finds satisfies its test and what holds of every row.
  pub find_sound : (p : A → Bool) (xs : List A) (x : A) → find p xs ≡ some x → p x ≡ true
  find_sound p [] x h = ground arith
  find_sound p (y ∷ ys) x h = ground (arith, find_sound p ys x)

  pub All-find :
      (P : A → Type 0) (p : A → Bool) (xs : List A) (x : A) → All P xs → find p xs ≡ some x → P x
  All-find P p [] x h e = ground arith
  All-find P p (y ∷ ys) x h e = elim (Bool-cases (p y)) [
    | inl t ↦ subst P (ground arith) h.0
    | inr f ↦ All-find P p ys x h.1 (rw f at e)
  ]

  pub any-All : (p : A → Bool) (xs : List A) → any p xs ≡ false → All (λ x. p x ≡ false) xs
  any-All p [] h = tt
  any-All p (x ∷ xs) h = ground (arith, any-All p xs)

  pub find-filter :
      (p q : A → Bool) (xs : List A)
      → All (λ x. p x ≡ true → q x ≡ true) xs
      → find p (filter q xs) ≡ find p xs
  find-filter p q [] h = refl
  find-filter p q (x ∷ xs) h = ground (arith, h.0, find-filter p q xs h.1)

  pub find-filter-none :
      (p q : A → Bool) (xs : List A)
      → All (λ x. p x ≡ true → q x ≡ false) xs
      → find p (filter q xs) ≡ none
  find-filter-none p q [] h = refl
  find-filter-none p q (x ∷ xs) h = ground (arith, h.0, find-filter-none p q xs h.1)

  pub find-append_new :
      (p : A → Bool) (xs : List A) (x : A)
      → any p xs ≡ false
      → p x ≡ true
      → find p (xs ++ x ∷ []) ≡ some x
  find-append_new p [] x h e = ground arith
  find-append_new p (y ∷ ys) x h e = ground (arith, find-append_new p ys x)

  pub find-append_old :
      (p : A → Bool) (xs : List A) (x : A) → p x ≡ false → find p (xs ++ x ∷ []) ≡ find p xs
  find-append_old p [] x e = ground arith
  find-append_old p (y ∷ ys) x e = ground (arith, find-append_old p ys x e)

  -- `Q` is what the update keeps of each row.
  pub All-update :
      (P : A → Type 0) (f : A → A)
      → ((x : A) → P x → P (f x))
      → (xs : List A) → All P xs
      → All P (map f xs)
  All-update P f keep [] h = tt
  All-update P f keep (x ∷ xs) h = (keep x h.0, All-update P f keep xs h.1)

  module _ (R : A → A → Type 0) where
    pub InOrder-filter : (p : A → Bool) (xs : List A) → InOrder R xs → InOrder R (filter p xs)
    InOrder-filter p [] h = tt
    InOrder-filter p (x ∷ xs) h = ground (arith, InOrder-filter p xs h.1, All-filter (R x) p xs h.0)

    pub InOrder-append :
        (xs : List A) (x : A) → InOrder R xs → All (λ y. R y x) xs → InOrder R (xs ++ x ∷ [])
    InOrder-append [] x h k = (tt, tt)
    InOrder-append (y ∷ ys) x h k =
        (All-append (R y) ys (x ∷ []) h.0 (k.0, tt), InOrder-append ys x h.1 k.1)

    module _ (f : A → A) (keep : (x y : A) → R x y → R (f x) (f y)) where
      All-update_behind : (x : A) (ys : List A) → All (R x) ys → All (R (f x)) (map f ys)
      All-update_behind x [] h = tt
      All-update_behind x (y ∷ ys) h = (keep x y h.0, All-update_behind x ys h.1)

      pub InOrder-update : (xs : List A) → InOrder R xs → InOrder R (map f xs)
      InOrder-update [] h = tt
      InOrder-update (x ∷ xs) h = (All-update_behind x xs h.0, InOrder-update xs h.1)
