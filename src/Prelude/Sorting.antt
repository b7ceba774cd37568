-- ===== src/Prelude/Sorting.antt =====
-- What Go's sort.Slice and sort.Strings promise, of the insertion sort that stands for them.
use Prim.Native.Nat.{suc}
use native.Mathlib.Omega.{arith}
use mathlib.Core.Path.{◌≡◌, refl}
use mathlib.Core.Logic.{inl, inr}
use mathlib.Core.Bool.{Bool, true, false}
use mathlib.Core.List.{List, [], ◌∷◌, Perm}
use mathlib.Core.List.Perm
use nats_guest_access.Prelude.Tests.{Bool-cases}
use nats_guest_access.Prelude.Lists.{insert_by, sort_by, length}

module _ {ℓ} {A : Type ℓ} (before : A → A → Bool) where
  -- No element stands after one that it must precede.
  abbrev pub InOrder : List A → Type 0
  InOrder [] = Unit
  InOrder (x ∷ []) = Unit
  InOrder (x ∷ y ∷ l) = (before y x ≡ false) × InOrder (y ∷ l)

  insert_by-perm : (x : A) (l : List A) → Perm (insert_by before x l) (x ∷ l)
  unfolding insert_by
  insert_by-perm x [] = Perm.refl (x ∷ [])
  insert_by-perm x (y ∷ ys) = elim (Bool-cases (before x y)) [
    | inl here ↦ rw here (Perm.refl (x ∷ y ∷ ys))
    | inr later ↦ rw later (Perm.trans (Perm.cons y (insert_by-perm x ys)) (Perm.swap x y ys))
  ]

  pub sort_by-perm : (l : List A) → Perm (sort_by before l) l
  unfolding sort_by
  sort_by-perm [] = Perm.refl []
  sort_by-perm (x ∷ l) =
      Perm.trans (insert_by-perm x (sort_by before l)) (Perm.cons x (sort_by-perm l))

  length-insert_by : (x : A) (l : List A) → length (insert_by before x l) ≡ suc (length l)
  unfolding insert_by
  length-insert_by x [] = refl
  length-insert_by x (y ∷ l) = elim (Bool-cases (before x y)) [
    | inl here ↦ rw here refl
    | inr later ↦ rw later (omega (arith, length-insert_by x l))
  ]

  pub length-sort_by : (l : List A) → length (sort_by before l) ≡ length l
  unfolding sort_by
  length-sort_by [] = refl
  length-sort_by (x ∷ l) = omega (arith, length-insert_by x (sort_by before l), length-sort_by l)

  module _ (asymmetric : (x y : A) → before x y ≡ true → before y x ≡ false) where
    insert_by-InOrder : (x : A) (l : List A) → InOrder l → InOrder (insert_by before x l)
    unfolding insert_by
    insert_by-InOrder x [] s = tt
    insert_by-InOrder x (y ∷ []) s = elim (Bool-cases (before x y)) [
      | inl here ↦ rw here (asymmetric x y here, tt)
      | inr later ↦ rw later (later, tt)
    ]
    insert_by-InOrder x (y ∷ z ∷ l) s = elim (Bool-cases (before x y)) [
      | inl here ↦ rw here (asymmetric x y here, s)
      | inr later ↦ rw later (elim (Bool-cases (before x z)) [
        | inl next ↦ rw next (later, (asymmetric x z next, s.1))
        | inr far ↦ rw far (s.0, rw far at (insert_by-InOrder x (z ∷ l) s.1))
      ])
    ]

    pub sort_by-InOrder : (l : List A) → InOrder (sort_by before l)
    unfolding sort_by
    sort_by-InOrder [] = tt
    sort_by-InOrder (x ∷ l) = insert_by-InOrder x (sort_by before l) (sort_by-InOrder l)
