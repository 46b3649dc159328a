-- ===== src/Common/Sort.antt =====
-- sort.Strings: the sorted arrangement of a list of strings, which is unique, here by insertion.
use next_deploy.Common.Text.{Text, text_le, text_le_total, text_le_trans}
use mathlib.Core.Path.{◌≡◌, refl}
use mathlib.Core.Bool.{true}
use mathlib.Core.Logic.{◌↔◌, ◌⊎◌, inl, inr}
use mathlib.Core.List.{List, [], ◌∷◌, Perm}
use mathlib.Core.List.Perm
use native.Mathlib.Omega.{arith}
use next_deploy.Common.Tests.{if◌then◌else◌, Bool-cases}
use next_deploy.Common.Lists.{length, All, In}

unfoldable pub insert : Text → List Text → List Text
insert x [] = x ∷ []
insert x (y ∷ ys) = let rest = insert x ys in if text_le x y then x ∷ y ∷ ys else y ∷ rest

unfoldable pub sort : List Text → List Text
unfolding insert
sort [] = []
sort (x ∷ xs) = insert x (sort xs)

abbrev pub IsSorted : List Text → Type 0
IsSorted [] = Unit
IsSorted (x ∷ xs) = All (λ y. text_le x y ≡ true) xs × IsSorted xs

insert-perm : (x : Text) (ys : List Text) → Perm (insert x ys) (x ∷ ys)
unfolding insert
insert-perm x [] = Perm.refl (x ∷ [])
insert-perm x (y ∷ ys) = elim (Bool-cases (text_le x y)) [
  | inl le ↦ rw le (Perm.refl (x ∷ y ∷ ys))
  | inr gt ↦ rw gt (Perm.trans (Perm.cons y (insert-perm x ys)) (Perm.swap x y ys))
]

pub sort-perm : (xs : List Text) → Perm (sort xs) xs
unfolding sort
sort-perm [] = Perm.refl []
sort-perm (x ∷ xs) = Perm.trans (insert-perm x (sort xs)) (Perm.cons x (sort-perm xs))

length-insert : (x : Text) (ys : List Text) → length (insert x ys) ≡ length (x ∷ ys)
unfolding insert
length-insert x [] = refl
length-insert x (y ∷ ys) = ground (arith, length-insert x ys)

pub length-sort : (xs : List Text) → length (sort xs) ≡ length xs
unfolding sort
length-sort [] = refl
length-sort (x ∷ xs) = omega (arith, length-insert x (sort xs), length-sort xs)

All-le_trans :
    (x y : Text) (ys : List Text)
    → text_le x y ≡ true
    → All (λ z. text_le y z ≡ true) ys
    → All (λ z. text_le x z ≡ true) ys
All-le_trans x y [] h a = tt
All-le_trans x y (z ∷ zs) h a = (text_le_trans x y z h a.0, All-le_trans x y zs h a.1)

All-insert :
    (z x : Text) (ys : List Text)
    → text_le z x ≡ true
    → All (λ y. text_le z y ≡ true) ys
    → All (λ y. text_le z y ≡ true) (insert x ys)
unfolding insert
All-insert z x [] h a = (h, tt)
All-insert z x (y ∷ ys) h a = elim (Bool-cases (text_le x y)) [
  | inl le ↦ rw le (h, a)
  | inr gt ↦ rw gt (a.0, All-insert z x ys h a.1)
]

pub insert-IsSorted : (x : Text) (ys : List Text) → IsSorted ys → IsSorted (insert x ys)
unfolding insert
insert-IsSorted x [] s = (tt, tt)
insert-IsSorted x (y ∷ ys) s = elim (Bool-cases (text_le x y)) [
  | inl le ↦ rw le ((le, All-le_trans x y ys le s.0), s)
  | inr gt ↦ rw gt (All-insert y x ys (text_le_total x y gt) s.0, insert-IsSorted x ys s.1)
]

pub sort-IsSorted : (xs : List Text) → IsSorted (sort xs)
unfolding sort
sort-IsSorted [] = tt
sort-IsSorted (x ∷ xs) = insert-IsSorted x (sort xs) (sort-IsSorted xs)

In-insert_iff : (a x : Text) (ys : List Text) → In a (insert x ys) ↔ ((a ≡ x) ⊎ In a ys)
unfolding insert
In-insert_iff a x [] = ground arith
In-insert_iff a x (y ∷ ys) = ground (arith, In-insert_iff a x ys)

pub In-sort_iff : (a : Text) (xs : List Text) → In a (sort xs) ↔ In a xs
unfolding sort
In-sort_iff a [] = ground arith
In-sort_iff a (x ∷ xs) = ground (arith, In-sort_iff a xs, In-insert_iff a x (sort xs))
