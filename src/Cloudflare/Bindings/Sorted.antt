-- ===== src/Cloudflare/Bindings/Sorted.antt =====
-- The sort of sortedKeys (cli/internal/serverless/cloudflare_bindings.go), which swaps each key down to
-- its place, against sort.Strings.
use next_deploy.Common.{
  ◌≡◌, refl, sym, ap, ◌∙◌, inl, inr, true, false, List, [], ◌∷◌, ◌++◌, arith, All, Bool-cases,
}
use mathlib.Core.Path.{subst}
use mathlib.Core.List.{reverse, reverse-cons}
use next_deploy.Common.Text.{Text, text_le, text_le_total, text_le_trans}
use next_deploy.Common.Map.{Map}
use next_deploy.Common.Sort.{insert, sort, IsSorted, insert-IsSorted}
use next_deploy.Daemon.EnvFile.{keys}
use next_deploy.Cloudflare.Bindings.{sift, sift_all, sorted_keys}

text_le_antisym : (a b : Text) → text_le a b ≡ true → text_le b a ≡ true → a ≡ b
unfolding text_le
text_le_antisym [] [] h k = refl
text_le_antisym [] (y ∷ ys) h k = ground (arith, k)
text_le_antisym (x ∷ xs) [] h k = ground (arith, h)
text_le_antisym (x ∷ xs) (y ∷ ys) h k = ground (arith, h, k, text_le_antisym xs ys)

insert_nil : (x : Text) → x ∷ [] ≡ insert x []
unfolding insert
insert_nil x = refl

insert_comm : (x y : Text) (zs : List Text) → insert x (insert y zs) ≡ insert y (insert x zs)
unfolding insert
insert_comm x y [] = ground (arith, text_le_total x y, text_le_antisym x y)
insert_comm x y (z ∷ zs) = ground (
  arith,
  insert_comm x y zs,
  text_le_total x y,
  text_le_antisym x y,
  text_le_trans x y z,
  text_le_trans y x z,
  text_le_total x z,
  text_le_total y z,
)

insert-snoc_gt :
    (x y : Text) (zs : List Text)
    → text_le y x ≡ false
    → insert x (zs ++ y ∷ []) ≡ insert x zs ++ y ∷ []
unfolding insert
insert-snoc_gt x y [] h = ground (arith, h, text_le_total y x)
insert-snoc_gt x y (z ∷ zs) h = ground (arith, insert-snoc_gt x y zs h)

insert_first : (x : Text) (ws : List Text) → All (λ w. text_le x w ≡ true) ws → insert x ws ≡ x ∷ ws
unfolding insert
insert_first x [] h = refl
insert_first x (w ∷ ws) h = rw h.0 refl

insert_last :
    (x : Text) (ws : List Text)
    → All (λ w. text_le w x ≡ true) ws
    → IsSorted ws
    → insert x ws ≡ ws ++ x ∷ []
unfolding insert
insert_last x [] h s = refl
insert_last x (w ∷ ws) h s =
    let ih = insert_last x ws h.1 s.1 in
    elim (Bool-cases (text_le x w)) [
      | inr gt ↦ rw gt (ap (λ t. w ∷ t) ih)
      | inl le ↦
          let same : x ≡ w = text_le_antisym x w le h.0 in
          rw le (
            ap (λ t. t ∷ w ∷ ws) same
            ∙ ap (λ t. w ∷ t) (sym (insert_first w ws s.0) ∙ ap (λ t. insert t ws) (sym same) ∙ ih))
    ]

All-front : (P : Text → Type 0) (zs : List Text) (y : Text) → All P (zs ++ y ∷ []) → All P zs × P y
All-front P [] y h = (tt, h.0)
All-front P (z ∷ zs) y h = let (front, last) = All-front P zs y h.1 in ((h.0, front), last)

IsSorted-front : (zs : List Text) (y : Text) → IsSorted (zs ++ y ∷ []) → IsSorted zs
IsSorted-front [] y s = tt
IsSorted-front (z ∷ zs) y s =
    ((All-front (λ w. text_le z w ≡ true) zs y s.0).0, IsSorted-front zs y s.1)

sorted_below :
    (x y : Text) (zs : List Text)
    → text_le y x ≡ true
    → IsSorted (zs ++ y ∷ [])
    → All (λ w. text_le w x ≡ true) (zs ++ y ∷ [])
sorted_below x y [] h s = (h, tt)
sorted_below x y (z ∷ zs) h s = (
  text_le_trans z y x (All-front (λ w. text_le z w ≡ true) zs y s.0).1 h,
  sorted_below x y zs h s.1,
)

reverse-sift :
    (x : Text) (down : List Text)
    → IsSorted (reverse down)
    → reverse (sift x down) ≡ insert x (reverse down)
unfolding sift
reverse-sift x [] s = insert_nil x
reverse-sift x (y ∷ ys) s =
    let sorted : IsSorted (reverse ys ++ y ∷ []) = subst IsSorted (reverse-cons y ys) s in
    elim (Bool-cases (text_le y x)) [
      | inl le ↦ rw le (
          reverse-cons x (y ∷ ys)
          ∙ ap (λ t. t ++ x ∷ []) (reverse-cons y ys)
          ∙ sym (
              insert_last x (reverse ys ++ y ∷ []) (sorted_below x y (reverse ys) le sorted) sorted)
          ∙ ap (insert x) (sym (reverse-cons y ys)))
      | inr gt ↦ rw gt (
          reverse-cons y (sift x ys)
          ∙ ap (λ t. t ++ y ∷ []) (reverse-sift x ys (IsSorted-front (reverse ys) y sorted))
          ∙ sym (insert-snoc_gt x y (reverse ys) gt)
          ∙ ap (insert x) (sym (reverse-cons y ys)))
    ]

insert_all : List Text → List Text → List Text
insert_all [] zs = zs
insert_all (x ∷ xs) zs = insert_all xs (insert x zs)

insert_all-insert :
    (x : Text) (xs zs : List Text) → insert_all xs (insert x zs) ≡ insert x (insert_all xs zs)
unfolding insert_all
insert_all-insert x [] zs = refl
insert_all-insert x (y ∷ xs) zs =
    ap (insert_all xs) (insert_comm y x zs) ∙ insert_all-insert x xs (insert y zs)

insert_all-sort : (xs : List Text) → insert_all xs [] ≡ sort xs
unfolding insert_all sort
insert_all-sort [] = refl
insert_all-sort (x ∷ xs) = insert_all-insert x xs [] ∙ ap (insert x) (insert_all-sort xs)

reverse-sift_all :
    (xs down : List Text)
    → IsSorted (reverse down)
    → reverse (sift_all xs down) ≡ insert_all xs (reverse down)
unfolding sift_all insert_all
reverse-sift_all [] down s = refl
reverse-sift_all (x ∷ xs) down s =
    let step = reverse-sift x down s in
    let sorted : IsSorted (reverse (sift x down)) =
      subst IsSorted (sym step) (insert-IsSorted x (reverse down) s) in
    reverse-sift_all xs (sift x down) sorted ∙ ap (insert_all xs) step

-- The insertion sort of sortedKeys gives what sort.Strings gives.
pub sorted_keys-sort : (m : Map Text) → sorted_keys m ≡ sort (keys m)
unfolding sorted_keys
sorted_keys-sort m = reverse-sift_all (keys m) [] tt ∙ insert_all-sort (keys m)
