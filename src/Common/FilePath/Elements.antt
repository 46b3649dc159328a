-- ===== src/Common/FilePath/Elements.antt =====
-- Paths made of plain elements: neither empty nor `.` nor `..`, and without a slash.
use next_deploy.Common.Text.{Text, codes, text_eq, has_prefix, has_suffix, has_prefix-append}
use Prim.Native.Nat.{ℕ, ◌+◌, ◌-◌}
use mathlib.Core.Path.{◌≡◌, refl, sym, ap, ◌∙◌}
use mathlib.Core.Bool.{Bool, false, ◌||◌}
use mathlib.Core.List.{
  List, [], ◌∷◌, ◌++◌, reverse, append_assoc, append-nil, reverse-append, reverse-reverse,
  reverse-cons,
}
use native.Mathlib.Omega.{arith}
use next_deploy.Common.Tests.{◌==◌}
use next_deploy.Common.Lists.{All, length, take, drop, length-append}
use next_deploy.Common.FilePath.{
  split_on, join_on, onto_part, slash, clean_part, clean_parts, clean, is_abs, dir_part, path_dir,
  trim_prefix, trim_suffix, last_part, path_base, trim_left_of,
}

unfoldable pub has_byte : ℕ → Text → Bool
has_byte c [] = false
has_byte c (x ∷ xs) = x == c || has_byte c xs

pub record IsElement (part : Text) : Type 0 where
  pub no_slash : has_byte slash part ≡ false
  pub not_empty : text_eq part [] ≡ false
  pub not_dot : text_eq part (codes ".") ≡ false
  pub not_dots : text_eq part (codes "..") ≡ false

pub split_on-join_two :
    (c : ℕ) (a b : Text) → has_byte c a ≡ false → split_on c (a ++ c ∷ b) ≡ a ∷ split_on c b
unfolding split_on has_byte onto_part
split_on-join_two c [] b h = ground arith
split_on-join_two c (x ∷ a) b h = ground (arith, split_on-join_two c a b)

pub split_on-one : (c : ℕ) (a : Text) → has_byte c a ≡ false → split_on c a ≡ a ∷ []
unfolding split_on has_byte onto_part
split_on-one c [] h = refl
split_on-one c (x ∷ a) h = ground (arith, split_on-one c a)

-- A joined path, with or without a slash at its end, has its parts back.
pub split_on-join_on :
    (p : Text) (ps : List Text)
    → All IsElement (p ∷ ps)
    → split_on slash (join_on (slash ∷ []) (p ∷ ps)) ≡ p ∷ ps
unfolding join_on
split_on-join_on p [] h = split_on-one slash p h.0.no_slash
split_on-join_on p (q ∷ ps) h =
    split_on-join_two slash p (join_on (slash ∷ []) (q ∷ ps)) h.0.no_slash
    ∙ ap (λ t. p ∷ t) (split_on-join_on q ps h.1)

pub split_on-closed :
    (p : Text) (ps : List Text)
    → All IsElement (p ∷ ps)
    → split_on slash (join_on (slash ∷ []) (p ∷ ps) ++ slash ∷ []) ≡ p ∷ (ps ++ [] ∷ [])
unfolding join_on split_on
split_on-closed p [] h = split_on-join_two slash p [] h.0.no_slash
split_on-closed p (q ∷ ps) h =
    let rest = join_on (slash ∷ []) (q ∷ ps) in
    rw (append_assoc p (slash ∷ rest) (slash ∷ [])) (
      split_on-join_two slash p (rest ++ slash ∷ []) h.0.no_slash
      ∙ ap (λ t. p ∷ t) (split_on-closed q ps h.1))

clean_part-pushes :
    (rooted : Bool) (part : Text) (stack : List Text)
    → IsElement part
    → clean_part rooted part stack ≡ part ∷ stack
unfolding clean_part
clean_part-pushes rooted part [] h = rw (h.not_empty, h.not_dot, h.not_dots) refl
clean_part-pushes rooted part (top ∷ stack) h = rw (h.not_empty, h.not_dot, h.not_dots) refl

reverse_onto :
    (x : Text) (xs stack : List Text) → reverse (x ∷ xs) ++ stack ≡ reverse xs ++ x ∷ stack
reverse_onto x xs stack =
    ap (λ t. t ++ stack) (reverse-append (x ∷ []) xs) ∙ append_assoc (reverse xs) (x ∷ []) stack

pub clean_parts-pushes :
    (rooted : Bool) (parts more stack : List Text)
    → All IsElement parts
    → clean_parts rooted (parts ++ more) stack ≡ clean_parts rooted more (reverse parts ++ stack)
unfolding clean_parts
clean_parts-pushes rooted [] more stack h = refl
clean_parts-pushes rooted (part ∷ parts) more stack h =
    ap (clean_parts rooted (parts ++ more)) (clean_part-pushes rooted part stack h.0)
    ∙ clean_parts-pushes rooted parts more (part ∷ stack) h.1
    ∙ ap (clean_parts rooted more) (sym (reverse_onto part parts stack))

is_abs-join_on :
    (p : Text) (ps : List Text) (more : Text)
    → IsElement p
    → is_abs (join_on (slash ∷ []) (p ∷ ps) ++ more) ≡ false
unfolding is_abs has_prefix join_on has_byte text_eq
is_abs-join_on [] ps more h = cc h.not_empty
is_abs-join_on (c ∷ p) [] more h = let e = h.no_slash in ground (arith, e)
is_abs-join_on (c ∷ p) (q ∷ ps) more h = let e = h.no_slash in ground (arith, e)

clean_parts-last : (stack : List Text) → clean_parts false ([] ∷ []) stack ≡ stack
unfolding clean_parts text_eq
clean_parts-last [] = refl
clean_parts-last (top ∷ stack) = refl

-- Clean takes the slash off the end of such a path.
pub clean_closed :
    (p : Text) (ps : List Text)
    → All IsElement (p ∷ ps)
    → clean (join_on (slash ∷ []) (p ∷ ps) ++ slash ∷ []) ≡ join_on (slash ∷ []) (p ∷ ps)
unfolding clean
clean_closed p ps h =
    let whole = p ∷ ps in
    let pushed = clean_parts-pushes false whole ([] ∷ []) [] h in
    rw
      (
        is_abs-join_on p ps (slash ∷ []) h.0,
        split_on-closed p ps h,
        pushed,
        append-nil (reverse whole),
        clean_parts-last (reverse whole),
        reverse-reverse whole,
      )
      refl

pub dir_part-plain : (base : Text) → has_byte slash base ≡ false → dir_part base ≡ []
unfolding dir_part has_byte text_eq
dir_part-plain [] h = refl
dir_part-plain (c ∷ base) h = ground (arith, dir_part-plain base)

text_eq_snoc : (s : Text) → text_eq (s ++ slash ∷ []) [] ≡ false
unfolding text_eq
text_eq_snoc [] = refl
text_eq_snoc (c ∷ s) = refl

-- A path that ends in a name without a slash.
pub dir_part_lem :
    (s base : Text) → has_byte slash base ≡ false → dir_part (s ++ slash ∷ base) ≡ s ++ slash ∷ []
unfolding dir_part has_byte text_eq
dir_part_lem [] base h = rw (dir_part-plain base h) refl
dir_part_lem (c ∷ s) base h = rw (dir_part_lem s base h) (ground (arith, text_eq_snoc s))

pub path_dir_lem :
    (p : Text) (ps : List Text) (base : Text)
    → All IsElement (p ∷ ps)
    → has_byte slash base ≡ false
    → path_dir (join_on (slash ∷ []) (p ∷ ps) ++ slash ∷ base) ≡ join_on (slash ∷ []) (p ∷ ps)
unfolding path_dir
path_dir_lem p ps base h k =
    ap clean (dir_part_lem (join_on (slash ∷ []) (p ∷ ps)) base k) ∙ clean_closed p ps h

take_all : (a b : Text) → take (length a) (a ++ b) ≡ a
take_all [] b = refl
take_all (x ∷ a) b = ap (λ t. x ∷ t) (take_all a b)

drop-length_append : (a b : Text) → drop (length a) (a ++ b) ≡ b
drop-length_append [] b = refl
drop-length_append (x ∷ a) b = drop-length_append a b

pub take-length_append : (a b : Text) → take (length (a ++ b) - length b) (a ++ b) ≡ a
take-length_append a b =
    rw (length-append a b)
      (let e : length a + length b - length b ≡ length a = omega arith in rw e (take_all a b))

pub trim_suffix-append : (a b : Text) → trim_suffix (a ++ b) b ≡ a
unfolding trim_suffix has_suffix
trim_suffix-append a b =
    rw (reverse-append a b, has_prefix-append (reverse b) (reverse a)) (take-length_append a b)

pub trim_prefix-append : (a b : Text) → trim_prefix (a ++ b) a ≡ b
unfolding trim_prefix
trim_prefix-append a b = rw (has_prefix-append a b) (drop-length_append a b)

not_empty_mid : (s base : Text) → text_eq (s ++ slash ∷ base) [] ≡ false
unfolding text_eq
not_empty_mid [] base = refl
not_empty_mid (c ∷ s) base = refl

whole_kept :
    (s base : Text)
    → ((t : Text) → trim_left_of slash (reverse base ++ t) ≡ reverse base ++ t)
    → trim_left_of slash (reverse (s ++ slash ∷ base)) ≡ reverse (s ++ slash ∷ base)
whole_kept s base k =
    let e : reverse (s ++ slash ∷ base) ≡ reverse base ++ (slash ∷ [] ++ reverse s) =
      reverse-append s (slash ∷ base)
      ∙ ap (λ t. t ++ reverse s) (reverse-cons slash base)
      ∙ append_assoc (reverse base) (slash ∷ []) (reverse s) in
    rw e (k (slash ∷ [] ++ reverse s))

last_part_lem : (s base : Text) → has_byte slash base ≡ false → last_part (s ++ slash ∷ base) ≡ base
unfolding last_part
last_part_lem s base h =
    rw (not_empty_mid s base, dir_part_lem s base h)
      (rw (sym (append_assoc s (slash ∷ []) base)) (drop-length_append (s ++ slash ∷ []) base))

-- The name at the end of a path, for a name that Base takes no slash off.
pub path_base_lem :
    (s base : Text)
    → has_byte slash base ≡ false
    → ((t : Text) → trim_left_of slash (reverse base ++ t) ≡ reverse base ++ t)
    → path_base (s ++ slash ∷ base) ≡ base
unfolding path_base
path_base_lem s base h k =
    let whole = s ++ slash ∷ base in
    rw (not_empty_mid s base, whole_kept s base k, reverse-reverse whole) (last_part_lem s base h)

pub join_on-ne_dot :
    (p : Text) (ps : List Text)
    → IsElement p
    → text_eq (join_on (slash ∷ []) (p ∷ ps)) (codes ".") ≡ false
unfolding join_on text_eq
join_on-ne_dot p [] h = h.not_dot
join_on-ne_dot [] (q ∷ ps) h = cc h.not_empty
join_on-ne_dot (c ∷ []) (q ∷ ps) h = ground arith
join_on-ne_dot (c ∷ d ∷ p) (q ∷ ps) h = ground arith

pub join_on-ne_slash :
    (p : Text) (ps : List Text)
    → IsElement p
    → text_eq (join_on (slash ∷ []) (p ∷ ps)) (slash ∷ []) ≡ false
unfolding join_on text_eq has_byte
join_on-ne_slash [] ps h = cc h.not_empty
join_on-ne_slash (c ∷ p) [] h = let e = h.no_slash in ground (arith, e)
join_on-ne_slash (c ∷ p) (q ∷ ps) h = let e = h.no_slash in ground (arith, e)
