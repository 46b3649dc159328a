-- ===== src/NextCompile/Layouts/Ancestors.antt =====
-- The chain of a page against the directories above it (attachLayoutChains,
-- shared/nextcompile/scanner.go).
use next_deploy.Common.{
  ℕ, zero, suc, ◌<◌, ◌≡◌, refl, sym, ap, ◌∙◌, true, false, Option, none, some, In, inl, inr, List,
  [], ◌∷◌, ◌++◌, length, length-append, if◌then◌else◌, arith, All, append_assoc,
}
use mathlib.Core.List.{reverse, reverse-cons}
use next_deploy.Common.Text.{Text, codes, text_eq, has_prefix}
use next_deploy.Common.Map.{Map, get}
use next_deploy.Common.FilePath.{join_on, slash, path_dir, clean, split_on}
use next_deploy.Common.FilePath.Elements.{
  IsElement, path_dir_lem, dir_part-plain, join_on-ne_dot, join_on-ne_slash,
}
use next_deploy.NextCompile.Layouts.{
  is_top, fresh_layout, onto_chain, climb, layout_chain_of, chained, chain_one, chain_all,
  layouts_by_dir, attach_layout_chains,
}
use next_deploy.NextCompile.Modules.{ModuleRef, is_page}
use next_deploy.NextCompile.Paths.{is_listed}

-- The path of a directory by its elements, the deepest first.
abbrev pub path_up : List Text → Text
path_up up = join_on (slash ∷ []) (reverse up)

-- The layouts of a directory and of all above it, nearest first.
pub layouts_up : Map Text → List Text → List Text
layouts_up layouts [] = []
layouts_up layouts (part ∷ up) =
    onto_chain (get (path_up (part ∷ up)) layouts) (layouts_up layouts up)

-- All but the repetitions of a list, and of what was seen before.
pub firsts : List Text → List Text → List Text
firsts seen [] = []
firsts seen (l ∷ ls) =
    let rest = firsts seen ls in
    let more = firsts (l ∷ seen) ls in if is_listed l seen then rest else l ∷ more

join_on-snoc :
    (p : Text) (ps : List Text) (last : Text)
    → join_on (slash ∷ []) ((p ∷ ps) ++ last ∷ []) ≡ join_on (slash ∷ []) (p ∷ ps) ++ slash ∷ last
unfolding join_on
join_on-snoc p [] last = refl
join_on-snoc p (q ∷ ps) last =
    ap (λ t. p ++ slash ∷ t) (join_on-snoc q ps last)
    ∙ sym (append_assoc p (slash ∷ join_on (slash ∷ []) (q ∷ ps)) (slash ∷ last))

firsts-onto :
    (found : Option Text) (seen ls : List Text)
    → firsts seen (onto_chain found ls)
      ≡ onto_chain (fresh_layout found seen) (firsts (onto_chain (fresh_layout found seen) seen) ls)
unfolding firsts onto_chain fresh_layout
firsts-onto none seen ls = refl
firsts-onto (some l) seen ls = ground arith

All-snoc :
    (xs : List Text) (x : Text) → All IsElement xs → IsElement x → All IsElement (xs ++ x ∷ [])
All-snoc [] x h k = (k, tt)
All-snoc (y ∷ xs) x h k = (h.0, All-snoc xs x h.1 k)

All-reverse : (xs : List Text) → All IsElement xs → All IsElement (reverse xs)
All-reverse [] h = tt
All-reverse (x ∷ xs) h = rw (reverse-cons x xs) (All-snoc (reverse xs) x (All-reverse xs h.1) h.0)

path_up-cons :
    (part : Text) (up : List Text)
    → path_up (part ∷ up) ≡ join_on (slash ∷ []) (reverse up ++ part ∷ [])
path_up-cons part up = ap (join_on (slash ∷ [])) (reverse-cons part up)

is_top-join_on :
    (zs : List Text) → All IsElement zs → 0 < length zs → is_top (join_on (slash ∷ []) zs) ≡ false
unfolding is_top
is_top-join_on [] h k = elim k [ ]
is_top-join_on (p ∷ ps) h k = rw (join_on-ne_dot p ps h.0, join_on-ne_slash p ps h.0) refl

path_dir-snoc :
    (ys : List Text) (last : Text)
    → All IsElement ys
    → IsElement last
    → 0 < length ys
    → path_dir (join_on (slash ∷ []) (ys ++ last ∷ [])) ≡ join_on (slash ∷ []) ys
path_dir-snoc [] last h k l = elim l [ ]
path_dir-snoc (p ∷ ps) last h k l =
    rw (join_on-snoc p ps last) (path_dir_lem p ps last h k.no_slash)

length-reverse_up : (up : List Text) → length (reverse up) ≡ length up
length-reverse_up [] = refl
length-reverse_up (x ∷ up) =
    rw (reverse-cons x up)
      (omega (arith, length-append (reverse up) (x ∷ []), length-reverse_up up))

path_dir-path_up :
    (part q : Text) (up : List Text)
    → All IsElement (part ∷ q ∷ up)
    → path_dir (path_up (part ∷ q ∷ up)) ≡ path_up (q ∷ up)
path_dir-path_up part q up h = rw (path_up-cons part (q ∷ up)) (
    path_dir-snoc (reverse (q ∷ up)) part (All-reverse (q ∷ up) h.1) h.0
      (rw (length-reverse_up (q ∷ up)) (omega arith)))

path_dir-one : (part : Text) → IsElement part → path_dir (path_up (part ∷ [])) ≡ codes "."
unfolding path_dir clean split_on has_prefix text_eq join_on
path_dir-one part h = rw (dir_part-plain part h.no_slash) refl

is_top-path_up :
    (part : Text) (up : List Text)
    → All IsElement (part ∷ up)
    → is_top (path_up (part ∷ up)) ≡ false
is_top-path_up part up h =
    is_top-join_on (reverse (part ∷ up)) (All-reverse (part ∷ up) h)
      (rw (length-reverse_up (part ∷ up)) (omega arith))

climb_top :
    (fuel : ℕ) (layouts : Map Text) (seen : List Text) → climb fuel layouts (codes ".") seen ≡ []
unfolding climb is_top text_eq
climb_top zero layouts seen = refl
climb_top (suc fuel) layouts seen = refl

climb-layouts_up :
    (fuel : ℕ) (layouts : Map Text) (part : Text) (up seen : List Text)
    → All IsElement (part ∷ up)
    → length up < fuel
    → climb fuel layouts (path_up (part ∷ up)) seen ≡ firsts seen (layouts_up layouts (part ∷ up))
unfolding climb layouts_up firsts
climb-layouts_up zero layouts part up seen h k = elim k [ ]
climb-layouts_up (suc fuel) layouts part [] seen h k =
    let found = get (path_up (part ∷ [])) layouts in
    rw
      (
        is_top-path_up part [] h,
        path_dir-one part h.0,
        climb_top fuel layouts (onto_chain (fresh_layout found seen) seen),
      )
      (sym (firsts-onto found seen []))
climb-layouts_up (suc fuel) layouts part (q ∷ up) seen h k =
    let found = get (path_up (part ∷ q ∷ up)) layouts in
    let seen' = onto_chain (fresh_layout found seen) seen in
    rw
      (
        is_top-path_up part (q ∷ up) h,
        path_dir-path_up part q up h,
        climb-layouts_up fuel layouts q up seen' h.1 (omega arith),
      )
      (sym (firsts-onto found seen (layouts_up layouts (q ∷ up))))

length-join_on :
    (ps : List Text) → All IsElement ps → length ps < suc (length (join_on (slash ∷ []) ps))
unfolding join_on text_eq
length-join_on [] h = omega arith
length-join_on ([] ∷ ps) h = cc h.0.not_empty
length-join_on ((c ∷ p) ∷ []) h = omega arith
length-join_on ((c ∷ p) ∷ q ∷ ps) h =
    let rest = join_on (slash ∷ []) (q ∷ ps) in
    omega (arith, length-join_on (q ∷ ps) h.1, length-append p (slash ∷ rest))

layout_chain_of-layouts_up :
    (layouts : Map Text) (part : Text) (up : List Text)
    → All IsElement (part ∷ up)
    → layout_chain_of layouts (path_up (part ∷ up))
      ≡ reverse (firsts [] (layouts_up layouts (part ∷ up)))
unfolding layout_chain_of
layout_chain_of-layouts_up layouts part up h =
    let bound = length-join_on (reverse (part ∷ up)) (All-reverse (part ∷ up) h) in
    let same = length-reverse_up (part ∷ up) in
    ap reverse (
      climb-layouts_up (suc (length (path_up (part ∷ up)))) layouts part up [] h
        (omega (arith, bound, same)))

-- A page with the layouts of the directory `up` and of those above it, from the root.
abbrev pub with_layouts : Map Text → List Text → ModuleRef → ModuleRef
with_layouts layouts up r = record r { layout_chain = reverse (firsts [] (layouts_up layouts up)) }

chained-with_layouts :
    (layouts : Map Text) (part : Text) (up : List Text) (base : Text) (r : ModuleRef)
    → All IsElement (part ∷ up)
    → IsElement base
    → chained layouts (some (path_up (base ∷ part ∷ up))) r ≡ with_layouts layouts (part ∷ up) r
unfolding chained
chained-with_layouts layouts part up base r h k =
    ap (λ t. record r { layout_chain = t })
      (ap (layout_chain_of layouts) (path_dir-path_up base part up (k, h))
        ∙ layout_chain_of-layouts_up layouts part up h)

module _ (rel : Text → Option Text) where
  chain_all-In :
      (layouts : Map Text) (refs : List ModuleRef) (r : ModuleRef) (part : Text) (up : List Text)
      (base : Text)
      → All IsElement (part ∷ up)
      → IsElement base
      → is_page r.kind ≡ true
      → rel r.compiled_path ≡ some (path_up (base ∷ part ∷ up))
      → In r refs
      → In (with_layouts layouts (part ∷ up) r) (chain_all rel layouts refs)
  unfolding chain_all chain_one chained
  chain_all-In layouts [] r part up base h k page there i = elim i [ ]
  chain_all-In layouts (x ∷ refs) r part up base h k page there (inl same) =
      let paged : chain_one layouts (is_page r.kind) (rel r.compiled_path) r
          ≡ chained layouts (some (path_up (base ∷ part ∷ up))) r =
        λ i. chain_one layouts (page i) (there i) r in
      inl (
        sym (chained-with_layouts layouts part up base r h k)
        ∙ sym paged
        ∙ ap (λ (y : ModuleRef). chain_one layouts (is_page y.kind) (rel y.compiled_path) y) same)
  chain_all-In layouts (x ∷ refs) r part up base h k page there (inr i) =
      inr (chain_all-In layouts refs r part up base h k page there i)

  -- A page in plain directories gets, in the order from the root to it, exactly the layouts that the
  -- scanner found in its directory and in those above, each once.
  pub attach_layout_chains-In :
      (refs : List ModuleRef) (r : ModuleRef) (part : Text) (up : List Text) (base : Text)
      → All IsElement (part ∷ up)
      → IsElement base
      → is_page r.kind ≡ true
      → rel r.compiled_path ≡ some (path_up (base ∷ part ∷ up))
      → In r refs
      → In (with_layouts (layouts_by_dir rel refs []) (part ∷ up) r) (attach_layout_chains rel refs)
  unfolding attach_layout_chains
  attach_layout_chains-In refs r part up base h k page there i =
      chain_all-In (layouts_by_dir rel refs []) refs r part up base h k page there i
