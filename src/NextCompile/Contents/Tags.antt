-- ===== src/NextCompile/Contents/Tags.antt =====
-- The paths that a tag revalidates (buildManifestISR, shared/nextcompile/manifest.go).
use next_deploy.Common.{◌≡◌, ◌↔◌, ◌⊎◌, inl, inr, refl, List, [], ◌∷◌, ◌++◌, arith, In, Bool-cases}
use next_deploy.Common.Text.{Text, text_eq, text_eq_iff}
use next_deploy.Common.Map.{Map, get, get-put}
use next_deploy.Common.Sort.{sort, In-sort_iff}
use next_deploy.NextCompile.Contents.{
  IsrRoute, ManifestIsr, paths_of, add_tag, add_tags, add_detail, add_details, sort_tags,
  build_manifest_isr,
}

get-sort_tags :
    (tag : Text) (tags : Map (List Text))
    → paths_of (get tag (sort_tags tags)) ≡ sort (paths_of (get tag tags))
unfolding get sort_tags paths_of sort
get-sort_tags tag [] = refl
get-sort_tags tag ((t, paths) ∷ tags) = elim (Bool-cases (text_eq t tag)) [
  | inl same ↦ rw same refl
  | inr other ↦ rw other (get-sort_tags tag tags)
]

In-snoc_iff : (x y : Text) (xs : List Text) → In x (xs ++ y ∷ []) ↔ (In x xs ⊎ (x ≡ y))
In-snoc_iff x y [] = ground arith
In-snoc_iff x y (z ∷ xs) = ground (arith, In-snoc_iff x y xs)

-- What a tag revalidates.
abbrev Tagged : Text → Text → Map (List Text) → Type 0
Tagged p tag tags = In p (paths_of (get tag tags))

add_tag_iff :
    (p path t tag : Text) (tags : Map (List Text))
    → Tagged p tag (add_tag path t tags) ↔ (Tagged p tag tags ⊎ ((p ≡ path) × (tag ≡ t)))
unfolding add_tag paths_of
add_tag_iff p path t tag tags = elim (Bool-cases (text_eq t tag)) [
  | inl same ↦
      let e = (text_eq_iff t tag).0 same in
      rw (get-put t tag (paths_of (get t tags) ++ path ∷ []) tags, same, e)
        (let s = In-snoc_iff p path (paths_of (get tag tags)) in
          (
            λ i. elim (s.0 i) [ inl old ↦ inl old | inr new ↦ inr (new, refl) ],
            λ h. s.1 (elim h [ inl old ↦ inl old | inr (new, _) ↦ inr new ]),
          ))
  | inr other ↦
      rw (get-put t tag (paths_of (get t tags) ++ path ∷ []) tags, other)
        (
          λ i. inl i,
          λ h. elim h [
            | inl old ↦ old
            | inr (new, same) ↦ absurd (ground (arith, same, other, text_eq_iff t tag))
          ],
        )
]

add_tags_iff :
    (p path tag : Text) (ts : List Text) (tags : Map (List Text))
    → Tagged p tag (add_tags path ts tags) ↔ (Tagged p tag tags ⊎ ((p ≡ path) × In tag ts))
unfolding add_tags
add_tags_iff p path tag [] tags = ground arith
add_tags_iff p path tag (t ∷ ts) tags =
    let ih = add_tags_iff p path tag ts (add_tag path t tags) in
    let one = add_tag_iff p path t tag tags in
    (
      λ i. elim (ih.0 i) [
        | inl before ↦ elim (one.0 before) [
          | inl old ↦ inl old
          | inr (new, same) ↦ inr (new, inl same)
        ]
        | inr (new, later) ↦ inr (new, inr later)
      ],
      λ h. ih.1 (elim h [
        | inl old ↦ inl (one.1 (inl old))
        | inr (new, inl same) ↦ inl (one.1 (inr (new, same)))
        | inr (new, inr later) ↦ inr (new, later)
      ]),
    )

-- A detail of the list that has this path and this tag.
abbrev pub Declares : List IsrRoute → Text → Text → Type 0
Declares [] p tag = ⊥
Declares (d ∷ details) p tag = ((p ≡ d.path) × In tag d.tags) ⊎ Declares details p tag

add_details_iff :
    (p tag : Text) (details : List IsrRoute) (out : ManifestIsr)
    → Tagged p tag (add_details details out).tags ↔ (Tagged p tag out.tags ⊎ Declares details p tag)
unfolding add_details add_detail
add_details_iff p tag [] out = ground arith
add_details_iff p tag (d ∷ details) out =
    let ih = add_details_iff p tag details (add_detail d out) in
    let one = add_tags_iff p d.path tag d.tags out.tags in
    (
      λ i. elim (ih.0 i) [
        | inl before ↦ elim (one.0 before) [ inl old ↦ inl old | inr new ↦ inr (inl new) ]
        | inr later ↦ inr (inr later)
      ],
      λ h. ih.1 (elim h [
        | inl old ↦ inl (one.1 (inl old))
        | inr (inl new) ↦ inl (one.1 (inr new))
        | inr (inr later) ↦ inr later
      ]),
    )

Tagged-nothing : (p tag : Text) → Tagged p tag [] → ⊥
unfolding get paths_of
Tagged-nothing p tag i = i

-- A tag of the manifest revalidates exactly the paths that are declared with it.
pub build_manifest_isr_iff :
    (details : List IsrRoute) (p tag : Text)
    → In p (paths_of (get tag (build_manifest_isr details).tags)) ↔ Declares details p tag
unfolding build_manifest_isr
build_manifest_isr_iff details p tag =
    let start : ManifestIsr = record { tags = []; intervals = [] } in
    let all = add_details_iff p tag details start in
    let found = paths_of (get tag (add_details details start).tags) in
    let sorted = In-sort_iff p found in
    rw (get-sort_tags tag (add_details details start).tags) (
      λ i. elim (all.0 (sorted.0 i)) [
        | inr there ↦ there
        | inl nothing ↦ absurd (Tagged-nothing p tag nothing)
      ],
      λ h. sorted.1 (all.1 (inr h)),
    )
