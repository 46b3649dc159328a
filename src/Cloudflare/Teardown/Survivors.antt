-- ===== src/Cloudflare/Teardown/Survivors.antt =====
-- The records that a teardown keeps (teardownProvisionedResources,
-- cli/internal/serverless/cloudflare_teardown.go).
use next_deploy.Common.{
  ◌≡◌, ◌≢◌, ◌↔◌, refl, ap, ◌∙◌, Bool, true, false, Option, sym, none, some, List, [], ◌∷◌, ◌++◌, In,
  inl, inr, ◌⊎◌, arith, Bool-cases,
}
use next_deploy.Common.Text.{Text, text_eq, text_eq_iff}
use next_deploy.Common.Map.{get, get-put}
use next_deploy.Manifest.{Resource, Manifest, set, key, new, list}
use next_deploy.Cloudflare.Api.{Api, ApiError, not_found, other_error}
use next_deploy.Cloudflare.Teardown.{
  Torn, is_failure, keep_failed, delete_provisioned_resource, teardown_records, teardown_manifest,
}

-- The answers to the deletions of resources, one after another.
pub answered :
    {World : Type 0} → Api World → List Resource → World → List (Resource × Option ApiError)
answered api [] w = []
answered api (r ∷ rs) w =
    let (answer, w') = delete_provisioned_resource api r.kind r.id w in
    (r, answer) ∷ answered api rs w'

-- The deletion of a resource has failed otherwise than for its absence.
abbrev pub HasFailed : List (Resource × Option ApiError) → Resource → Type 0
HasFailed log r = In (r, some other_error) log

-- The names are those of the survivors and of the resources that are to be kept, and a survivor is
-- one of these resources, under its key.
unfoldable pub IsAccounted : {World : Type 0} → (Resource → Type 0) → Torn World → Type 0
IsAccounted kept t =
    (j : Text)
    → (In j t.failed ↔ (get j t.survivors.resources ≢ none))
      × ((r : Resource) → get j t.survivors.resources ≡ some r → kept r × (key r.kind r.name ≡ j))
      × ((r : Resource) → kept r → key r.kind r.name ≡ j → In j t.failed)

In-append_one_iff : (x y : Text) (xs : List Text) → In x (xs ++ y ∷ []) ↔ (In x xs ⊎ (x ≡ y))
In-append_one_iff x y [] = ground arith
In-append_one_iff x y (z ∷ xs) = ground (arith, In-append_one_iff x y xs)

keep_failed-IsAccounted :
    {World : Type 0} (kept : Resource → Type 0) (r : Resource) (t : Torn World)
    → IsAccounted kept t
    → IsAccounted (λ q. kept q ⊎ (q ≡ r)) (keep_failed r t)
unfolding IsAccounted keep_failed set
keep_failed-IsAccounted kept r t h j =
    let k = key r.kind r.name in
    let names = In-append_one_iff j k t.failed in
    let put_there = get-put k j r t.survivors.resources in
    let equal = text_eq_iff k j in
    let named : (q : Resource)
        → (kept q ⊎ (q ≡ r))
        → key q.kind q.name ≡ j
        → In j (t.failed ++ k ∷ []) =
      λ q is e. elim is [
        | inl old ↦ names.1 (inl ((h j).2 q old e))
        | inr same ↦ names.1 (inr (sym (ap (λ (x : Resource). key x.kind x.name) (sym same) ∙ e)))
      ] in
    elim (Bool-cases (text_eq k j)) [
      | inl same ↦
          let here : k ≡ j = equal.0 same in
          rw (put_there, same)
            (
              (λ x e. ground arith, λ x. names.1 (inr (sym here))),
              λ q e.
                  let own : r ≡ q = ground (arith, e) in
                  (inr (sym own), ap (λ (x : Resource). key x.kind x.name) (sym own) ∙ here),
              named,
            )
      | inr other ↦
          let apart : j ≢ k = λ e. ground (arith, other, equal, sym e) in
          rw (put_there, other)
            (
              (
                λ x.
                    (h j).0.0 (elim (names.0 x) [ inl old ↦ old | inr new ↦ elim (apart new) [ ] ]),
                λ x. names.1 (inl ((h j).0.1 x)),
              ),
              λ q e. let (is, at) = (h j).1 q e in (inl is, at),
              named,
            )
    ]

-- What is to be kept may be said in other words.
IsAccounted-iff :
    {World : Type 0} (kept kept' : Resource → Type 0) (t : Torn World)
    → ((r : Resource) → kept r ↔ kept' r)
    → IsAccounted kept t
    → IsAccounted kept' t
unfolding IsAccounted
IsAccounted-iff kept kept' t same h j = (
  (h j).0,
  λ r e. let (is, at) = (h j).1 r e in ((same r).0 is, at),
  λ r is e. (h j).2 r ((same r).1 is) e,
)

abbrev failure_of : Resource → Resource × Option ApiError
failure_of x = (x, some other_error)

-- An answer is a failure exactly if it is an error other than that of an absent resource.
failed_iff :
    (answer : Option ApiError) (r q : Resource)
    → (◌≡◌ {A = Resource × Option ApiError} (q, some other_error) (r, answer))
      ↔ ((q ≡ r) × (is_failure answer ≡ true))
unfolding is_failure
failed_iff none r q = (
  λ e. absurd (ground (arith, ap (λ (p : Resource × Option ApiError). p.1) e)),
  λ h. absurd (ground (arith, h.1)),
)
failed_iff (some not_found) r q = (
  λ e. absurd (ground (arith, ap (λ (p : Resource × Option ApiError). p.1) e)),
  λ h. absurd (ground (arith, h.1)),
)
failed_iff (some other_error) r q =
    (λ e. (ap (λ (p : Resource × Option ApiError). p.0) e, refl), λ h. ap (failure_of) h.0)

kept_more :
    {K Q E F : Type 0} {b : Bool} → E ↔ (Q × (b ≡ true)) → b ≡ true → ((K ⊎ Q) ⊎ F) ↔ (K ⊎ (E ⊎ F))
kept_more same h = (
  λ x. elim x [
    | inl (inl k) ↦ inl k
    | inl (inr q) ↦ inr (inl (same.1 (q, h)))
    | inr f ↦ inr (inr f)
  ],
  λ x. elim x [ inl k ↦ inl (inl k) | inr (inl e) ↦ inl (inr (same.0 e).0) | inr (inr f) ↦ inr f ],
)

kept_same :
    {K Q E F : Type 0} {b : Bool} → E ↔ (Q × (b ≡ true)) → b ≡ false → (K ⊎ F) ↔ (K ⊎ (E ⊎ F))
kept_same same h = (
  λ x. elim x [ inl k ↦ inl k | inr f ↦ inr (inr f) ],
  λ x. elim x [
    | inl k ↦ inl k
    | inr (inl e) ↦ absurd (ground (arith, (same.0 e).1, h))
    | inr (inr f) ↦ inr f
  ],
)

teardown_records-IsAccounted :
    {World : Type 0} (api : Api World) (kept : Resource → Type 0) (rs : List Resource)
    (t : Torn World)
    → IsAccounted kept t
    → IsAccounted
        (λ q. kept q ⊎ HasFailed (answered api rs t.account) q)
        (teardown_records api rs t)
unfolding teardown_records answered delete_provisioned_resource keep_failed
teardown_records-IsAccounted api kept [] t h =
    IsAccounted-iff kept _ t (λ r. (λ x. inl x, λ x. elim x [ inl is ↦ is | inr i ↦ elim i [ ] ])) h
teardown_records-IsAccounted api kept (r ∷ rs) t h =
    let answer = delete_provisioned_resource api r.kind r.id t.account in
    let t' = record t { account = answer.1 } in
    let log = answered api rs answer.1 in
    let h' : IsAccounted kept t' = unfold IsAccounted in λ j. h j in
    elim (Bool-cases (is_failure answer.0)) [
      | inl bad ↦
          rw (bad, teardown_records)
            (IsAccounted-iff _ _ _ (λ q. kept_more (failed_iff answer.0 r q) bad)
              (teardown_records-IsAccounted api _ rs (keep_failed r t')
                (keep_failed-IsAccounted kept r t' h')))
      | inr good ↦
          rw (good, teardown_records)
            (IsAccounted-iff _ _ _ (λ q. kept_same (failed_iff answer.0 r q) good)
              (teardown_records-IsAccounted api kept rs t' h'))
    ]

-- After a teardown of a manifest the names reported as failed are exactly those of the records that it
-- keeps. Each record kept is one of the manifest's whose deletion failed otherwise than for its
-- absence, unchanged and under its own name, and the name of each such record is reported.
pub teardown_manifest-IsAccounted :
    {World : Type 0} (api : Api World) (w : World) (m : Manifest)
    → IsAccounted (HasFailed (answered api (list m) w)) (teardown_manifest api w m)
unfolding teardown_manifest new IsAccounted get
teardown_manifest-IsAccounted api w m =
    let start : Torn _ = record { failed = []; survivors = new; account = w } in
    IsAccounted-iff _ _ (teardown_records api (list m) start)
      (λ r. (λ x. elim x [ inl none_kept ↦ elim none_kept [ ] | inr i ↦ i ], λ i. inr i))
      (teardown_records-IsAccounted api (λ r. ⊥) (list m) start
        (λ j. (
          (λ x. elim x [ ], λ n. elim (n refl) [ ]),
          λ r e. ground arith,
          λ r none_kept e. elim none_kept [ ],
        )))
