-- ===== src/Cloudflare/Bindings/Distinct.antt =====
-- The names and the secrets of a script (buildScriptMetadata,
-- cli/internal/serverless/cloudflare_bindings.go).
use next_deploy.Common.{
  ◌≡◌, ◌≢◌, ◌↔◌, ◌⊎◌, inl, inr, refl, sym, true, false, Option, some, List, [], ◌∷◌, ◌++◌, arith,
  In, Bool-cases,
}
use mathlib.Core.Path.{subst}
use mathlib.Core.List.{reverse, reverse-cons}
use next_deploy.Common.Text.{Text, text_eq, text_eq_iff}
use next_deploy.Common.Map.{Map, get}
use next_deploy.Daemon.EnvFile.{keys}
use next_deploy.Cloudflare.Bindings.{
  Binding, secret_text, binding_name, Built, ok, err, and_then, CloudflareDecl, ScriptMetadata,
  build_bindings, bindings_of, checked, is_bound, has_duplicate, sift, sift_all, sorted_keys,
  secret_bindings, build_script_metadata,
}

names : List Binding → List Text
names [] = []
names (b ∷ bs) = binding_name b ∷ names bs

-- No name but the empty one stands twice.
pub IsDistinct : List Binding → Type 0
IsDistinct [] = Unit
IsDistinct (b ∷ bs) = ((binding_name b ≡ []) ⊎ ¬ In (binding_name b) (names bs)) × IsDistinct bs

is_bound_iff : (n : Text) (xs : List Text) → (is_bound n xs ≡ true) ↔ In n xs
unfolding is_bound
is_bound_iff n [] = ground arith
is_bound_iff n (x ∷ xs) = ground (arith, is_bound_iff n xs, text_eq_iff x n)

not_again :
    (n : Text) (seen : List Text) (bs : List Binding)
    → has_duplicate seen bs ≡ false
    → n ≢ []
    → In n seen
    → ¬ In n (names bs)
unfolding has_duplicate names
not_again n seen [] h blank i = λ k. k
not_again n seen (b ∷ bs) h blank i = ground (
  arith,
  h,
  i,
  text_eq_iff (binding_name b) [],
  is_bound_iff (binding_name b) seen,
  not_again n seen bs,
  not_again n (binding_name b ∷ seen) bs,
)

distinct : (seen : List Text) (bs : List Binding) → has_duplicate seen bs ≡ false → IsDistinct bs
unfolding has_duplicate IsDistinct
distinct seen [] h = tt
distinct seen (b ∷ bs) h = elim (Bool-cases (text_eq (binding_name b) [])) [
  | inl blank ↦
      (inl ((text_eq_iff (binding_name b) []).0 blank), distinct seen bs (ground (arith, h, blank)))
  | inr named ↦
      let rest : has_duplicate (binding_name b ∷ seen) bs ≡ false = ground (arith, h, named) in
      let name : binding_name b ≢ [] = ground (arith, named, text_eq_iff (binding_name b) []) in
      (
        inr (not_again (binding_name b) (binding_name b ∷ seen) bs rest name (inl refl)),
        distinct (binding_name b ∷ seen) bs rest,
      )
]

In-sift_iff : (a x : Text) (ys : List Text) → In a (sift x ys) ↔ ((a ≡ x) ⊎ In a ys)
unfolding sift
In-sift_iff a x [] = ground arith
In-sift_iff a x (y ∷ ys) = ground (arith, In-sift_iff a x ys)

In-sift_all :
    (a : Text) (xs sorted : List Text) → (In a xs ⊎ In a sorted) → In a (sift_all xs sorted)
unfolding sift_all
In-sift_all a [] sorted h = ground (arith, h)
In-sift_all a (x ∷ xs) sorted h =
    ground (arith, h, In-sift_all a xs (sift x sorted), In-sift_iff a x sorted)

In-append_iff : {A : Type 0} (p : A) (xs ys : List A) → In p (xs ++ ys) ↔ (In p xs ⊎ In p ys)
In-append_iff p [] ys = ground arith
In-append_iff p (x ∷ xs) ys = ground (arith, In-append_iff p xs ys)

In-reverse : (a : Text) (xs : List Text) → In a xs → In a (reverse xs)
In-reverse a (x ∷ xs) i = rw (reverse-cons x xs) (
    (In-append_iff a (reverse xs) (x ∷ [])).1
      (elim i [ inl same ↦ inr (inl same) | inr there ↦ inl (In-reverse a xs there) ]))
In-reverse a [] i = elim i [ ]

In-keys : (k v : Text) (m : Map Text) → get k m ≡ some v → In k (keys m)
unfolding get
In-keys k v [] h = ground (arith, h)
In-keys k v ((j, w) ∷ m) h = ground (arith, h, In-keys k v m, text_eq_iff j k)

In-secret_bindings :
    (secrets : Map Text) (k v : Text) (ks : List Text)
    → get k secrets ≡ some v
    → In k ks
    → In (secret_text k v) (secret_bindings secrets ks)
unfolding secret_bindings
In-secret_bindings secrets k v (x ∷ ks) h (inl same) = inl (rw (sym same, h) refl)
In-secret_bindings secrets k v (x ∷ ks) h (inr i) = inr (In-secret_bindings secrets k v ks h i)
In-secret_bindings secrets k v [] h i = elim i [ ]

-- The metadata of an upload: names that do not collide, and all the secrets.
pub record IsComplete (secrets : Map Text) (meta : ScriptMetadata) : Type 0 where
  pub distinct_names : IsDistinct meta.bindings
  pub all_secrets : (k v : Text) → get k secrets ≡ some v → In (secret_text k v) meta.bindings

checked-IsComplete :
    (cf : Option CloudflareDecl) (entry : Text) (secrets : Map Text) (bound : List Binding)
    (meta : ScriptMetadata)
    → checked cf entry (bound ++ secret_bindings secrets (sorted_keys secrets)) ≡ ok meta
    → IsComplete secrets meta
unfolding checked sorted_keys
checked-IsComplete cf entry secrets bound meta h =
    let all = bound ++ secret_bindings secrets (sorted_keys secrets) in
    elim (Bool-cases (has_duplicate [] all)) [
      | inl twice ↦ absurd (ground (arith, h, twice))
      | inr once ↦
          let same : all ≡ meta.bindings = ground (arith, h, once) in
          record {
            distinct_names = subst IsDistinct same (distinct [] all once);
            all_secrets = λ k v there. subst (In (secret_text k v)) same (
                (In-append_iff (secret_text k v) bound
                    (secret_bindings secrets (sorted_keys secrets))).1
                  (inr (
                    In-secret_bindings secrets k v (sorted_keys secrets) there (
                      In-reverse k (sift_all (keys secrets) [])
                        (In-sift_all k (keys secrets) [] (inl (In-keys k v secrets there)))))));
          }
    ]

after_bindings :
    (cf : Option CloudflareDecl) (entry : Text) (secrets : Map Text) (meta : ScriptMetadata)
    (built : Built (List Binding))
    → and_then built
        (λ bound. checked cf entry (bound ++ secret_bindings secrets (sorted_keys secrets)))
      ≡ ok meta
    → IsComplete secrets meta
after_bindings cf entry secrets meta (ok bound) h = checked-IsComplete cf entry secrets bound meta h
after_bindings cf entry secrets meta (err e) h = absurd (ground (arith, h))

-- The metadata of an upload, where it is made, has no two bindings of one name, and a binding for each
-- of the secrets with its value: an upload replaces the bindings of the one before, and loses none.
pub build_script_metadata-IsComplete :
    (cf : Option CloudflareDecl) (default_bucket entry : Text) (resolve : Text → Text → Option Text)
    (secrets : Map Text) (meta : ScriptMetadata)
    → build_script_metadata cf default_bucket entry resolve secrets ≡ ok meta
    → IsComplete secrets meta
unfolding build_script_metadata
build_script_metadata-IsComplete cf default_bucket entry resolve secrets meta h =
    after_bindings cf entry secrets meta (build_bindings resolve default_bucket (bindings_of cf)) h
