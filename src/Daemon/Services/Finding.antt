-- ===== src/Daemon/Services/Finding.antt =====
-- Which units FindAppServices of daemon/internal/daemon/process_manager.go takes for an app's.
use next_deploy.Common.{
  ◌≡◌, ◌↔◌, inl, inr, sym, ap, true, false, List, [], ◌∷◌, ◌++◌, append_assoc, arith, In,
  Bool-cases,
}
use mathlib.Core.Path.{subst}
use mathlib.Core.List.{reverse, reverse-append}
use next_deploy.Common.Text.{Text, codes, has_prefix-append, has_suffix}
use next_deploy.Daemon.Services.{service_name, is_app_service, find_app_services}

module _ (app name f : Text) (files : List Text) where
  abbrev Found : List Text → Type 0
  Found found = In name found ↔ (In name files × (is_app_service app name ≡ true))

  Found-hit :
      (found : List Text)
      → is_app_service app f ≡ true
      → Found found
      → In name (f ∷ found) ↔ (In name (f ∷ files) × (is_app_service app name ≡ true))
  Found-hit found hit ih = (there, back)
    where
      there : In name (f ∷ found) → In name (f ∷ files) × (is_app_service app name ≡ true)
      there (inl e) = (inl e, rw e hit)
      there (inr i) = (inr (ih.0 i).0, (ih.0 i).1)

      back : In name (f ∷ files) × (is_app_service app name ≡ true) → In name (f ∷ found)
      back (inl e, fits) = inl e
      back (inr i, fits) = inr (ih.1 (i, fits))

  Found-miss :
      (found : List Text)
      → is_app_service app f ≡ false
      → Found found
      → In name found ↔ (In name (f ∷ files) × (is_app_service app name ≡ true))
  Found-miss found miss ih = (there, back)
    where
      there : In name found → In name (f ∷ files) × (is_app_service app name ≡ true)
      there i = (inr (ih.0 i).0, (ih.0 i).1)

      back : In name (f ∷ files) × (is_app_service app name ≡ true) → In name found
      back (inl e, fits) = absurd (ground (arith, ap (is_app_service app) e))
      back (inr i, fits) = ih.1 (i, fits)

-- The units found are those present whose name fits the app.
find_iff :
    (app name : Text) (files : List Text)
    → In name (find_app_services app files) ↔ (In name files × (is_app_service app name ≡ true))
unfolding find_app_services
find_iff app name [] = ((λ h. elim h [ ]), (λ h. h.0))
find_iff app name (f ∷ files) = elim (Bool-cases (is_app_service app f)) [
  | inl hit ↦
      rw hit
        (Found-hit app name f files (find_app_services app files) hit (find_iff app name files))
  | inr miss ↦
      rw miss
        (Found-miss app name f files (find_app_services app files) miss (find_iff app name files))
]

has_suffix-append : (s p : Text) → has_suffix (s ++ p) p ≡ true
unfolding has_suffix
has_suffix-append s p = rw (reverse-append s p) (has_prefix-append (reverse p) (reverse s))

abbrev stem : Text → Text
stem app = codes "nextdeploy-" ++ (app ++ codes "-")

fits_stem : (app mid : Text) → is_app_service app (stem app ++ (mid ++ codes ".service")) ≡ true
unfolding is_app_service
fits_stem app mid =
    let p = has_prefix-append (stem app) (mid ++ codes ".service") in
    let s : has_suffix (stem app ++ (mid ++ codes ".service")) (codes ".service") ≡ true =
      subst (λ t. has_suffix t (codes ".service") ≡ true)
        (append_assoc (stem app) mid (codes ".service"))
        (has_suffix-append (stem app ++ mid) (codes ".service")) in
    rw (p, s)

-- Every unit of the app that is present is found.
pub find_own :
    (app release_id : Text) (files : List Text)
    → In (service_name app release_id) files
    → In (service_name app release_id) (find_app_services app files)
unfolding service_name
find_own app release_id files i =
    let e : service_name app release_id ≡ stem app ++ (release_id ++ codes ".service") =
      ap (λ t. codes "nextdeploy-" ++ t)
        (sym (append_assoc app (codes "-") (release_id ++ codes ".service"))) in
    (find_iff app (service_name app release_id) files).1
      (i, subst (λ t. is_app_service app t ≡ true) (sym e) (fits_stem app release_id))

-- So is every unit of another app whose name goes on from this one's after a dash: stopping,
-- destroying or shipping the app takes them for its own.
pub find_overlap :
    (app more release_id : Text) (files : List Text)
    → let other = app ++ (codes "-" ++ more) in
      In (service_name other release_id) files
      → In (service_name other release_id) (find_app_services app files)
unfolding service_name
find_overlap app more release_id files i =
    let other = app ++ (codes "-" ++ more) in
    let tail = codes "-" ++ (release_id ++ codes ".service") in
    let regroup : other ++ tail
        ≡ (app ++ codes "-") ++ ((more ++ (codes "-" ++ release_id)) ++ codes ".service") =
      simp append_assoc in
    let e : service_name other release_id
        ≡ stem app ++ ((more ++ (codes "-" ++ release_id)) ++ codes ".service") =
      ap (λ t. codes "nextdeploy-" ++ t) regroup in
    (find_iff app (service_name other release_id) files).1 (
      i,
      subst (λ t. is_app_service app t ≡ true) (sym e)
          (fits_stem app (more ++ (codes "-" ++ release_id))),
    )
