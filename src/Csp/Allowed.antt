-- ===== src/Csp/Allowed.antt =====
-- The image hosts of the configuration in the policy (DetectFeatures and BuildCSP,
-- shared/nextcore/features.go).
use next_deploy.Common.{
  ◌≡◌, sym, ap, ◌∙◌, append-nil, append_assoc, inl, inr, refl, Bool, true, false, some, List, [],
  ◌∷◌, ◌++◌, arith, In,
}
use next_deploy.Common.Text.{Text, text_eq_iff, to_lower}
use next_deploy.Csp.{
  Images, NextConfig, DetectedFeatures, nothing_detected, well_known, detect_well_known_service,
  add_host, add_hosts, add_images, detect_features, Sources, holds, https, with_origin,
  with_origins, sources_of, policy_text, build_csp, sets_csp,
}

holds-In : (x : Text) (xs : List Text) → holds x xs ≡ true → In x xs
unfolding holds
holds-In x [] h = ground (arith, h)
holds-In x (y ∷ xs) h = ground (arith, holds-In x xs, text_eq_iff y x)

In-append_left : (x : Text) (xs ys : List Text) → In x xs → In x (xs ++ ys)
In-append_left x (y ∷ xs) ys (inl same) = inl same
In-append_left x (y ∷ xs) ys (inr i) = inr (In-append_left x xs ys i)
In-append_left x [] ys i = elim i [ ]

In-append_last : (x : Text) (xs : List Text) → In x (xs ++ x ∷ [])
In-append_last x [] = inl refl
In-append_last x (y ∷ xs) = inr (In-append_last x xs)

with_origin-In : (b : Bool) (h x : Text) (s : Sources) → In x s.img → In x (with_origin b h s).img
unfolding with_origin
with_origin-In true h x s i = i
with_origin-In false h x s i = In-append_left x s.img (h ∷ []) i

with_origins-In :
    (origins : List Text) (x : Text) (s : Sources) → In x s.img → In x (with_origins origins s).img
unfolding with_origins
with_origins-In [] x s i = i
with_origins-In (o ∷ origins) x s i =
    with_origins-In origins x (with_origin (holds (https o) s.img) (https o) s)
      (with_origin-In (holds (https o) s.img) (https o) x s i)

with_origin_self :
    (b : Bool) (h : Text) (s : Sources) → holds h s.img ≡ b → In h (with_origin b h s).img
unfolding with_origin
with_origin_self true h s e = holds-In h s.img e
with_origin_self false h s e = In-append_last h s.img

-- Every image host is a source of images.
origins-In :
    (origins : List Text) (o : Text) (s : Sources)
    → In o origins
    → In (https o) (with_origins origins s).img
unfolding with_origins
origins-In (x ∷ origins) o s (inl same) = rw same (
    with_origins-In origins (https x) (with_origin (holds (https x) s.img) (https x) s)
      (with_origin_self (holds (https x) s.img) (https x) s refl))
origins-In (x ∷ origins) o s (inr i) =
    origins-In origins o (with_origin (holds (https x) s.img) (https x) s) i
origins-In [] o s i = elim i [ ]

external-well_known :
    (h : Text) (f : DetectedFeatures) → (well_known h f).has_external_images ≡ f.has_external_images
unfolding well_known
external-well_known h f = ground arith

external-add_hosts :
    (hosts : List Text) (f : DetectedFeatures)
    → (add_hosts hosts f).has_external_images ≡ f.has_external_images ++ hosts
unfolding add_hosts add_host detect_well_known_service
external-add_hosts [] f = sym (append-nil f.has_external_images)
external-add_hosts (host ∷ hosts) f =
    let f' : DetectedFeatures = record f {
      allowed_origins = f.allowed_origins ++ host ∷ [];
      has_external_images = f.has_external_images ++ host ∷ [];
    } in
    external-add_hosts hosts (well_known (to_lower host) f')
    ∙ ap (λ t. t ++ hosts) (external-well_known (to_lower host) f')
    ∙ append_assoc f.has_external_images (host ∷ []) hosts

external-add_images :
    (images : Images)
    → (add_images (some images) (nothing_detected [] [])).has_external_images
      ≡ images.domains ++ images.remote_hosts
unfolding add_images nothing_detected
external-add_images images =
    external-add_hosts images.remote_hosts (add_hosts images.domains (nothing_detected [] []))
    ∙ ap (λ t. t ++ images.remote_hosts)
        (external-add_hosts images.domains (nothing_detected [] []))

-- The features of a configuration with images.
images_known :
    (config : NextConfig) (images : Images)
    → config.images ≡ some images
    → (detect_features (some config)).has_external_images ≡ images.domains ++ images.remote_hosts
unfolding detect_features
images_known config images e =
    (λ i. (add_images (e i) (nothing_detected [] [])).has_external_images)
    ∙ external-add_images images

listed_host :
    (f : DetectedFeatures) (host : Text)
    → In host f.has_external_images
    → In (https host) (sources_of f).img
unfolding sources_of
listed_host f host i = origins-In f.has_external_images host _ i

own_policy :
    (config : NextConfig)
    → sets_csp config.header_keys ≡ false
    → build_csp (some (detect_features (some config)))
      ≡ policy_text (sources_of (detect_features (some config)))
unfolding build_csp detect_features
own_policy config no_csp = rw no_csp refl

-- Unless the configuration sets a policy of its own, the policy of an app allows images from each host
-- that the configuration names, be it a domain or a remote pattern.
pub build_csp-In :
    (config : NextConfig) (images : Images) (host : Text)
    → config.images ≡ some images
    → In host (images.domains ++ images.remote_hosts)
    → sets_csp config.header_keys ≡ false
    → (s : Sources) × (build_csp (some (detect_features (some config))) ≡ policy_text s)
      × In (https host) s.img
unfolding build_csp
build_csp-In config images host e i no_csp =
    let f = detect_features (some config) in
    (
      sources_of f,
      own_policy config no_csp,
      listed_host f host (rw (images_known config images e) i),
    )
