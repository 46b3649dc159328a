-- ===== src/Csp/Tests.antt =====
-- The policy of an app with a remote pattern (BuildCSP, shared/nextcore/features.go).
use next_deploy.Common.{◌≡◌, refl, false, some, none, [], ◌∷◌, In, inl, inr}
use next_deploy.Common.Text.{codes, text_eq, to_lower}
use next_deploy.Csp.{
  sets_csp, Images, NextConfig, Sources, detect_features, build_csp, policy_text, https,
}
use next_deploy.Csp.Allowed.{build_csp-In}

abbrev sources : Images
sources = record {
  domains = codes "img.example.com" ∷ [];
  remote_hosts = codes "**.cdn.example.com" ∷ [];
}

abbrev config : NextConfig
config = record {
  images = some sources;
  server_actions = none;
  has_i18n = false;
  header_keys = (codes "X-Frame-Options" ∷ []) ∷ [];
  dist_dir = codes ".next";
}

build_csp-In_example :
    (s : Sources) × (build_csp (some (detect_features (some config))) ≡ policy_text s)
    × In (https (codes "**.cdn.example.com")) s.img
unfolding text_eq to_lower sets_csp
build_csp-In_example =
    build_csp-In config sources (codes "**.cdn.example.com") refl (inr (inl refl)) refl
