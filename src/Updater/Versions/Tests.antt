-- ===== src/Updater/Versions/Tests.antt =====
-- Versions as the releases have them (shared/updater/updater.go).
use next_deploy.Common.{◌≡◌, refl, true, [], ◌∷◌}
use next_deploy.Common.Text.{codes}
use next_deploy.Updater.Versions.{
  greater, strip_v, before_dash, split_ver, split_from, int_lt, biased, compare_parts, parts_of,
  compare_versions, is_newer,
}

parts : parts_of (codes "v1.12.0-rc1") ≡ 1 ∷ 12 ∷ 0 ∷ []
unfolding parts_of split_ver split_from strip_v before_dash
parts = refl

newer : is_newer (codes "v1.10") (codes "v1.9.9") ≡ true
unfolding is_newer compare_versions compare_parts int_lt biased parts_of split_ver split_from
    strip_v before_dash
newer = refl

later : compare_versions (codes "v1.9.9") (codes "1.9") ≡ greater
unfolding compare_versions compare_parts int_lt biased parts_of split_ver split_from strip_v
    before_dash
later = refl
