-- ===== src/Daemon/Fingerprint/Tests.antt =====
-- A host whose glibc moved between two deploys (daemon/internal/daemon/fingerprint.go).
use next_deploy.Common.{◌≡◌, refl, [], ◌∷◌}
use next_deploy.Common.Text.{codes, text_eq}
use next_deploy.Daemon.Fingerprint.{EnvFingerprint, glibc, compare_field, drift_warnings}

abbrev before : EnvFingerprint
before = record {
  node = codes "24.16.0";
  bun = [];
  glibc = codes "2.42";
  arch = codes "amd64";
  os = codes "linux";
}

abbrev after : EnvFingerprint
after = record before { glibc = codes "2.43"; bun = codes "1.1.0" }

glibc_moved : drift_warnings before after ≡ (glibc, codes "2.42", codes "2.43") ∷ []
unfolding drift_warnings compare_field text_eq
glibc_moved = refl
