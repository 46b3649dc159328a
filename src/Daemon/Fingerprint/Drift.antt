-- ===== src/Daemon/Fingerprint/Drift.antt =====
-- When daemon/internal/daemon/fingerprint.go warns.
use next_deploy.Common.{◌≡◌, ◌↔◌, ◌⊎◌, refl, none, some, List, [], ◌∷◌, ◌++◌, arith}
use next_deploy.Common.Text.{Text, text_eq_iff}
use next_deploy.Daemon.Fingerprint.{
  EnvFingerprint, Field, node, bun, glibc, arch, os, Warning, compare_field, drift_warnings,
  check_runtime_drift,
}

-- A field has not drifted: it was not known, or is as it was.
abbrev pub Same : Text → Text → Type 0
Same was now = (was ≡ []) ⊎ (was ≡ now)

-- No recorded field has changed.
abbrev pub Undrifted : EnvFingerprint → EnvFingerprint → Type 0
Undrifted b c =
    Same b.node c.node
    × Same b.bun c.bun
    × Same b.glibc c.glibc
    × Same b.arch c.arch
    × Same b.os c.os

append-eq-nil : (xs ys : List Warning) → xs ++ ys ≡ [] → (xs ≡ []) × (ys ≡ [])
append-eq-nil [] ys h = (refl, h)
append-eq-nil (x ∷ xs) ys h = cc

abbrev Silent : Field → Text → Text → Type 0
Silent f was now = (compare_field f was now ≡ []) ↔ Same was now

silent : (f : Field) (was now : Text) → Silent f was now
unfolding compare_field
silent f was now = (
  ground (arith, text_eq_iff was [], text_eq_iff was now),
  ground (arith, text_eq_iff was [], text_eq_iff was now),
)

drift_warnings_iff : (b c : EnvFingerprint) → (drift_warnings b c ≡ []) ↔ Undrifted b c
unfolding drift_warnings
drift_warnings_iff b c =
    let fs : Silent node b.node c.node
        × Silent bun b.bun c.bun
        × Silent glibc b.glibc c.glibc
        × Silent arch b.arch c.arch
        × Silent os b.os c.os =
      (silent _ _ _, silent _ _ _, silent _ _ _, silent _ _ _, silent _ _ _) in
    (
      (λ h.
          let (h1, r1) = append-eq-nil (compare_field node b.node c.node) _ h in
          let (h2, r2) = append-eq-nil (compare_field bun b.bun c.bun) _ r1 in
          let (h3, r3) = append-eq-nil (compare_field glibc b.glibc c.glibc) _ r2 in
          let (h4, h5) = append-eq-nil (compare_field arch b.arch c.arch) _ r3 in
          (fs.0.0 h1, fs.1.0 h2, fs.2.0 h3, fs.3.0 h4, fs.4.0 h5)),
      (λ u. rw (fs.0.1 u.0, fs.1.1 u.1, fs.2.1 u.2, fs.3.1 u.3, fs.4.1 u.4)),
    )

-- After the first deploy the baseline stays what that deploy found; and a later deploy warns of
-- nothing exactly when every field known to the baseline is as it was.
check_runtime_drift_lem :
    (first current : EnvFingerprint)
    → let baseline = (check_runtime_drift none first).1 in
      let (warnings, baseline') = check_runtime_drift baseline current in
      (baseline' ≡ some first) × ((warnings ≡ []) ↔ Undrifted first current)
unfolding check_runtime_drift
check_runtime_drift_lem first current = (refl, drift_warnings_iff first current)
