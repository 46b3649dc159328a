-- ===== src/Daemon/Fingerprint.antt =====
-- The host's runtime fingerprint (daemon/internal/daemon/fingerprint.go): what a deploy compares with
-- the baseline of the first one.
pub mod Drift
mod Tests
use next_deploy.Common.{Bool, not, ◌&&◌, Option, none, some, List, [], ◌∷◌, ◌++◌, if◌then◌else◌}
use next_deploy.Common.Text.{Text, text_eq}

pub record EnvFingerprint : Type 0 where
  pub node : Text
  pub bun : Text
  pub glibc : Text
  pub arch : Text
  pub os : Text

pub data Field : Type 0 where
  node bun glibc arch os : Field

-- One warning: the field, what it was and what it is.
abbrev pub Warning : Type 0
Warning = Field × Text × Text

-- `cmp`: a field that was recorded and has changed.
unfoldable pub compare_field : Field → Text → Text → List Warning
compare_field field was now =
    if not (text_eq was []) && not (text_eq was now) then (field, was, now) ∷ [] else []

unfoldable pub drift_warnings : EnvFingerprint → EnvFingerprint → List Warning
drift_warnings b c =
    compare_field node b.node c.node
    ++ (compare_field bun b.bun c.bun
        ++ (compare_field glibc b.glibc c.glibc
            ++ (compare_field arch b.arch c.arch ++ compare_field os b.os c.os)))

-- CheckRuntimeDrift, from the recorded baseline and the current fingerprint: the warnings, and the
-- baseline that is recorded afterwards.
unfoldable pub check_runtime_drift :
    Option EnvFingerprint → EnvFingerprint → List Warning × Option EnvFingerprint
check_runtime_drift none current = ([], some current)
check_runtime_drift (some baseline) current = (drift_warnings baseline current, some baseline)
