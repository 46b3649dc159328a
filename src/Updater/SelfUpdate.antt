-- ===== src/Updater/SelfUpdate.antt =====
-- selfUpdateWithOptions of shared/updater/updater.go, with the retries of the download and
-- atomicReplace. What the host and the release server answer is a parameter; a file is its bytes.
-- Printing, permissions and the restart of the service are left out.
pub mod Verified
pub mod Restored
mod Tests
use next_deploy.Common.{
  ℕ, zero, suc, ◌+◌, Bool, true, false, not, ◌&&◌, ◌||◌, Option, none, some, List, [], ◌∷◌, ◌++◌,
  leb, ◌==◌, if◌then◌else◌,
}
use next_deploy.Common.Text.{Text, contains, codes, is_space, text_eq}
use next_deploy.Common.Map.{Map, get, put, remove}
use next_deploy.Updater.Versions.{Sign, less, same, greater, strip_v, compare_versions}
use next_deploy.Updater.Checksums.{detect_archive_name, download_checksums, verify_binary_integrity}

pub record UpdateOptions : Type 0 where
  pub force : Bool
  pub skip_backup : Bool

-- What an attempt to move a file over another does: it may leave the target as it was, or with other
-- bytes.
pub data Moved : Type 0 where
  moved refused : Moved
  spoilt : Text → Moved

-- os.Rename, mv, sudo mv
pub record Attempts : Type 0 where
  pub rename : Bool
  pub mv : Moved
  pub sudo_mv : Moved

pub record Answers : Type 0 where
  pub lock_created : Bool
  pub executable : Option Text  -- os.Executable
  pub latest : Option Text  -- the tag of LatestRelease, if it comes in time
  pub temp_made : Bool
  pub os : Text
  pub arch : Text
  pub checksums : Option Text  -- the body of checksums.txt
  pub download : ℕ → Option Text  -- the archive that an attempt brings
  pub hash : Text → Text  -- SHA-256 in hexadecimal
  pub extract : Text → Text → Option Text  -- extractBinary: archive, name
  pub runs : Text → Bool  -- verifyBinary
  pub backup_copied : Bool
  pub install : Attempts
  pub restore : Attempts
  pub version_of : Text → Option Text  -- getVersionFromBinary

pub data Stage : Type 0 where
  lock validation api older_release temp download verification extraction test install critical :
      Stage

pub data Outcome : Type 0 where
  up_to_date updated : Outcome
  failed : Stage → Outcome

-- The program's file, and the backup that the update has made, if it is there.
pub record Disk : Type 0 where
  pub binary : Text
  pub backup : Option Text

-- Attempts 1, 2, … of which `left` are left.
attempt_downloads : (ℕ → Option Text) → ℕ → ℕ → Option Text
attempt_downloads attempt n zero = none
attempt_downloads attempt n (suc left) =
    let rest = attempt_downloads attempt (n + 1) left in
    elim (attempt n) [ some archive ↦ some archive | none ↦ rest ]

abbrev pub max_retries : ℕ
max_retries = 3

pub download_binary : (ℕ → Option Text) → Option Text
unfolding attempt_downloads
download_binary attempt = attempt_downloads attempt 1 max_retries

last_attempt : Moved → Text → Text → Bool × Text
last_attempt moved src dst = (true, src)
last_attempt refused src dst = (false, dst)
last_attempt (spoilt t) src dst = (false, t)

then_sudo : Moved → Moved → Text → Text → Bool × Text
unfolding last_attempt
then_sudo moved sudo src dst = (true, src)
then_sudo refused sudo src dst = last_attempt sudo src dst
then_sudo (spoilt t) sudo src dst = last_attempt sudo src t

-- Whether the move succeeded, and the bytes of the target. os.Rename is atomic.
pub atomic_replace : Attempts → Text → Text → Bool × Text
unfolding then_sudo
atomic_replace a src dst = if a.rename then (true, src) else then_sudo a.mv a.sudo_mv src dst

module _ (o : Answers) (opts : UpdateOptions) (base current : Text) where
  -- copyFileWithSudo, whose failure leaves the update without a backup.
  make_backup : Disk → Option Text
  make_backup d = if not opts.skip_backup && o.backup_copied then some d.binary else none

  -- The restore after a failed installation.
  restore_from : Option Text → Text → Outcome × Disk
  restore_from none bytes = (failed install, record { binary = bytes; backup = none })
  restore_from (some old) bytes =
      let (ok, restored) = atomic_replace o.restore old bytes in
      if ok
      then (failed install, record { binary = restored; backup = none })
      else (failed critical, record { binary = restored; backup = some old })

  -- The backup is removed once the installed version is the latest.
  kept_backup : Text → Text → Option Text → Option Text
  kept_backup tag bytes backup = elim (o.version_of bytes) [
    | none ↦ backup
    | some v ↦ elim (compare_versions v tag) [ same ↦ none | _ ↦ backup ]
  ]

  finish : Text → Option Text → Bool × Text → Outcome × Disk
  unfolding restore_from kept_backup
  finish tag backup (true, bytes) =
      (updated, record { binary = bytes; backup = kept_backup tag bytes backup })
  finish tag backup (false, bytes) = restore_from backup bytes

  pub install_binary : Text → Text → Disk → Outcome × Disk
  unfolding make_backup finish
  install_binary tag new_bin d =
      finish tag (make_backup d) (atomic_replace o.install new_bin d.binary)

  pub test_binary : Text → Option Text → Disk → Outcome × Disk
  unfolding install_binary
  test_binary tag none d = (failed extraction, d)
  test_binary tag (some new_bin) d =
      if o.runs new_bin then install_binary tag new_bin d else (failed test, d)

  pub archive_name : Text → Text
  archive_name tag = detect_archive_name o.os o.arch tag base

  pub binary_name : Text
  binary_name = if text_eq o.os (codes "windows") then base ++ codes ".exe" else base

  pub use_archive : Text → Option Text → Disk → Outcome × Disk
  unfolding test_binary archive_name binary_name
  use_archive tag none d = (failed download, d)
  use_archive tag (some archive) d =
      if verify_binary_integrity o.hash archive (archive_name tag) (download_checksums o.checksums)
      then test_binary tag (o.extract archive binary_name) d
      else (failed verification, d)

  pub update_to : Text → Disk → Outcome × Disk
  unfolding use_archive
  update_to tag d =
      if not o.temp_made then (failed temp, d) else use_archive tag (download_binary o.download) d

  is_older : Text → Bool
  is_older tag = elim (compare_versions tag current) [ less ↦ true | _ ↦ false ]

  choose : Option Text → Disk → Outcome × Disk
  unfolding update_to is_older
  choose none d = (failed api, d)
  choose (some tag) d =
      if text_eq tag current
      then (up_to_date, d)
      else if is_older tag && not opts.force
      then (failed older_release, d)
      else update_to tag d

  current_bin : Text
  current_bin = elim o.executable [ some path ↦ path | none ↦ codes "/usr/local/bin/" ++ base ]

  pub in_development : Bool
  unfolding current_bin
  in_development = contains current_bin (codes "go-build") || contains current_bin (codes "temp")

  pub self_update : Disk → Outcome × Disk
  unfolding choose in_development
  self_update d =
      if not o.lock_created
      then (failed lock, d)
      else if in_development
      then (failed validation, d)
      else choose o.latest d
