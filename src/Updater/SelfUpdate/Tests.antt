-- ===== src/Updater/SelfUpdate/Tests.antt =====
-- Updates from v1.0 to v1.1 (shared/updater/updater.go), with the identity as the hash.
use next_deploy.Common.{
  ℕ, ◌≡◌, ◌⊎◌, ◌≤◌, ◌<◌, ◌==◌, refl, true, false, none, some, [], ◌∷◌, if◌then◌else◌,
}
use next_deploy.Common.Text.{Text, codes, contains, text_eq}
use next_deploy.Common.Map.{Map, get, put, remove}
use next_deploy.Updater.Versions.{
  greater, strip_v, before_dash, split_ver, split_from, int_lt, biased, compare_parts, parts_of,
  compare_versions,
}
use next_deploy.Updater.Checksums.{
  download_checksums, read_checksums, lines, fields, detect_archive_name, listed,
  verify_binary_integrity,
}
use next_deploy.Updater.SelfUpdate.{
  UpdateOptions, Answers, Disk, updated, failed, critical, refused, spoilt, install,
  attempt_downloads, download_binary, atomic_replace, then_sudo, last_attempt, make_backup,
  restore_from, finish, install_binary, test_binary, archive_name, binary_name, use_archive,
  update_to, is_older, choose, self_update,
}
use next_deploy.Updater.SelfUpdate.Verified.{updated_verified}
use next_deploy.Updater.SelfUpdate.Restored.{failed_update_restored}

abbrev base : Text
base = codes "nextdeploy"

abbrev v0 : Text
v0 = codes "v1.0"

abbrev v1 : Text
v1 = codes "v1.1"

abbrev name : Text
name = codes "nextdeploy_1.1_linux_amd64.tar.gz"

abbrev opts : UpdateOptions
opts = record { force = false; skip_backup = false }

abbrev disk : Disk
disk = record { binary = codes "old"; backup = none }

abbrev answers : Answers
answers = record {
  lock_created = true;
  executable = none;
  latest = some v1;
  temp_made = true;
  os = codes "linux";
  arch = codes "amd64";
  checksums = some (codes "new  nextdeploy_1.1_linux_amd64.tar.gz\n");
  download = λ n. if n == 2 then some (codes "new") else none;
  hash = λ t. t;
  extract = λ t b. some t;
  runs = λ t. true;
  backup_copied = true;
  install = record { rename = true; mv = refused; sudo_mv = refused };
  restore = record { rename = true; mv = refused; sudo_mv = refused };
  version_of = λ t. some v1;
}

-- The server has no checksums, and the first download succeeds.
abbrev no_sums : Answers
no_sums = record answers { checksums = none; download = λ n. some (codes "new") }

-- The move of the new program leaves half of it.
abbrev half_moved : Answers
half_moved = record answers {
  install = record { rename = false; mv = spoilt (codes "ne"); sudo_mv = refused };
}

abbrev sums : Map Text
sums = (name, codes "new") ∷ []

read_sums : download_checksums answers.checksums ≡ some sums
unfolding download_checksums read_checksums lines fields put remove text_eq
read_sums = refl

is_listed : listed (archive_name answers opts base v0 v1) sums ≡ some (codes "new")
unfolding listed archive_name detect_archive_name strip_v get text_eq
is_listed = refl

update :
    self_update answers opts base v0 disk
    ≡ (updated, record { binary = codes "new"; backup = none })
unfolding self_update choose update_to is_older use_archive test_binary install_binary finish
    make_backup atomic_replace download_binary attempt_downloads download_checksums read_checksums
    lines fields verify_binary_integrity listed archive_name detect_archive_name binary_name
    compare_versions compare_parts int_lt biased parts_of split_ver split_from strip_v before_dash
    get put remove text_eq contains
update = refl

restored : self_update half_moved opts base v0 disk ≡ (failed install, disk)
unfolding self_update choose update_to is_older use_archive test_binary install_binary finish
    make_backup restore_from then_sudo last_attempt atomic_replace download_binary attempt_downloads
    download_checksums read_checksums lines fields verify_binary_integrity listed archive_name
    detect_archive_name binary_name compare_versions compare_parts int_lt biased parts_of split_ver
    split_from strip_v before_dash get put remove text_eq contains
restored = refl

ahead : compare_versions v1 v0 ≡ greater
unfolding compare_versions compare_parts int_lt biased parts_of split_ver split_from strip_v
    before_dash
ahead = refl

updated_verified_example :
    (archive : Text) × ((n : ℕ) × (1 ≤ n) × (n < 4) × (answers.download n ≡ some archive))
    × (archive ≡ codes "new")
    × (some archive ≡ some (codes "new"))
    × (true ≡ true)
updated_verified_example =
    updated_verified answers opts base v0 v1 (codes "new") sums disk
      (record { binary = codes "new"; backup = none }) refl read_sums is_listed update

failed_update_restored_example :
    let (r, d') = self_update half_moved opts base v0 disk in
    (r ≡ updated) ⊎ (r ≡ failed critical) ⊎ (d'.binary ≡ codes "old")
failed_update_restored_example = failed_update_restored half_moved opts base v0 disk (refl, refl)
