-- ===== src/Updater/SelfUpdate/Verified.antt =====
-- What an update installs (selfUpdateWithOptions, shared/updater/updater.go).
use next_deploy.Common.{
  ℕ, zero, suc, ◌+◌, ◌≤◌, ◌<◌, ◌≡◌, refl, true, false, Option, none, some, inl, inr, Bool-cases,
  Option-cases, arith,
}
use next_deploy.Common.Text.{Text, text_eq, text_eq_iff}
use next_deploy.Common.Map.{Map}
use next_deploy.Updater.Versions.{greater, compare_versions}
use next_deploy.Updater.Checksums.{download_checksums, listed, matches, verify_binary_integrity}
use next_deploy.Updater.SelfUpdate.{
  UpdateOptions, Attempts, Answers, Disk, updated, attempt_downloads, download_binary, max_retries,
  atomic_replace, then_sudo, last_attempt, install_binary, finish, restore_from, test_binary,
  use_archive, update_to, archive_name, binary_name, is_older, choose, in_development, self_update,
}

-- An attempt that succeeded, among those that are made.
attempt_downloads-some :
    (attempt : ℕ → Option Text) (n left : ℕ) (archive : Text)
    → attempt_downloads attempt n left ≡ some archive
    → (k : ℕ) × (n ≤ k) × (k < n + left) × (attempt k ≡ some archive)
unfolding attempt_downloads
attempt_downloads-some attempt n zero archive h = cc
attempt_downloads-some attempt n (suc left) archive h = elim (Option-cases (attempt n)) [
  | inr (a, got) ↦ (n, omega arith, omega arith, ground arith)
  | inl none_got ↦
      let (k, lo, hi, got) = attempt_downloads-some attempt (n + 1) left archive (ground arith) in
      (k, omega arith, omega arith, got)
]

-- A move that succeeds has brought the source's bytes.
pub atomic_replace-true :
    (a : Attempts) (src dst : Text)
    → (atomic_replace a src dst).0 ≡ true
    → (atomic_replace a src dst).1 ≡ src
unfolding atomic_replace then_sudo last_attempt
atomic_replace-true a src dst h = ground arith

module _ (o : Answers) (opts : UpdateOptions) (base current : Text) where
  install_binary-updated :
      (tag new_bin : Text) (d d' : Disk)
      → install_binary o opts base current tag new_bin d ≡ (updated, d')
      → d'.binary ≡ new_bin
  unfolding install_binary finish restore_from
  install_binary-updated tag new_bin d d' h =
      ground (arith, atomic_replace-true o.install new_bin d.binary)

  test_binary-updated :
      (tag : Text) (extracted : Option Text) (d d' : Disk)
      → test_binary o opts base current tag extracted d ≡ (updated, d')
      → (extracted ≡ some d'.binary) × (o.runs d'.binary ≡ true)
  unfolding test_binary
  test_binary-updated tag none d d' h = cc
  test_binary-updated tag (some new_bin) d d' h = elim (Bool-cases (o.runs new_bin)) [
    | inr bad ↦ absurd (cc (rw (bad, test_binary) at h))
    | inl ok ↦
        let same : d'.binary ≡ new_bin =
          install_binary-updated tag new_bin d d' (rw (ok, test_binary) at h) in
        rw same (refl, ok)
  ]

  self_update-updated :
      (tag : Text) (d d' : Disk)
      → o.latest ≡ some tag
      → self_update o opts base current d ≡ (updated, d')
      → (archive : Text) × (download_binary o.download ≡ some archive)
        × (verify_binary_integrity o.hash archive
              (archive_name o opts base current tag)
              (download_checksums o.checksums)
            ≡ true)
        × (test_binary o opts base current tag
              (o.extract archive (binary_name o opts base current))
              d
            ≡ (updated, d'))
  unfolding self_update choose update_to use_archive
  self_update-updated tag d d' latest h = elim (Option-cases (download_binary o.download)) [
    | inl none_got ↦ absurd (ground arith)
    | inr (archive, got) ↦ (archive, got, ground arith, ground arith)
  ]

  listed_verified :
      (archive name c : Text) (m : Map Text)
      → listed name m ≡ some c
      → verify_binary_integrity o.hash archive name (some m) ≡ true
      → o.hash archive ≡ c
  unfolding verify_binary_integrity
  listed_verified archive name c m is_listed ok =
      (text_eq_iff (o.hash archive) c).0 (rw (is_listed, matches) at ok)

  -- An update that succeeds, and for whose archive a checksum is listed, has installed the program out
  -- of an archive that one of three downloads brought and that has this checksum, and the program has
  -- run.
  pub updated_verified :
      (tag c : Text) (m : Map Text) (d d' : Disk)
      → o.latest ≡ some tag
      → download_checksums o.checksums ≡ some m
      → listed (archive_name o opts base current tag) m ≡ some c
      → self_update o opts base current d ≡ (updated, d')
      → (archive : Text) × ((n : ℕ) × (1 ≤ n) × (n < 4) × (o.download n ≡ some archive))
        × (o.hash archive ≡ c)
        × (o.extract archive (binary_name o opts base current) ≡ some d'.binary)
        × (o.runs d'.binary ≡ true)
  unfolding download_binary
  updated_verified tag c m d d' latest sums is_listed h =
      let (archive, got, ok, tested) = self_update-updated tag d d' latest h in
      let name = archive_name o opts base current tag in
      let ok' : verify_binary_integrity o.hash archive name (some m) ≡ true = rw sums at ok in
      let (from, ran) =
        test_binary-updated tag (o.extract archive (binary_name o opts base current)) d d' tested in
      (
        archive,
        attempt_downloads-some o.download 1 max_retries archive got,
        listed_verified archive name c m is_listed ok',
        from,
        ran,
      )

  -- When the checksums cannot be downloaded, the first archive that comes is installed unchecked: a
  -- newer release whose program runs and can be moved into place is installed.
  unverified_installed :
      (tag archive new_bin : Text) (d : Disk)
      → (o.lock_created ≡ true)
        × (in_development o opts base current ≡ false)
        × (o.temp_made ≡ true)
      → o.latest ≡ some tag
      → compare_versions tag current ≡ greater
      → text_eq tag current ≡ false
      → o.checksums ≡ none
      → o.download 1 ≡ some archive
      → o.extract archive (binary_name o opts base current) ≡ some new_bin
      → (o.runs new_bin ≡ true) × (o.install.rename ≡ true)
      → let (outcome, d') = self_update o opts base current d in
        (outcome ≡ updated) × (d'.binary ≡ new_bin)
  unfolding self_update choose update_to use_archive test_binary install_binary finish
      atomic_replace download_binary attempt_downloads download_checksums verify_binary_integrity
      is_older
  unverified_installed tag archive new_bin d able latest newer other none_sums got extracted runs =
      ground arith
