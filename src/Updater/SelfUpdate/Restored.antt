-- ===== src/Updater/SelfUpdate/Restored.antt =====
-- What a failed update leaves (selfUpdateWithOptions, shared/updater/updater.go).
use next_deploy.Common.{
  ◌≡◌, ◌⊎◌, inl, inr, refl, true, false, Option, none, some, Option-cases, arith,
}
use next_deploy.Common.Text.{Text}
use next_deploy.Updater.SelfUpdate.{
  UpdateOptions, Answers, Disk, Outcome, updated, failed, critical, atomic_replace, download_binary,
  install_binary, finish, make_backup, binary_name, restore_from, test_binary, use_archive,
  update_to, choose, self_update,
}
use next_deploy.Updater.SelfUpdate.Verified.{atomic_replace-true}

module _ (o : Answers) (opts : UpdateOptions) (base current : Text) where
  -- A result that has replaced the program, has left it, or says that it could not be restored.
  abbrev Settled : Disk → Outcome × Disk → Type 0
  Settled d (r, d') = (r ≡ updated) ⊎ (r ≡ failed critical) ⊎ (d'.binary ≡ d.binary)

  install_binary-Settled :
      (tag new_bin : Text) (d : Disk)
      → (opts.skip_backup ≡ false) × (o.backup_copied ≡ true)
      → Settled d (install_binary o opts base current tag new_bin d)
  unfolding install_binary finish restore_from make_backup
  install_binary-Settled tag new_bin d backed =
      ground (
        arith,
        atomic_replace-true o.restore d.binary (atomic_replace o.install new_bin d.binary).1,
      )

  test_binary-Settled :
      (tag : Text) (extracted : Option Text) (d : Disk)
      → (opts.skip_backup ≡ false) × (o.backup_copied ≡ true)
      → Settled d (test_binary o opts base current tag extracted d)
  unfolding test_binary
  test_binary-Settled tag none d backed = inr (inr refl)
  test_binary-Settled tag (some new_bin) d backed =
      ground (arith, install_binary-Settled tag new_bin d backed)

  use_archive-Settled :
      (tag : Text) (got : Option Text) (d : Disk)
      → (opts.skip_backup ≡ false) × (o.backup_copied ≡ true)
      → Settled d (use_archive o opts base current tag got d)
  unfolding use_archive
  use_archive-Settled tag none d backed = inr (inr refl)
  use_archive-Settled tag (some archive) d backed = ground (
    arith,
    test_binary-Settled tag (o.extract archive (binary_name o opts base current)) d backed,
  )

  -- With a backup, an update succeeds, leaves the program as it was, or reports that neither the
  -- update nor the restore could be done.
  pub failed_update_restored :
      (d : Disk)
      → (opts.skip_backup ≡ false) × (o.backup_copied ≡ true)
      → let (r, d') = self_update o opts base current d in
        (r ≡ updated) ⊎ (r ≡ failed critical) ⊎ (d'.binary ≡ d.binary)
  unfolding self_update choose update_to
  failed_update_restored d backed = elim (Option-cases o.latest) [
    | inl no_tag ↦ ground arith
    | inr (tag, latest) ↦
        ground (arith, latest, use_archive-Settled tag (download_binary o.download) d backed)
  ]
