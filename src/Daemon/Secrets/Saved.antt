-- ===== src/Daemon/Secrets/Saved.antt =====
-- What saving a store and bringing the app up to date (daemon/internal/daemon/secrets_handler.go) do
-- to the stores.
use next_deploy.Common.{
  ◌≡◌, ◌⊎◌, inl, inr, refl, ◌∙◌, Bool, true, false, [], ◌∷◌, Option-cases, arith,
}
use next_deploy.Common.Text.{Text, text_eq_refl}
use next_deploy.Common.Map.{Map, put, get-put}
use next_deploy.Daemon.EnvFile.{merge_extra}
use next_deploy.Daemon.Secrets.{
  Host, Files, Reply, load_secrets, save_and_sync, sync_app_secrets, save_failed, save_secrets,
  write_env, render_env_file, restart_active,
}

module _ (host : Host) where
  stores-write_env :
      (dir : Text) (m : Map Text) (fs : Files) → (write_env host dir m fs).1.stores ≡ fs.stores
  unfolding write_env
  stores-write_env dir [] fs = refl
  stores-write_env dir (s ∷ m) fs = ground arith

  stores-render_env_file :
      (app dir : Text) (extra : Map Text) (fs : Files)
      → (render_env_file host app dir extra fs).1.stores ≡ fs.stores
  unfolding render_env_file
  stores-render_env_file app dir extra fs = elim (Option-cases (load_secrets host app fs)) [
    | inl none_read ↦ rw (none_read, render_env_file) refl
    | inr (m, read) ↦ rw (read, render_env_file) (stores-write_env dir (merge_extra extra m) fs)
  ]

  stores-restart_active :
      (app : Text) (r : Bool × Files) → (restart_active host app r).1.stores ≡ r.1.stores
  unfolding restart_active
  stores-restart_active app (false, fs) = refl
  stores-restart_active app (true, fs) = ground arith

  pub stores-sync_app_secrets :
      (app : Text) (fs : Files) → (sync_app_secrets host app fs).1.stores ≡ fs.stores
  unfolding sync_app_secrets
  stores-sync_app_secrets app fs = elim (Option-cases (host.release_dir app)) [
    | inl absent ↦ rw (absent, sync_app_secrets) refl
    | inr (dir, there) ↦
        rw (there, sync_app_secrets)
          (stores-restart_active app (render_env_file host app dir [] fs)
            ∙ stores-render_env_file app dir [] fs)
  ]

  pub save_and_sync_lem :
      (synced not_synced : Reply) (app : Text) (m : Map Text) (fs : Files)
      → let (r, fs') = save_and_sync host synced not_synced app m fs in
        (((r ≡ synced) ⊎ (r ≡ not_synced)) × (fs'.stores ≡ put app (host.encode m) fs.stores))
        ⊎ ((r ≡ save_failed) × (fs'.stores ≡ fs.stores))
  unfolding save_and_sync
  save_and_sync_lem synced not_synced app m fs =
      ground (arith, stores-sync_app_secrets app (save_secrets host app m fs).1)

  -- A store that has just been written is read as what was written.
  pub load-saved :
      (app : Text) (m : Map Text) (fs fs' : Files)
      → host.readable app ≡ true
      → fs'.stores ≡ put app (host.encode m) fs.stores
      → load_secrets host app fs' ≡ host.decode (host.encode m)
  unfolding load_secrets
  load-saved app m fs fs' readable h =
      ground (arith, get-put app app (host.encode m) fs.stores, text_eq_refl app)
