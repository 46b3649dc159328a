-- ===== src/Daemon/Secrets/Synced.antt =====
-- The environment file of the running release after a secret is set (syncAppSecrets,
-- daemon/internal/daemon/secrets_handler.go).
use next_deploy.Common.{
  ◌≡◌, inl, inr, refl, ◌∙◌, Bool, true, false, some, [], ◌∷◌, Bool-cases, Option-cases, arith,
}
use next_deploy.Common.Text.{Text, text_eq_refl}
use next_deploy.Common.Map.{Map, get, put, get-put}
use next_deploy.Daemon.Arguments.{validate_app_name}
use next_deploy.Daemon.EnvFile.{render_env, merge_extra}
use next_deploy.Daemon.Secrets.{
  Host, Files, stored, stored_not_synced, invalid_app, load_secrets, save_secrets, save_and_sync,
  sync_app_secrets, render_env_file, write_env, restart_active, set_with, handle_secrets,
}
use next_deploy.Daemon.Secrets.Saved.{load-saved, stores-sync_app_secrets}
use next_deploy.Daemon.Secrets.Store.{set_args, JsonRoundTrips, handle_set}

module _ (host : Host) where
  env-write_env :
      (dir k v : Text) (m : Map Text) (fs : Files)
      → get k m ≡ some v
      → (write_env host dir m fs).0 ≡ true
      → get dir (write_env host dir m fs).1.env_files ≡ some (render_env m)
  unfolding write_env get
  env-write_env dir k v [] fs has ok = cc
  env-write_env dir k v (s ∷ m) fs has ok =
      ground (arith, get-put dir dir (render_env (s ∷ m)) fs.env_files, text_eq_refl dir)

  env-render_env_file :
      (app dir k v : Text) (m : Map Text) (fs : Files)
      → load_secrets host app fs ≡ some m
      → get k m ≡ some v
      → (render_env_file host app dir [] fs).0 ≡ true
      → get dir (render_env_file host app dir [] fs).1.env_files ≡ some (render_env m)
  unfolding render_env_file merge_extra
  env-render_env_file app dir k v m fs read has ok =
      rw (read, render_env_file) (env-write_env dir k v m fs has (rw (read, render_env_file) at ok))

  restart_active-done :
      (app : Text) (r : Bool × Files)
      → (restart_active host app r).0 ≡ true
      → (r.0 ≡ true) × ((restart_active host app r).1.env_files ≡ r.1.env_files)
  unfolding restart_active
  restart_active-done app (false, fs) ok = cc
  restart_active-done app (true, fs) ok = ground arith

  env-sync_app_secrets :
      (app dir k v : Text) (m : Map Text) (fs : Files)
      → host.release_dir app ≡ some dir
      → load_secrets host app fs ≡ some m
      → get k m ≡ some v
      → (sync_app_secrets host app fs).0 ≡ true
      → get dir (sync_app_secrets host app fs).1.env_files ≡ some (render_env m)
  unfolding sync_app_secrets
  env-sync_app_secrets app dir k v m fs there read has ok =
      let r = render_env_file host app dir [] fs in
      let (rendered, same) = restart_active-done app r (rw (there, sync_app_secrets) at ok) in
      rw (there, sync_app_secrets)
        (rw same (env-render_env_file app dir k v m fs read has rendered))

  save_and_sync-stored :
      (app : Text) (m : Map Text) (fs : Files)
      → (save_and_sync host stored stored_not_synced app m fs).0 ≡ stored
      → let fs1 = (save_secrets host app m fs).1 in
        (fs1.stores ≡ put app (host.encode m) fs.stores)
        × ((sync_app_secrets host app fs1).0 ≡ true)
        × ((save_and_sync host stored stored_not_synced app m fs).1
            ≡ (sync_app_secrets host app fs1).1)
  unfolding save_and_sync save_secrets
  save_and_sync-stored app m fs h = ground arith

  set_with-stored :
      (app dir k v : Text) (fs : Files)
      → JsonRoundTrips host
      → host.readable app ≡ true
      → host.release_dir app ≡ some dir
      → (set_with host app (some k) (some v) fs).0 ≡ stored
      → let fs' = (set_with host app (some k) (some v) fs).1 in
        (m : Map Text) × (load_secrets host app fs' ≡ some m)
        × (get k m ≡ some v)
        × (get dir fs'.env_files ≡ some (render_env m))
  unfolding set_with
  set_with-stored app dir k v fs json readable there h =
      elim (Option-cases (load_secrets host app fs)) [
        | inl none_read ↦ absurd (cc (rw (none_read, set_with) at h))
        | inr (m, read) ↦
            let fs1 = (save_secrets host app (put k v m) fs).1 in
            let (saved, ok, same) =
              save_and_sync-stored app (put k v m) fs (rw (read, set_with) at h) in
            let (m', decoded, gets) = json (put k v m) in
            let has : get k m' ≡ some v = rw (gets k, get-put, text_eq_refl k) refl in
            let loaded : load_secrets host app fs1 ≡ some m' =
              load-saved host app (put k v m) fs fs1 readable saved ∙ decoded in
            let fs2 = (sync_app_secrets host app fs1).1 in
            (
              m',
              rw (read, set_with, same)
                  (load-saved host app (put k v m) fs fs2 readable
                      (stores-sync_app_secrets host app fs1 ∙ saved)
                    ∙ decoded),
              has,
              rw (read, set_with, same)
                  (env-sync_app_secrets app dir k v m' fs1 there loaded has ok),
            )
      ]

  -- When a secret has been set without complaint and the app has a current release, the release's
  -- environment file is rendered from the app's stored secrets, and these give the key its new value.
  -- The app's store must be readable, and JSON must read back what it writes.
  pub set_reaches_app :
      (app dir k v : Text) (fs : Files)
      → JsonRoundTrips host
      → host.readable app ≡ true
      → host.release_dir app ≡ some dir
      → (handle_secrets host (set_args app k v) fs).0 ≡ stored
      → let fs' = (handle_secrets host (set_args app k v) fs).1 in
        (m : Map Text) × (load_secrets host app fs' ≡ some m)
        × (get k m ≡ some v)
        × (get dir fs'.env_files ≡ some (render_env m))
  set_reaches_app app dir k v fs json readable there h = elim (Bool-cases (validate_app_name app)) [
    | inr bad ↦
        let h' : invalid_app ≡ stored = rw (handle_set host app k v fs, bad) at h in absurd (cc h')
    | inl ok ↦
        rw (handle_set host app k v fs, ok)
          (set_with-stored app dir k v fs json readable there
            (rw (handle_set host app k v fs, ok) at h))
  ]
