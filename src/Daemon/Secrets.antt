-- ===== src/Daemon/Secrets.antt =====
-- handleSecrets of daemon/internal/daemon/secrets_handler.go, with findActiveService of
-- status_handler.go. JSON and the answers of the host are
-- parameters. The texts of messages are constructors.
pub mod Saved
pub mod Store
pub mod Synced
mod Tests
use next_deploy.Common.{ℕ, Bool, true, false, not, Option, none, some, List, [], ◌∷◌, if◌then◌else◌}
use mathlib.Core.List.{reverse}
use next_deploy.Common.Text.{Text, codes, text_eq}
use next_deploy.Common.Map.{Map, get, put, remove}
use next_deploy.Common.Sort.{sort}
use next_deploy.Daemon.Commands.{Arg}
use next_deploy.Daemon.Arguments.{string_arg, validate_app_name}
use next_deploy.Daemon.EnvFile.{keys, render_env, merge_extra}
use next_deploy.Daemon.Services.{find_app_services}

pub data Reply : Type 0 where
  missing_action missing_app invalid_app unknown_action missing_key missing_value : Reply
  load_failed save_failed not_found : Reply
  stored stored_not_synced unset_done unset_not_synced : Reply
  value : Text → Reply
  listing : List Text → Reply  -- one key on a line

pub record Host : Type 0 where
  pub encode : Map Text → Text  -- json.MarshalIndent
  pub decode : Text → Option (Map Text)  -- json.Unmarshal
  pub readable : Text → Bool  -- os.ReadFile of an app's store that exists
  pub writable : Text → Bool  -- os.MkdirAll and os.WriteFile of an app's store
  pub release_dir : Text → Option Text  -- the directory of `current`, if there is one
  pub env_written : Text → Bool  -- os.WriteFile of a directory's .env.nextdeploy
  pub units : Option (List Text)  -- os.ReadDir of the systemd directory
  pub is_active : Text → Bool  -- systemctl is-active
  pub restarts : Text → Bool  -- systemctl restart

pub record Files : Type 0 where
  pub stores : Map Text  -- /opt/nextdeploy/secrets/<app>.json
  pub env_files : Map Text  -- <dir>/.env.nextdeploy
  pub restarted : List Text

first_active : (Text → Bool) → List Text → Option Text
first_active is_active [] = none
first_active is_active (u ∷ us) =
    let rest = first_active is_active us in if is_active u then some u else rest

latest_active : (Text → Bool) → List Text → Option Text
unfolding first_active
latest_active is_active [] = none
latest_active is_active (u ∷ us) = elim (first_active is_active (u ∷ us)) [
  | some a ↦ some a
  | none ↦ some u
]

module _ (host : Host) where
  find_active_service : Text → Option Text
  unfolding latest_active
  find_active_service app = elim host.units [
    | none ↦ none
    | some files ↦ latest_active host.is_active (reverse (sort (find_app_services app files)))
  ]

  -- A missing store is empty.
  unfoldable pub load_secrets : Text → Files → Option (Map Text)
  load_secrets app fs = elim (get app fs.stores) [
    | none ↦ some []
    | some content ↦ if host.readable app then host.decode content else none
  ]

  pub save_secrets : Text → Map Text → Files → Bool × Files
  save_secrets app secrets fs =
      if host.writable app
      then (true, record fs { stores = put app (host.encode secrets) fs.stores })
      else (false, fs)

  write_env : Text → Map Text → Files → Bool × Files
  write_env dir [] fs = (true, fs)
  write_env dir (s ∷ secrets) fs =
      if host.env_written dir
      then (true, record fs { env_files = put dir (render_env (s ∷ secrets)) fs.env_files })
      else (false, fs)

  pub render_env_file : Text → Text → Map Text → Files → Bool × Files
  unfolding write_env
  render_env_file app dir extra fs = elim (load_secrets app fs) [
    | none ↦ (false, fs)
    | some secrets ↦ write_env dir (merge_extra extra secrets) fs
  ]

  restart_service : Text → Files → Bool × Files
  restart_service name fs =
      if host.restarts name
      then (true, record fs { restarted = name ∷ fs.restarted })
      else (false, fs)

  pub restart_active : Text → Bool × Files → Bool × Files
  unfolding restart_service find_active_service
  restart_active app (false, fs) = (false, fs)
  restart_active app (true, fs) = elim (find_active_service app) [
    | none ↦ (false, fs)
    | some name ↦ restart_service name fs
  ]

  pub sync_app_secrets : Text → Files → Bool × Files
  unfolding restart_active
  sync_app_secrets app fs = elim (host.release_dir app) [
    | none ↦ (true, fs)
    | some dir ↦ restart_active app (render_env_file app dir [] fs)
  ]

  -- The end of a set or unset: the store is saved, then the running app is brought up to date.
  pub save_and_sync : Reply → Reply → Text → Map Text → Files → Reply × Files
  unfolding save_secrets
  save_and_sync synced not_synced app secrets fs =
      let (saved, fs1) = save_secrets app secrets fs in
      let (ok, fs2) = sync_app_secrets app fs1 in
      if not saved then (save_failed, fs1) else if ok then (synced, fs2) else (not_synced, fs2)

  pub set_with : Text → Option Text → Option Text → Files → Reply × Files
  unfolding save_and_sync
  set_with app none v fs = (missing_key, fs)
  set_with app (some k) none fs = (missing_value, fs)
  set_with app (some k) (some v) fs = elim (load_secrets app fs) [
    | none ↦ (load_failed, fs)
    | some secrets ↦ save_and_sync stored stored_not_synced app (put k v secrets) fs
  ]

  pub set_secret : Text → Map Arg → Files → Reply × Files
  unfolding set_with
  set_secret app args fs =
      set_with app (string_arg args (codes "key")) (string_arg args (codes "value")) fs

  lookup_reply : Option Text → Reply
  lookup_reply none = not_found
  lookup_reply (some v) = value v

  get_with : Text → Option Text → Files → Reply × Files
  unfolding lookup_reply
  get_with app none fs = (missing_key, fs)
  get_with app (some k) fs = elim (load_secrets app fs) [
    | none ↦ (load_failed, fs)
    | some secrets ↦ (lookup_reply (get k secrets), fs)
  ]

  pub get_secret : Text → Map Arg → Files → Reply × Files
  unfolding get_with
  get_secret app args fs = get_with app (string_arg args (codes "key")) fs

  unset_found : Text → Text → Map Text → Option Text → Files → Reply × Files
  unfolding save_and_sync
  unset_found app k secrets none fs = (not_found, fs)
  unset_found app k secrets (some v) fs =
      save_and_sync unset_done unset_not_synced app (remove k secrets) fs

  unset_with : Text → Option Text → Files → Reply × Files
  unfolding unset_found
  unset_with app none fs = (missing_key, fs)
  unset_with app (some k) fs = elim (load_secrets app fs) [
    | none ↦ (load_failed, fs)
    | some secrets ↦ unset_found app k secrets (get k secrets) fs
  ]

  pub unset_secret : Text → Map Arg → Files → Reply × Files
  unfolding unset_with
  unset_secret app args fs = unset_with app (string_arg args (codes "key")) fs

  pub list_secrets : Text → Files → Reply × Files
  list_secrets app fs = elim (load_secrets app fs) [
    | none ↦ (load_failed, fs)
    | some secrets ↦ (listing (sort (keys secrets)), fs)
  ]

  on_action : Text → Text → Map Arg → Files → Reply × Files
  on_action action app args fs =
      if text_eq action (codes "set")
      then set_secret app args fs
      else if text_eq action (codes "get")
      then get_secret app args fs
      else if text_eq action (codes "unset")
      then unset_secret app args fs
      else if text_eq action (codes "list")
      then list_secrets app fs
      else (unknown_action, fs)

  secrets_for : Option Text → Option Text → Map Arg → Files → Reply × Files
  unfolding on_action
  secrets_for none app args fs = (missing_action, fs)
  secrets_for (some action) none args fs = (missing_app, fs)
  secrets_for (some action) (some app) args fs =
      if validate_app_name app then on_action action app args fs else (invalid_app, fs)

  unfoldable pub handle_secrets : Map Arg → Files → Reply × Files
  unfolding secrets_for
  handle_secrets args fs =
      secrets_for (string_arg args (codes "action")) (string_arg args (codes "appName")) args fs
