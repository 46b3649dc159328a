-- ===== src/Daemon/Destroy.antt =====
-- handleDestroy of daemon/internal/daemon/command_handler.go, with RemoveService of process_manager.go
-- and the removal of the app's Caddy fragment: each step is tried, whatever became of those before it.
-- A tree that cannot be removed is left as it was. filepath.Join is a parameter.
pub mod Untouched
pub mod Others
mod Tests
use next_deploy.Common.{
  ℕ, ◌+◌, Bool, true, false, not, ◌||◌, Option, none, some, List, [], ◌∷◌, ◌++◌, if◌then◌else◌,
}
use next_deploy.Common.Text.{Text, codes, text_eq, has_prefix}
use next_deploy.Common.Map.{Map, put}
use next_deploy.Daemon.Commands.{Arg}
use next_deploy.Daemon.Arguments.{string_arg}
use next_deploy.Daemon.Locks.{AppLocker, try_acquire, release}
use next_deploy.Daemon.Services.{find_app_services}
use next_deploy.Daemon.Caddy.{CaddyFiles, CaddyHost, Outcome, done, failed, remove_config}

pub record Machine : Type 0 where
  pub locks : AppLocker
  pub units : List Text
  pub running : List Text
  pub caddy : CaddyFiles
  pub files : List Text  -- the paths of all files of apps and logs
  pub uploads : List Text
  pub ports : Map ℕ

pub record DestroyHost : Type 0 where
  pub caddy : CaddyHost
  pub join : Text → Text → Text  -- filepath.Join
  pub units_listed : Bool
  pub stops : Text → Bool
  pub removes : Text → Bool
  pub reloaded : Bool
  pub tree_removed : Text → Bool  -- os.RemoveAll
  pub uploads_listed : Bool
  pub upload_removed : Text → Bool
  pub state_saved : Bool

pub data DestroyReply : Type 0 where
  no_app_name in_progress : DestroyReply
  destroyed : ℕ → DestroyReply  -- a success, with so many warnings

abbrev pub apps_dir : Text
apps_dir = codes "/opt/nextdeploy/apps"

-- A path that os.RemoveAll of `dir` deletes.
unfoldable pub is_under : Text → Text → Bool
is_under dir path = text_eq path dir || has_prefix path (dir ++ codes "/")

unfoldable pub remove_all : Text → List Text → List Text
remove_all dir [] = []
remove_all dir (f ∷ files) =
    let rest = remove_all dir files in if is_under dir f then rest else f ∷ rest

unfoldable pub exists_under : Text → List Text → Bool
exists_under dir [] = false
exists_under dir (f ∷ files) = is_under dir f || exists_under dir files

-- All but a name.
unfoldable pub dropped : Text → List Text → List Text
dropped x [] = []
dropped x (y ∷ ys) = let rest = dropped x ys in if text_eq y x then rest else y ∷ rest

-- A step, with the number of its warnings.
abbrev pub Step : Type 0
Step = Machine → ℕ × Machine

infixl 5 ◌&>◌
unfoldable pub ◌&>◌ : Step → Step → Step
◌&>◌ f g m = let (n, m1) = f m in let (k, m2) = g m1 in (n + k, m2)

warn : Bool → ℕ
warn fine = if fine then 0 else 1

-- The files after a step on them, and its warnings.
unfoldable pub files_of : Outcome → CaddyFiles
files_of (done files) = files
files_of (failed e files) = files

unfoldable pub warnings_of : Outcome → ℕ
warnings_of (done files) = 0
warnings_of (failed e files) = 1

module _ (host : DestroyHost) where
  unfoldable pub remove_unit : Text → Step
  unfolding warn
  remove_unit name m = (
    warn (if host.removes name then host.reloaded else false),
    record m {
      running = if host.stops name then dropped name m.running else m.running;
      units = if host.removes name then dropped name m.units else m.units;
    },
  )

  unfoldable pub remove_units : List Text → Step
  remove_units [] m = (0, m)
  remove_units (s ∷ services) m = (remove_unit s &> remove_units services) m

  unfoldable pub remove_app_services : Text → Step
  unfolding warn
  remove_app_services app m =
      if host.units_listed then remove_units (find_app_services app m.units) m else (1, m)

  unfoldable pub remove_fragment : Text → Step
  remove_fragment app m =
      let outcome = remove_config host.caddy app m.caddy in
      (warnings_of outcome, record m { caddy = files_of outcome })

  -- `if os.Stat finds it { os.RemoveAll }`, and the warnings for a failure.
  unfoldable pub remove_tree : ℕ → Text → Step
  remove_tree warnings dir m =
      if not (exists_under dir m.files)
      then (0, m)
      else if host.tree_removed dir
      then (0, record m { files = remove_all dir m.files })
      else (warnings, m)

  unfoldable pub remove_uploads_of : Text → List Text → List Text
  remove_uploads_of app [] = []
  remove_uploads_of app (u ∷ uploads) =
      let rest = remove_uploads_of app uploads in
      if has_prefix u app then (if host.upload_removed u then rest else u ∷ rest) else u ∷ rest

  unfoldable pub remove_uploads : Text → Step
  remove_uploads app m =
      if host.uploads_listed
      then (0, record m { uploads = remove_uploads_of app m.uploads })
      else (0, m)

  unfoldable pub clear_state : Text → Step
  unfolding warn
  clear_state app m = (warn host.state_saved, record m { ports = put app 0 m.ports })

  unfoldable pub log_file : Text → Text
  log_file app = codes "/var/log/containers/" ++ (app ++ codes ".log")

  unfoldable pub destroy : Text → Step
  destroy app =
      remove_app_services app
      &> remove_fragment app
      &> remove_tree 1 (host.join apps_dir app)
      &> remove_uploads app
      &> remove_tree 0 (log_file app)
      &> remove_tree 0 (host.join (codes "/var/log/containers") app)
      &> clear_state app

  -- Under the lock of the app, which is released at the end.
  unfoldable pub locked_destroy : Text → Bool × AppLocker → Machine → DestroyReply × Machine
  locked_destroy app (false, locks) m = (in_progress, record m { locks = locks })
  locked_destroy app (true, locks) m =
      let (warnings, after) = destroy app (record m { locks = locks }) in
      (destroyed warnings, record after { locks = release app after.locks })

  unfoldable pub destroy_named : Option Text → Machine → DestroyReply × Machine
  destroy_named none m = (no_app_name, m)
  destroy_named (some app) m = locked_destroy app (try_acquire app m.locks) m

  unfoldable pub handle_destroy : Map Arg → Machine → DestroyReply × Machine
  unfolding destroy_named
  handle_destroy args m = destroy_named (string_arg args (codes "appName")) m
