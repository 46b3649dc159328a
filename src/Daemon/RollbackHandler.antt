-- ===== src/Daemon/RollbackHandler.antt =====
-- handleRollback of daemon/internal/daemon/command_handler.go: the lock of the app, the choice of a
-- release and its activation. The metadata of a release is a parameter.
pub mod Reverted
mod Tests
use next_deploy.Common.{
  ℕ, Bool, true, false, not, ◌&&◌, Option, none, some, List, [], ◌∷◌, ◌++◌, ◌==◌, ltb, length,
  if◌then◌else◌,
}
use next_deploy.Common.Text.{Text, codes, text_eq}
use next_deploy.Common.Map.{Map, get}
use next_deploy.Common.Sort.{sort}
use next_deploy.Daemon.Commands.{Arg, text, truth, number, other}
use next_deploy.Daemon.Arguments.{string_arg, validate_app_name}
use next_deploy.Daemon.Locks.{AppLocker, try_acquire, release}
use next_deploy.Daemon.Releases.{
  RollbackError, not_enough_releases, Target, target, resolve_rollback_target,
}
use next_deploy.Daemon.Activation.{Server, ReleaseContext, Outcomes, Failure, Run, activate_release}

pub record Metadata : Type 0 where
  pub domain : Text
  pub output_mode : Text
  pub package_manager : Text
  pub git_commit : Text

pub record Site : Type 0 where
  pub locks : AppLocker
  pub server : Server

pub data RollbackReply : Type 0 where
  no_app_name bad_app_name in_progress both_given unreadable_releases unreadable_metadata :
      RollbackReply
  refused : RollbackError → RollbackReply
  activated : RollbackReply
  not_activated : Failure → RollbackReply

-- What a rollback is asked for: a number of steps, or a commit.
pub record Request : Type 0 where
  pub app : Text
  pub steps : ℕ
  pub to_commit : Text
  pub doppler_token : Text

-- `if v, ok := args["steps"].(float64); ok && v > 0 { steps = int(v) }`
unfoldable pub steps_of : Option Arg → ℕ
steps_of (some (number false n fraction)) = if n == 0 && not fraction then 1 else n
steps_of _ = 1

-- The string of an argument, "" if there is none.
unfoldable pub text_of : Option Text → Text
text_of none = []
text_of (some t) = t

unfoldable pub dir_of_release : Text → Text → Text
dir_of_release app id = codes "/opt/nextdeploy/apps/" ++ (app ++ (codes "/releases/" ++ id))

-- The context of an activation, with the domain "localhost" where there is none.
unfoldable pub context : Request → Text → Metadata → ReleaseContext
context r id meta = record {
  app = r.app;
  domain = if text_eq meta.domain [] then codes "localhost" else meta.domain;
  release_dir = dir_of_release r.app id;
  release_id = id;
  output_mode = meta.output_mode;
  doppler_token = r.doppler_token;
  package_manager = meta.package_manager;
  tarball = [];
}

unfoldable pub commit_of_metadata : Option Metadata → Option Text
commit_of_metadata none = none
commit_of_metadata (some meta) = some meta.git_commit

unfoldable pub answer : Run (Unit {0}) → RollbackReply × Server
answer (Run.done u s) = (activated, s)
answer (Run.failed e s) = (not_activated e, s)

module _ (o : Outcomes) (metadata : Text → Option Metadata) where
  unfoldable pub with_metadata : Request → Text → Option Metadata → Server → RollbackReply × Server
  with_metadata r id none s = (unreadable_metadata, s)
  with_metadata r id (some meta) s = answer (activate_release o (context r id meta) s)

  unfoldable pub at_target : Request → Target → Server → RollbackReply × Server
  at_target r (Target.failed e) s = (refused e, s)
  at_target r (target id) s = with_metadata r id (metadata id) s

  -- The release directories, sorted, from which one is chosen.
  unfoldable pub among : Request → Option (List Text) → Server → RollbackReply × Server
  among r none s = (unreadable_releases, s)
  among r (some names) s =
      if ltb (length names) 2
      then (refused not_enough_releases, s)
      else at_target r
          (resolve_rollback_target (λ id. commit_of_metadata (metadata id)) (sort names) r.steps
            r.to_commit)
          s

  unfoldable pub roll_back : Request → Server → RollbackReply × Server
  roll_back r s =
      if not (text_eq r.to_commit []) && not (r.steps == 1)
      then (both_given, s)
      else among r (get r.app s.releases) s

  unfoldable pub locked_rollback : Request → Bool × AppLocker → Site → RollbackReply × Site
  locked_rollback r (false, locks) site = (in_progress, record site { locks = locks })
  locked_rollback r (true, locks) site =
      let (reply, server) = roll_back r site.server in
      (reply, record { locks = release r.app locks; server = server })

  unfoldable pub rollback_named : Option Text → Map Arg → Site → RollbackReply × Site
  rollback_named none args site = (no_app_name, site)
  rollback_named (some app) args site =
      if validate_app_name app
      then locked_rollback
          (record {
            app = app;
            steps = steps_of (get (codes "steps") args);
            to_commit = text_of (string_arg args (codes "toCommit"));
            doppler_token = text_of (string_arg args (codes "dopplerToken"));
          })
          (try_acquire app site.locks) site
      else (bad_app_name, site)

  unfoldable pub handle_rollback : Map Arg → Site → RollbackReply × Site
  handle_rollback args site = rollback_named (string_arg args (codes "appName")) args site
