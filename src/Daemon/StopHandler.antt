-- ===== src/Daemon/StopHandler.antt =====
-- handleStopApp of daemon/internal/daemon/command_handler.go, with StopService of process_manager.go,
-- whose answer is that of `systemctl disable`: what came of stopping and killing only shows in what runs.
pub mod Stopped
mod Tests
use next_deploy.Common.{
  ℕ, suc, ◌==◌, ◌||◌, Bool, true, false, Option, none, some, List, [], ◌∷◌, if◌then◌else◌,
}
use next_deploy.Common.Text.{Text, codes}
use next_deploy.Common.Map.{Map}
use next_deploy.Daemon.Commands.{Arg}
use next_deploy.Daemon.Arguments.{string_arg}
use next_deploy.Daemon.Services.{find_app_services}
use next_deploy.Daemon.Activation.{without}

pub data StopReply : Type 0 where
  no_app_name unlisted no_services stopped : StopReply
  not_all_stopped : ℕ → StopReply  -- so many units could not be disabled

-- What systemd answers for a unit.
pub record Systemctl : Type 0 where
  pub stops : Text → Bool  -- `stop` succeeds, or the unit is not loaded
  pub kills : Text → Bool  -- after a failed stop, the unit is down, be it by `kill -9`
  pub disables : Text → Bool  -- `disable` succeeds, or the unit is not loaded

pub record Units : Type 0 where
  pub running : List Text
  pub enabled : List Text

unfoldable pub reply_to : ℕ → StopReply
reply_to errors = if errors == 0 then stopped else not_all_stopped errors

module _ (systemctl : Systemctl) where
  unfoldable pub is_down : Text → Bool
  is_down s = systemctl.stops s || systemctl.kills s

  -- Whether it went without an error, and the units afterwards.
  unfoldable pub stop_service : Text → Units → Bool × Units
  stop_service s units = (
    systemctl.disables s,
    record {
      running = if is_down s then without s units.running else units.running;
      enabled = if systemctl.disables s then without s units.enabled else units.enabled;
    },
  )

  -- The number of errors, and the units afterwards: an error does not end the loop.
  unfoldable pub stop_all : List Text → Units → ℕ × Units
  stop_all [] units = (0, units)
  stop_all (s ∷ services) units =
      let (fine, next) = stop_service s units in
      let (errors, after) = stop_all services next in (if fine then errors else suc errors, after)

  unfoldable pub stop_found : List Text → Units → StopReply × Units
  stop_found [] units = (no_services, units)
  stop_found (s ∷ services) units =
      let (errors, after) = stop_all (s ∷ services) units in (reply_to errors, after)

  -- `files` are the names in the directory of systemd, if it can be read.
  unfoldable pub stop_app : Text → Option (List Text) → Units → StopReply × Units
  stop_app app none units = (unlisted, units)
  stop_app app (some files) units = stop_found (find_app_services app files) units

  unfoldable pub stop_named : Option Text → Option (List Text) → Units → StopReply × Units
  stop_named none files units = (no_app_name, units)
  stop_named (some app) files units = stop_app app files units

  unfoldable pub handle_stop_app : Map Arg → Option (List Text) → Units → StopReply × Units
  handle_stop_app args files units = stop_named (string_arg args (codes "appName")) files units
