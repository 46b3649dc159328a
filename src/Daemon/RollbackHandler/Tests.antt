-- ===== src/Daemon/RollbackHandler/Tests.antt =====
-- A rollback to a commit on a host whose outcomes are fixed (handleRollback,
-- daemon/internal/daemon/command_handler.go).
use next_deploy.Common.{◌≡◌, refl, true, not, Option, none, some, [], ◌∷◌, ◌==◌}
use next_deploy.Common.Text.{Text, codes, text_eq, text_le, has_prefix, has_suffix}
use next_deploy.Common.Map.{get}
use next_deploy.Common.Sort.{sort}
use next_deploy.Daemon.Fingerprint.{check_runtime_drift}
use next_deploy.Daemon.Services.{
  service_name, find_app_services, is_app_service, resolve_exec_start,
}
use next_deploy.Daemon.Releases.{releases_to_prune, resolve_rollback_target}
use next_deploy.Daemon.Activation.{
  Server, Outcomes, activate_release, with_port, note_drift, select_port, launch, cut_over, tidy,
  at_exit,
}
use next_deploy.Daemon.RollbackHandler.{
  Metadata, Request, RollbackReply, dir_of_release, context, commit_of_metadata, answer,
  with_metadata, at_target, among, roll_back,
}
use next_deploy.Daemon.RollbackHandler.Reverted.{IsReverted, roll_back-IsReverted}

abbrev cart : Text
cart = codes "cart"

abbrev answers : Outcomes
answers = record {
  fingerprint = record { node = codes "24"; bun = []; glibc = []; arch = []; os = [] };
  port_free = λ p. not (p == 3000);
  free_port = some 4001;
  env_rendered = true;
  resolve = λ t. t;
  limits_valid = true;
  unit_written = true;
  reloaded = true;
  started = true;
  healthy = true;
  port_file_written = true;
  linked = true;
  link_renamed = true;
  main_caddyfile = true;
  route_committed = true;
  caddy_valid = true;
  units_listed = true;
  stops = λ u. true;
  removes = λ u. true;
}

abbrev machine : Server
machine = record {
  ports = (cart, 3000) ∷ [];
  reserved = [];
  units = [];
  running = [];
  current = (cart, codes "releases/2-b") ∷ [];
  port_files = [];
  routes = [];
  releases = (cart, codes "2-b" ∷ codes "1-a" ∷ []) ∷ [];
  uploads = [];
  baseline = none;
}

abbrev metadata_of : Text → Option Metadata
metadata_of id = some (record {
  domain = [];
  output_mode = codes "standalone";
  package_manager = codes "npm";
  git_commit = [];
})

abbrev one_step : Request
one_step = record { app = cart; steps = 1; to_commit = []; doppler_token = [] }

succeeded : (roll_back answers metadata_of one_step machine).0 ≡ RollbackReply.activated
unfolding roll_back among at_target with_metadata answer context dir_of_release commit_of_metadata
    resolve_rollback_target activate_release with_port note_drift select_port launch cut_over tidy
    at_exit text_eq find_app_services is_app_service has_prefix has_suffix service_name
    resolve_exec_start get check_runtime_drift releases_to_prune sort text_le
succeeded = refl

roll_back-IsReverted_example :
    IsReverted answers metadata_of one_step machine
      (roll_back answers metadata_of one_step machine).1
roll_back-IsReverted_example = roll_back-IsReverted answers metadata_of one_step machine succeeded
