-- ===== src/Daemon/Activation/Tests.antt =====
-- A ship and a rollback of one app on a host whose outcomes are fixed
-- (daemon/internal/daemon/command_handler.go).
use next_deploy.Common.{ℕ, ◌≡◌, ◌⊎◌, refl, true, false, not, none, some, List, [], ◌∷◌, ◌==◌}
use next_deploy.Common.Text.{Text, codes, text_eq, text_le, has_prefix, has_suffix}
use next_deploy.Common.Sort.{sort}
use next_deploy.Common.Map.{get, put}
use next_deploy.Daemon.Fingerprint.{check_runtime_drift}
use next_deploy.Daemon.Services.{
  service_name, find_app_services, is_app_service, resolve_exec_start,
}
use next_deploy.Daemon.Releases.{releases_to_prune}
use next_deploy.Daemon.Activation.{
  Server, ReleaseContext, Outcomes, done, failed, health, activate_release, with_port, note_drift,
  select_port, launch, cut_over, tidy, at_exit,
}
use next_deploy.Daemon.Activation.Phases.{state_of}
use next_deploy.Daemon.Activation.Cutover.{cutover_needs_health, activated}
use next_deploy.Daemon.Activation.Abandon.{GivenUp, unhealthy-GivenUp}

abbrev shop : Text
shop = codes "shop"

abbrev fine : Outcomes
fine = record {
  fingerprint = record { node = codes "24"; bun = []; glibc = []; arch = []; os = [] };
  port_free = λ p. not (p == 3000);
  free_port = some 4001;
  env_rendered = true;
  resolve = λ t. t;
  limits_valid = true;
  unit_written = true;
  reloaded = true;
  started = true;
  healthy = true;
  port_file_written = true;
  linked = true;
  link_renamed = true;
  main_caddyfile = true;
  route_committed = true;
  caddy_valid = true;
  units_listed = true;
  stops = λ u. true;
  removes = λ u. true;
}

abbrev sick : Outcomes
sick = record fine { healthy = false }

abbrev names : List Text
names = codes "1-a" ∷ codes "2-b" ∷ codes "3-c" ∷ codes "4-d" ∷ codes "5-e" ∷ codes "6-f" ∷ []

abbrev old_unit : Text
old_unit = codes "nextdeploy-shop-6-f.service"

abbrev host : Server
host = record {
  ports = (shop, 3000) ∷ [];
  reserved = [];
  units = old_unit ∷ [];
  running = old_unit ∷ [];
  current = (shop, codes "releases/6-f") ∷ [];
  port_files = [];
  routes = (shop, (codes "shop.example", 3000)) ∷ [];
  releases = (shop, names) ∷ [];
  uploads = [];
  baseline = none;
}

-- A rollback to the oldest release.
abbrev oldest : ReleaseContext
oldest = record {
  app = shop;
  domain = codes "shop.example";
  release_dir = codes "releases/1-a";
  release_id = codes "1-a";
  output_mode = codes "standalone";
  doppler_token = [];
  package_manager = codes "npm";
  tarball = [];
}

rolled_back :
    activate_release fine oldest host ≡ done tt (state_of (activate_release fine oldest host))
unfolding activate_release with_port note_drift select_port launch cut_over tidy at_exit text_eq
    find_app_services is_app_service has_prefix has_suffix service_name resolve_exec_start get put
    check_runtime_drift releases_to_prune sort text_le
rolled_back = refl

given_up :
    activate_release sick oldest host ≡ failed health (state_of (activate_release sick oldest host))
unfolding activate_release with_port note_drift select_port launch cut_over tidy at_exit text_eq
    find_app_services is_app_service has_prefix has_suffix service_name resolve_exec_start get put
    check_runtime_drift releases_to_prune sort text_le
given_up = refl

abbrev rolled : Server
rolled = state_of (activate_release fine oldest host)

cutover_needs_health_example :
    let s' = rolled in
    ((s'.current ≡ host.current) × (s'.routes ≡ host.routes))
    ⊎ ((true ≡ true)
        × (s'.current ≡ put shop (codes "releases/1-a") host.current)
        × ((s'.routes ≡ host.routes)
            ⊎ ((p : ℕ) × (s'.routes ≡ put shop (codes "shop.example", p) host.routes))))
cutover_needs_health_example = cutover_needs_health fine oldest host

activated_example :
    (true ≡ true)
    × (get shop rolled.current ≡ some (codes "releases/1-a"))
    × ((p : ℕ) × (get shop rolled.routes ≡ some (codes "shop.example", p))
        × (get shop rolled.ports ≡ some p))
activated_example = activated fine oldest host rolled rolled_back

unhealthy-GivenUp_example : GivenUp sick oldest host (activate_release sick oldest host)
unhealthy-GivenUp_example = unhealthy-GivenUp sick oldest host refl
