-- ===== src/Daemon/Activation.antt =====
-- activateRelease of daemon/internal/daemon/command_handler.go, with GenerateServiceFile, RemoveService
-- (process_manager.go), GetPort and SetPort (state_manager.go) and pruneReleases, over the state of the
-- host. What the host answers to each call is an outcome. Logging, the copy of the static assets and
-- the saving of the daemon's own state file are left out.
mod Host
pub mod Phases
pub mod Cutover
pub mod Abandon
pub mod Listeners
pub mod Pruned
mod Tests
pub use Host.*
use next_deploy.Common.{
  ℕ, ◌-◌, Bool, true, false, not, ◌||◌, Option, none, some, List, [], ◌∷◌, ◌==◌, if◌then◌else◌,
}
use next_deploy.Common.Text.{Text, text_eq}
use next_deploy.Common.Map.{Map, get, put}
use next_deploy.Daemon.Fingerprint.{EnvFingerprint, check_runtime_drift}
use next_deploy.Daemon.Services.{service_name, find_app_services, resolve_exec_start}
use next_deploy.Daemon.Releases.{releases_to_prune}

unfoldable pub without : Text → List Text → List Text
without x [] = []
without x (y ∷ ys) = let rest = without x ys in if text_eq y x then rest else y ∷ rest

-- Every name of `gone` is deleted.
unfoldable pub minus : List Text → List Text → List Text
unfolding without
minus names [] = names
minus names (x ∷ gone) = minus (without x names) gone

unfoldable pub close_port : ℕ → List ℕ → List ℕ
close_port p [] = []
close_port p (q ∷ qs) = let rest = close_port p qs in if q == p then qs else q ∷ rest

abbrev pub port_of : Option ℕ → ℕ
port_of none = 0
port_of (some p) = p

module _ (o : Outcomes) (ctx : ReleaseContext) where
  set_port : ℕ → Server → Server
  set_port p s = record s { ports = put ctx.app p s.ports }

  -- StopService, os.Remove, and a reload whose error the callers ignore.
  pub remove_service : Text → Server → Server
  unfolding without
  remove_service name s = record s {
    running = if o.stops name then without name s.running else s.running;
    units = if o.removes name then without name s.units else s.units;
  }

  unfoldable pub note_drift : Server → Server
  note_drift s = record s { baseline = (check_runtime_drift s.baseline o.fingerprint).1 }

  -- The port, and whether the daemon holds it by a listener of its own.
  unfoldable pub select_port : M (ℕ × Bool)
  unfolding set_port
  select_port s =
      let port = port_of (get ctx.app s.ports) in
      if port == 0 || not (o.port_free port)
      then elim o.free_port [
        | none ↦ failed port_allocation s
        | some p ↦ done (p, true) (set_port p (record s { reserved = p ∷ s.reserved }))
      ]
      else done (port, false) s

  release_port : ℕ × Bool → Server → Server
  unfolding close_port
  release_port (p, acquired) s =
      if acquired then record s { reserved = close_port p s.reserved } else s

  -- The name of the unit, or none in export mode.
  write_unit : M (Option Text)
  unfolding without
  write_unit = do
    require o.limits_valid bad_limits
    require o.unit_written unit_write
    let name = service_name ctx.app ctx.release_id
    modify (λ s. record s { units = name ∷ without name s.units })
    require o.reloaded daemon_reload
    done (some name)

  generate_for : Option Text → M (Option Text)
  unfolding write_unit
  generate_for none s = failed unknown_mode s
  generate_for (some exec_start) s = if text_eq exec_start [] then done none s else write_unit s

  generate_service_file : M (Option Text)
  unfolding generate_for
  generate_service_file =
      generate_for
        (resolve_exec_start o.resolve ctx.output_mode ctx.package_manager ctx.doppler_token)

  -- What is undone when a new release is given up.
  abandon : Option Text → Server → Server
  unfolding remove_service set_port
  abandon none s = set_port 0 s
  abandon (some name) s = set_port 0 (remove_service name s)

  -- The listener is closed before the unit starts, so that the unit can bind the port.
  start_service : ℕ × Bool → Option Text → M (Unit {0})
  unfolding abandon release_port
  start_service port none = done tt
  start_service port (some name) = do
    modify (release_port port)
    on_failure (abandon (some name)) (require o.started service_start)
    modify (λ s. record s { running = name ∷ s.running })

  await_health : Option Text → M (Unit {0})
  unfolding abandon
  await_health name = on_failure (abandon name) (require o.healthy health)

  write_port_file : ℕ → Server → Server
  write_port_file p s =
      if o.port_file_written then record s { port_files = put ctx.app p s.port_files } else s

  -- The link is made beside the old one and renamed over it.
  flip_current : M (Unit {0})
  flip_current = do
    require o.linked symlink_create
    require o.link_renamed symlink_rename
    modify (λ s. record s { current = put ctx.app ctx.release_dir s.current })

  route_traffic : ℕ → M (Unit {0})
  route_traffic p = do
    require o.main_caddyfile main_config
    require o.route_committed caddy_config
    modify (λ s. record s { routes = put ctx.app (ctx.domain, p) s.routes })
    require o.caddy_valid caddy_validation

  -- `for _, s := range services { if s != serviceName { … } }`
  remove_services : Text → List Text → Server → Server
  unfolding remove_service
  remove_services name [] s = s
  remove_services name (f ∷ found) s =
      remove_services name found (if text_eq f name then s else remove_service f s)

  -- The app's services, none where they cannot be listed.
  pub found_services : Server → List Text
  found_services s = if o.units_listed then find_app_services ctx.app s.units else []

  pub remove_old : Option Text → Server → Server
  unfolding remove_services found_services
  remove_old none s = remove_services [] (found_services s) s
  remove_old (some name) s = remove_services name (found_services s) s

  -- pruneReleases(app, keep)
  pub prune_releases : ℕ → Server → Server
  unfolding minus
  prune_releases keep s = elim (get ctx.app s.releases) [
    | none ↦ s
    | some names ↦ record s {
      releases = put ctx.app (minus names (releases_to_prune names keep)) s.releases;
    }
  ]

  drop_tarball : Server → Server
  unfolding without
  drop_tarball s =
      if text_eq ctx.tarball [] then s else record s { uploads = without ctx.tarball s.uploads }

  -- From the choice of the port to the change of the link.
  unfoldable pub launch : ℕ × Bool → M (Option Text)
  unfolding start_service await_health release_port generate_service_file set_port
  launch port = do
    require o.env_rendered env_render
    name ← on_failure (set_port 0) generate_service_file
    start_service port name
    await_health name
    modify (release_port port)
    done name

  unfoldable pub cut_over : ℕ × Bool → Option Text → M (Unit {0})
  unfolding write_port_file flip_current route_traffic
  cut_over port name = do modify (write_port_file port.0); flip_current; route_traffic port.0

  unfoldable pub tidy : Option Text → Server → Server
  unfolding remove_old prune_releases drop_tarball
  tidy name s = drop_tarball (prune_releases 5 (remove_old name s))

  -- The deferred close of the listener: closing it again does nothing.
  unfoldable pub at_exit : ℕ × Bool → Run (Unit {0}) → Run (Unit {0})
  unfolding release_port
  at_exit port (done a s) = done a (release_port port s)
  at_exit port (failed e s) = failed e (release_port port s)

  unfoldable pub with_port : ℕ × Bool → M (Unit {0})
  with_port port s =
      at_exit port ((do name ← launch port; cut_over port name; modify (tidy name)) s)

  unfoldable pub activate_release : M (Unit {0})
  activate_release = do modify note_drift; port ← select_port; with_port port
