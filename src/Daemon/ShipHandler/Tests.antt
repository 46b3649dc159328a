-- ===== src/Daemon/ShipHandler/Tests.antt =====
-- A ship across file systems (handleShip, daemon/internal/daemon/command_handler.go).
use next_deploy.Daemon.Releases.{short_sha}
use next_deploy.Common.{◌≡◌, refl, true, false, not, none, some, [], ◌∷◌, ◌==◌, if◌then◌else◌}
use next_deploy.Common.Text.{codes, text_eq, text_le, has_prefix, has_suffix, decimal}
use next_deploy.Common.Map.{Map, get, put}
use next_deploy.Archive.{
  regular, Archive, extract_tar_gz, extract_entries, extract_entry, extract_kind, within_dir,
  link_target, must, may,
}
use next_deploy.Daemon.Commands.{Arg, text}
use next_deploy.Daemon.Activation.{
  Outcomes, activate_release, with_port, note_drift, select_port, launch, cut_over, tidy, at_exit,
  without,
}
use next_deploy.Daemon.ShipHandler.{
  Package, cross_device, whole, ShipHost, ShipSite, ShipReply, validate_domain, release_id_of,
  handle_ship, ship_named, ship_tarball, in_temp_dir, extract_and_ship, cleaned, discard, discarded,
  with_package, read_metadata, read_candidates, locked_ship, unlocked, ship_app, move_release,
  copy_release, activate_shipped, reply_of_run, ship_context, coalesce, is_extracted, release_names,
  add_release, placed,
}
use next_deploy.Common.Sort.{sort}
use next_deploy.Common.FilePath.{clean, split_on, join_on, join_path, path_dir, is_abs}
use next_deploy.Daemon.Arguments.{string_arg, validate_app_name}
use next_deploy.Daemon.Locks.{try_acquire, release}
use next_deploy.Daemon.RollbackHandler.{text_of, dir_of_release}
use next_deploy.Daemon.Fingerprint.{check_runtime_drift}
use next_deploy.Daemon.Services.{
  service_name, find_app_services, is_app_service, resolve_exec_start,
}
use next_deploy.Daemon.Releases.{releases_to_prune, short_sha}
use next_deploy.Daemon.ShipHandler.Ended.{IsSettled, handle_ship-IsSettled}

abbrev answers : Outcomes
answers = record {
  fingerprint = record { node = codes "24"; bun = []; glibc = []; arch = []; os = [] };
  port_free = λ p. not (p == 3000);
  free_port = some 4001;
  env_rendered = true;
  resolve = λ t. t;
  limits_valid = true;
  unit_written = true;
  reloaded = true;
  started = true;
  healthy = true;
  port_file_written = true;
  linked = true;
  link_renamed = true;
  main_caddyfile = true;
  route_committed = true;
  caddy_valid = true;
  units_listed = true;
  stops = λ u. true;
  removes = λ u. true;
}

abbrev bundle : Package
bundle = record {
  app_name = codes "cart";
  domain = codes "cart.example.com";
  output_mode = codes "standalone";
  package_manager = codes "npm";
  git_commit = codes "abcdef012345";
}

abbrev upload : Archive
upload = record {
  entries = record { name = codes "metadata.json"; kind = regular 420 (codes "{}") } ∷ [];
  is_whole = true;
}

abbrev host : ShipHost
host = record {
  work_dir_made = true;
  temp_dir = some (codes "/opt/nextdeploy/tmp/unpack-1");
  archive = λ path. some upload;
  answers = λ c. true;
  read_file = λ path.
      if text_eq path (codes "/opt/nextdeploy/tmp/unpack-1/metadata.json")
      then some (codes "{}")
      else none;
  decode = λ t. some bundle;
  unix_time = 1780000000;
  releases_dir_made = true;
  renamed = cross_device;
  copied = whole;
  temp_removed = true;
}

abbrev site : ShipSite
site = record {
  locks = [];
  server = record {
    ports = [];
    reserved = [];
    units = [];
    running = [];
    current = [];
    port_files = [];
    routes = [];
    releases = [];
    uploads = codes "/opt/nextdeploy/uploads/cart.tar.gz" ∷ [];
    baseline = none;
  };
  unpacked = [];
}

abbrev args : Map Arg
args = (codes "tarball", text (codes "/opt/nextdeploy/uploads/cart.tar.gz")) ∷ []

id_test : release_id_of 1780000000 (codes "abcdef012345") ≡ codes "1780000000-abcdef0"
unfolding release_id_of decimal short_sha
id_test = refl

domain_test :
    (validate_domain (codes "a-b.example.com") ≡ true)
    × (validate_domain (codes "a--b.example.com") ≡ false)
    × (validate_domain (codes "example") ≡ false)
unfolding validate_domain text_eq split_on
domain_test = (refl, refl, refl)

shipped_test : (handle_ship answers host args site).0 ≡ ShipReply.activated
unfolding handle_ship ship_named ship_tarball in_temp_dir extract_and_ship cleaned discard discarded
    with_package read_metadata read_candidates locked_ship unlocked ship_app move_release
    copy_release activate_shipped reply_of_run ship_context coalesce validate_domain is_extracted
    release_id_of release_names add_release placed string_arg validate_app_name try_acquire release
    text_of dir_of_release clean split_on join_on join_path path_dir is_abs extract_tar_gz
    extract_entries extract_entry extract_kind within_dir link_target must may activate_release
    with_port note_drift select_port launch cut_over tidy at_exit text_eq find_app_services
    is_app_service has_prefix has_suffix service_name resolve_exec_start get check_runtime_drift
    releases_to_prune sort text_le short_sha decimal without put
shipped_test = refl

handle_ship-IsSettled_example : IsSettled answers host site (handle_ship answers host args site)
handle_ship-IsSettled_example = handle_ship-IsSettled answers host args site
