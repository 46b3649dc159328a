-- ===== src/Daemon/Destroy/Tests.antt =====
-- Two apps on a host (handleDestroy, daemon/internal/daemon/command_handler.go).
use next_deploy.Common.{◌≡◌, refl, true, false, none, [], ◌∷◌, ◌++◌, if◌then◌else◌}
use next_deploy.Common.Text.{Text, codes, text_eq, has_prefix, has_suffix}
use next_deploy.Common.Map.{Map, get, put, remove}
use next_deploy.Daemon.Commands.{Arg, text}
use next_deploy.Daemon.Arguments.{string_arg}
use next_deploy.Daemon.Locks.{try_acquire, release}
use next_deploy.Daemon.Services.{is_app_service, find_app_services}
use next_deploy.Daemon.Caddy.{
  CaddyHost, sanitize_app_name, fragment_name, remove_config, removed_file,
}
use next_deploy.Daemon.Destroy.{
  Machine, DestroyHost, handle_destroy, destroy_named, locked_destroy, destroy, ◌&>◌,
  remove_app_services, remove_units, remove_unit, remove_fragment, remove_tree, exists_under,
  is_under, remove_all, remove_uploads, remove_uploads_of, clear_state, log_file, dropped, files_of,
  warnings_of,
}

abbrev caddy_host : CaddyHost
caddy_host = record {
  config_dir = codes "/etc/caddy/nextdeploy.d";
  sandbox = none;
  is_dir = λ name. false;
  readable = λ name. true;
  main_readable = true;
  staged = true;
  main_staged = true;
  valid = λ main files. true;
  installed = true;
  main_written = true;
  removed = true;
  reload = true;
  fallback = true;
}

abbrev host : DestroyHost
host = record {
  caddy = caddy_host;
  join = λ dir name. if text_eq name [] then dir else dir ++ (codes "/" ++ name);
  units_listed = true;
  stops = λ s. true;
  removes = λ s. true;
  reloaded = true;
  tree_removed = λ dir. true;
  uploads_listed = true;
  upload_removed = λ u. true;
  state_saved = true;
}

abbrev machine : Machine
machine = record {
  locks = [];
  units = codes "nextdeploy-shop-1.service" ∷ codes "nextdeploy-blog-1.service" ∷ [];
  running = codes "nextdeploy-shop-1.service" ∷ codes "nextdeploy-blog-1.service" ∷ [];
  caddy = record {
    main = none;
    fragments = (codes "shop.caddy", codes "a") ∷ (codes "blog.caddy", codes "b") ∷ [];
  };
  files =
      codes "/opt/nextdeploy/apps/shop/current" ∷ codes "/opt/nextdeploy/apps/blog/current" ∷ [];
  uploads = codes "shop-1.tar.gz" ∷ codes "shopping-1.tar.gz" ∷ codes "blog-1.tar.gz" ∷ [];
  ports = (codes "shop", 3000) ∷ (codes "blog", 3001) ∷ [];
}

abbrev arguments : Text → Map Arg
arguments app = (codes "appName", text app) ∷ []

-- The upload of another app whose name goes on from this one's is deleted with it.
prefix_test :
    (handle_destroy host (arguments (codes "shop")) machine).1.uploads ≡ codes "blog-1.tar.gz" ∷ []
unfolding handle_destroy destroy_named string_arg get put remove text_eq try_acquire release
    locked_destroy destroy ◌&>◌ remove_app_services remove_units remove_unit remove_fragment
    remove_tree exists_under is_under remove_all remove_uploads remove_uploads_of clear_state
    log_file dropped files_of warnings_of find_app_services is_app_service has_prefix has_suffix
    sanitize_app_name fragment_name remove_config removed_file
prefix_test = refl

-- An empty name is not refused, and the directory of all apps is removed.
empty_name_test : (handle_destroy host (arguments []) machine).1.files ≡ []
unfolding handle_destroy destroy_named string_arg get put remove text_eq try_acquire release
    locked_destroy destroy ◌&>◌ remove_app_services remove_units remove_unit remove_fragment
    remove_tree exists_under is_under remove_all remove_uploads remove_uploads_of clear_state
    log_file dropped files_of warnings_of find_app_services is_app_service has_prefix has_suffix
    sanitize_app_name fragment_name remove_config removed_file
empty_name_test = refl
