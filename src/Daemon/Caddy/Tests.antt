-- ===== src/Daemon/Caddy/Tests.antt =====
-- A host with two apps (daemon/internal/daemon/caddy_manager.go).
use next_deploy.Common.{◌≡◌, refl, true, false, none, some, [], ◌∷◌, ◌++◌}
use next_deploy.Common.Text.{codes, text_eq, contains, has_prefix, has_suffix, trim_space}
use next_deploy.Common.Map.{get}
use next_deploy.Daemon.Caddy.{
  CaddyFiles, CaddyHost, generate_config, ensured, split_lines, join_lines, strip_default, onto,
  without_default_site, with_global, with_import, ended_line, import_line, coraza_global,
}
use next_deploy.Daemon.Caddy.Commit.{IsCommit, generate_config-IsCommit}

abbrev two_apps : CaddyFiles
two_apps = record {
  main = some (
      codes
        ":80 {\n\troot * /usr/share/caddy\n\tfile_server\n}\nimport /etc/caddy/nextdeploy.d/*.caddy\n");
  fragments =
      (codes "shop.caddy", codes "shop.example.com {\n}\n")
      ∷ (codes "blog.caddy", codes "blog.example.com {\n}\n")
      ∷ [];
}

-- A Caddy that accepts any configuration with the shop in it.
abbrev host : CaddyHost
host = record {
  config_dir = codes "/etc/caddy/nextdeploy.d";
  sandbox = some (codes "/tmp/nextdeploy-caddy-1");
  is_dir = λ name. false;
  readable = λ name. true;
  main_readable = true;
  staged = true;
  main_staged = true;
  valid = λ main files. elim (get (codes "shop.caddy") files) [ none ↦ false | some t ↦ true ];
  installed = true;
  main_written = true;
  removed = true;
  reload = true;
  fallback = true;
}

default_site_test :
    ensured (codes "/etc/caddy/nextdeploy.d") (
      codes
        ":80 {\n\troot * /usr/share/caddy\n\tfile_server\n}\nimport /etc/caddy/nextdeploy.d/*.caddy\n")
    ≡ coraza_global ++ codes "import /etc/caddy/nextdeploy.d/*.caddy\n"
unfolding ensured contains has_prefix has_suffix trim_space split_lines join_lines strip_default
    onto without_default_site with_global with_import ended_line import_line text_eq
default_site_test = refl

generate_config-IsCommit_example :
    IsCommit host
      (codes "docs")
      (codes "docs.example.com {\n}\n")
      two_apps
      (generate_config host (codes "docs") (codes "docs.example.com {\n}\n") two_apps)
generate_config-IsCommit_example =
    generate_config-IsCommit host (codes "docs") (codes "docs.example.com {\n}\n") two_apps
