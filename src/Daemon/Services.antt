-- ===== src/Daemon/Services.antt =====
-- The systemd units of an app (daemon/internal/daemon/process_manager.go): their names, how those of
-- an app are found, the command line, and stopping and removing a unit.
pub mod Finding
mod Tests
use next_deploy.Common.{
  Bool, true, false, ◌&&◌, ◌||◌, Option, none, some, List, [], ◌∷◌, ◌++◌, if◌then◌else◌,
}
use next_deploy.Common.Text.{Text, codes, text_eq, has_prefix, has_suffix}

-- fmt.Sprintf("nextdeploy-%s-%s.service", appName, releaseID)
unfoldable pub service_name : Text → Text → Text
service_name app release_id =
    codes "nextdeploy-" ++ (app ++ (codes "-" ++ (release_id ++ codes ".service")))

unfoldable pub is_app_service : Text → Text → Bool
is_app_service app name =
    (has_prefix name (codes "nextdeploy-" ++ (app ++ codes "-"))
      && has_suffix name (codes ".service"))
    || text_eq name (codes "nextdeploy-" ++ (app ++ codes ".service"))

-- The loop of FindAppServices over the names in the systemd directory.
unfoldable pub find_app_services : Text → List Text → List Text
find_app_services app [] = []
find_app_services app (f ∷ files) =
    let rest = find_app_services app files in if is_app_service app f then f ∷ rest else rest

-- The command line of a release; "" in export mode, and `none` for an unknown mode. `resolve` is
-- resolveBinary, which searches the host for a program.
unfoldable pub resolve_exec_start : (Text → Text) → Text → Text → Text → Option Text
resolve_exec_start resolve output_mode package_manager doppler_token =
    if text_eq output_mode (codes "standalone")
    then with_doppler (
        (if text_eq package_manager (codes "bun")
          then resolve (codes "bun")
          else resolve (codes "node"))
        ++ codes " server.js")
    else if text_eq output_mode (codes "default")
    then with_doppler (
        if text_eq package_manager (codes "bun")
        then resolve (codes "bun") ++ codes " run start"
        else if text_eq package_manager (codes "yarn")
        then resolve (codes "yarn") ++ codes " start"
        else if text_eq package_manager (codes "pnpm")
        then resolve (codes "pnpm") ++ codes " start"
        else resolve (codes "npm") ++ codes " start")
    else if text_eq output_mode (codes "export")
    then some []
    else none
  where
    with_doppler : Text → Option Text
    with_doppler cmd =
        if text_eq doppler_token []
        then some cmd
        else some (resolve (codes "doppler") ++ (codes " run -- " ++ cmd))
