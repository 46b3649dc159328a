-- ===== src/Daemon/Services/Tests.antt =====
-- Units of two apps (daemon/internal/daemon/process_manager.go).
use next_deploy.Common.{◌≡◌, refl, some, List, [], ◌∷◌}
use next_deploy.Common.Text.{Text, codes, text_eq, has_prefix, has_suffix}
use next_deploy.Daemon.Services.{is_app_service, find_app_services, resolve_exec_start}

abbrev files : List Text
files =
    codes "nextdeploy-shop-1-a.service"
    ∷ codes "cron.service"
    ∷ codes "nextdeploy-shop.service"
    ∷ []

found :
    find_app_services (codes "shop") files
    ≡ codes "nextdeploy-shop-1-a.service" ∷ codes "nextdeploy-shop.service" ∷ []
unfolding find_app_services is_app_service has_prefix has_suffix text_eq
found = refl

with_token :
    resolve_exec_start (λ p. p) (codes "standalone") (codes "bun") (codes "t")
    ≡ some (codes "doppler run -- bun server.js")
unfolding resolve_exec_start text_eq
with_token = refl
