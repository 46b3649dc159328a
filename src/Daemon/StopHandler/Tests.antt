-- ===== src/Daemon/StopHandler/Tests.antt =====
-- A stop of one of two apps (handleStopApp, daemon/internal/daemon/command_handler.go).
use next_deploy.Common.{◌≡◌, refl, ap, true, false, some, List, [], ◌∷◌}
use next_deploy.Common.Text.{Text, codes, text_eq, has_prefix, has_suffix}
use next_deploy.Common.Map.{Map, get}
use next_deploy.Daemon.Commands.{Arg, text}
use next_deploy.Daemon.Arguments.{string_arg}
use next_deploy.Daemon.Services.{is_app_service, find_app_services}
use next_deploy.Daemon.StopHandler.{
  Systemctl, Units, StopReply, is_down, stop_service, reply_to, stop_all, stop_found, stop_app,
  stop_named, handle_stop_app,
}
use next_deploy.Daemon.StopHandler.Stopped.{HasStopped, handle_stop_app-HasStopped}
use next_deploy.Daemon.Activation.{without}

abbrev two : List Text
two = codes "nextdeploy-shop-1.service" ∷ codes "nextdeploy-blog-1.service" ∷ []

abbrev units : Units
units = record { running = two; enabled = two }

abbrev stop_shop : Map Arg
stop_shop = (codes "appName", text (codes "shop")) ∷ []

abbrev wedged : Systemctl
wedged = record { stops = λ s. false; kills = λ s. false; disables = λ s. true }

-- The unit cannot be stopped, and the stop reports success.
shop_stopped : handle_stop_app wedged stop_shop (some two) units ≡ (
  StopReply.stopped,
  record { running = two; enabled = codes "nextdeploy-blog-1.service" ∷ [] },
)
unfolding handle_stop_app stop_named stop_app stop_found stop_all stop_service is_down reply_to
    string_arg get text_eq find_app_services is_app_service has_prefix has_suffix without
shop_stopped = refl

handle_stop_app-HasStopped_example :
    HasStopped wedged
      (string_arg stop_shop (codes "appName"))
      (some two)
      units
      (handle_stop_app wedged stop_shop (some two) units).1
handle_stop_app-HasStopped_example =
    handle_stop_app-HasStopped wedged stop_shop (some two) units
      (ap (λ (p : StopReply × Units). p.0) shop_stopped)
