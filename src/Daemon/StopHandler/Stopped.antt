-- ===== src/Daemon/StopHandler/Stopped.antt =====
-- What a stop that succeeds has done (handleStopApp, daemon/internal/daemon/command_handler.go).
use next_deploy.Common.{
  ◌≡◌, ◌≢◌, ◌↔◌, refl, ap, Bool, true, false, Option, none, some, List, [], ◌∷◌, In, if◌then◌else◌,
  arith, Bool-cases, inl, inr,
}
use next_deploy.Common.Text.{Text, codes, text_eq_iff}
use next_deploy.Common.Map.{Map}
use next_deploy.Daemon.Commands.{Arg}
use next_deploy.Daemon.Arguments.{string_arg}
use next_deploy.Daemon.Services.{find_app_services}
use next_deploy.Daemon.Activation.{without}
use next_deploy.Daemon.StopHandler.{
  Systemctl, Units, StopReply, reply_to, is_down, stop_service, stop_all, stop_found, stop_app,
  stop_named, handle_stop_app,
}

In-without_iff : (u x : Text) (ys : List Text) → In u (without x ys) ↔ (In u ys × (u ≢ x))
unfolding without
In-without_iff u x [] = ground arith
In-without_iff u x (y ∷ ys) = ground (arith, In-without_iff u x ys, text_eq_iff y x)

module _ (systemctl : Systemctl) where
  stopped_iff :
      (b : Bool) (u s : Text) (running : List Text)
      → is_down systemctl s ≡ b
      → In u (if b then without s running else running)
        ↔ (In u running × ¬ ((u ≡ s) × (is_down systemctl u ≡ true)))
  stopped_iff true u s running h =
      let own : u ≡ s → is_down systemctl u ≡ is_down systemctl s = ap (is_down systemctl) in
      ground (arith, In-without_iff u s running, own, h)
  stopped_iff false u s running h =
      let own : u ≡ s → is_down systemctl u ≡ is_down systemctl s = ap (is_down systemctl) in
      ground (arith, own, h)

  -- What runs after the loop, errors or not.
  stop_all-running_iff :
      (u : Text) (services : List Text) (units : Units)
      → In u (stop_all systemctl services units).1.running
        ↔ (In u units.running × ¬ (In u services × (is_down systemctl u ≡ true)))
  unfolding stop_all stop_service
  stop_all-running_iff u [] units = ground arith
  stop_all-running_iff u (s ∷ services) units = ground (
    arith,
    stop_all-running_iff u services (stop_service systemctl s units).1,
    stopped_iff (is_down systemctl s) u s units.running refl,
  )

  disabled_iff :
      (b : Bool) (u s : Text) (enabled : List Text)
      → b ≡ true
      → In u (if b then without s enabled else enabled) ↔ (In u enabled × (u ≢ s))
  disabled_iff true u s enabled h = In-without_iff u s enabled
  disabled_iff false u s enabled h = absurd (ground (arith, h))

  -- What is enabled after a loop without errors.
  stop_all-enabled_iff :
      (u : Text) (services : List Text) (units : Units)
      → (stop_all systemctl services units).0 ≡ 0
      → In u (stop_all systemctl services units).1.enabled ↔ (In u units.enabled × ¬ In u services)
  unfolding stop_all stop_service
  stop_all-enabled_iff u [] units h = ground arith
  stop_all-enabled_iff u (s ∷ services) units h =
      let fine : systemctl.disables s ≡ true = elim (Bool-cases (systemctl.disables s)) [
        | inl is ↦ is
        | inr is_not ↦ absurd (ground (arith, h, is_not))
      ] in
      let rest : (stop_all systemctl services (stop_service systemctl s units).1).0 ≡ 0 =
        ground (arith, h, fine) in
      ground (
        arith,
        stop_all-enabled_iff u services (stop_service systemctl s units).1 rest,
        disabled_iff (systemctl.disables s) u s units.enabled fine,
      )

  -- The units that FindAppServices finds are disabled, and those of them that could be stopped or
  -- killed do not run.
  pub IsStopped : List Text → Units → Units → Type 0
  IsStopped found units after =
      (u : Text)
      → (In u after.enabled ↔ (In u units.enabled × ¬ In u found))
        × (In u after.running
            ↔ (In u units.running × ¬ (In u found × (is_down systemctl u ≡ true))))

  stop_found-IsStopped :
      (found : List Text) (units : Units)
      → (stop_found systemctl found units).0 ≡ StopReply.stopped
      → IsStopped found units (stop_found systemctl found units).1
  unfolding stop_found reply_to IsStopped
  stop_found-IsStopped [] units h u = ground (arith, h)
  stop_found-IsStopped (s ∷ services) units h u = (
    stop_all-enabled_iff u (s ∷ services) units (ground (arith, h)),
    stop_all-running_iff u (s ∷ services) units,
  )

  -- What a stop that succeeds has read and done.
  pub HasStopped : Option Text → Option (List Text) → Units → Units → Type 0
  HasStopped app files units after =
      (name : Text) × (listed : List Text) × (app ≡ some name)
      × (files ≡ some listed)
      × IsStopped (find_app_services name listed) units after

  stop_named-HasStopped :
      (app : Option Text) (files : Option (List Text)) (units : Units)
      → (stop_named systemctl app files units).0 ≡ StopReply.stopped
      → HasStopped app files units (stop_named systemctl app files units).1
  unfolding stop_named stop_app HasStopped
  stop_named-HasStopped none files units h = ground (arith, h)
  stop_named-HasStopped (some name) none units h = ground (arith, h)
  stop_named-HasStopped (some name) (some listed) units h =
      (name, listed, refl, refl, stop_found-IsStopped (find_app_services name listed) units h)

  -- A stop that reports success has disabled exactly the units that FindAppServices finds for the app,
  -- among which may be those of an app whose name goes on from it with a dash. Of what ran, exactly
  -- those of the units found do not run any more that could be stopped or killed: a unit for which both
  -- failed runs on, although the stop reports success.
  pub handle_stop_app-HasStopped :
      (args : Map Arg) (files : Option (List Text)) (units : Units)
      → (handle_stop_app systemctl args files units).0 ≡ StopReply.stopped
      → HasStopped
          (string_arg args (codes "appName"))
          files
          units
          (handle_stop_app systemctl args files units).1
  unfolding handle_stop_app
  handle_stop_app-HasStopped args files units h =
      stop_named-HasStopped (string_arg args (codes "appName")) files units h
