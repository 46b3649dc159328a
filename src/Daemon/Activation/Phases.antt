-- ===== src/Daemon/Activation/Phases.antt =====
-- The phases of an activation (activateRelease, daemon/internal/daemon/command_handler.go): which part
-- of the host each leaves alone.
use next_deploy.Common.{
  ℕ, ◌≡◌, ◌⊎◌, inl, inr, refl, Bool, true, Option, none, some, List, [], ◌∷◌, arith, if◌then◌else◌,
}
use next_deploy.Common.Text.{Text, text_eq}
use next_deploy.Common.Map.{put}
use next_deploy.Daemon.Activation.{
  Server, ReleaseContext, Outcomes, Failure, Run, done, failed, launch, cut_over, tidy,
  remove_services, remove_old, found_services, select_port, remove_service,
}

abbrev pub state_of : {A : Type 0} → Run A → Server
state_of (done a s) = s
state_of (failed e s) = s

pub Run-cases :
    {A : Type 0} (r : Run A)
    → ((a : A) × (s : Server) × (r ≡ done a s)) ⊎ ((e : Failure) × (s : Server) × (r ≡ failed e s))
Run-cases (done a s) = inl (a, s, refl)
Run-cases (failed e s) = inr (e, s, refl)

-- What clients see: the links, the routes and the releases.
abbrev pub SameFront : Server → Server → Type 0
SameFront s s' = (s'.current ≡ s.current) × (s'.routes ≡ s.routes) × (s'.releases ≡ s.releases)

module _ (o : Outcomes) (ctx : ReleaseContext) where
  pub front-launch : (port : ℕ × Bool) (s : Server) → SameFront s (state_of (launch o ctx port s))
  unfolding launch
  front-launch port s = ground arith

  pub launch-healthy :
      (port : ℕ × Bool) (s s' : Server) (name : Option Text)
      → launch o ctx port s ≡ done name s'
      → o.healthy ≡ true
  unfolding launch
  launch-healthy port s s' name h = ground arith

  pub front-select_port : (s : Server) → SameFront s (state_of (select_port o ctx s))
  unfolding select_port
  front-select_port s = ground arith

  front-remove_services :
      (name : Text) (found : List Text) (s : Server)
      → ((remove_services o ctx name found s).current ≡ s.current)
        × ((remove_services o ctx name found s).routes ≡ s.routes)
        × ((remove_services o ctx name found s).ports ≡ s.ports)
  unfolding remove_services
  front-remove_services name [] s = (refl, refl, refl)
  front-remove_services name (f ∷ found) s = ground (
    arith,
    front-remove_services name found (if text_eq f name then s else remove_service o ctx f s),
  )

  pub front-tidy :
      (name : Option Text) (s : Server)
      → ((tidy o ctx name s).current ≡ s.current)
        × ((tidy o ctx name s).routes ≡ s.routes)
        × ((tidy o ctx name s).ports ≡ s.ports)
  unfolding tidy remove_old
  front-tidy none s = ground (arith, front-remove_services [] (found_services o ctx s) s)
  front-tidy (some name) s = ground (arith, front-remove_services name (found_services o ctx s) s)

  pub ports-launch :
      (port : ℕ × Bool) (s s' : Server) (name : Option Text)
      → launch o ctx port s ≡ done name s'
      → s'.ports ≡ s.ports
  unfolding launch
  ports-launch port s s' name h = ground arith

  -- The link moves first, the routes after it, and either stays moved if a later step fails.
  abbrev pub Moved : ℕ → Server → Server → Type 0
  Moved p s s' =
      (s'.current ≡ put ctx.app ctx.release_dir s.current)
      × ((s'.routes ≡ s.routes) ⊎ (s'.routes ≡ put ctx.app (ctx.domain, p) s.routes))

  abbrev pub Still : Server → Server → Type 0
  Still s s' = (s'.current ≡ s.current) × (s'.routes ≡ s.routes)

  pub front-cut_over :
      (port : ℕ × Bool) (name : Option Text) (s : Server)
      → let s' = state_of (cut_over o ctx port name s) in Still s s' ⊎ Moved port.0 s s'
  unfolding cut_over
  front-cut_over port name s = ground arith

  pub cut_over-done :
      (port : ℕ × Bool) (name : Option Text) (s s' : Server)
      → cut_over o ctx port name s ≡ done tt s'
      → (s'.current ≡ put ctx.app ctx.release_dir s.current)
        × (s'.routes ≡ put ctx.app (ctx.domain, port.0) s.routes)
        × (s'.ports ≡ s.ports)
        × (s'.releases ≡ s.releases)
  unfolding cut_over
  cut_over-done port name s s' h = ground arith
