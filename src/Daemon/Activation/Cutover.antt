-- ===== src/Daemon/Activation/Cutover.antt =====
-- When an activation (activateRelease, daemon/internal/daemon/command_handler.go) moves the `current`
-- link and the routes, and what a successful one has done.
use next_deploy.Common.{ℕ, ◌≡◌, ◌≢◌, ◌⊎◌, inl, inr, ap, Bool, true, some, arith}
use next_deploy.Common.Text.{text_eq_refl}
use next_deploy.Common.Map.{get, put, get-put}
use next_deploy.Daemon.Activation.{
  Server, ReleaseContext, Outcomes, Failure, Run, done, failed, launch, cut_over, tidy, at_exit,
  with_port, select_port, note_drift, activate_release, port_of, ◌>>=◌,
}
use next_deploy.Daemon.Activation.Phases.{
  state_of, Run-cases, front-launch, launch-healthy, front-select_port, front-tidy, ports-launch,
  Moved, Still, front-cut_over, cut_over-done,
}

module _ (o : Outcomes) (ctx : ReleaseContext) where
  -- The close of the listener touches only the daemon's own ports.
  front-at_exit :
      (port : ℕ × Bool) (r : Run (Unit {0}))
      → ((state_of (at_exit o ctx port r)).current ≡ (state_of r).current)
        × ((state_of (at_exit o ctx port r)).routes ≡ (state_of r).routes)
        × ((state_of (at_exit o ctx port r)).ports ≡ (state_of r).ports)
  unfolding at_exit
  front-at_exit port (done a s) = ground arith
  front-at_exit port (failed e s) = ground arith

  front-with_port :
      (port : ℕ × Bool) (s : Server)
      → let s' = state_of (with_port o ctx port s) in
        Still o ctx s s' ⊎ ((o.healthy ≡ true) × Moved o ctx port.0 s s')
  unfolding with_port
  front-with_port port s = elim (Run-cases (launch o ctx port s)) [
    | inr (e, s1, r) ↦ rw r (
        inl (
          ground
            (arith, front-launch o ctx port s, ap state_of r, front-at_exit port (failed e s1))))
    | inl (name, s1, r) ↦ elim (Run-cases (cut_over o ctx port name s1)) [
      | inr (e, s2, c) ↦
          rw (r, c)
            (ground (
              arith,
              launch-healthy o ctx port s s1 name r,
              front-launch o ctx port s,
              ap state_of r,
              ap state_of c,
              front-cut_over o ctx port name s1,
              front-at_exit port (failed e s2),
            ))
      | inl (a, s2, c) ↦
          rw (r, c)
            (ground (
              arith,
              launch-healthy o ctx port s s1 name r,
              front-launch o ctx port s,
              ap state_of r,
              cut_over-done o ctx port name s1 s2 c,
              front-tidy o ctx name s2,
              front-at_exit port (done tt (tidy o ctx name s2)),
            ))
    ]
  ]

  pub no_done :
      (port : ℕ × Bool) (e : Failure) (s s' : Server) → at_exit o ctx port (failed e s) ≢ done tt s'
  unfolding at_exit
  no_done port e s s' h = cc

  done-with_port :
      (port : ℕ × Bool) (s s' : Server)
      → with_port o ctx port s ≡ done tt s'
      → (o.healthy ≡ true)
        × (s'.current ≡ put ctx.app ctx.release_dir s.current)
        × (s'.routes ≡ put ctx.app (ctx.domain, port.0) s.routes)
        × (s'.ports ≡ s.ports)
  unfolding with_port
  done-with_port port s s' h = elim (Run-cases (launch o ctx port s)) [
    | inr (e, s1, r) ↦ absurd (no_done port e s1 s' (rw r at h))
    | inl (name, s1, r) ↦ elim (Run-cases (cut_over o ctx port name s1)) [
      | inr (e, s2, c) ↦ absurd (no_done port e s2 s' (rw (r, c) at h))
      | inl (a, s2, c) ↦
          let t = tidy o ctx name s2 in
          let same : at_exit o ctx port (done tt t) ≡ done tt s' = rw (r, c) at h in
          let e : state_of (at_exit o ctx port (done tt t)) ≡ s' = ap state_of same in
          rw (← e) (
            ground (
              arith,
              launch-healthy o ctx port s s1 name r,
              front-launch o ctx port s,
              ap state_of r,
              cut_over-done o ctx port name s1 s2 c,
              front-tidy o ctx name s2,
              ports-launch o ctx port s s1 name r,
              front-at_exit port (done tt t),
            ))
    ]
  ]

  port_kept :
      (s : Server)
      → port_of (get ctx.app s.ports) ≢ 0
      → get ctx.app s.ports ≡ some (port_of (get ctx.app s.ports))
  port_kept s h = ground arith

  -- The port that is chosen is the one that the state holds afterwards.
  select_port-held :
      (s s' : Server) (port : ℕ × Bool)
      → select_port o ctx s ≡ done port s'
      → get ctx.app s'.ports ≡ some port.0
  unfolding select_port
  select_port-held s s' port h = ground (
    arith,
    port_kept s,
    ap state_of h,
    get-put ctx.app ctx.app (port_of o.free_port) s.ports,
    text_eq_refl ctx.app,
  )

  widen :
      (s s1 s' : Server) (p : ℕ)
      → Still o ctx s s1
      → Still o ctx s1 s' ⊎ ((o.healthy ≡ true) × Moved o ctx p s1 s')
      → Still o ctx s s'
        ⊎ ((o.healthy ≡ true)
            × (s'.current ≡ put ctx.app ctx.release_dir s.current)
            × ((s'.routes ≡ s.routes)
                ⊎ ((q : ℕ) × (s'.routes ≡ put ctx.app (ctx.domain, q) s.routes))))
  widen s s1 s' p still (inl same) = inl (ground arith)
  widen s s1 s' p still (inr (ok, (link, inl route))) = inr (ok, ground arith, inl (ground arith))
  widen s s1 s' p still (inr (ok, (link, inr route))) =
      inr (ok, ground arith, inr (p, ground arith))

  -- However an activation ends: the link and the routes are as they were, or the new release has
  -- passed its health check, the app's link points to it, and at most the app's own route has moved.
  pub cutover_needs_health :
      (s : Server)
      → let s' = state_of (activate_release o ctx s) in
        ((s'.current ≡ s.current) × (s'.routes ≡ s.routes))
        ⊎ ((o.healthy ≡ true)
            × (s'.current ≡ put ctx.app ctx.release_dir s.current)
            × ((s'.routes ≡ s.routes)
                ⊎ ((p : ℕ) × (s'.routes ≡ put ctx.app (ctx.domain, p) s.routes))))
  unfolding activate_release note_drift
  cutover_needs_health s =
      let s0 = note_drift o ctx s in
      elim (Run-cases (select_port o ctx s0)) [
        | inr (e, s1, r) ↦
            rw (r, ◌>>=◌) (inl (ground (arith, front-select_port o ctx s0, ap state_of r)))
        | inl (port, s1, r) ↦
            rw (r, ◌>>=◌)
              (widen s s1 (state_of (with_port o ctx port s1)) port.0
                (ground (arith, front-select_port o ctx s0, ap state_of r))
                (front-with_port port s1))
      ]

  -- A successful activation has passed the health check; the app's link points to the release, and
  -- its route to the port that the state holds for it.
  pub activated :
      (s s' : Server)
      → activate_release o ctx s ≡ done tt s'
      → (o.healthy ≡ true)
        × (get ctx.app s'.current ≡ some ctx.release_dir)
        × ((p : ℕ) × (get ctx.app s'.routes ≡ some (ctx.domain, p))
            × (get ctx.app s'.ports ≡ some p))
  unfolding activate_release note_drift
  activated s s' h =
      let s0 = note_drift o ctx s in
      elim (Run-cases (select_port o ctx s0)) [
        | inr (e, s1, r) ↦ let h' : failed e s1 ≡ done tt s' = rw (r, ◌>>=◌) at h in cc
        | inl (port, s1, r) ↦
            let h' : with_port o ctx port s1 ≡ done tt s' = rw (r, ◌>>=◌) at h in
            let (ok, links, routes, ports) = done-with_port port s1 s' h' in
            (
              ok,
              rw (links, get-put, text_eq_refl ctx.app),
              (
                port.0,
                rw (routes, get-put, text_eq_refl ctx.app),
                rw ports (select_port-held s0 s1 port r),
              ),
            )
      ]
