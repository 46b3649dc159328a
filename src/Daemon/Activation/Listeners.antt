-- ===== src/Daemon/Activation/Listeners.antt =====
-- The listeners that an activation leaves (activateRelease and its deferred close,
-- daemon/internal/daemon/command_handler.go).
use next_deploy.Common.{
  ℕ, ◌≡◌, ◌≢◌, ◌⊎◌, inl, inr, refl, ap, Bool, true, false, Option, none, some, List, [], ◌∷◌, arith,
  if◌then◌else◌, In,
}
use next_deploy.Common.Text.{Text, text_eq}
use next_deploy.Daemon.Activation.{
  Server, ReleaseContext, Outcomes, Run, done, failed, close_port, launch, cut_over, tidy,
  with_port, at_exit, select_port, note_drift, activate_release, remove_service, remove_services,
  remove_old, found_services, ◌>>=◌,
}
use next_deploy.Daemon.Activation.Phases.{state_of, Run-cases}

close_port-absent : (p : ℕ) (ps : List ℕ) → ¬ In p ps → close_port p ps ≡ ps
unfolding close_port
close_port-absent p [] h = refl
close_port-absent p (q ∷ qs) h =
    let ih = close_port-absent p qs (λ i. h (inr i)) in
    let ne : p ≢ q = λ e. h (inl e) in ground (arith, ih, ne)

module _ (o : Outcomes) (ctx : ReleaseContext) where
  reserved-remove_services :
      (name : Text) (found : List Text) (s : Server)
      → (remove_services o ctx name found s).reserved ≡ s.reserved
  unfolding remove_services
  reserved-remove_services name [] s = refl
  reserved-remove_services name (f ∷ found) s = ground (
    arith,
    reserved-remove_services name found (if text_eq f name then s else remove_service o ctx f s),
  )

  reserved-tidy : (name : Option Text) (s : Server) → (tidy o ctx name s).reserved ≡ s.reserved
  unfolding tidy remove_old
  reserved-tidy none s = ground (arith, reserved-remove_services [] (found_services o ctx s) s)
  reserved-tidy (some name) s =
      ground (arith, reserved-remove_services name (found_services o ctx s) s)

  reserved-cut_over :
      (port : ℕ × Bool) (name : Option Text) (s : Server)
      → (state_of (cut_over o ctx port name s)).reserved ≡ s.reserved
  unfolding cut_over
  reserved-cut_over port name s = ground arith

  -- The daemon's listeners are `ps`, and perhaps the one that was acquired.
  abbrev Holding : ℕ × Bool → List ℕ → List ℕ → Type 0
  Holding port ps l = (l ≡ ps) ⊎ ((port.1 ≡ true) × (l ≡ port.0 ∷ ps))

  -- A listener that is not the daemon's own is not closed; one that was acquired is not in `ps`.
  abbrev Closes : ℕ × Bool → List ℕ → Type 0
  Closes port ps = (port.1 ≡ false) ⊎ (close_port port.0 ps ≡ ps)

  Holding-launch :
      (port : ℕ × Bool) (ps : List ℕ) (s : Server)
      → Closes port ps
      → Holding port ps s.reserved
      → Holding port ps (state_of (launch o ctx port s)).reserved
  unfolding launch close_port
  Holding-launch port ps s absent h = ground arith

  Holding-at_exit :
      (port : ℕ × Bool) (ps : List ℕ) (r : Run (Unit {0}))
      → Closes port ps
      → Holding port ps (state_of r).reserved
      → (state_of (at_exit o ctx port r)).reserved ≡ ps
  unfolding at_exit close_port
  Holding-at_exit port ps (done a s) absent h = ground arith
  Holding-at_exit port ps (failed e s) absent h = ground arith

  Holding-with_port :
      (port : ℕ × Bool) (ps : List ℕ) (s : Server)
      → Closes port ps
      → Holding port ps s.reserved
      → (state_of (with_port o ctx port s)).reserved ≡ ps
  unfolding with_port
  Holding-with_port port ps s absent h = elim (Run-cases (launch o ctx port s)) [
    | inr (e, s1, r) ↦ rw r (
        Holding-at_exit port ps (failed e s1) absent
          (rw (← ap state_of r) (Holding-launch port ps s absent h)))
    | inl (name, s1, r) ↦
        let h1 : Holding port ps s1.reserved =
          rw (← ap state_of r) (Holding-launch port ps s absent h) in
        elim (Run-cases (cut_over o ctx port name s1)) [
          | inr (e, s2, c) ↦
              let same : s2.reserved ≡ s1.reserved =
                ground (arith, reserved-cut_over port name s1, ap state_of c) in
              rw (r, c) (Holding-at_exit port ps (failed e s2) absent (rw same h1))
          | inl (a, s2, c) ↦
              let same : (tidy o ctx name s2).reserved ≡ s1.reserved =
                ground
                  (arith, reserved-cut_over port name s1, ap state_of c, reserved-tidy name s2) in
              rw (r, c) (Holding-at_exit port ps (done tt (tidy o ctx name s2)) absent (rw same h1))
        ]
  ]

  -- The port that is chosen, and the daemon's listeners with it.
  Chosen : List ℕ → Run (ℕ × Bool) → Type 0
  Chosen ps (failed e s) = s.reserved ≡ ps
  Chosen ps (done port s) =
      ((port.1 ≡ false) × (s.reserved ≡ ps))
      ⊎ ((port.1 ≡ true) × (o.free_port ≡ some port.0) × (s.reserved ≡ port.0 ∷ ps))

  select_port-Chosen : (s : Server) → Chosen s.reserved (select_port o ctx s)
  unfolding select_port Chosen
  select_port-Chosen s = ground arith

  -- However an activation ends, the daemon listens on the ports that it listened on before: a port
  -- that is free is none of them, and what was acquired for the activation is closed again.
  no_listener_left :
      (s : Server)
      → ((p : ℕ) → o.free_port ≡ some p → ¬ In p s.reserved)
      → (state_of (activate_release o ctx s)).reserved ≡ s.reserved
  unfolding activate_release note_drift Chosen
  no_listener_left s fresh =
      let s0 = note_drift o ctx s in
      let chosen = select_port-Chosen s0 in
      elim (Run-cases (select_port o ctx s0)) [
        | inr (e, s1, r) ↦ rw (r, ◌>>=◌) (rw r at chosen)
        | inl (port, s1, r) ↦
            let c : Chosen s.reserved (done port s1) = rw r at chosen in
            rw (r, ◌>>=◌)
              (elim c [
                | inl (own, same) ↦ Holding-with_port port s.reserved s1 (inl own) (inl same)
                | inr (held, free, more) ↦
                    Holding-with_port port s.reserved s1
                      (inr (close_port-absent port.0 s.reserved (fresh port.0 free)))
                      (inr (held, more))
              ])
      ]
