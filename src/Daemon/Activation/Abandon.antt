-- ===== src/Daemon/Activation/Abandon.antt =====
-- What an activation that fails its health check leaves on the host, and the listeners that any
-- activation leaves (activateRelease, daemon/internal/daemon/command_handler.go).
use next_deploy.Common.{
  ℕ, ◌≡◌, ◌⊎◌, ◌≢◌, inl, inr, refl, sym, ap, ◌∙◌, some, Bool, true, false, List, [], ◌∷◌, arith,
  Bool-cases, In,
}
use mathlib.Core.Path.{subst}
use next_deploy.Common.Text.{Text, text_eq, text_eq_iff}
use next_deploy.Common.Map.{get, put, get-put}
use next_deploy.Daemon.Services.{service_name}
use next_deploy.Daemon.Activation.{
  Server, ReleaseContext, Outcomes, Failure, health, Run, failed, without, launch, with_port,
  at_exit, release_port, select_port, note_drift, activate_release, ◌>>=◌,
}
use next_deploy.Daemon.Activation.Phases.{state_of, Run-cases, launch-healthy}

In-without : (u x : Text) (xs : List Text) → text_eq u x ≡ false → In u xs → In u (without x xs)
unfolding without
In-without u x [] ne i = elim i [ ]
In-without u x (y ∷ ys) ne (inl e) = rw (← e, ne) (inl refl)
In-without u x (y ∷ ys) ne (inr i) = elim (Bool-cases (text_eq y x)) [
  | inl hit ↦ rw hit (In-without u x ys ne i)
  | inr miss ↦ rw miss (inr (In-without u x ys ne i))
]

module _ (o : Outcomes) (ctx : ReleaseContext) where
  -- The unit of the release that is activated.
  abbrev new_unit : Text
  new_unit = service_name ctx.app ctx.release_id

  running-launch :
      (port : ℕ × Bool) (s : Server)
      → let s' = state_of (launch o ctx port s) in
        (s'.running ≡ s.running)
        ⊎ (s'.running ≡ new_unit ∷ s.running)
        ⊎ (s'.running ≡ without new_unit s.running)
        ⊎ (s'.running ≡ without new_unit (new_unit ∷ s.running))
  unfolding launch
  running-launch port s = ground arith

  -- A launch that fails leaves the new unit running only if it cannot be stopped.
  stopped-launch :
      (port : ℕ × Bool) (s : Server)
      → o.healthy ≡ false
      → o.stops new_unit ≡ true
      → let s' = state_of (launch o ctx port s) in
        (s'.running ≡ s.running)
        ⊎ (s'.running ≡ without new_unit s.running)
        ⊎ (s'.running ≡ without new_unit (new_unit ∷ s.running))
  unfolding launch
  stopped-launch port s sick stops = ground arith

  -- What a failed health check leaves of the port and of the unit's file.
  health-launch :
      (port : ℕ × Bool) (s s' : Server)
      → launch o ctx port s ≡ failed health s'
      → (s'.ports ≡ put ctx.app 0 s.ports)
        × ((o.removes new_unit ≡ true)
            → (s'.units ≡ s.units)
              ⊎ (s'.units ≡ without new_unit (new_unit ∷ without new_unit s.units)))
  unfolding launch
  health-launch port s s' h = ground (arith, h)

  In-launch :
      (port : ℕ × Bool) (s : Server) (u : Text)
      → text_eq u new_unit ≡ false
      → In u s.running
      → In u (state_of (launch o ctx port s)).running
  In-launch port s u ne i = elim (running-launch port s) [
    | inl same ↦ rw same i
    | inr (inl more) ↦ rw more (inr i)
    | inr (inr (inl less)) ↦ rw less (In-without u new_unit s.running ne i)
    | inr (inr (inr both)) ↦ rw both (In-without u new_unit (new_unit ∷ s.running) ne (inr i))
  ]

  same-release_port :
      (port : ℕ × Bool) (s : Server)
      → let s' = release_port o ctx port s in
        (s'.running ≡ s.running) × (s'.ports ≡ s.ports) × (s'.units ≡ s.units)
  unfolding release_port
  same-release_port port s = ground arith

  same-select_port :
      (s : Server)
      → let s' = state_of (select_port o ctx s) in (s'.running ≡ s.running) × (s'.units ≡ s.units)
  unfolding select_port
  same-select_port s = ground arith

  -- What is left of a release that was given up with this failure.
  pub record IsGivenUp (s : Server) (e : Failure) (s' : Server) : Type 0 where
    pub others_run : (u : Text) → text_eq u new_unit ≡ false → In u s.running → In u s'.running
    pub not_started : o.stops new_unit ≡ true → In new_unit s'.running → In new_unit s.running
    pub port_freed : e ≡ health → get ctx.app s'.ports ≡ some 0
    pub file_removed :
        e ≡ health → o.removes new_unit ≡ true → In new_unit s'.units → In new_unit s.units

  In-without_self : (x : Text) (xs : List Text) → ¬ In x (without x xs)
  unfolding without
  In-without_self x [] i = elim i [ ]
  In-without_self x (y ∷ ys) i = ground (arith, In-without_self x ys, text_eq_iff y x, i)

  not_started-launch :
      (port : ℕ × Bool) (s : Server)
      → o.healthy ≡ false
      → o.stops new_unit ≡ true
      → In new_unit (state_of (launch o ctx port s)).running
      → In new_unit s.running
  not_started-launch port s sick stops i = elim (stopped-launch port s sick stops) [
    | inl same ↦ rw (← same) i
    | inr (inl less) ↦ absurd (In-without_self new_unit s.running (rw (← less) i))
    | inr (inr both) ↦ absurd (In-without_self new_unit (new_unit ∷ s.running) (rw (← both) i))
  ]

  file_removed-launch :
      (port : ℕ × Bool) (s s' : Server)
      → launch o ctx port s ≡ failed health s'
      → o.removes new_unit ≡ true
      → In new_unit s'.units
      → In new_unit s.units
  file_removed-launch port s s' h removes i = elim ((health-launch port s s' h).1 removes) [
    | inl same ↦ rw (← same) i
    | inr gone ↦
        absurd (In-without_self new_unit (new_unit ∷ without new_unit s.units) (rw (← gone) i))
  ]

  launch-IsGivenUp :
      (port : ℕ × Bool) (s s' : Server) (e : Failure)
      → o.healthy ≡ false
      → launch o ctx port s ≡ failed e s'
      → IsGivenUp s e s'
  launch-IsGivenUp port s s' e sick r = record {
    others_run = λ u ne i. subst (λ t. In u (state_of t).running) r (In-launch port s u ne i);
    not_started = λ stops i.
        not_started-launch port s sick stops
          (subst (λ t. In new_unit (state_of t).running) (sym r) i);
    port_freed = λ same.
        let ports = (health-launch port s s' (r ∙ ap (λ (x : Failure). failed x s') same)).0 in
        ap (get ctx.app) ports
        ∙ ground (arith, get-put ctx.app ctx.app 0 s.ports, text_eq_iff ctx.app ctx.app);
    file_removed = λ same removes i.
        file_removed-launch port s s' (r ∙ ap (λ (x : Failure). failed x s') same) removes i;
  }

  -- States that agree on what runs, on the ports and on the units.
  moved-IsGivenUp :
      (s t s' t' : Server) (e : Failure)
      → (t.running ≡ s.running) × (t.units ≡ s.units)
      → (t'.running ≡ s'.running) × (t'.ports ≡ s'.ports) × (t'.units ≡ s'.units)
      → IsGivenUp t e s'
      → IsGivenUp s e t'
  moved-IsGivenUp s t s' t' e before after h = record {
    others_run = λ u ne i. rw after.0 (h.others_run u ne (rw before.0 i));
    not_started = λ stops i. rw (← before.0) (h.not_started stops (rw (← after.0) i));
    port_freed = λ same. ap (get ctx.app) after.1 ∙ h.port_freed same;
    file_removed =
        λ same removes i. rw (← before.1) (h.file_removed same removes (rw (← after.2) i));
  }

  -- The run has failed, and the release is given up.
  abbrev pub GivenUp : Server → Run (Unit {0}) → Type 0
  GivenUp s r = (e : Failure) × (s' : Server) × (r ≡ failed e s') × IsGivenUp s e s'

  with_port-GivenUp :
      (port : ℕ × Bool) (s : Server) → o.healthy ≡ false → GivenUp s (with_port o ctx port s)
  unfolding with_port at_exit
  with_port-GivenUp port s sick = elim (Run-cases (launch o ctx port s)) [
    | inl (name, s1, r) ↦ absurd (cc (sick, launch-healthy o ctx port s s1 name r))
    | inr (e, s1, r) ↦ rw r (
      e,
      release_port o ctx port s1,
      refl,
      moved-IsGivenUp s s s1 (release_port o ctx port s1) e (refl, refl) (same-release_port port s1)
          (launch-IsGivenUp port s s1 e sick r),
    )
  ]

  -- A run that failed before there was a port.
  portless-IsGivenUp :
      (s s' : Server) (e : Failure) → select_port o ctx s ≡ failed e s' → IsGivenUp s e s'
  unfolding select_port
  portless-IsGivenUp s s' e r =
      let same =
        subst (λ t. ((state_of t).running ≡ s.running) × ((state_of t).units ≡ s.units)) r
          (same-select_port s) in
      let other : e ≢ health = λ is. ground (arith, r, is) in
      record {
        others_run = λ u ne i. rw same.0 i;
        not_started = λ stops i. rw (← same.0) i;
        port_freed = λ is. absurd (other is);
        file_removed = λ is removes i. absurd (other is);
      }

  -- With a failed health check an activation fails. Every unit that ran before still runs, but for one
  -- of the very release that was activated; and that one runs after it only if it ran before, or cannot
  -- be stopped. If the activation came to the health check, the port of the app is set to 0, and the
  -- file of the new unit is there only if it was before, or cannot be removed.
  pub unhealthy-GivenUp : (s : Server) → o.healthy ≡ false → GivenUp s (activate_release o ctx s)
  unfolding activate_release note_drift
  unhealthy-GivenUp s sick =
      let s0 = note_drift o ctx s in
      elim (Run-cases (select_port o ctx s0)) [
        | inr (e, s1, r) ↦
            rw (r, ◌>>=◌)
              (
                e,
                s1,
                refl,
                moved-IsGivenUp s s0 s1 s1 e (refl, refl) (refl, refl, refl)
                    (portless-IsGivenUp s0 s1 e r),
              )
        | inl (port, s1, r) ↦
            let (e, s2, failing, given) = with_port-GivenUp port s1 sick in
            let same =
              subst (λ t. ((state_of t).running ≡ s0.running) × ((state_of t).units ≡ s0.units)) r
                (same-select_port s0) in
            rw (r, ◌>>=◌)
              (e, s2, failing, moved-IsGivenUp s s1 s2 s2 e same (refl, refl, refl) given)
      ]
