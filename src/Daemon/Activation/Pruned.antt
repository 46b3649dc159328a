-- ===== src/Daemon/Activation/Pruned.antt =====
-- The release directories that an activation leaves (pruneReleases and activateRelease,
-- daemon/internal/daemon/command_handler.go).
use next_deploy.Common.{
  ℕ, ◌≡◌, ◌↔◌, inl, inr, refl, ap, Bool, false, Option, none, some, List, [], ◌∷◌, arith,
  if◌then◌else◌, Bool-cases, In,
}
use next_deploy.Common.Text.{Text, text_eq, text_eq_iff, text_eq_refl}
use next_deploy.Common.Map.{get, get-put}
use next_deploy.Daemon.Releases.{releases_to_prune}
use next_deploy.Daemon.Activation.{
  Server, ReleaseContext, Outcomes, Run, done, failed, without, minus, launch, cut_over, tidy,
  remove_services, remove_old, found_services, prune_releases, at_exit, with_port, select_port,
  note_drift, activate_release, remove_service, ◌>>=◌,
}
use next_deploy.Daemon.Activation.Phases.{
  state_of, Run-cases, front-launch, front-select_port, cut_over-done,
}
use next_deploy.Daemon.Activation.Cutover.{no_done, activated}

In-without_iff :
    (u x : Text) (xs : List Text) → In u (without x xs) ↔ (In u xs × (text_eq u x ≡ false))
unfolding without
In-without_iff u x [] = (λ i. elim i [ ], λ h. elim h.0 [ ])
In-without_iff u x (y ∷ ys) =
    let ih = In-without_iff u x ys in
    let here : u ≡ y → text_eq u x ≡ text_eq y x = ap (λ t. text_eq t x) in
    elim (Bool-cases (text_eq y x)) [
      | inl hit ↦ rw hit (ground (arith, ih, hit, here))
      | inr miss ↦ rw miss (ground (arith, ih, miss, here))
    ]

pub In-minus_iff :
    (u : Text) (names gone : List Text) → In u (minus names gone) ↔ (In u names × ¬ In u gone)
unfolding minus
In-minus_iff u names [] = (λ i. (i, λ k. elim k [ ]), λ h. h.0)
In-minus_iff u names (x ∷ gone) =
    ground (arith, In-minus_iff u (without x names) gone, In-without_iff u x names, text_eq_iff u x)

module _ (o : Outcomes) (ctx : ReleaseContext) where
  releases-remove_services :
      (name : Text) (found : List Text) (s : Server)
      → (remove_services o ctx name found s).releases ≡ s.releases
  unfolding remove_services
  releases-remove_services name [] s = refl
  releases-remove_services name (f ∷ found) s = ground (
    arith,
    releases-remove_services name found (if text_eq f name then s else remove_service o ctx f s),
  )

  releases-remove_old :
      (name : Option Text) (s : Server) → (remove_old o ctx name s).releases ≡ s.releases
  unfolding remove_old
  releases-remove_old none s = releases-remove_services [] (found_services o ctx s) s
  releases-remove_old (some name) s = releases-remove_services name (found_services o ctx s) s

  releases-tidy :
      (name : Option Text) (s : Server) (names : List Text)
      → get ctx.app s.releases ≡ some names
      → get ctx.app (tidy o ctx name s).releases ≡ some (minus names (releases_to_prune names 5))
  unfolding tidy prune_releases
  releases-tidy name s names h =
      let m = minus names (releases_to_prune names 5) in
      ground (
        arith,
        releases-remove_old name s,
        get-put ctx.app ctx.app m s.releases,
        text_eq_refl ctx.app,
      )

  releases-at_exit :
      (port : ℕ × Bool) (r : Run (Unit {0}))
      → (state_of (at_exit o ctx port r)).releases ≡ (state_of r).releases
  unfolding at_exit
  releases-at_exit port (done a s) = ground arith
  releases-at_exit port (failed e s) = ground arith

  releases-with_port :
      (port : ℕ × Bool) (s s' : Server) (names : List Text)
      → with_port o ctx port s ≡ done tt s'
      → get ctx.app s.releases ≡ some names
      → get ctx.app s'.releases ≡ some (minus names (releases_to_prune names 5))
  unfolding with_port
  releases-with_port port s s' names h g = elim (Run-cases (launch o ctx port s)) [
    | inr (e, s1, r) ↦ absurd (no_done o ctx port e s1 s' (rw r at h))
    | inl (name, s1, r) ↦ elim (Run-cases (cut_over o ctx port name s1)) [
      | inr (e, s2, c) ↦ absurd (no_done o ctx port e s2 s' (rw (r, c) at h))
      | inl (a, s2, c) ↦
          let t = tidy o ctx name s2 in
          let same : at_exit o ctx port (done tt t) ≡ done tt s' = rw (r, c) at h in
          let g2 : get ctx.app s2.releases ≡ some names = ground (
            arith,
            g,
            front-launch o ctx port s,
            ap state_of r,
            cut_over-done o ctx port name s1 s2 c,
          ) in
          ground (
            arith,
            ap state_of same,
            releases-tidy name s2 names g2,
            releases-at_exit port (done tt t),
          )
    ]
  ]

  -- After a successful activation the app's release directories are those that there were, less the
  -- ones that releases_to_prune names for five, whether or not the active release is among them.
  left_iff :
      (s s' : Server) (names : List Text)
      → activate_release o ctx s ≡ done tt s'
      → get ctx.app s.releases ≡ some names
      → (left : List Text) × (get ctx.app s'.releases ≡ some left)
        × ((id : Text) → In id left ↔ (In id names × ¬ In id (releases_to_prune names 5)))
  unfolding activate_release note_drift
  left_iff s s' names h g =
      let s0 = note_drift o ctx s in
      let gone = releases_to_prune names 5 in
      elim (Run-cases (select_port o ctx s0)) [
        | inr (e, s1, r) ↦ let h' : failed e s1 ≡ done tt s' = rw (r, ◌>>=◌) at h in cc
        | inl (port, s1, r) ↦
            let h' : with_port o ctx port s1 ≡ done tt s' = rw (r, ◌>>=◌) at h in
            let g1 : get ctx.app s1.releases ≡ some names =
              ground (arith, g, front-select_port o ctx s0, ap state_of r) in
            (
              minus names gone,
              releases-with_port port s1 s' names h' g1,
              λ id. In-minus_iff id names gone,
            )
      ]

  -- Activating one of the releases that are to be pruned, as a rollback may, succeeds with the app's
  -- link on a release whose directory is deleted.
  active_release_deleted :
      (s s' : Server) (names : List Text)
      → activate_release o ctx s ≡ done tt s'
      → get ctx.app s.releases ≡ some names
      → In ctx.release_id (releases_to_prune names 5)
      → (get ctx.app s'.current ≡ some ctx.release_dir)
        × ((left : List Text) × (get ctx.app s'.releases ≡ some left) × ¬ In ctx.release_id left)
  active_release_deleted s s' names h g i =
      let (left, has, same) = left_iff s s' names h g in
      ((activated o ctx s s' h).1, (left, has, λ k. ((same ctx.release_id).0 k).1 i))
