-- ===== src/Daemon/Commands/Sessions.antt =====
-- A series of connections, as socket_server.go and command_handler.go of daemon/internal/daemon serve
-- them one after another.
use next_deploy.Common.{
  ℕ, ◌≤◌, ◌<◌, ◌≡◌, inl, inr, false, Option, none, some, List, [], ◌∷◌, arith, Bool-cases,
}
use next_deploy.Common.Text.{Text}
use next_deploy.Common.Map.{get}
use next_deploy.Daemon.Clock.{max_duration}
use next_deploy.Daemon.ReplayGuard.{ReplayGuard, check}
use next_deploy.Daemon.ReplayGuard.Seen.{IsGuard, check-IsGuard}
use next_deploy.Daemon.ReplayGuard.Replay.{IsPast, Guarded, Guarded-check, accepted_seen, refused}
use next_deploy.Daemon.Commands.{
  Command, DaemonConfig, Host, Daemon, handle_command, handle_connection, identity_of,
  validate_command,
}
use next_deploy.Daemon.Commands.Pipeline.{
  Authorized, gates_guard, handle_guard, unauthorized_unchanged, Authorized-guard,
}

-- Each connection: its time, its remote address, and its command if the JSON decodes.
abbrev pub Connections : Type 0
Connections = List (ℕ × Text × Option Command)

abbrev pub InTime : ℕ → Connections → ℕ → Type 0
InTime t [] t' = t ≤ t'
InTime t ((now, remote, cmd) ∷ cs) t' = (t ≤ now) × InTime now cs t'

InTime-le : {t t' : ℕ} (cs : Connections) → InTime t cs t' → t ≤ t'
InTime-le [] h = h
InTime-le ((now, remote, cmd) ∷ cs) h = omega (arith, InTime-le cs h.1)

-- What the guard holds of a nonce that was accepted at `t0`.
abbrev Holds : ℕ → ℕ → Text → ℕ → ReplayGuard → Type 0
Holds w t0 k t rg = IsGuard w rg × Guarded w t0 t (get k rg.seen)

module _ {World : Type 0} (host : Host World) (config : DaemonConfig) where
  pub serve : Connections → Daemon World → Daemon World
  serve [] d = d
  serve ((now, remote, cmd) ∷ cs) d = serve cs (handle_connection host config now remote cmd d).1

  module _ (w : ℕ) (small : w < max_duration) (t0 : ℕ) (k : Text) where
    Holds-later : (t now : ℕ) (rg : ReplayGuard) → t ≤ now → Holds w t0 k t rg → Holds w t0 k now rg
    Holds-later t now rg le h = (h.0, ground arith)

    Holds-handle :
        (t now : ℕ) (cmd : Command) (id : Text) (d : Daemon World)
        → t0 ≤ t
        → t ≤ now
        → Holds w t0 k t d.replay_guard
        → Holds w t0 k now (handle_command host config now cmd id d).1.replay_guard
    Holds-handle t now cmd id d late le h =
        rw (handle_guard host config now cmd id d) (elim (gates_guard host config now cmd id d) [
          | inl same ↦ rw same (Holds-later t now d.replay_guard le h)
          | inr moved ↦ rw moved (
            check-IsGuard w now cmd.timestamp cmd.nonce d.replay_guard h.0 small,
            Guarded-check w small t0 k t now cmd.timestamp cmd.nonce d.replay_guard h.0 late le h.1,
          )
        ])

    Holds-connection :
        (t now : ℕ) (remote : Text) (cmd : Option Command) (d : Daemon World)
        → t0 ≤ t
        → t ≤ now
        → Holds w t0 k t d.replay_guard
        → Holds w t0 k now (handle_connection host config now remote cmd d).1.replay_guard
    unfolding handle_connection
    Holds-connection t now remote none d late le h = Holds-later t now d.replay_guard le h
    Holds-connection t now remote (some cmd) d late le h =
        elim (Bool-cases (validate_command cmd)) [
          | inl yes' ↦ rw yes' (Holds-handle t now cmd (identity_of remote) d late le h)
          | inr no' ↦ rw no' (Holds-later t now d.replay_guard le h)
        ]

    Holds-serve :
        (cs : Connections) (t t' : ℕ) (d : Daemon World)
        → t0 ≤ t
        → InTime t cs t'
        → Holds w t0 k t d.replay_guard
        → Holds w t0 k t' (serve cs d).replay_guard
    unfolding serve
    Holds-serve [] t t' d late line h = Holds-later t t' d.replay_guard line h
    Holds-serve ((now, remote, cmd) ∷ cs) t t' d late (le, line) h =
        Holds-serve cs now t' (handle_connection host config now remote cmd d).1 (omega arith) line
          (Holds-connection t now remote cmd d late le h)

  -- With a valid guard whose window is below the largest duration, and a clock before 2262: once a
  -- command passes the gates at `t0` with a timestamp that is not later than the clock, a command
  -- with its timestamp and nonce that comes later, from whatever client and after whatever
  -- connections, fails, and leaves the host and the audit log as they were.
  pub runs_at_most_once :
      (w t0 t2 : ℕ) (cmd again : Command) (id id' : Text) (d : Daemon World) (between : Connections)
      → IsGuard w d.replay_guard
      → w < max_duration
      → t2 ≤ max_duration
      → IsPast t0 cmd.timestamp
      → Authorized host config t0 cmd id d
      → InTime t0 between t2
      → again.timestamp ≡ cmd.timestamp
      → again.nonce ≡ cmd.nonce
      → let d2 = serve between (handle_command host config t0 cmd id d).1 in
        let (resp, d3) = handle_command host config t2 again id' d2 in
        (resp.success ≡ false) × (d3.world ≡ d2.world) × (d3.audit ≡ d2.audit)
  runs_at_most_once w t0 t2 cmd again id id' d between valid small early past auth line same_time
        same_nonce =
      let rg = d.replay_guard in
      let rg1 = (check t0 cmd.timestamp cmd.nonce rg).1 in
      let d1 = (handle_command host config t0 cmd id d).1 in
      let d2 = serve between d1 in
      let seen = accepted_seen w t0 cmd.timestamp cmd.nonce rg valid small auth.fresh in
      let first : Holds w t0 cmd.nonce t0 rg1 =
        (check-IsGuard w t0 cmd.timestamp cmd.nonce rg valid small, rw seen (omega arith)) in
      let start : Holds w t0 cmd.nonce t0 d1.replay_guard =
        rw (Authorized-guard host config t0 cmd id d auth) first in
      let after = Holds-serve w small t0 cmd.nonce between t0 t2 d1 (omega arith) line start in
      let stopped =
        refused w t2 cmd.timestamp cmd.nonce d2.replay_guard after.0 small t0
          (InTime-le between line) early past after.1 in
      unauthorized_unchanged host config t2 again id' d2
        (λ a. stopped (rw (same_time, same_nonce) at a.fresh))
