-- ===== src/Daemon/RollbackHandler/Reverted.antt =====
-- What a rollback that succeeds has done (handleRollback,
-- daemon/internal/daemon/command_handler.go).
use next_deploy.Common.{
  ℕ, ◌+◌, ◌<◌, ◌≡◌, refl, true, not, ◌&&◌, Option, none, some, List, [], length, get_elem?, ltb,
  ◌==◌, arith, Bool-cases, inl, inr,
}
use next_deploy.Common.Text.{Text, text_eq}
use next_deploy.Common.Map.{get}
use next_deploy.Common.Sort.{sort}
use next_deploy.Daemon.Releases.{Target, target, resolve_rollback_target}
use next_deploy.Daemon.Releases.Rollback.{rollback_not_last}
use next_deploy.Daemon.Activation.{Server, Outcomes, Run, activate_release}
use next_deploy.Daemon.Activation.Cutover.{activated}
use next_deploy.Daemon.RollbackHandler.{
  Metadata, Request, RollbackReply, dir_of_release, context, commit_of_metadata, answer,
  with_metadata, at_target, among, roll_back,
}

module _ (o : Outcomes) (metadata : Text → Option Metadata) where
  -- The app's link points to this release, which has passed its health check.
  IsCurrent : Request → Text → Server → Type 0
  IsCurrent r id after =
      (o.healthy ≡ true) × (get r.app after.current ≡ some (dir_of_release r.app id))

  answered :
      (r : Request) (id : Text) (meta : Metadata) (s : Server) (run : Run (Unit {0}))
      → activate_release o (context r id meta) s ≡ run
      → (answer run).0 ≡ RollbackReply.activated
      → IsCurrent r id (answer run).1
  unfolding answer IsCurrent context
  answered r id meta s (Run.done u after) ran h =
      let (healthy, link, rest) = activated o (context r id meta) s after ran in (healthy, link)
  answered r id meta s (Run.failed e after) ran h = ground (arith, h)

  -- What a rollback that succeeded picked and did.
  unfoldable pub IsReverted : Request → Server → Server → Type 0
  IsReverted r s after =
      (names : List Text) × (get r.app s.releases ≡ some names)
      × (id : Text) × ((i : ℕ) × (i + 1 < length (sort names))
          × (get_elem? (sort names) i ≡ some id))
      × (o.healthy ≡ true)
      × (get r.app after.current ≡ some (dir_of_release r.app id))

  with_metadata-IsCurrent :
      (r : Request) (id : Text) (meta : Option Metadata) (s : Server)
      → (with_metadata o metadata r id meta s).0 ≡ RollbackReply.activated
      → IsCurrent r id (with_metadata o metadata r id meta s).1
  unfolding with_metadata
  with_metadata-IsCurrent r id none s h = ground (arith, h)
  with_metadata-IsCurrent r id (some meta) s h =
      answered r id meta s (activate_release o (context r id meta) s) refl h

  at_target-IsCurrent :
      (r : Request) (t : Target) (s : Server)
      → (at_target o metadata r t s).0 ≡ RollbackReply.activated
      → (id : Text) × (t ≡ target id) × IsCurrent r id (at_target o metadata r t s).1
  unfolding at_target
  at_target-IsCurrent r (Target.failed e) s h = ground (arith, h)
  at_target-IsCurrent r (target id) s h = (id, refl, with_metadata-IsCurrent r id (metadata id) s h)

  among-IsReverted :
      (r : Request) (entries : Option (List Text)) (s : Server)
      → get r.app s.releases ≡ entries
      → (among o metadata r entries s).0 ≡ RollbackReply.activated
      → IsReverted r s (among o metadata r entries s).1
  unfolding among IsReverted IsCurrent
  among-IsReverted r none s there h = ground (arith, h)
  among-IsReverted r (some names) s there h =
      let t =
        resolve_rollback_target (λ id. commit_of_metadata (metadata id)) (sort names) r.steps
          r.to_commit in
      elim (Bool-cases (ltb (length names) 2)) [
        | inl few ↦ ground (arith, h, few)
        | inr many ↦
            let h' : (at_target o metadata r t s).0 ≡ RollbackReply.activated =
              ground (arith, h, many) in
            let (id, picked, (healthy, link)) = at_target-IsCurrent r t s h' in
            rw many (
              names,
              there,
              id,
              rollback_not_last (λ x. commit_of_metadata (metadata x)) (sort names) r.steps
                  r.to_commit id picked,
              healthy,
              link,
            )
      ]

  -- A rollback that reports success has picked a release directory of the app that is not the last in
  -- their order, that release has passed its health check, and the app's link points to it.
  pub roll_back-IsReverted :
      (r : Request) (s : Server)
      → (roll_back o metadata r s).0 ≡ RollbackReply.activated
      → IsReverted r s (roll_back o metadata r s).1
  unfolding roll_back
  roll_back-IsReverted r s h =
      elim (Bool-cases (not (text_eq r.to_commit []) && not (r.steps == 1))) [
        | inl both ↦ ground (arith, h, both)
        | inr one ↦
            rw one (among-IsReverted r (get r.app s.releases) s refl (ground (arith, h, one)))
      ]
