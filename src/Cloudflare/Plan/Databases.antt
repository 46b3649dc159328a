-- ===== src/Cloudflare/Plan/Databases.antt =====
-- What a deploy does about a D1 database or a Hyperdrive configuration after a dry run on the same
-- account (cli/internal/serverless).
use next_deploy.Common.{◌≡◌, refl, true, Option, none, some, [], Bool-cases, inl, inr}
use next_deploy.Common.Text.{Text, text_eq, text_eq_iff}
use next_deploy.Cloudflare.Api.{
  Api, Origin, failed, Result, ok, err, M, ◌>>=◌, continue, lift, create, and_then,
}
use next_deploy.Cloudflare.Hyperdrive.{
  Environment, HyperdriveDecl, ensure_hyperdrive, find_hyperdrive_id, create_or_update,
  resolve_hyperdrive_origin,
}
use next_deploy.Cloudflare.D1.{
  D1Decl, Migrations, ensure_d1_database, find_d1_id, create_d1, migrate,
}
use next_deploy.Cloudflare.Plan.{
  presence, plan_hyperdrive, plan_d1, migrations_read, no_op, update_it,
}
use next_deploy.Cloudflare.Plan.Followed.{Agrees, Follows}

module _ {World : Type 0} (env : Environment) (fs : Migrations) (api : Api World) where
  -- The call by the identifier of what was found.
  pub update_found : Text → Origin → Result (Option Text) → M World Text
  update_found name origin (ok (some id)) = create (api.update_hyperdrive id name origin)
  update_found name origin (ok none) = create (api.new_hyperdrive name origin)
  update_found name origin (err e) = failed e

  hyperdrive-Agrees :
      (d : HyperdriveDecl) (w : World) (origin : Origin) (found : Result (Option Text))
      → Agrees
          (some (create (api.new_hyperdrive d.name origin) w))
          (some (update_found d.name origin found w))
          w
          (continue (lift (λ v. found) w) (λ id. create_or_update env api d.name origin id))
          (and_then found (λ id. ok (presence "hyperdrive" d.name update_it id)))
  unfolding Follows create_or_update update_found
  hyperdrive-Agrees d w origin (ok (some id)) = refl
  hyperdrive-Agrees d w origin (ok none) = refl
  hyperdrive-Agrees d w origin (err e) = tt

  pub ensure_hyperdrive-plan_hyperdrive :
      (w : World) (d : HyperdriveDecl) (origin : Origin)
      → resolve_hyperdrive_origin env d ≡ ok origin
      → Agrees
          (some (create (api.new_hyperdrive d.name origin) w))
          (some (update_found d.name origin (find_hyperdrive_id api d.name w) w))
          w
          (ensure_hyperdrive env api d w)
          (plan_hyperdrive api w d)
  unfolding ensure_hyperdrive plan_hyperdrive
  ensure_hyperdrive-plan_hyperdrive w d origin resolved =
      rw resolved (hyperdrive-Agrees d w origin (find_hyperdrive_id api d.name w))

  -- A new database, with its migrations.
  pub create_database : D1Decl → M World Text
  create_database d = create (api.new_d1 d.name d.location_hint) >>= migrate fs api d

  database-Agrees :
      (d : D1Decl) (w : World) (found : Result (Option Text)) (read : Result (Unit {0}))
      → text_eq d.migrations_dir [] ≡ true
      → Agrees
          (some (create_database d w))
          none
          w
          (continue (lift (λ v. found) w) (λ id. create_d1 fs api d id >>= migrate fs api d))
          (and_then found (λ id. and_then read (λ u. ok (presence "d1" d.name no_op id))))
  unfolding Follows create_d1 migrate create_database
  database-Agrees d w (ok (some id)) (ok u) none_given = rw none_given (id, refl)
  database-Agrees d w (ok none) (ok u) none_given = refl
  database-Agrees d w (ok (some id)) (err e) none_given = tt
  database-Agrees d w (ok none) (err e) none_given = tt
  database-Agrees d w (err e) read none_given = tt

  pub ensure_d1_database-plan_d1 :
      (w : World) (d : D1Decl)
      → d.migrations_dir ≡ []
      → Agrees
          (some (create_database d w))
          none
          w
          (ensure_d1_database fs api d w)
          (plan_d1 fs api w d)
  unfolding ensure_d1_database plan_d1
  ensure_d1_database-plan_d1 w d no_dir =
      let no_dir' : text_eq d.migrations_dir [] ≡ true =
        (text_eq_iff d.migrations_dir []).1 no_dir in
      elim (Bool-cases (text_eq d.name [])) [
        | inl missing ↦ rw missing tt
        | inr named ↦
            rw named
              (database-Agrees d w (find_d1_id api d.name w) (migrations_read fs api d) no_dir')
      ]
