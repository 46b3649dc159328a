-- ===== src/Cloudflare/D1/Pending.antt =====
-- Which migrations a deploy applies (applyD1Migrations, cli/internal/serverless/cloudflare_d1.go).
use mathlib.Core.Path.{subst}
use next_deploy.Common.{
  ◌≡◌, ◌↔◌, ◌⊎◌, inl, inr, refl, sym, ap, ◌∙◌, true, Option, none, some, List, [], ◌∷◌, In,
  Bool-cases, arith,
}
use next_deploy.Common.Text.{Text, text_eq_iff}
use next_deploy.Cloudflare.Api.{
  Api, done, ok, ◌>>=◌, write, lift, write_done, lift_ok, continue_done,
}
use next_deploy.Cloudflare.D1.{
  Migrations, is_applied, pending_migrations, combined, query_applied_migrations, apply_one,
  apply_all, apply_files, create_table,
}

is_applied_iff : (f : Text) (applied : List Text) → (is_applied f applied ≡ true) ↔ In f applied
unfolding is_applied
is_applied_iff f [] = ground arith
is_applied_iff f (a ∷ applied) = ground (arith, is_applied_iff f applied, text_eq_iff a f)

-- A file is pending exactly when it is there and not applied.
pub In-pending_migrations_iff :
    (x : Text) (files applied : List Text)
    → In x (pending_migrations files applied) ↔ (In x files × ¬ In x applied)
unfolding pending_migrations
In-pending_migrations_iff x [] applied = (λ i. elim i [ ], λ h. elim h.0 [ ])
In-pending_migrations_iff x (f ∷ files) applied =
    let ih = In-pending_migrations_iff x files applied in
    let here = is_applied_iff f applied in
    let there = is_applied_iff x applied in
    let same : x ≡ f → is_applied x applied ≡ is_applied f applied =
      ap (λ t. is_applied t applied) in
    elim (Bool-cases (is_applied f applied)) [
      | inl old ↦ rw old (ground (arith, ih, old, here, there, same))
      | inr new ↦ rw new (ground (arith, ih, new, here, there, same))
    ]

module _ {World : Type 0} (fs : Migrations) (api : Api World) where
  -- Names that the table has are still in it.
  unfoldable pub Grows : Text → List Text → List Text → World → Type 0
  Grows db before added w =
      (now : List Text) × (query_applied_migrations fs api db w ≡ ok now)
      × ((x : Text) → (In x before ⊎ In x added) → In x now)

  -- The table after a statement that succeeded: once it was made it can be read, with what it held, and
  -- a batch of a migration of the directory and its record adds the name of the migration.
  unfoldable pub KeepsRecords : Text → Text → Type 0
  KeepsRecords db dir =
      ((w : World)
        → (api.exec db create_table w).0 ≡ true
        → (names : List Text) × (query_applied_migrations fs api db (api.exec db create_table w).1
            ≡ ok names))
      × ((sql f : Text) (w : World) (before : List Text)
          → fs.read_file dir f ≡ some sql
          → query_applied_migrations fs api db w ≡ ok before
          → (api.exec db (combined sql f) w).0 ≡ true
          → Grows db before (f ∷ []) (api.exec db (combined sql f) w).1)

  apply_one-Grows :
      (db dir f : Text) (contents : Option Text) (before : List Text) (u : Unit {0})
      (w after : World)
      → KeepsRecords db dir
      → query_applied_migrations fs api db w ≡ ok before
      → fs.read_file dir f ≡ contents
      → apply_one fs api db f contents w ≡ done u after
      → Grows db before (f ∷ []) after
  unfolding apply_one KeepsRecords
  apply_one-Grows db dir f none before u w after law read contents h = ground (arith, h)
  apply_one-Grows db dir f (some sql) before u w after law read contents h =
      let (answered, same) = write_done (api.exec db (combined sql f)) w after u h in
      subst (Grows db before (f ∷ [])) same (law.1 sql f w before contents read answered)

  apply_all-Grows :
      (db dir : Text) (pending before : List Text) (u : Unit {0}) (w after : World)
      → KeepsRecords db dir
      → query_applied_migrations fs api db w ≡ ok before
      → apply_all fs api db dir pending w ≡ done u after
      → Grows db before pending after
  unfolding apply_all KeepsRecords Grows
  apply_all-Grows db dir [] before u w after law read h =
      let still : w ≡ after = ground (arith, h) in
      (
        before,
        subst (λ v. query_applied_migrations fs api db v ≡ ok before) still read,
        λ x i. elim i [ inl old ↦ old | inr none_left ↦ elim none_left [ ] ],
      )
  apply_all-Grows db dir (f ∷ pending) before u w after law read h =
      let (v, next, one, rest) =
        continue_done (apply_one fs api db f (fs.read_file dir f) w)
          (λ x. apply_all fs api db dir pending) u after h in
      let (now, read_now, grown) =
        apply_one-Grows db dir f (fs.read_file dir f) before v w next law read refl one in
      let (last, read_last, grown_last) =
        apply_all-Grows db dir pending now u next after law read_now rest in
      (
        last,
        read_last,
        λ x i. elim i [
          | inl old ↦ grown_last x (inl (grown x (inl old)))
          | inr (inl this) ↦ grown_last x (inl (grown x (inr (inl this))))
          | inr (inr later) ↦ grown_last x (inr later)
        ],
      )

  -- A file is recorded or pending.
  In-known :
      (files applied : List Text) (x : Text)
      → In x files
      → In x applied ⊎ In x (pending_migrations files applied)
  In-known files applied x i = elim (Bool-cases (is_applied x applied)) [
    | inl old ↦ inl ((is_applied_iff x applied).0 old)
    | inr new ↦ inr (
        (In-pending_migrations_iff x files applied).1
          (i, λ there. ground (arith, new, (is_applied_iff x applied).1 there)))
  ]

  pending_none :
      (files applied : List Text)
      → ((x : Text) → In x files → In x applied)
      → pending_migrations files applied ≡ []
  unfolding pending_migrations
  pending_none [] applied h = refl
  pending_none (f ∷ files) applied h =
      rw ((is_applied_iff f applied).1 (h f (inl refl)))
        (pending_none files applied (λ x i. h x (inr i)))

  -- After a deploy that applied the migrations every file is recorded and nothing is pending, whatever
  -- was recorded at first. There is a file, a statement keeps the records, and a migration's batch
  -- adds its name.
  pub apply_files-pending_migrations :
      (db dir f : Text) (files : List Text) (u : Unit {0}) (w after : World)
      → KeepsRecords db dir
      → apply_files fs api db dir (f ∷ files) w ≡ done u after
      → (applied : List Text) × (query_applied_migrations fs api db after ≡ ok applied)
        × (pending_migrations (f ∷ files) applied ≡ [])
  unfolding apply_files KeepsRecords Grows
  apply_files-pending_migrations db dir f files u w after law h =
      let all = f ∷ files in
      let (x, made, created, h1) =
        continue_done (write (api.exec db create_table) w)
          (λ y. lift (query_applied_migrations fs api db) >>= λ a.
            apply_all fs api db dir (pending_migrations all a))
          u after h in
      let (answered, same) = write_done (api.exec db create_table) w made x created in
      let (before, readable) = law.0 w answered in
      let read : query_applied_migrations fs api db made ≡ ok before =
        subst (λ v. query_applied_migrations fs api db v ≡ ok before) same readable in
      let to_do = pending_migrations all before in
      let ran : (lift (query_applied_migrations fs api db) >>= λ a.
      apply_all fs api db dir (pending_migrations all a))
            made
          ≡ apply_all fs api db dir to_do made =
        rw (lift_ok (query_applied_migrations fs api db) made before read) refl in
      let (now, read_now, grown) =
        apply_all-Grows db dir to_do before u made after law read (sym ran ∙ h1) in
      (now, read_now, pending_none all now (λ y i. grown y (In-known all before y i)))
