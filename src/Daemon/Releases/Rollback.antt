-- ===== src/Daemon/Releases/Rollback.antt =====
-- Which release resolveRollbackTarget of daemon/internal/daemon/command_handler.go picks.
use next_deploy.Common.{
  ℕ, zero, suc, ◌+◌, ◌-◌, ◌≤◌, ◌<◌, ◌≡◌, ◌≢◌, ◌↔◌, refl, ◌⊎◌, inl, inr, true, false, Option, none,
  some, List, [], ◌∷◌, length, get_elem?, if◌then◌else◌, arith, Bool-cases, ◌==◌, ltb,
}
use next_deploy.Common.Text.{Text, text_eq, text_eq_iff, to_lower, trim_space}
use next_deploy.Daemon.Releases.{
  matches, walk, resolve_rollback_target, target, failed, commit_not_found, not_enough_steps,
}

get_elem?-below : (xs : List Text) (i : ℕ) → i < length xs → (x : Text) × (get_elem? xs i ≡ some x)
get_elem?-below [] i h = elim h [ ]
get_elem?-below (x ∷ xs) zero h = (x, refl)
get_elem?-below (x ∷ xs) (suc i) h = get_elem?-below xs i (omega arith)

module _ (commit_of : Text → Option Text) (needle : Text) (releases : List Text) where
  -- No release between the positions `i` and `n` has the commit.
  abbrev pub NoneFrom : ℕ → ℕ → Type 0
  NoneFrom i n =
      (j : ℕ) (id : Text)
      → i ≤ j
      → j < n
      → get_elem? releases j ≡ some id
      → matches commit_of needle id ≡ false

  -- The release at the position `i` has the commit, and none after it, below `n`, has.
  pub record IsNewest (n : ℕ) (id : Text) : Type 0 where
    pub index : ℕ
    pub below : index < n
    pub at_index : get_elem? releases index ≡ some id
    pub has_commit : matches commit_of needle id ≡ true
    pub newest : NoneFrom (index + 1) n

  NoneFrom-suc :
      (i n : ℕ) (id : Text)
      → NoneFrom i n
      → get_elem? releases n ≡ some id
      → matches commit_of needle id ≡ false
      → NoneFrom i (suc n)
  NoneFrom-suc i n id none' at_n fails j id' le lt e = elim (Bool-cases (j == n)) [
    | inl same ↦
        let p : j ≡ n = ground arith in
        let q : get_elem? releases n ≡ some id' = rw (← p) e in
        let r : id ≡ id' = cc (q, at_n) in rw (← r) fails
    | inr other ↦ none' j id' le (ground arith) e
  ]

  walk_lem :
      (n : ℕ)
      → n ≤ length releases
      → ((walk commit_of needle releases n ≡ none) × NoneFrom 0 n)
        ⊎ ((id : Text) × (walk commit_of needle releases n ≡ some id) × IsNewest n id)
  unfolding walk
  walk_lem zero le = inl (refl, λ j id l lt e. absurd (omega arith))
  walk_lem (suc n) le =
      let (id, at_n) = get_elem?-below releases n le in
      elim (Bool-cases (matches commit_of needle id)) [
        | inl hit ↦ inr (
          id,
          rw (at_n, walk, hit),
          record {
            index = n;
            below = omega arith;
            at_index = at_n;
            has_commit = hit;
            newest = λ j id' l lt e. absurd (omega arith);
          },
        )
        | inr miss ↦ elim (walk_lem n (omega arith)) [
          | inl (gone, none') ↦
              inl (rw (at_n, walk, miss) gone, NoneFrom-suc 0 n id none' at_n miss)
          | inr (id', hit, new) ↦ inr (
            id',
            rw (at_n, walk, miss) hit,
            record {
              index = new.index;
              below = omega arith;
              at_index = new.at_index;
              has_commit = new.has_commit;
              newest = NoneFrom-suc (new.index + 1) n id new.newest at_n miss;
            },
          )
        ]
      ]

-- One step if none is given.
abbrev pub steps_back : ℕ → ℕ
steps_back steps = if steps == 0 then 1 else steps

-- With no commit, the release picked is the one that many steps before the last, one step if none is
-- given; and it is refused exactly when there are not that many before the last.
rollback_steps :
    (commit_of : Text → Option Text) (releases : List Text) (steps : ℕ)
    → 2 ≤ length releases
    → let n = steps_back steps in
      let r = resolve_rollback_target commit_of releases steps [] in
      ((r ≡ failed not_enough_steps) ↔ (length releases ≤ n))
      × ((id : Text)
          → (r ≡ target id)
            ↔ ((n < length releases) × (get_elem? releases (length releases - 1 - n) ≡ some id)))
unfolding resolve_rollback_target text_eq
rollback_steps commit_of releases steps many =
    elim (Bool-cases (ltb (length releases) (steps_back steps + 1))) [
      | inl few ↦ (
        (λ _. ground arith, λ _. ground arith),
        λ id. (λ h. ground arith, λ h. absurd (ground arith)),
      )
      | inr enough ↦
          let (x, e) =
            get_elem?-below releases (length releases - 1 - steps_back steps) (ground arith) in
          (
            (λ h. absurd (ground (arith, e)), λ h. absurd (ground arith)),
            λ id. (λ h. (ground arith, ground (arith, e)), λ h. ground (arith, e)),
          )
    ]

-- With a commit, the release picked is the newest before the last whose name or metadata has the
-- commit, and it is refused if there is none.
pub rollback_commit :
    (commit_of : Text → Option Text) (releases : List Text) (steps : ℕ) (to_commit : Text)
    → 2 ≤ length releases
    → to_commit ≢ []
    → let needle = to_lower (trim_space to_commit) in
      let r = resolve_rollback_target commit_of releases steps to_commit in
      ((r ≡ failed commit_not_found) × NoneFrom commit_of needle releases 0 (length releases - 1))
      ⊎ ((id : Text) × (r ≡ target id)
          × IsNewest commit_of needle releases (length releases - 1) id)
unfolding resolve_rollback_target
rollback_commit commit_of releases steps to_commit many given =
    let needle = to_lower (trim_space to_commit) in
    elim (walk_lem commit_of needle releases (length releases - 1) (omega arith)) [
      | inl (gone, none') ↦ inl (ground (arith, gone, text_eq_iff to_commit []), none')
      | inr (id, hit, new) ↦ inr (id, ground (arith, hit, text_eq_iff to_commit []), new)
    ]

no_target :
    (commit_of : Text → Option Text) (releases : List Text) (steps : ℕ) (to_commit id : Text)
    → ltb (length releases) 2 ≡ true
    → resolve_rollback_target commit_of releases steps to_commit ≢ target id
unfolding resolve_rollback_target
no_target commit_of releases steps to_commit id few h = ground arith

-- Whatever is asked for, the release that is picked is not the last one of the list.
pub rollback_not_last :
    (commit_of : Text → Option Text) (releases : List Text) (steps : ℕ) (to_commit id : Text)
    → resolve_rollback_target commit_of releases steps to_commit ≡ target id
    → (i : ℕ) × (i + 1 < length releases) × (get_elem? releases i ≡ some id)
rollback_not_last commit_of releases steps to_commit id h =
    elim (Bool-cases (ltb (length releases) 2)) [
      | inl few ↦ absurd (no_target commit_of releases steps to_commit id few h)
      | inr many ↦ elim (Bool-cases (text_eq to_commit [])) [
        | inl blank ↦
            let h' : resolve_rollback_target commit_of releases steps [] ≡ target id =
              rw ((text_eq_iff to_commit []).0 blank) at h in
            let (below, e) = ((rollback_steps commit_of releases steps (ground arith)).1 id).0 h' in
            (length releases - 1 - steps_back steps, ground arith, e)
        | inr given ↦
            elim (rollback_commit commit_of releases steps to_commit (ground arith)
              (ground (arith, text_eq_iff to_commit []))) [
                | inl (gone, none') ↦ cc
                | inr (x, hit, new) ↦
                    let same : x ≡ id = cc (hit, h) in
                    (new.index, omega (arith, new.below), rw (← same) new.at_index)
              ]
      ]
    ]
