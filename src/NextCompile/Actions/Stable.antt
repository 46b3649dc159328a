-- ===== src/NextCompile/Actions/Stable.antt =====
-- The actions do not depend on the order in which the maps are walked (stabilize,
-- shared/nextcompile/actions.go).
use next_deploy.Common.{
  ℕ, suc, ◌≡◌, refl, ap, ◌∙◌, Option, none, some, List, [], ◌∷◌, if◌then◌else◌, arith, Bool-cases,
  inl, inr, length,
}
use next_deploy.Common.Text.{Text, text_eq, text_eq_iff, text_eq_refl}
use next_deploy.Common.Map.{Map, IsMap, get, get-put}
use next_deploy.Common.Sort.{sort, length-sort}
use next_deploy.Daemon.EnvFile.{keys}
use next_deploy.NextCompile.Actions.{
  ActionRuntime, node, edge, Action, Entries, UpstreamManifest, WorkerJson, same_runtime, is_node,
  action_of, flatten_entry, flatten, first_worker, is_current, chosen_put, pick_entry, pick, over,
  stabilize, parse_upstream,
}

-- A change of the actions entry by entry, and what it does to one action.
abbrev at_entry :
    (Map Text → Option Action → Option Action) → Option (Map Text) → Option Action → Option Action
at_entry change none a = a
at_entry change (some workers) a = change workers a

get-over :
    (one : Text → Map Text → Map Action → Map Action)
    (change : Map Text → Option Action → Option Action) (j : Text)
    → ((id : Text) (workers : Map Text) (actions : Map Action)
        → get j (one id workers actions)
          ≡ (if text_eq id j then change workers (get j actions) else get j actions))
    → (entries : Entries) (actions : Map Action) → IsMap entries
    → get j (over one entries actions) ≡ at_entry change (get j entries) (get j actions)
unfolding over get
get-over one change j law [] actions h = refl
get-over one change j law ((id, workers) ∷ entries) actions (fresh, h) =
    let ih = get-over one change j law entries (one id workers actions) h in
    elim (Bool-cases (text_eq id j)) [
      | inl same ↦
          let gone : get j entries ≡ none = rw (← (text_eq_iff id j).0 same) fresh in
          rw same (ih ∙ rw (gone, law id workers actions, same) refl)
      | inr other ↦
          rw other
            (ih ∙ ap (at_entry change (get j entries)) (rw (law id workers actions, other) refl))
    ]

-- An action for Node wins over one for the edge.
pub preferred : Option Action → Option Action → Option Action
preferred (some a) other = some a
preferred none other = other

module _ (json : WorkerJson) where
  -- The action of an entry: its first module in the order of names.
  pub listed_action : ActionRuntime → Text → Option (Map Text) → Option Action
  listed_action runtime id none = none
  listed_action runtime id (some workers) =
      first_worker json runtime id workers (sort (keys workers))

  sort_nil : sort [] ≡ []
  unfolding sort
  sort_nil = refl

  not_nil :
      (xs : List Text) {k : ℕ} → length xs ≡ suc k → (n : Text) × (ns : List Text) × (xs ≡ n ∷ ns)
  not_nil [] h = ground (arith, h)
  not_nil (n ∷ ns) h = (n, ns, refl)

  flattened : ActionRuntime → Text → Map Text → Option Action → Option Action
  flattened runtime j [] a = a
  flattened runtime j ((name, raw) ∷ workers) a =
      if is_node a then a else some (action_of json runtime j name raw)

  get-flatten_entry :
      (runtime : ActionRuntime) (j id : Text) (workers : Map Text) (actions : Map Action)
      → get j (flatten_entry json runtime id workers actions)
        ≡ (if text_eq id j then flattened runtime j workers (get j actions) else get j actions)
  unfolding flatten_entry flattened
  get-flatten_entry runtime j id [] actions = ground arith
  get-flatten_entry runtime j id ((name, raw) ∷ workers) actions =
      let new = action_of json runtime id name raw in
      elim (Bool-cases (text_eq id j)) [
        | inl same ↦
            let e = (text_eq_iff id j).0 same in
            rw (← e) (
              rw (text_eq_refl id) (elim (Bool-cases (is_node (get id actions))) [
                | inl yes_node ↦ rw yes_node refl
                | inr no_node ↦ rw no_node (rw (get-put id id new actions, text_eq_refl id) refl)
              ]))
        | inr other ↦ rw other (elim (Bool-cases (is_node (get id actions))) [
          | inl yes_node ↦ rw yes_node refl
          | inr no_node ↦ rw no_node (rw (get-put id j new actions, other) refl)
        ])
      ]

  or_keep : Option Action → Option Action → Option Action
  or_keep none a = a
  or_keep (some b) a = some b

  get-chosen_put :
      (id j : Text) (b : Option Action) (actions : Map Action)
      → get j (chosen_put id b actions)
        ≡ (if text_eq id j then or_keep b (get j actions) else get j actions)
  unfolding chosen_put or_keep
  get-chosen_put id j none actions = ground arith
  get-chosen_put id j (some b) actions = get-put id j b actions

  picked : ActionRuntime → Text → Map Text → Option Action → Option Action
  picked runtime j workers a =
      if is_current runtime a then or_keep (listed_action runtime j (some workers)) a else a

  get-pick_entry :
      (runtime : ActionRuntime) (j id : Text) (workers : Map Text) (actions : Map Action)
      → get j (pick_entry json runtime id workers actions)
        ≡ (if text_eq id j then picked runtime j workers (get j actions) else get j actions)
  unfolding pick_entry picked listed_action
  get-pick_entry runtime j id workers actions =
      let new = first_worker json runtime id workers (sort (keys workers)) in
      elim (Bool-cases (text_eq id j)) [
        | inl same ↦
            let e = (text_eq_iff id j).0 same in
            rw (← e) (
              rw (text_eq_refl id) (elim (Bool-cases (is_current runtime (get id actions))) [
                | inl current ↦
                    rw current (rw (get-chosen_put id id new actions, text_eq_refl id) refl)
                | inr not_current ↦ rw not_current refl
              ]))
        | inr other ↦ rw other (elim (Bool-cases (is_current runtime (get id actions))) [
          | inl current ↦ rw current (rw (get-chosen_put id j new actions, other) refl)
          | inr not_current ↦ rw not_current refl
        ])
      ]

  -- The four changes to one action.
  resolved : Text → Option (Map Text) → Option (Map Text) → Option Action
  resolved j for_node for_edge = at_entry (picked edge j) for_edge (
      at_entry (picked node j) for_node
        (at_entry (flattened edge j) for_edge (at_entry (flattened node j) for_node none)))

  get-parse_upstream :
      (up : UpstreamManifest) (j : Text)
      → IsMap up.node
      → IsMap up.edge
      → get j (parse_upstream json up) ≡ resolved j (get j up.node) (get j up.edge)
  unfolding parse_upstream stabilize flatten pick resolved get
  get-parse_upstream up j h k =
      let f1 = over (flatten_entry json node) up.node [] in
      let f2 = over (flatten_entry json edge) up.edge f1 in
      let p1 = over (pick_entry json node) up.node f2 in
      get-over (pick_entry json edge) (picked edge j) j (get-pick_entry edge j) up.edge p1 k
      ∙ ap (at_entry (picked edge j) (get j up.edge)) (
          get-over (pick_entry json node) (picked node j) j (get-pick_entry node j) up.node f2 h
          ∙ ap (at_entry (picked node j) (get j up.node)) (
              get-over (flatten_entry json edge) (flattened edge j) j (get-flatten_entry edge j)
                up.edge f1 k
              ∙ ap (at_entry (flattened edge j) (get j up.edge)) (
                  get-over (flatten_entry json node) (flattened node j) j (get-flatten_entry node j)
                    up.node [] h)))

  sort_cons :
      (w : Text × Text) (workers : Map Text)
      → (n : Text) × (ns : List Text) × (sort (keys (w ∷ workers)) ≡ n ∷ ns)
  sort_cons (k, v) workers =
      not_nil (sort (keys ((k, v) ∷ workers))) (length-sort (keys ((k, v) ∷ workers)))

  resolved-preferred :
      (j : Text) (for_node for_edge : Option (Map Text))
      → resolved j for_node for_edge
        ≡ preferred (listed_action node j for_node) (listed_action edge j for_edge)
  unfolding resolved preferred listed_action picked flattened or_keep is_current same_runtime
      is_node action_of first_worker
  resolved-preferred j none none = refl
  resolved-preferred j none (some []) = rw sort_nil refl
  resolved-preferred j none (some (w ∷ e)) = let (n, ns, sorted) = sort_cons w e in rw sorted refl
  resolved-preferred j (some []) none = rw sort_nil refl
  resolved-preferred j (some []) (some []) = rw sort_nil refl
  resolved-preferred j (some []) (some (w ∷ e)) =
      let (n, ns, sorted) = sort_cons w e in rw (sort_nil, sorted) refl
  resolved-preferred j (some (w ∷ m)) none = let (n, ns, sorted) = sort_cons w m in rw sorted refl
  resolved-preferred j (some (w ∷ m)) (some []) =
      let (n, ns, sorted) = sort_cons w m in rw sorted refl
  resolved-preferred j (some (w ∷ m)) (some (v ∷ e)) =
      let (n, ns, sorted) = sort_cons w m in rw sorted refl

  -- An action that Node lists is that of the first of its modules in the order of names, and one that
  -- only the edge lists likewise: the order in which the program walks the maps does not matter.
  pub parse_upstream_lem :
      (up : UpstreamManifest) (j : Text)
      → IsMap up.node
      → IsMap up.edge
      → get j (parse_upstream json up)
        ≡ preferred (listed_action node j (get j up.node)) (listed_action edge j (get j up.edge))
  parse_upstream_lem up j h k =
      get-parse_upstream up j h k ∙ resolved-preferred j (get j up.node) (get j up.edge)
