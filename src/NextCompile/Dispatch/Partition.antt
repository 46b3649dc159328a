-- ===== src/NextCompile/Dispatch/Partition.antt =====
-- What the tables of the dispatch module hold (partitionRefs, shared/nextcompile/dispatch.go).
use next_deploy.Common.{
  ◌≡◌, ◌↔◌, ◌⊎◌, inl, inr, sym, Bool, true, false, none, List, [], ◌∷◌, ◌++◌, arith, In,
}
use mathlib.Core.Path.{subst}
use next_deploy.NextCompile.Modules.{RouteKind, page, api, ModuleRef}
use next_deploy.NextCompile.Dispatch.{
  Tables, is_dynamic_route, file_route, file_ref, file_refs, partition_refs,
}

-- A module that is dispatched to by its route.
abbrev pub IsRouted : RouteKind → Type 0
IsRouted page = Unit
IsRouted api = Unit
IsRouted _ = ⊥

In-snoc_iff : (r x : ModuleRef) (xs : List ModuleRef) → In r (xs ++ x ∷ []) ↔ (In r xs ⊎ (r ≡ x))
In-snoc_iff r x [] = ground arith
In-snoc_iff r x (y ∷ xs) = ground (arith, In-snoc_iff r x xs)

file_route_iff :
    (b : Bool) (x r : ModuleRef) (t : Tables)
    → (In r (file_route b x t).dynamics ↔ (In r t.dynamics ⊎ ((r ≡ x) × (b ≡ true))))
      × (In r (file_route b x t).statics ↔ (In r t.statics ⊎ ((r ≡ x) × (b ≡ false))))
unfolding file_route
file_route_iff true x r t = ground (arith, In-snoc_iff r x t.dynamics)
file_route_iff false x r t = ground (arith, In-snoc_iff r x t.statics)

-- A module that belongs to the dynamic table, or else to the static one.
abbrev pub BelongsAs : RouteKind → Bool → ModuleRef → Type 0
BelongsAs k b r = IsRouted k × (is_dynamic_route r.route_path ≡ b)

abbrev pub Belongs : Bool → ModuleRef → Type 0
Belongs b r = BelongsAs r.kind b r

file_ref_iff :
    (k : RouteKind) (x r : ModuleRef) (t : Tables)
    → (In r (file_ref k x t).dynamics ↔ (In r t.dynamics ⊎ ((r ≡ x) × BelongsAs k true x)))
      × (In r (file_ref k x t).statics ↔ (In r t.statics ⊎ ((r ≡ x) × BelongsAs k false x)))
unfolding file_ref
file_ref_iff page x r t = ground (arith, file_route_iff (is_dynamic_route x.route_path) x r t)
file_ref_iff api x r t = ground (arith, file_route_iff (is_dynamic_route x.route_path) x r t)
file_ref_iff _ x r t = ground arith

moved :
    (b : Bool) (x r : ModuleRef) (A : Type 0) (refs : List ModuleRef)
    → ((A ⊎ ((r ≡ x) × Belongs b x)) ⊎ (In r refs × Belongs b r))
      ↔ (A ⊎ (In r (x ∷ refs) × Belongs b r))
moved b x r A refs = (
  λ h. elim h [
    | inl (inl a) ↦ inl a
    | inl (inr (same, there)) ↦ inr (inl same, subst (Belongs b) (sym same) there)
    | inr (i, there) ↦ inr (inr i, there)
  ],
  λ h. elim h [
    | inl a ↦ inl (inl a)
    | inr (inl same, there) ↦ inl (inr (same, subst (Belongs b) same there))
    | inr (inr i, there) ↦ inr (i, there)
  ],
)

chained : {D E F R T : Type 0} → D ↔ (E ⊎ R) → E ↔ F → (F ⊎ R) ↔ T → D ↔ T
chained outer inner last = (
  λ d. last.0 (elim (outer.0 d) [ inl e ↦ inl (inner.0 e) | inr r ↦ inr r ]),
  λ t. outer.1 (elim (last.1 t) [ inl f ↦ inl (inner.1 f) | inr r ↦ inr r ]),
)

file_refs_iff :
    (refs : List ModuleRef) (r : ModuleRef) (t : Tables)
    → (In r (file_refs refs t).dynamics ↔ (In r t.dynamics ⊎ (In r refs × Belongs true r)))
      × (In r (file_refs refs t).statics ↔ (In r t.statics ⊎ (In r refs × Belongs false r)))
unfolding file_refs
file_refs_iff [] r t = ground arith
file_refs_iff (x ∷ refs) r t =
    let (dynamics, statics) = file_refs_iff refs r (file_ref x.kind x t) in
    let (to_dynamics, to_statics) = file_ref_iff x.kind x r t in
    (
      chained dynamics to_dynamics (moved true x r (In r t.dynamics) refs),
      chained statics to_statics (moved false x r (In r t.statics) refs),
    )

-- The dynamic table has exactly the pages and API routes whose path has a bracket, and the static
-- table exactly the others.
pub partition_refs_iff :
    (refs : List ModuleRef) (r : ModuleRef)
    → (In r (partition_refs refs).dynamics ↔ (In r refs × Belongs true r))
      × (In r (partition_refs refs).statics ↔ (In r refs × Belongs false r))
unfolding partition_refs
partition_refs_iff refs r = ground (
  arith,
  file_refs_iff refs r (record { statics = []; dynamics = []; middleware = none; proxy = none }),
)
