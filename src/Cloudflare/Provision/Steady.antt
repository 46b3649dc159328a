-- ===== src/Cloudflare/Provision/Steady.antt =====
-- Steps of provisioning that leave the account, and dry runs that find nothing to do (Plan and
-- ProvisionResources of cli/internal/serverless).
use next_deploy.Common.{◌≡◌, refl, sym, Option, List, [], ◌∷◌, ◌++◌, arith}
use next_deploy.Common.Text.{Text}
use next_deploy.Common.Map.{Map, put}
use next_deploy.Manifest.{key}
use mathlib.Core.Path.{subst}
use next_deploy.Cloudflare.Api.{Run, done, Result, ok, err, M, ◌>>◌, and_then}
use next_deploy.Cloudflare.Plan.{PlanItem, PlanAction, no_op, plan_each, ◌|>◌}
use next_deploy.Cloudflare.Plan.Followed.{Agrees, Follows}
use next_deploy.Cloudflare.Provision.{
  Provider, note_id, on_account, brought, provision_one, provision_each, set_id, note_id, brought,
}

-- A dry run of one declaration that finds it in place.
abbrev pub InPlace : Result PlanItem → Type 0
InPlace (ok i) = i.action ≡ no_op
InPlace (err e) = ⊥

unfoldable pub AllNoOp : List PlanItem → Type 0
AllNoOp [] = Unit
AllNoOp (i ∷ items) = (i.action ≡ no_op) × AllNoOp items

AllInPlace : {A : Type 0} → (A → Result PlanItem) → List A → Type 0
AllInPlace plan_it [] = Unit
AllInPlace plan_it (a ∷ more) = InPlace (plan_it a) × AllInPlace plan_it more

abbrev pub Each : {A : Type 0} → (A → Type 0) → List A → Type 0
Each P [] = Unit
Each P (a ∷ more) = P a × Each P more

Follows-no_op :
    {World A : Type 0} (c u : Option (Run World A)) (w : World) (r : Run World A) (a : PlanAction)
    → Follows c u w r a
    → a ≡ no_op
    → (x : A) × (r ≡ done x w)
unfolding Follows
Follows-no_op c u w r a f h = subst (λ b. Follows c u w r b) h f

pub Agrees-no_op :
    {World A : Type 0} (c u : Option (Run World A)) {w : World} {r : Run World A}
    (q : Result PlanItem)
    → Agrees c u w r q
    → InPlace q
    → (x : A) × (r ≡ done x w)
Agrees-no_op c u {w = w} {r = r} (ok i) f h = Follows-no_op c u w r i.action f h
Agrees-no_op c u (err e) f h = elim h [ ]

module _ {World : Type 0} (w : World) where
  -- A step that only touches the identifiers.
  unfoldable pub Stays : M (Provider World) (Unit {0}) → Type 0
  Stays m =
      (ids : Map Text) (file : Option Text)
      → (ids' : Map Text) × (m (record { account = w; provisioned = ids; state_file = file })
          ≡ done tt (record { account = w; provisioned = ids'; state_file = file }))

  pub then-Stays : (m n : M (Provider World) (Unit {0})) → Stays m → Stays n → Stays (m >> n)
  unfolding Stays
  then-Stays m n sm sn ids file =
      let first = sm ids file in let second = sn first.0 file in (second.0, rw first.1 second.1)

  pub one-Stays :
      (kind name : Text) (ensure : M World Text)
      → ((id : Text) × (ensure w ≡ done id w))
      → Stays (provision_one kind name ensure)
  unfolding Stays provision_one on_account brought note_id set_id
  one-Stays kind name ensure (id, found) ids file = (put (key kind name) id ids, rw found refl)

  pub account-Stays :
      (ensure : M World (Unit {0}))
      → ((u : Unit {0}) × (ensure w ≡ done u w))
      → Stays (on_account ensure)
  unfolding Stays on_account brought
  account-Stays ensure (u, found) ids file = (ids, rw found refl)

  Each-Stays :
      {A : Type 0} (plan_it : A → Result PlanItem) (step : A → M (Provider World) (Unit {0}))
      (P : A → Type 0) (more : List A)
      → ((a : A) → P a → InPlace (plan_it a) → Stays (step a))
      → Each P more
      → AllInPlace plan_it more
      → Stays (provision_each step more)
  unfolding provision_each AllInPlace Stays
  Each-Stays plan_it step P [] stays each h = λ ids file. (ids, refl)
  Each-Stays plan_it step P (a ∷ more) stays each h =
      then-Stays (step a) (provision_each step more) (stays a each.0 h.0)
        (Each-Stays plan_it step P more stays each.1 h.1)

and_then_ok :
    {A B : Type 0} (r : Result A) (f : A → Result B) (b : B)
    → and_then r f ≡ ok b
    → (a : A) × (r ≡ ok a) × (f a ≡ ok b)
and_then_ok (ok a) f b h = (a, refl, h)
and_then_ok (err e) f b h = ground arith

AllNoOp-append : (xs ys : List PlanItem) → AllNoOp (xs ++ ys) → AllNoOp xs × AllNoOp ys
unfolding AllNoOp
AllNoOp-append [] ys h = (tt, h)
AllNoOp-append (x ∷ xs) ys h = let rest = AllNoOp-append xs ys h.1 in ((h.0, rest.0), rest.1)

in_place : (r : Result PlanItem) (i : PlanItem) → r ≡ ok i → i.action ≡ no_op → InPlace r
in_place r i h settled = rw h settled

-- A dry run that succeeds and finds nothing to do.
unfoldable pub IsSettled : Result (List PlanItem) → Type 0
IsSettled r = (items : List PlanItem) × (r ≡ ok items) × AllNoOp items

IsSettled-parts : (p q : Result (List PlanItem)) → IsSettled (p |> q) → IsSettled p × IsSettled q
unfolding IsSettled ◌|>◌
IsSettled-parts p q (items, h, settled) =
    let (xs, hx, rest) = and_then_ok p (λ xs. and_then q λ ys. ok (xs ++ ys)) items h in
    let (ys, hy, joined) = and_then_ok q (λ ys. ok (xs ++ ys)) items rest in
    let same : xs ++ ys ≡ items = ground (arith, joined) in
    let both = AllNoOp-append xs ys (subst AllNoOp (sym same) settled) in
    ((xs, hx, both.0), (ys, hy, both.1))

plan_each-AllInPlace :
    {A : Type 0} (plan_it : A → Result PlanItem) (more : List A)
    → IsSettled (plan_each plan_it more)
    → AllInPlace plan_it more
unfolding plan_each AllNoOp AllInPlace IsSettled
plan_each-AllInPlace plan_it [] h = tt
plan_each-AllInPlace plan_it (a ∷ more) (items, h, settled) =
    let (i, hi, rest) =
      and_then_ok (plan_it a) (λ i. and_then (plan_each plan_it more) λ is. ok (i ∷ is)) items h in
    let (is, his, joined) = and_then_ok (plan_each plan_it more) (λ is. ok (i ∷ is)) items rest in
    let same : i ∷ is ≡ items = ground (arith, joined) in
    let settled' : AllNoOp (i ∷ is) = subst AllNoOp (sym same) settled in
    (in_place (plan_it a) i hi settled'.0, plan_each-AllInPlace plan_it more (is, his, settled'.1))

module _ {World : Type 0} (w : World) where
  pub loop-Stays :
      {A : Type 0} (plan_it : A → Result PlanItem) (step : A → M (Provider World) (Unit {0}))
      (P : A → Type 0) (more : List A)
      → ((a : A) → P a → InPlace (plan_it a) → Stays w (step a))
      → Each P more
      → IsSettled (plan_each plan_it more)
      → Stays w (provision_each step more)
  loop-Stays plan_it step P more stays each h =
      Each-Stays w plan_it step P more stays each (plan_each-AllInPlace plan_it more h)

  pub pair-Stays :
      (m n : M (Provider World) (Unit {0})) (p q : Result (List PlanItem))
      → (IsSettled p → Stays w m)
      → (IsSettled q → Stays w n)
      → IsSettled (p |> q)
      → Stays w (m >> n)
  pair-Stays m n p q sm sn settled =
      let both = IsSettled-parts p q settled in then-Stays w m n (sm both.0) (sn both.1)

pub Any : {A : Type 0} → A → Type 0
Any a = Unit

pub Each-Any : {A : Type 0} (more : List A) → Each Any more
unfolding Any
Each-Any [] = tt
Each-Any (a ∷ more) = (tt, Each-Any more)
