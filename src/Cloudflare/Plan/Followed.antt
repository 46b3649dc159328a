-- ===== src/Cloudflare/Plan/Followed.antt =====
-- What a deploy does after a dry run on the same account, kind by kind (cli/internal/serverless):
-- the verdicts of cloudflare_plan.go against the ensure functions.
use next_deploy.Common.{◌≡◌, ◌≢◌, refl, String, inl, inr, Option, none, some, [], arith, Bool-cases}
use next_deploy.Common.Text.{Text, text_eq, text_eq_iff}
use next_deploy.Cloudflare.Api.{
  Api, Answer, got, refused, not_found, other_error, Run, done, failed, Index, immutable_drift,
  Result, ok, err, M, ◌>>=◌, continue, lift, create, and_then,
}
use next_deploy.Cloudflare.Ensure.{
  VectorizeDecl, wanted_index, same_index, find_kv_namespace_id, find_queue_id, ensure_kv_namespace,
  ensure_queue, ensure_ai_gateway, ensure_vectorize_index, or_create, gateway_found, index_found,
}
use next_deploy.Cloudflare.Plan.{
  PlanAction, create_it, update_it, no_op, drift, PlanItem, presence, index_item, gateway_item,
  plan_kv, plan_queue, plan_vectorize, plan_ai_gateway,
}

abbrev pub Gives : {World A : Type 0} → Option (Run World A) → Run World A → Type 0
Gives (some c) r = r ≡ c
Gives none r = ⊥

-- A verdict is followed by a run from `w`: to create or to update is exactly what that call gives
-- (`none`: the kind has no such call), no-op succeeds and leaves the account, drift fails and leaves it.
unfoldable pub Follows :
    {World A : Type 0}
    → Option (Run World A)
    → Option (Run World A)
    → World
    → Run World A
    → PlanAction
    → Type 0
Follows c u w r create_it = Gives c r
Follows c u w r update_it = Gives u r
Follows {A = A} c u w r no_op = (a : A) × (r ≡ done a w)
Follows c u w r drift = r ≡ failed immutable_drift w

-- The same of a dry run that may have ended in an error, which promises nothing.
abbrev pub Agrees :
    {World A : Type 0}
    → Option (Run World A)
    → Option (Run World A)
    → World
    → Run World A
    → Result PlanItem
    → Type 0
Agrees c u w r (ok i) = Follows c u w r i.action
Agrees c u w r (err e) = Unit

module _ {World : Type 0} (api : Api World) where
  found_or_created :
      (kind : String) (name : Text) (w : World) (call : World → Option Text × World)
      (found : Result (Option Text))
      → Agrees
          (some (create call w))
          none
          w
          (continue (lift (λ v. found) w) (λ id. or_create api id call))
          (and_then found (λ id. ok (presence kind name no_op id)))
  unfolding Follows or_create
  found_or_created kind name w call (err e) = tt
  found_or_created kind name w call (ok none) = refl
  found_or_created kind name w call (ok (some id)) = (id, refl)

  -- KV namespaces: what the dry run says is what a deploy does.
  pub ensure_kv_namespace-plan_kv :
      (w : World) (name : Text)
      → Agrees
          (some (create (api.new_kv name) w))
          none
          w
          (ensure_kv_namespace api name w)
          (plan_kv api w name)
  unfolding ensure_kv_namespace plan_kv
  ensure_kv_namespace-plan_kv w name = elim (Bool-cases (text_eq name [])) [
    | inl missing ↦ rw missing tt
    | inr named ↦
        rw named (found_or_created "kv" name w (api.new_kv name) (find_kv_namespace_id api name w))
  ]

  pub ensure_queue-plan_queue :
      (w : World) (name : Text)
      → Agrees
          (some (create (api.new_queue name) w))
          none
          w
          (ensure_queue api name w)
          (plan_queue api w name)
  unfolding ensure_queue plan_queue
  ensure_queue-plan_queue w name =
      found_or_created "queue" name w (api.new_queue name) (find_queue_id api name w)

  gateway-Agrees :
      (slug : Text) (w : World) (answer : Answer (Unit {0}))
      → Agrees
          (some (create (api.new_gateway slug) w))
          none
          w
          (gateway_found api slug answer w)
          (gateway_item slug answer)
  unfolding Follows gateway_found
  gateway-Agrees slug w (got u) = (slug, refl)
  gateway-Agrees slug w (refused not_found) = refl
  gateway-Agrees slug w (refused other_error) = tt

  pub ensure_ai_gateway-plan_ai_gateway :
      (w : World) (slug : Text)
      → Agrees
          (some (create (api.new_gateway slug) w))
          none
          w
          (ensure_ai_gateway api slug w)
          (plan_ai_gateway api w slug)
  unfolding ensure_ai_gateway plan_ai_gateway
  ensure_ai_gateway-plan_ai_gateway w slug = elim (Bool-cases (text_eq slug [])) [
    | inl missing ↦ rw missing tt
    | inr named ↦ rw named (gateway-Agrees slug w (api.get_gateway w slug))
  ]

  index-Agrees :
      (name : Text) (wanted : Index) (w : World) (answer : Answer Index)
      → Agrees
          (some (create (api.new_vectorize name wanted) w))
          none
          w
          (index_found api name wanted answer w)
          (index_item name wanted answer)
  unfolding Follows index_found
  index-Agrees name wanted w (got existing) = elim (Bool-cases (same_index wanted existing)) [
    | inl same ↦ rw same (name, refl)
    | inr other ↦ rw other refl
  ]
  index-Agrees name wanted w (refused not_found) = refl
  index-Agrees name wanted w (refused other_error) = tt

  -- The creation of the index that is declared.
  pub create_index : VectorizeDecl → M World Text
  create_index d = lift (λ w. wanted_index d) >>= λ wanted. create (api.new_vectorize d.name wanted)

  wanted-Agrees :
      (d : VectorizeDecl) (w : World) (wanted : Result Index)
      → Agrees
          (some ((lift (λ v. wanted) >>= λ i. create (api.new_vectorize d.name i)) w))
          none
          w
          (continue
            (lift (λ v. wanted) w)
            (λ i. index_found api d.name i (api.get_vectorize w d.name)))
          (and_then wanted (λ i. index_item d.name i (api.get_vectorize w d.name)))
  wanted-Agrees d w (ok wanted) = index-Agrees d.name wanted w (api.get_vectorize w d.name)
  wanted-Agrees d w (err e) = tt

  -- What a dry run says of a Vectorize index is what a deploy on the same account does: on create the
  -- call that creates it, on no-op nothing, on drift a failure without a write; there is no update. The
  -- index has a name; a dry run that ended in an error says nothing.
  pub ensure_vectorize_index-plan_vectorize :
      (w : World) (d : VectorizeDecl)
      → d.name ≢ []
      → Agrees
          (some (create_index d w))
          none
          w
          (ensure_vectorize_index api d w)
          (plan_vectorize api w d)
  unfolding ensure_vectorize_index plan_vectorize create_index
  ensure_vectorize_index-plan_vectorize w d named = elim (Bool-cases (text_eq d.name [])) [
    | inl missing ↦ ground (arith, missing, named, text_eq_iff d.name [])
    | inr present ↦ rw present (wanted-Agrees d w (wanted_index d))
  ]
