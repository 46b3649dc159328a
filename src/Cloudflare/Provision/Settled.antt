-- ===== src/Cloudflare/Provision/Settled.antt =====
-- Provisioning after a dry run in which nothing is to be done (ProvisionResources and Plan of
-- cli/internal/serverless).
use next_deploy.Common.{◌≡◌, ◌≢◌, refl, false, Option, none, some, List, [], ◌∷◌, arith}
use next_deploy.Common.Text.{Text, codes}
use next_deploy.Cloudflare.Api.{Api, Body, done, Result, ok, err, and_then}
use next_deploy.Cloudflare.Ensure.{
  VectorizeDecl, ensure_kv_namespace, ensure_queue, ensure_vectorize_index, ensure_ai_gateway,
}
use next_deploy.Cloudflare.Hyperdrive.{
  Environment, HyperdriveDecl, ensure_hyperdrive, find_hyperdrive_id,
}
use next_deploy.Cloudflare.D1.{D1Decl, Migrations, ensure_d1_database}
use next_deploy.Cloudflare.Dns.{DnsDecl, declared_body, ensure_dns_record}
use next_deploy.Cloudflare.Plan.{
  Resources, PlanItem, update_it, has_drift, is_drift, ZoneSettings, presence, plan, plan_d1,
  plan_kv, plan_hyperdrive, plan_queue, plan_vectorize, plan_ai_gateway, plan_dns_record,
}
use next_deploy.Cloudflare.Plan.Followed.{
  ensure_kv_namespace-plan_kv, ensure_queue-plan_queue, ensure_ai_gateway-plan_ai_gateway,
  ensure_vectorize_index-plan_vectorize,
}
use next_deploy.Cloudflare.Plan.Databases.{ensure_d1_database-plan_d1}
use next_deploy.Cloudflare.Plan.Dns.{ensure_dns_record-plan_dns_record}
use next_deploy.Cloudflare.Provision.Steady.{
  Each, InPlace, Stays, AllNoOp, IsSettled, Agrees-no_op, one-Stays, account-Stays, loop-Stays,
  pair-Stays, then-Stays, Any, Each-Any,
}
use next_deploy.Cloudflare.Provision.{
  Session, apply, apply_planned, provision_resources, deferred, persist, Provider, on_account,
  provision_one, provision_all, zone_step,
}

-- What a plan does not look at: the migrations and the zone settings, of which there are none, the
-- names of the indexes, which are given, and the types of the records, which have a body.
unfoldable pub IsPlain : Resources → Type 0
IsPlain r =
    Each (λ d. d.migrations_dir ≡ []) r.d1
    × Each (λ v. v.name ≢ []) r.vectorize
    × Each (λ d. (body : Body) × (declared_body d ≡ ok body)) r.dns
    × (r.zone_settings ≡ none)

no_update :
    (name : Text) (found : Result (Option Text))
    → ¬ InPlace (and_then found (λ id. ok (presence "hyperdrive" name update_it id)))
no_update name (ok none) h = ground arith
no_update name (ok (some id)) h = ground arith
no_update name (err e) h = h

module _ {World : Type 0} (env : Environment) (fs : Migrations) (api : Api World) (w : World) where
  d1-Stays :
      (d : D1Decl)
      → d.migrations_dir ≡ []
      → InPlace (plan_d1 fs api w d)
      → Stays w (provision_one (codes "d1") d.name (ensure_d1_database fs api d))
  d1-Stays d plain h =
      one-Stays w (codes "d1") d.name (ensure_d1_database fs api d)
        (Agrees-no_op _ _ (plan_d1 fs api w d) (ensure_d1_database-plan_d1 env fs api w d plain) h)

  kv-Stays :
      (k : Text)
      → Any k
      → InPlace (plan_kv api w k)
      → Stays w (provision_one (codes "kv") k (ensure_kv_namespace api k))
  kv-Stays k any h =
      one-Stays w (codes "kv") k (ensure_kv_namespace api k)
        (Agrees-no_op _ _ (plan_kv api w k) (ensure_kv_namespace-plan_kv api w k) h)

  hyperdrive-Stays :
      (d : HyperdriveDecl)
      → Any d
      → InPlace (plan_hyperdrive api w d)
      → Stays w (provision_one (codes "hyperdrive") d.name (ensure_hyperdrive env api d))
  unfolding plan_hyperdrive
  hyperdrive-Stays d any h = elim (no_update d.name (find_hyperdrive_id api d.name w) h) [ ]

  queue-Stays :
      (q : Text)
      → Any q
      → InPlace (plan_queue api w q)
      → Stays w (provision_one (codes "queue") q (ensure_queue api q))
  queue-Stays q any h =
      one-Stays w (codes "queue") q (ensure_queue api q)
        (Agrees-no_op _ _ (plan_queue api w q) (ensure_queue-plan_queue api w q) h)

  vectorize-Stays :
      (v : VectorizeDecl)
      → v.name ≢ []
      → InPlace (plan_vectorize api w v)
      → Stays w (provision_one (codes "vectorize") v.name (ensure_vectorize_index api v))
  vectorize-Stays v named h =
      one-Stays w (codes "vectorize") v.name (ensure_vectorize_index api v) (
        Agrees-no_op _ _ (plan_vectorize api w v)
          (ensure_vectorize_index-plan_vectorize api w v named) h)

  gateway-Stays :
      (g : Text)
      → Any g
      → InPlace (plan_ai_gateway api w g)
      → Stays w (provision_one (codes "ai_gateway") g (ensure_ai_gateway api g))
  gateway-Stays g any h =
      one-Stays w (codes "ai_gateway") g (ensure_ai_gateway api g)
        (Agrees-no_op _ _ (plan_ai_gateway api w g) (ensure_ai_gateway-plan_ai_gateway api w g) h)

  dns-Stays :
      (d : DnsDecl)
      → ((body : Body) × (declared_body d ≡ ok body))
      → InPlace (plan_dns_record api w d)
      → Stays w (on_account (ensure_dns_record api d))
  dns-Stays d (body, built) h = account-Stays w (ensure_dns_record api d) (
      Agrees-no_op _ _ (plan_dns_record api w d)
        (ensure_dns_record-plan_dns_record api w d body built) h)

  zone-Stays : (z : Option ZoneSettings) → z ≡ none → Stays w (zone_step env fs api z)
  unfolding Stays zone_step
  zone-Stays none h = λ ids file. (ids, refl)
  zone-Stays (some z) h = ground arith

  provision_all-Stays :
      (r : Resources)
      → IsPlain r
      → IsSettled (plan fs api r w)
      → Stays w (provision_all env fs api r)
  unfolding provision_all plan IsPlain
  provision_all-Stays r plain settled =
      let zone : Stays w (zone_step env fs api r.zone_settings) =
        zone-Stays r.zone_settings plain.3 in
      then-Stays w _ _
        (pair-Stays w _ _ _ _
          (pair-Stays w _ _ _ _
            (pair-Stays w _ _ _ _
              (pair-Stays w _ _ _ _
                (pair-Stays w _ _ _ _
                  (pair-Stays w _ _ _ _ (loop-Stays w _ _ _ r.d1 d1-Stays plain.0)
                    (loop-Stays w _ _ _ r.kv kv-Stays (Each-Any r.kv)))
                  (loop-Stays w _ _ _ r.hyperdrive hyperdrive-Stays (Each-Any r.hyperdrive)))
                (loop-Stays w _ _ _ r.queues queue-Stays (Each-Any r.queues)))
              (loop-Stays w _ _ _ r.vectorize vectorize-Stays plain.1))
            (loop-Stays w _ _ _ r.ai_gateway gateway-Stays (Each-Any r.ai_gateway)))
          (loop-Stays w _ _ _ r.dns dns-Stays plain.2) settled)
        zone

AllNoOp-has_drift : (items : List PlanItem) → AllNoOp items → has_drift items ≡ false
unfolding AllNoOp has_drift is_drift
AllNoOp-has_drift [] h = refl
AllNoOp-has_drift (i ∷ items) h = rw (h.0, is_drift) (AllNoOp-has_drift items h.1)

-- An apply whose dry run succeeds with nothing but no-ops succeeds, gives that plan, and leaves the
-- account as it was. The resources have no D1 migrations and no zone settings, indexes have names,
-- and records are of a type that has a body.
pub apply_settled :
    {World : Type 0} (env : Environment) (fs : Migrations) (api : Api World) (s : Session)
    (r : Resources) (p : Provider World) (items : List PlanItem)
    → IsPlain r
    → plan fs api r p.account ≡ ok items
    → AllNoOp items
    → (q : Provider World) × (apply env fs api s r p ≡ done items q) × (q.account ≡ p.account)
unfolding apply apply_planned provision_resources deferred persist Stays IsSettled
apply_settled env fs api s r p items plain planned settled =
    let (ids, ran) =
      provision_all-Stays env fs api p.account r plain (items, planned, settled) p.provisioned
        p.state_file in
    (
      persist s (record p { provisioned = ids }),
      rw (planned, AllNoOp-has_drift items settled, ran) refl,
      refl,
    )
