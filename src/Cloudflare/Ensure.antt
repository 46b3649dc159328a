-- ===== src/Cloudflare/Ensure.antt =====
-- KV namespaces, queues and their consumers, AI gateways and Vectorize indexes (cloudflare_kv.go,
-- cloudflare_queues.go, cloudflare_aigateway.go and cloudflare_vectorize.go in
-- cli/internal/serverless): found by name, made if they are missing.
use next_deploy.Common.{
  ℕ, Bool, true, false, Option, none, some, [], ◌||◌, ◌==◌, map, if◌then◌else◌,
}
use next_deploy.Common.Int.{ℤ, pos, negsuc}
use next_deploy.Common.Text.{Text, codes, text_eq, to_lower, trim_space}
use next_deploy.Cloudflare.Api.{
  Api, not_found, Answer, got, refused, Index, Metric, cosine, euclidean, dot_product, done, failed,
  api_error, missing_field, bad_dimensions, unknown_metric, immutable_drift, Result, ok, err,
  and_then, M, ◌>>=◌, lift, create, find_id,
}

pub record VectorizeDecl : Type 0 where
  pub name : Text
  pub dimensions : ℤ
  pub metric : Text

-- The name of a metric, with hyphens or underscores.
unfoldable pub normalize_vectorize_metric : Text → Result Metric
normalize_vectorize_metric m =
    let s = to_lower (map (λ c. if c == b'_' then b'-' else c) (trim_space m)) in
    if text_eq s (codes "cosine")
    then ok cosine
    else if text_eq s (codes "euclidean")
    then ok euclidean
    else if text_eq s (codes "dot-product") || text_eq s (codes "dotproduct")
    then ok dot_product
    else err unknown_metric

unfoldable pub same_metric : Metric → Metric → Bool
same_metric cosine cosine = true
same_metric euclidean euclidean = true
same_metric dot_product dot_product = true
same_metric _ _ = false

-- A dimension above 0.
unfoldable pub positive : ℤ → Result ℕ
positive (pos n) = if n == 0 then err bad_dimensions else ok n
positive (negsuc n) = err bad_dimensions

-- The dimensions and the metric that are declared.
unfoldable pub wanted_index : VectorizeDecl → Result Index
unfolding positive
wanted_index d = and_then (positive d.dimensions) λ n.
    and_then (normalize_vectorize_metric d.metric) λ m. ok (record { dimensions = n; metric = m })

unfoldable pub same_index : Index → Index → Bool
same_index a b = if a.dimensions == b.dimensions then same_metric a.metric b.metric else false

module _ {World : Type 0} (api : Api World) where
  unfoldable pub find_kv_namespace_id : Text → World → Result (Option Text)
  find_kv_namespace_id title w = find_id title (api.list_kv w)

  -- What exists is left; what does not is made.
  unfoldable pub or_create : Option Text → (World → Option Text × World) → M World Text
  or_create (some id) call w = done id w
  or_create none call w = create call w

  unfoldable pub ensure_kv_namespace : Text → M World Text
  unfolding or_create
  ensure_kv_namespace title = do
    found ← lift (find_kv_namespace_id title)
    or_create found (api.new_kv title)

  unfoldable pub find_queue_id : Text → World → Result (Option Text)
  find_queue_id name w = find_id name (api.list_queues w)

  unfoldable pub ensure_queue : Text → M World Text
  unfolding or_create
  ensure_queue name = do found ← lift (find_queue_id name); or_create found (api.new_queue name)

  unfoldable pub gateway_found : Text → Answer (Unit {0}) → M World Text
  gateway_found slug (got u) w = done slug w
  gateway_found slug (refused not_found) w = create (api.new_gateway slug) w
  gateway_found slug (refused e) w = failed (api_error e) w

  unfoldable pub ensure_ai_gateway : Text → M World Text
  unfolding gateway_found
  ensure_ai_gateway slug w =
      if text_eq slug []
      then failed missing_field w
      else gateway_found slug (api.get_gateway w slug) w

  unfoldable pub index_found : Text → Index → Answer Index → M World Text
  index_found name wanted (got existing) w =
      if same_index wanted existing then done name w else failed immutable_drift w
  index_found name wanted (refused not_found) w = create (api.new_vectorize name wanted) w
  index_found name wanted (refused e) w = failed (api_error e) w

  unfoldable pub ensure_vectorize_index : VectorizeDecl → M World Text
  unfolding index_found
  ensure_vectorize_index d w =
      if text_eq d.name []
      then failed missing_field w
      else (do
        wanted ← lift (λ _. wanted_index d)
        index_found d.name wanted (api.get_vectorize w d.name))
          w
