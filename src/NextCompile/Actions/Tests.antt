-- ===== src/NextCompile/Actions/Tests.antt =====
-- Actions of a build, with workers that are module names (shared/nextcompile/actions.go).
use next_deploy.Common.{◌≡◌, refl, none, some, [], ◌∷◌}
use next_deploy.Common.Text.{codes, text_eq}
use next_deploy.Common.Map.{get}
use next_deploy.NextCompile.Actions.{node, edge, UpstreamManifest, WorkerJson, parse_upstream}
use next_deploy.NextCompile.Actions.Stable.{preferred, listed_action, parse_upstream_lem}

abbrev plain_json : WorkerJson
plain_json = record { as_string = λ raw. some raw; module_id = λ raw. none }

-- An action that two pages bundle, walked in the wrong order, and one of the edge.
abbrev upstream : UpstreamManifest
upstream = record {
  node = (codes "a1", (codes "app/z/page", codes "9") ∷ (codes "app/a/page", codes "3") ∷ []) ∷ [];
  edge =
      (codes "a1", (codes "app/e/page", codes "4") ∷ [])
      ∷ (codes "b2", (codes "app/e/page", codes "4") ∷ [])
      ∷ [];
}

parse_upstream_lem_example :
    get (codes "a1") (parse_upstream plain_json upstream)
    ≡ preferred
        (listed_action plain_json node (codes "a1") (get (codes "a1") upstream.node))
        (listed_action plain_json edge (codes "a1") (get (codes "a1") upstream.edge))
unfolding get text_eq
parse_upstream_lem_example =
    parse_upstream_lem plain_json upstream (codes "a1") (refl, tt) (refl, (refl, tt))
