-- ===== src/NextCompile/Dispatch/Tests.antt =====
-- Routes and literals of the dispatch table (shared/nextcompile/dispatch.go).
use next_deploy.Common.FilePath.Elements.{has_byte}
use next_deploy.Common.{◌≡◌, ◌↔◌, refl, true, false, some, List, [], ◌∷◌, ◌++◌, In, length}
use next_deploy.Common.Text.{Text, codes, text_eq, has_prefix, has_suffix}
use next_deploy.Common.FilePath.{split_on, trim_prefix, trim_suffix, trim_of}
use next_deploy.NextCompile.Modules.{RouteKind, page, api, ModuleRef}
use next_deploy.NextCompile.Dispatch.{
  penalty, penalties, is_single, is_catch_all, is_optional, js_string_literal, route_to_regex,
  segments, dynamic_specificity, partition_refs,
}
use next_deploy.NextCompile.Dispatch.Literals.{read_js_literal, read_js_literal-js_string_literal}
use next_deploy.NextCompile.Dispatch.Groups.{capture_groups, route_to_regex-capture_groups}
use next_deploy.NextCompile.Dispatch.Partition.{Belongs, partition_refs_iff}

read_js_literal-js_string_literal_example :
    read_js_literal (js_string_literal (codes "a\"b\\c") ++ codes ": 1")
    ≡ some (codes "a\"b\\c", codes ": 1")
read_js_literal-js_string_literal_example =
    read_js_literal-js_string_literal (codes "a\"b\\c") (codes ": 1")

abbrev docs_route : Text
docs_route = codes "/docs/[lang]/[[...path]]"

route_to_regex-capture_groups_example :
    capture_groups (route_to_regex docs_route).0 ≡ length (route_to_regex docs_route).1
unfolding segments split_on trim_prefix trim_suffix trim_of has_prefix has_suffix text_eq
    is_optional is_catch_all is_single has_byte
route_to_regex-capture_groups_example =
    route_to_regex-capture_groups docs_route (refl, (refl, (refl, tt)))

-- Another segment weighs more than a catch-all takes off: a route of three parameters comes before one
-- with a fixed segment.
specificity_test :
    (dynamic_specificity (codes "/[lang]/[page]/[id]") ≡ 27)
    × (dynamic_specificity (codes "/shop/[...path]") ≡ 16)
unfolding dynamic_specificity segments split_on trim_of penalties penalty has_prefix
specificity_test = (refl, refl)

abbrev module_at : RouteKind → Text → ModuleRef
module_at kind route = record {
  route_path = route;
  kind = kind;
  compiled_path = codes "m.js";
  has_actions = false;
  uses_rsc = true;
  uses_after = false;
  ppr_enabled = false;
  client_manifest_path = [];
  layout_chain = [];
  env_refs = [];
  fetch_targets = [];
  byte_size = 0;
}

abbrev modules : List ModuleRef
modules = module_at page (codes "/") ∷ module_at api (codes "/api/[id]") ∷ []

partition_refs_iff_example :
    (In (module_at api (codes "/api/[id]")) (partition_refs modules).dynamics ↔ (
      In (module_at api (codes "/api/[id]")) modules
      × Belongs true (module_at api (codes "/api/[id]"))))
    × (In (module_at api (codes "/api/[id]")) (partition_refs modules).statics ↔ (
        In (module_at api (codes "/api/[id]")) modules
        × Belongs false (module_at api (codes "/api/[id]"))))
partition_refs_iff_example = partition_refs_iff modules (module_at api (codes "/api/[id]"))
