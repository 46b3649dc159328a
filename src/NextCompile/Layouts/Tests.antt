-- ===== src/NextCompile/Layouts/Tests.antt =====
-- The layouts of a small app (attachLayoutChains, shared/nextcompile/scanner.go).
use next_deploy.Common.{refl, true, false, Option, some, List, [], ◌∷◌, In, inl, inr}
use next_deploy.Common.Text.{Text, codes, text_eq, has_prefix}
use next_deploy.Common.FilePath.{trim_prefix, join_on}
use next_deploy.Common.FilePath.Elements.{has_byte}
use next_deploy.NextCompile.Modules.{RouteKind, page, layout, ModuleRef, is_page}
use next_deploy.NextCompile.Layouts.{layouts_by_dir, attach_layout_chains}
use next_deploy.NextCompile.Layouts.Ancestors.{with_layouts, attach_layout_chains-In}

abbrev module_at : RouteKind → Text → ModuleRef
module_at kind path = record {
  route_path = [];
  kind = kind;
  compiled_path = path;
  has_actions = false;
  uses_rsc = true;
  uses_after = false;
  ppr_enabled = false;
  client_manifest_path = [];
  layout_chain = [];
  env_refs = [];
  fetch_targets = [];
  byte_size = 0;
}

abbrev blog : ModuleRef
blog = module_at page (codes "/b/server/app/blog/page.js")

abbrev modules : List ModuleRef
modules =
    module_at layout (codes "/b/server/app/layout.js")
    ∷ module_at layout (codes "/b/server/app/blog/layout.js")
    ∷ blog
    ∷ []

abbrev relative : Text → Option Text
relative path = some (trim_prefix path (codes "/b/"))

attach_layout_chains-In_example :
    In
      (with_layouts
        (layouts_by_dir relative modules [])
        (codes "blog" ∷ codes "app" ∷ codes "server" ∷ [])
        blog)
      (attach_layout_chains relative modules)
unfolding text_eq has_prefix trim_prefix has_byte is_page join_on
attach_layout_chains-In_example =
    attach_layout_chains-In relative modules blog (codes "blog") (codes "app" ∷ codes "server" ∷ [])
      (codes "page.js")
      (
        record { no_slash = refl; not_empty = refl; not_dot = refl; not_dots = refl },
        (
          record { no_slash = refl; not_empty = refl; not_dot = refl; not_dots = refl },
          (record { no_slash = refl; not_empty = refl; not_dot = refl; not_dots = refl }, tt),
        ),
      )
      (record { no_slash = refl; not_empty = refl; not_dot = refl; not_dots = refl }) refl refl
      (inr (inr (inl refl)))
