-- ===== src/NextCompile/Contents.antt =====
-- The contents of the manifest that the runtime reads (BuildManifest of shared/nextcompile/manifest.go).
-- A revalidation interval that is not positive is 0.
pub mod Tags
mod Tests
use next_deploy.Common.{
  ℕ, Bool, true, false, not, ◌&&◌, ◌||◌, Option, none, some, List, [], ◌∷◌, ◌++◌, ◌==◌, ltb, length,
  if◌then◌else◌,
}
use next_deploy.Common.Text.{Text, codes}
use next_deploy.Common.Map.{Map, get, put}
use next_deploy.Common.Sort.{sort}
use next_deploy.NextCompile.Modules.{RouteKind, middleware, proxy, ModuleRef}

pub record IsrRoute : Type 0 where
  pub path : Text
  pub tags : List Text
  pub revalidate : ℕ

pub record RouteInfo : Type 0 where
  pub static_routes : List Text
  pub dynamic_routes : List Text
  pub ssg_routes : Map Text
  pub ssr_routes : List Text
  pub isr_routes : Map Text
  pub isr_detail : List IsrRoute
  pub api_routes : List Text
  pub fallback_routes : Map Text
  pub middleware_routes : List Text

pub record MiddlewareMatcher : Type 0 where
  pub pathname : Text
  pub pattern_text : Text

pub record MiddlewareConfig : Type 0 where
  pub path : Text
  pub matchers : List MiddlewareMatcher
  pub runtime : Text

pub record ImageRemotePattern : Type 0 where
  pub protocol : Text
  pub hostname : Text
  pub port : Text
  pub pathname : Text

pub record ImageConfig : Type 0 where
  pub remote_patterns : List ImageRemotePattern
  pub domains : List Text
  pub formats : List Text
  pub unoptimized : Bool

pub record I18nConfig : Type 0 where
  pub locales : List Text
  pub default_locale : Text
  pub locale_detection : Bool

pub record Payload : Type 0 where
  pub app_name : Text
  pub dist_dir : Text
  pub output_mode : Text
  pub base_path : Text
  pub has_app_router : Bool
  pub routes : RouteInfo
  pub middleware_config : Option MiddlewareConfig
  pub image_config : Option ImageConfig
  pub i18n : Option I18nConfig
  pub build_id : Text
  pub git_commit : Text

pub record ManifestRoutes : Type 0 where
  pub static_list : List Text
  pub ssg : Map Text
  pub ssr : List Text
  pub isr : Map Text
  pub api_list : List Text
  pub dynamic : List Text
  pub fallback : Map Text
  pub middleware_list : List Text

pub record ManifestIsr : Type 0 where
  pub tags : Map (List Text)
  pub intervals : Map ℕ

pub record ManifestFeatures : Type 0 where
  pub rsc : Bool
  pub server_actions : Bool
  pub has_middleware : Bool
  pub has_proxy : Bool
  pub isr : Bool
  pub image_optimize : Bool
  pub i18n : Bool
  pub ppr : Bool
  pub after : Bool

pub record RuntimeManifest : Type 0 where
  pub schema_version : Text
  pub generated_at : Text
  pub app_name : Text
  pub base_path : Text
  pub next_version : Text
  pub react_version : Text
  pub build_id : Text
  pub git_commit : Text
  pub routes : ManifestRoutes
  pub isr : ManifestIsr
  pub middleware_config : Option MiddlewareConfig
  pub images : Option ImageConfig
  pub i18n : Option I18nConfig
  pub has_app_router : Bool
  pub output_mode : Text
  pub features : ManifestFeatures

unfoldable pub build_manifest_routes : RouteInfo → ManifestRoutes
build_manifest_routes r = record {
  static_list = sort r.static_routes;
  ssg = r.ssg_routes;
  ssr = sort r.ssr_routes;
  isr = r.isr_routes;
  api_list = sort r.api_routes;
  dynamic = sort r.dynamic_routes;
  fallback = r.fallback_routes;
  middleware_list = sort r.middleware_routes;
}

-- out.Tags[tag] = append(out.Tags[tag], path)
unfoldable pub paths_of : Option (List Text) → List Text
paths_of none = []
paths_of (some paths) = paths

unfoldable pub add_tag : Text → Text → Map (List Text) → Map (List Text)
unfolding paths_of
add_tag path tag tags = put tag (paths_of (get tag tags) ++ path ∷ []) tags

unfoldable pub add_tags : Text → List Text → Map (List Text) → Map (List Text)
add_tags path [] tags = tags
add_tags path (tag ∷ more) tags = add_tags path more (add_tag path tag tags)

unfoldable pub add_detail : IsrRoute → ManifestIsr → ManifestIsr
add_detail d out = record {
  tags = add_tags d.path d.tags out.tags;
  intervals = if d.revalidate == 0 then out.intervals else put d.path d.revalidate out.intervals;
}

unfoldable pub add_details : List IsrRoute → ManifestIsr → ManifestIsr
add_details [] out = out
add_details (d ∷ details) out = add_details details (add_detail d out)

unfoldable pub sort_tags : Map (List Text) → Map (List Text)
sort_tags [] = []
sort_tags ((tag, paths) ∷ tags) = (tag, sort paths) ∷ sort_tags tags

unfoldable pub build_manifest_isr : List IsrRoute → ManifestIsr
build_manifest_isr details =
    let out = add_details details (record { tags = []; intervals = [] }) in
    record out { tags = sort_tags out.tags }

is_middleware : RouteKind → Bool
is_middleware middleware = true
is_middleware _ = false

is_proxy : RouteKind → Bool
is_proxy proxy = true
is_proxy _ = false

unfoldable pub note_module : ModuleRef → ManifestFeatures → ManifestFeatures
unfolding is_middleware is_proxy
note_module r f = record f {
  rsc = r.uses_rsc || f.rsc;
  server_actions = r.has_actions || f.server_actions;
  has_middleware = is_middleware r.kind || f.has_middleware;
  has_proxy = is_proxy r.kind || f.has_proxy;
  ppr = r.ppr_enabled || f.ppr;
  after = r.uses_after || f.after;
}

unfoldable pub note_modules : List ModuleRef → ManifestFeatures → ManifestFeatures
note_modules [] f = f
note_modules (r ∷ refs) f = note_modules refs (note_module r f)

optimizes : Option ImageConfig → Bool
optimizes none = false
optimizes (some images) = not images.unoptimized

has_locales : Option I18nConfig → Bool
has_locales none = false
has_locales (some i18n) = ltb 0 (length i18n.locales)

unfoldable pub build_features : Payload → List ModuleRef → ManifestFeatures
unfolding optimizes has_locales
build_features p refs = note_modules refs (record {
  rsc = false;
  server_actions = false;
  has_middleware = false;
  has_proxy = false;
  isr = ltb 0 (length p.routes.isr_routes) || ltb 0 (length p.routes.isr_detail);
  image_optimize = optimizes p.image_config;
  i18n = has_locales p.i18n;
  ppr = false;
  after = false;
})

sorted_images : Option ImageConfig → Option ImageConfig
sorted_images none = none
sorted_images (some images) =
    some (record images { domains = sort images.domains; formats = sort images.formats })

sorted_locales : Option I18nConfig → Option I18nConfig
sorted_locales none = none
sorted_locales (some i18n) = some (record i18n { locales = sort i18n.locales })

-- The two versions are the raw texts that were detected; the time is in RFC 3339.
unfoldable pub build_manifest : Payload → Text → Text → List ModuleRef → Text → RuntimeManifest
unfolding sorted_images sorted_locales
build_manifest p next_version react_version refs generated_at = record {
  schema_version = codes "1";
  generated_at = generated_at;
  app_name = p.app_name;
  base_path = p.base_path;
  next_version = next_version;
  react_version = react_version;
  build_id = p.build_id;
  git_commit = p.git_commit;
  routes = build_manifest_routes p.routes;
  isr = build_manifest_isr p.routes.isr_detail;
  middleware_config = p.middleware_config;
  images = sorted_images p.image_config;
  i18n = sorted_locales p.i18n;
  has_app_router = p.has_app_router;
  output_mode = p.output_mode;
  features = build_features p refs;
}
