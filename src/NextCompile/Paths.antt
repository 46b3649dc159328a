-- ===== src/NextCompile/Paths.antt =====
-- The route and the kind of a compiled file by its path (routePathFromCompiled, kindFromCompiled and
-- classifyRefs of shared/nextcompile/scanner.go). Paths are relative to the parent of `server/`.
pub mod Served
mod Tests
use next_deploy.Common.{Bool, true, false, ◌&&◌, ◌||◌, List, [], ◌∷◌, ◌++◌, if◌then◌else◌}
use next_deploy.Common.Text.{Text, codes, text_eq, has_prefix, has_suffix}
use next_deploy.Common.FilePath.{
  split_on, join_on, trim_prefix, trim_suffix, slash, path_dir, path_base, path_ext,
}
use next_deploy.NextCompile.Modules.{
  RouteKind, page, layout, api, middleware, proxy, unknown, ModuleRef,
}

is_group : Text → Bool
is_group part = has_prefix part (codes "(") && has_suffix part (codes ")")

unfoldable pub without_groups : List Text → List Text
unfolding is_group
without_groups [] = []
without_groups (part ∷ parts) =
    let rest = without_groups parts in if is_group part then rest else part ∷ rest

unfoldable pub strip_route_groups : Text → Text
unfolding without_groups
strip_route_groups p = join_on (slash ∷ []) (without_groups (split_on slash p))

-- The route of a file with the name `base` in `dir`.
unfoldable pub app_route : Text → Text → Text
app_route base dir =
    if text_eq base (codes "page") || text_eq base (codes "route")
    then (if text_eq dir (codes ".") then codes "/" else slash ∷ strip_route_groups dir)
    else if text_eq base (codes "layout")
    then (if text_eq dir (codes ".")
        then codes "/_root_layout"
        else slash ∷ (strip_route_groups dir ++ codes "/_layout"))
    else slash ∷ (strip_route_groups dir ++ (codes "/_" ++ base))

unfoldable pub app_route_from_path : Text → Text
app_route_from_path rel =
    let stem = trim_suffix rel (path_ext rel) in app_route (path_base stem) (path_dir stem)

unfoldable pub pages_route_from_path : Text → Text
pages_route_from_path rel =
    let stem = trim_suffix rel (path_ext rel) in
    if text_eq stem (codes "index") then codes "/" else slash ∷ trim_suffix stem (codes "/index")

-- `name` with one of the two extensions.
is_script : Text → Text → Bool
is_script name rel = text_eq rel (name ++ codes ".js") || text_eq rel (name ++ codes ".mjs")

ends_script : Text → Text → Bool
ends_script name rel = has_suffix rel (name ++ codes ".js") || has_suffix rel (name ++ codes ".mjs")

unfoldable pub route_path_from_compiled : Text → Text
unfolding is_script
route_path_from_compiled compiled =
    let rel = trim_prefix compiled (codes "server/") in
    if is_script (codes "middleware") rel
    then codes "/_middleware"
    else if is_script (codes "proxy") rel
    then codes "/_proxy"
    else if has_prefix rel (codes "app/")
    then app_route_from_path (trim_prefix rel (codes "app/"))
    else if has_prefix rel (codes "pages/")
    then pages_route_from_path (trim_prefix rel (codes "pages/"))
    else []

unfoldable pub kind_of_rel : Text → RouteKind
unfolding is_script ends_script
kind_of_rel rel =
    if is_script (codes "middleware") rel
    then middleware
    else if is_script (codes "proxy") rel
    then proxy
    else if ends_script (codes "/route") rel
    then api
    else if has_prefix rel (codes "pages/api/")
    then api
    else if ends_script (codes "/page") rel
    then page
    else if ends_script (codes "/layout") rel
    then layout
    else if has_prefix rel (codes "pages/")
    then page
    else unknown

unfoldable pub kind_from_compiled : Text → RouteKind
unfolding kind_of_rel
kind_from_compiled compiled = kind_of_rel (trim_prefix compiled (codes "server/"))

-- The kind after a look at the routes that the payload lists as API routes.
unfoldable pub refined : Bool → RouteKind → RouteKind
refined listed middleware = middleware
refined listed proxy = proxy
refined listed kind = if listed then api else kind

unfoldable pub is_listed : Text → List Text → Bool
is_listed route [] = false
is_listed route (r ∷ routes) = text_eq r route || is_listed route routes

unfoldable pub classify_refs : List Text → List ModuleRef → List ModuleRef
unfolding refined
classify_refs api_routes [] = []
classify_refs api_routes (r ∷ refs) =
    record r { kind = refined (is_listed r.route_path api_routes) r.kind }
    ∷ classify_refs api_routes refs
