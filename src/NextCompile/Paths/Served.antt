-- ===== src/NextCompile/Paths/Served.antt =====
-- The route of a page of the App Router (routePathFromCompiled and kindFromCompiled,
-- shared/nextcompile/scanner.go).
use next_deploy.Common.{
  ◌≡◌, refl, sym, ap, ◌∙◌, true, false, List, [], ◌∷◌, ◌++◌, append_assoc, All,
}
use mathlib.Core.List.{reverse-append}
use next_deploy.Common.Text.{Text, codes, text_eq, has_prefix, has_suffix}
use next_deploy.Common.FilePath.{join_on, trim_suffix, slash, path_ext, trim_left_of}
use next_deploy.Common.FilePath.Elements.{
  IsElement, split_on-join_on, path_dir_lem, trim_suffix-append, trim_prefix-append, path_base_lem,
  has_byte, join_on-ne_dot,
}
use next_deploy.NextCompile.Modules.{page}
use next_deploy.NextCompile.Paths.{
  without_groups, strip_route_groups, app_route, app_route_from_path, route_path_from_compiled,
  kind_from_compiled, kind_of_rel,
}

abbrev pub joined : List Text → Text
joined parts = join_on (slash ∷ []) parts

path_ext_page : (t : Text) → path_ext (t ++ codes "/page.js") ≡ codes ".js"
unfolding path_ext text_eq
path_ext_page [] = refl
path_ext_page (c ∷ t) = rw (path_ext_page t) refl

strip_route_groups_lem :
    (p : Text) (ps : List Text)
    → All IsElement (p ∷ ps)
    → strip_route_groups (joined (p ∷ ps)) ≡ joined (without_groups (p ∷ ps))
unfolding strip_route_groups
strip_route_groups_lem p ps h = ap (λ t. joined (without_groups t)) (split_on-join_on p ps h)

app_route_page :
    (p : Text) (ps : List Text)
    → All IsElement (p ∷ ps)
    → app_route_from_path (joined (p ∷ ps) ++ codes "/page.js")
      ≡ app_route (codes "page") (joined (p ∷ ps))
unfolding app_route_from_path has_byte trim_left_of
app_route_page p ps h =
    let dir = joined (p ∷ ps) in
    let split : dir ++ codes "/page.js" ≡ (dir ++ codes "/page") ++ codes ".js" =
      sym (append_assoc dir (codes "/page") (codes ".js")) in
    let stem : trim_suffix (dir ++ codes "/page.js") (codes ".js") ≡ dir ++ codes "/page" =
      rw split (trim_suffix-append (dir ++ codes "/page") (codes ".js")) in
    rw
      (
        path_ext_page dir,
        stem,
        path_dir_lem p ps (codes "page") h refl,
        path_base_lem dir (codes "page") refl (λ t. refl),
      )
      refl

-- What the tests of kindFromCompiled see of the end of a page.
page_endings :
    (t : Text)
    → (has_suffix (t ++ codes "/page.js") (codes "/route.js") ≡ false)
      × (has_suffix (t ++ codes "/page.js") (codes "/route.mjs") ≡ false)
      × (has_suffix (t ++ codes "/page.js") (codes "/page.js") ≡ true)
unfolding has_suffix has_prefix
page_endings t = rw (reverse-append t (codes "/page.js")) (refl, refl, refl)

kind_page : (t : Text) → kind_of_rel (codes "app/" ++ (t ++ codes "/page.js")) ≡ page
unfolding kind_of_rel text_eq has_prefix
kind_page t =
    let (not_route, not_route_mjs, is_page) = page_endings (codes "app/" ++ t) in
    rw (not_route, not_route_mjs, is_page) refl

route_page :
    (rest : Text)
    → route_path_from_compiled (codes "server/app/" ++ rest) ≡ app_route_from_path rest
unfolding route_path_from_compiled text_eq has_prefix
route_page rest =
    rw
      (
        trim_prefix-append (codes "server/") (codes "app/" ++ rest),
        trim_prefix-append (codes "app/") rest,
      )
      refl

-- A page.js below plain directories is a page, and its route is made of these directories less the
-- route groups.
served_page :
    (p : Text) (ps : List Text)
    → All IsElement (p ∷ ps)
    → (route_path_from_compiled (codes "server/app/" ++ (joined (p ∷ ps) ++ codes "/page.js"))
        ≡ slash ∷ joined (without_groups (p ∷ ps)))
      × (kind_from_compiled (codes "server/app/" ++ (joined (p ∷ ps) ++ codes "/page.js")) ≡ page)
unfolding kind_from_compiled app_route text_eq
served_page p ps h =
    let dir = joined (p ∷ ps) in
    let rest = dir ++ codes "/page.js" in
    let route : app_route (codes "page") dir ≡ slash ∷ strip_route_groups dir =
      rw (join_on-ne_dot p ps h.0) refl in
    (
      route_page rest
          ∙ app_route_page p ps h
          ∙ route
          ∙ ap (λ t. slash ∷ t) (strip_route_groups_lem p ps h),
      rw (trim_prefix-append (codes "server/") (codes "app/" ++ rest)) (kind_page dir),
    )
