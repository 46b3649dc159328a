-- ===== src/NextCompile/Paths/Tests.antt =====
-- Routes and kinds of compiled files (shared/nextcompile/scanner.go).
use next_deploy.Common.{◌≡◌, refl, List, [], ◌∷◌}
use next_deploy.Common.Text.{Text, codes, text_eq, has_prefix, has_suffix}
use next_deploy.Common.FilePath.{
  split_on, join_on, trim_prefix, trim_suffix, path_dir, path_base, path_ext, clean,
}
use next_deploy.NextCompile.Modules.{page}
use next_deploy.NextCompile.Paths.{
  route_path_from_compiled, app_route_from_path, pages_route_from_path, app_route,
  strip_route_groups, kind_from_compiled,
}

dashboard_test : route_path_from_compiled (codes "server/app/(group)/dash/page.js") ≡ codes "/dash"
unfolding route_path_from_compiled app_route_from_path app_route strip_route_groups split_on join_on
    trim_prefix trim_suffix path_dir path_base path_ext has_prefix has_suffix text_eq
dashboard_test = refl

blog_test : route_path_from_compiled (codes "server/pages/blog/[slug].js") ≡ codes "/blog/[slug]"
unfolding route_path_from_compiled pages_route_from_path trim_prefix trim_suffix path_ext has_prefix
    has_suffix text_eq
blog_test = refl

-- The page of the root of the App Router has no slash before its name.
root_page_test : route_path_from_compiled (codes "server/app/page.js") ≡ codes "/"
unfolding route_path_from_compiled app_route_from_path app_route trim_prefix trim_suffix path_dir
    path_base path_ext has_prefix has_suffix text_eq split_on
root_page_test = refl

root_kind_test : kind_from_compiled (codes "server/app/page.js") ≡ page
unfolding kind_from_compiled trim_prefix has_prefix has_suffix text_eq
root_kind_test = refl

clean_test : clean (codes "/a/./b//../c/..") ≡ codes "/a"
unfolding clean split_on join_on has_prefix text_eq
clean_test = refl

abbrev segment_parts : List Text
segment_parts = codes "(shop)" ∷ codes "items" ∷ []
