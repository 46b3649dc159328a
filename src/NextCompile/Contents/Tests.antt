-- ===== src/NextCompile/Contents/Tests.antt =====
-- The tags of two pages (buildManifestISR, shared/nextcompile/manifest.go).
use next_deploy.Common.{◌↔◌, In, List, [], ◌∷◌}
use next_deploy.Common.Text.{codes}
use next_deploy.Common.Map.{get}
use next_deploy.NextCompile.Contents.{IsrRoute, build_manifest_isr, paths_of}
use next_deploy.NextCompile.Contents.Tags.{Declares, build_manifest_isr_iff}

abbrev details : List IsrRoute
details =
    record { path = codes "/posts"; tags = codes "posts" ∷ []; revalidate = 60 }
    ∷ record { path = codes "/feed"; tags = codes "posts" ∷ codes "feed" ∷ []; revalidate = 0 }
    ∷ []

build_manifest_isr_iff_example :
    In (codes "/feed") (paths_of (get (codes "posts") (build_manifest_isr details).tags))
    ↔ Declares details (codes "/feed") (codes "posts")
build_manifest_isr_iff_example = build_manifest_isr_iff details (codes "/feed") (codes "posts")
