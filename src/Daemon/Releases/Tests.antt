-- ===== src/Daemon/Releases/Tests.antt =====
-- Release lists as in daemon/internal/daemon/command_handler_test.go.
use next_deploy.Common.{◌≡◌, ◌⊎◌, refl, Option, none, List, [], ◌∷◌, arith}
use next_deploy.Common.Text.{Text, codes, text_eq, text_le, has_prefix, to_lower, trim_space}
use next_deploy.Common.Sort.{sort}
use next_deploy.Daemon.Releases.{
  short_sha, after_last_dash, matches, resolve_rollback_target, releases_to_prune, target, failed,
  commit_not_found,
}
use next_deploy.Daemon.Releases.Rollback.{NoneFrom, IsNewest, rollback_commit}

abbrev r1 : Text
r1 = codes "100-abc1234"

abbrev r2 : Text
r2 = codes "200-def5678"

abbrev r3 : Text
r3 = codes "300-0123456"

abbrev releases : List Text
releases = r1 ∷ r2 ∷ r3 ∷ []

abbrev no_metadata : Text → Option Text
no_metadata id = none

pruned : releases_to_prune (r3 ∷ r1 ∷ codes "legacy" ∷ r2 ∷ []) 2 ≡ r1 ∷ r2 ∷ []
unfolding releases_to_prune sort text_le
pruned = refl

short : (short_sha (codes "abcdef012345") ≡ codes "abcdef0") × (short_sha [] ≡ codes "nogit")
unfolding short_sha text_eq
short = (refl, refl)

by_commit : resolve_rollback_target no_metadata releases 1 (codes " ABC1 ") ≡ target r1
unfolding resolve_rollback_target matches text_eq to_lower trim_space after_last_dash has_prefix
by_commit = refl

one_back : resolve_rollback_target no_metadata releases 1 [] ≡ target r2
unfolding resolve_rollback_target text_eq
one_back = refl

rollback_commit_example :
    let needle = to_lower (trim_space (codes "abc1")) in
    let r = resolve_rollback_target no_metadata releases 1 (codes "abc1") in
    ((r ≡ failed commit_not_found) × NoneFrom no_metadata needle releases 0 2)
    ⊎ ((id : Text) × (r ≡ target id) × IsNewest no_metadata needle releases 2 id)
rollback_commit_example =
    rollback_commit no_metadata releases 1 (codes "abc1") (omega arith) (λ p. cc (p))
