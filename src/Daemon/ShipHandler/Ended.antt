-- ===== src/Daemon/ShipHandler/Ended.antt =====
-- How a ship ends (handleShip, daemon/internal/daemon/command_handler.go).
use next_deploy.Common.{
  ◌≡◌, ◌≢◌, refl, sym, ap, ◌∙◌, Bool, true, false, not, Option, none, some, List, [], ◌∷◌, arith,
  In, inl, inr, if◌then◌else◌,
}
use mathlib.Core.Path.{subst}
use next_deploy.Common.Text.{Text, codes, text_eq, text_eq_iff, has_prefix}
use next_deploy.Common.Map.{Map, get, get-put}
use next_deploy.Common.FilePath.{clean}
use next_deploy.Archive.{extract_tar_gz}
use next_deploy.Daemon.Commands.{Arg}
use next_deploy.Daemon.Arguments.{string_arg, validate_app_name}
use next_deploy.Daemon.Locks.{AppLocker, locked, try_acquire, release}
use next_deploy.Daemon.Locks.Exclusion.{locked-try_acquire, try_acquire-locked}
use next_deploy.Daemon.RollbackHandler.{dir_of_release}
use next_deploy.Daemon.Activation.{Server, ReleaseContext, Outcomes, Run, without, activate_release}
use next_deploy.Daemon.Activation.Cutover.{activated}
use next_deploy.Daemon.ShipHandler.{
  Package, Renamed, moved, cross_device, unmoved, Copied, whole, cut_short, not_begun, ShipHost,
  ShipSite, ShipReply, not_activated, Ship, validate_domain, is_extracted, add_release,
  reply_of_run, activate_shipped, placed, discard, discarded, copy_release, move_release, ship_app,
  unlocked, locked_ship, with_package, read_metadata, extract_and_ship, cleaned, in_temp_dir,
  ship_tarball, ship_named, handle_ship, coalesce, ship_context, release_id_of, uploads_dir,
}

-- The reply of a ship that did not come to the activation.
abbrev pub is_early : ShipReply → Bool
is_early ShipReply.activated = false
is_early (not_activated e) = false
is_early _ = true

In-without : (x y : Text) (xs : List Text) → In x (without y xs) → (x ≢ y) × In x xs
unfolding without
In-without x y [] i = elim i [ ]
In-without x y (z ∷ xs) i = ground (arith, In-without x y xs, text_eq_iff z y, i)

-- An app's link points to a release of it, which passed its health check.
pub record IsLive (o : Outcomes) (after : Server) : Type 0 where
  pub app : Text
  pub id : Text
  pub name_valid : validate_app_name app ≡ true
  pub healthy : o.healthy ≡ true
  pub linked : get app after.current ≡ some (dir_of_release app id)

-- What holds wherever a ship that has unpacked into `dir` stops: the locks, the directories, and what
-- it does to the host.
record IsStage (o : Outcomes) (host : ShipHost) (dir : Text) (s : ShipSite) (result : Ship)
    : Type 0 where
  pub locks_kept : (j : Text) → locked (get j result.2.locks) ≡ locked (get j s.locks)
  pub dirs_kept :
      (d : Text)
      → In d result.2.unpacked
      → In d s.unpacked × ((result.1 ≡ false) → (host.temp_removed ≡ true) → d ≢ dir)
  pub untouched :
      is_early result.0 ≡ true → record result.2.server { releases = s.server.releases } ≡ s.server
  pub live : result.0 ≡ ShipReply.activated → IsLive o result.2.server

module _ (o : Outcomes) (host : ShipHost) (dir : Text) where
  early-IsStage :
      (reply : ShipReply) (s : ShipSite)
      → is_early reply ≡ true
      → IsStage o host dir s (reply, true, s)
  early-IsStage reply s h = record {
    locks_kept = λ j. refl;
    dirs_kept = λ d i. (i, λ kept. absurd (ground (arith, kept)));
    untouched = λ e. refl;
    live = λ e. absurd (
        let h' : is_early ShipReply.activated ≡ true = subst (λ r. is_early r ≡ true) e h in
        ground (arith, h'));
  }

  -- The context names a release of its app.
  record IsShipment (ctx : ReleaseContext) : Type 0 where
    pub name_valid : validate_app_name ctx.app ≡ true
    pub own_dir : ctx.release_dir ≡ dir_of_release ctx.app ctx.release_id

  ran-IsLive :
      (ctx : ReleaseContext) (before : Server) (run : Run (Unit {0}))
      → IsShipment ctx
      → activate_release o ctx before ≡ run
      → (reply_of_run run).0 ≡ ShipReply.activated
      → IsLive o (reply_of_run run).1
  unfolding reply_of_run
  ran-IsLive ctx before (Run.done u after) k ran h =
      let (healthy, link, rest) = activated o ctx before after ran in
      record {
        app = ctx.app;
        id = ctx.release_id;
        name_valid = k.name_valid;
        healthy = healthy;
        linked = link ∙ ap some k.own_dir;
      }
  ran-IsLive ctx before (Run.failed e after) k ran h = ground (arith, h)

  late : (run : Run (Unit {0})) → is_early (reply_of_run run).0 ≡ false
  unfolding reply_of_run
  late (Run.done u after) = refl
  late (Run.failed e after) = refl

  activate_shipped-IsStage :
      (ctx : ReleaseContext) (s t : ShipSite)
      → IsShipment ctx
      → t.locks ≡ s.locks
      → ((d : Text) → In d t.unpacked → In d s.unpacked × ((host.temp_removed ≡ true) → d ≢ dir))
      → IsStage o host dir s (activate_shipped o host ctx t)
  unfolding activate_shipped
  activate_shipped-IsStage ctx s t k same dirs =
      let run = activate_release o ctx t.server in
      record {
        locks_kept = λ j. ap (λ (l : AppLocker). locked (get j l)) same;
        dirs_kept = λ d i. let (there, gone) = dirs d i in (there, λ kept. gone);
        untouched = λ e. absurd (ground (arith, e, late run));
        live = λ e. ran-IsLive ctx t.server run k refl e;
      }

  either-IsStage :
      (s : ShipSite) (b : Bool) {t e : Ship}
      → (b ≡ true → IsStage o host dir s t)
      → (b ≡ false → IsStage o host dir s e)
      → IsStage o host dir s (if b then t else e)
  either-IsStage s true h k = h refl
  either-IsStage s false h k = k refl

  locks-discarded : (b : Bool) (s : ShipSite) → (discarded b dir s).locks ≡ s.locks
  unfolding discarded
  locks-discarded true s = refl
  locks-discarded false s = refl

  In-discarded :
      (d : Text) (b : Bool) (s : ShipSite)
      → In d (discarded b dir s).unpacked
      → In d s.unpacked × ((b ≡ true) → d ≢ dir)
  unfolding discarded
  In-discarded d true s i =
      let (other, there) = In-without d dir s.unpacked i in (there, λ e. other)
  In-discarded d false s i = (i, λ e. absurd (ground (arith, e)))

  -- The release stands beside what was unpacked.
  abbrev shipped : ReleaseContext → ShipSite → ShipSite
  shipped ctx s = record s { server = add_release ctx.app ctx.release_id s.server }

  copy_release-IsStage :
      (c : Copied) (ctx : ReleaseContext) (s : ShipSite)
      → IsShipment ctx
      → IsStage o host dir s (copy_release o host c dir ctx s)
  unfolding copy_release add_release discard
  copy_release-IsStage not_begun ctx s k = early-IsStage ShipReply.not_copied s refl
  copy_release-IsStage cut_short ctx s k = record {
    locks_kept = λ j. refl;
    dirs_kept = λ d i. (i, λ kept. absurd (ground (arith, kept)));
    untouched = λ e. refl;
    live = λ e. absurd (ground (arith, e));
  }
  copy_release-IsStage whole ctx s k =
      activate_shipped-IsStage ctx s _ k (locks-discarded host.temp_removed (shipped ctx s))
        λ d i. In-discarded d host.temp_removed (shipped ctx s) i

  move_release-IsStage :
      (m : Renamed) (ctx : ReleaseContext) (s : ShipSite)
      → IsShipment ctx
      → IsStage o host dir s (move_release o host m dir ctx s)
  unfolding move_release placed
  move_release-IsStage moved ctx s k =
      activate_shipped-IsStage ctx s _ k refl
        λ d i. let (other, there) = In-without d dir s.unpacked i in (there, λ e. other)
  move_release-IsStage cross_device ctx s k = copy_release-IsStage host.copied ctx s k
  move_release-IsStage unmoved ctx s k = early-IsStage ShipReply.not_moved s refl

  ship_app-IsStage :
      (ctx : ReleaseContext) (s : ShipSite)
      → IsShipment ctx
      → IsStage o host dir s (ship_app o host dir ctx s)
  unfolding ship_app
  ship_app-IsStage ctx s k =
      either-IsStage s (not (validate_domain ctx.domain))
        (λ bad. early-IsStage ShipReply.bad_domain s refl)
        λ good.
          either-IsStage s (not host.releases_dir_made)
            (λ unmade. early-IsStage ShipReply.no_releases_dir s refl)
            λ made. move_release-IsStage host.renamed ctx s k

  unlocked-IsStage :
      (app : Text) (s : ShipSite) (locks : AppLocker) (result : Ship)
      → ((j : Text)
          → locked (get j locks) ≡ (if text_eq app j then true else locked (get j s.locks)))
      → locked (get app s.locks) ≡ false
      → IsStage o host dir (record s { locks = locks }) result
      → IsStage o host dir s (unlocked o host app result)
  unfolding unlocked release
  unlocked-IsStage app s locks (reply, cleanup, after) taken free h = record {
    locks_kept = λ j.
        ground (
          arith,
          get-put app j false after.locks,
          h.locks_kept j,
          taken j,
          free,
          text_eq_iff app j,
        );
    dirs_kept = h.dirs_kept;
    untouched = h.untouched;
    live = h.live;
  }

  locked_ship-IsStage :
      (ctx : ReleaseContext) (s : ShipSite) (lock : Bool × AppLocker)
      → IsShipment ctx
      → lock.0 ≡ not (locked (get ctx.app s.locks))
      → ((j : Text)
          → locked (get j lock.1) ≡ (if text_eq ctx.app j then true else locked (get j s.locks)))
      → IsStage o host dir s (locked_ship o host dir ctx lock s)
  unfolding locked_ship
  locked_ship-IsStage ctx s (false, locks) k free taken = record {
    locks_kept = λ j. ground (arith, taken j, free, text_eq_iff ctx.app j);
    dirs_kept = λ d i. (i, λ kept. absurd (ground (arith, kept)));
    untouched = λ e. refl;
    live = λ e. absurd (ground (arith, e));
  }
  locked_ship-IsStage ctx s (true, locks) k free taken =
      unlocked-IsStage ctx.app s locks (ship_app o host dir ctx (record s { locks = locks })) taken
        (ground (arith, free)) (ship_app-IsStage ctx (record s { locks = locks }) k)

  with_package-IsStage :
      (tarball token : Text) (p : Option Package) (s : ShipSite)
      → IsStage o host dir s (with_package o host tarball token dir p s)
  unfolding with_package ship_context
  with_package-IsStage tarball token none s = early-IsStage ShipReply.bad_metadata s refl
  with_package-IsStage tarball token (some p) s =
      let app = coalesce p.app_name (codes "default-app") in
      either-IsStage s (validate_app_name app)
        (λ good.
          locked_ship-IsStage
            (ship_context tarball token app (release_id_of host.unix_time p.git_commit) p) s
            (try_acquire app s.locks) (record { name_valid = good; own_dir = refl })
            (try_acquire-locked app s.locks) (λ j. locked-try_acquire app j s.locks))
        λ bad. early-IsStage ShipReply.bad_app_name s refl

  extract_and_ship-IsStage :
      (tarball token : Text) (s : ShipSite)
      → IsStage o host dir s (extract_and_ship o host tarball token dir s)
  unfolding extract_and_ship
  extract_and_ship-IsStage tarball token s =
      either-IsStage s (is_extracted (extract_tar_gz host.answers dir (host.archive tarball)))
        (λ whole_archive. with_package-IsStage tarball token (read_metadata o host dir) s)
        λ cut. early-IsStage ShipReply.not_extracted s refl

-- What a ship leaves behind: no directory that it made to unpack into, each lock as it was, the host
-- untouched but for the release directory unless it came to the activation, and a live release where
-- it reports success.
pub record IsSettled (o : Outcomes) (host : ShipHost) (s : ShipSite) (result : ShipReply × ShipSite)
    : Type 0 where
  pub no_leftover : host.temp_removed ≡ true → (d : Text) → In d result.1.unpacked → In d s.unpacked
  pub locks_kept : (j : Text) → locked (get j result.1.locks) ≡ locked (get j s.locks)
  pub untouched :
      is_early result.0 ≡ true → record result.1.server { releases = s.server.releases } ≡ s.server
  pub live : result.0 ≡ ShipReply.activated → IsLive o result.1.server

module _ (o : Outcomes) (host : ShipHost) where
  early-IsSettled :
      (reply : ShipReply) (s : ShipSite) → is_early reply ≡ true → IsSettled o host s (reply, s)
  early-IsSettled reply s h = record {
    no_leftover = λ removed d i. i;
    locks_kept = λ j. refl;
    untouched = λ e. refl;
    live = λ e. absurd (
        let h' : is_early ShipReply.activated ≡ true = subst (λ r. is_early r ≡ true) e h in
        ground (arith, h'));
  }

  server-discarded : (b : Bool) (dir : Text) (s : ShipSite) → (discarded b dir s).server ≡ s.server
  unfolding discarded
  server-discarded true dir s = refl
  server-discarded false dir s = refl

  cleaned-IsSettled :
      (dir : Text) (s : ShipSite) (result : Ship)
      → IsStage o host dir (record s { unpacked = dir ∷ s.unpacked }) result
      → IsSettled o host s (cleaned o host dir result)
  unfolding cleaned discard
  cleaned-IsSettled dir s (reply, true, after) h =
      let same = server-discarded host.temp_removed dir after in
      record {
        no_leftover = λ removed d i.
            let (there, other) = In-discarded o host dir d host.temp_removed after i in
            elim ((h.dirs_kept d there).0) [
              | inl own ↦ absurd (other removed own)
              | inr before ↦ before
            ];
        locks_kept = λ j.
            ap (λ (l : AppLocker). locked (get j l))
              (locks-discarded o host dir host.temp_removed after)
            ∙ h.locks_kept j;
        untouched = λ e.
            ap (λ (x : Server). record x { releases = s.server.releases }) same ∙ h.untouched e;
        live = λ e. subst (IsLive o) (sym same) (h.live e);
      }
  cleaned-IsSettled dir s (reply, false, after) h = record {
    no_leftover = λ removed d i.
        let (there, other) = h.dirs_kept d i in
        elim there [ inl own ↦ absurd (other refl removed own) | inr before ↦ before ];
    locks_kept = h.locks_kept;
    untouched = h.untouched;
    live = h.live;
  }

  in_temp_dir-IsSettled :
      (tarball token : Text) (dir : Option Text) (s : ShipSite)
      → IsSettled o host s (in_temp_dir o host tarball token dir s)
  unfolding in_temp_dir
  in_temp_dir-IsSettled tarball token none s = early-IsSettled ShipReply.no_temp_dir s refl
  in_temp_dir-IsSettled tarball token (some dir) s =
      cleaned-IsSettled dir s _ (
        extract_and_ship-IsStage o host dir tarball token
          (record s { unpacked = dir ∷ s.unpacked }))

  refused_or :
      (b : Bool) (reply : ShipReply) (s : ShipSite) (result : ShipReply × ShipSite)
      → is_early reply ≡ true
      → IsSettled o host s result
      → IsSettled o host s (if b then (reply, s) else result)
  refused_or true reply s result early h = early-IsSettled reply s early
  refused_or false reply s result early h = h

  ship_tarball-IsSettled :
      (tarball token : Text) (s : ShipSite)
      → IsSettled o host s (ship_tarball o host tarball token s)
  unfolding ship_tarball
  ship_tarball-IsSettled tarball token s =
      refused_or (not (has_prefix tarball uploads_dir)) ShipReply.outside_uploads s _ refl (
        refused_or (not host.work_dir_made) ShipReply.no_work_dir s _ refl
          (in_temp_dir-IsSettled tarball token host.temp_dir s))

  ship_named-IsSettled :
      (tarball : Option Text) (args : Map Arg) (s : ShipSite)
      → IsSettled o host s (ship_named o host tarball args s)
  unfolding ship_named
  ship_named-IsSettled none args s = early-IsSettled ShipReply.no_tarball s refl
  ship_named-IsSettled (some tarball) args s = ship_tarball-IsSettled (clean tarball) _ s

  -- However a ship ends, each lock is as it was before, and no directory that it unpacked into is left
  -- if such directories can be removed. Unless it came to the activation, the host is as it was but for
  -- the release directories; and if it reports success, the link of an app with a valid name points to
  -- a release of it, which passed its health check.
  pub handle_ship-IsSettled :
      (args : Map Arg) (s : ShipSite) → IsSettled o host s (handle_ship o host args s)
  unfolding handle_ship
  handle_ship-IsSettled args s = ship_named-IsSettled (string_arg args (codes "tarball")) args s
