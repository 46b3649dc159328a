-- ===== src/Daemon/ShipHandler.antt =====
-- handleShip of daemon/internal/daemon/command_handler.go, with readMetadata and validateDomain
-- (utils.go): a tarball is unpacked into a temporary directory, which becomes a release of its app.
-- What the host answers is given. The check for an update, which runs beside a ship, and the owners and
-- permissions of directories are left out.
pub mod Ended
mod Tests
use next_deploy.Common.{
  ℕ, Bool, true, false, not, ◌&&◌, ◌||◌, Option, none, some, List, [], ◌∷◌, ◌++◌, leb, length,
  if◌then◌else◌,
}
use next_deploy.Common.Text.{Text, codes, text_eq, has_prefix, decimal}
use next_deploy.Common.Map.{Map, get, put}
use next_deploy.Common.FilePath.{clean, join_path, split_on}
use next_deploy.Archive.{Call, Archive, Extraction, going, stopped, extract_tar_gz}
use next_deploy.Daemon.Commands.{Arg}
use next_deploy.Daemon.Arguments.{string_arg, validate_app_name}
use next_deploy.Daemon.Locks.{AppLocker, try_acquire, release}
use next_deploy.Daemon.Releases.{short_sha}
use next_deploy.Daemon.RollbackHandler.{text_of, dir_of_release}
use next_deploy.Daemon.Activation.{
  Server, ReleaseContext, Outcomes, Failure, Run, without, activate_release,
}

-- What a ship takes from metadata.json.
pub record Package : Type 0 where
  pub app_name : Text
  pub domain : Text
  pub output_mode : Text
  pub package_manager : Text
  pub git_commit : Text

pub data Renamed : Type 0 where
  moved cross_device unmoved : Renamed

-- copyDir: all, a part, or not even the directory.
pub data Copied : Type 0 where
  whole cut_short not_begun : Copied

pub record ShipHost : Type 0 where
  pub work_dir_made : Bool
  pub temp_dir : Option Text  -- os.MkdirTemp
  pub archive : Text → Option Archive
  pub answers : Call → Bool  -- whether a call of the extraction succeeds
  pub read_file : Text → Option Text
  pub decode : Text → Option Package
  pub unix_time : ℕ
  pub releases_dir_made : Bool
  pub renamed : Renamed
  pub copied : Copied
  pub temp_removed : Bool  -- os.RemoveAll of the temporary directory

pub record ShipSite : Type 0 where
  pub locks : AppLocker
  pub server : Server
  pub unpacked : List Text  -- the directories in /opt/nextdeploy/tmp

pub data ShipReply : Type 0 where
  no_tarball outside_uploads no_work_dir no_temp_dir not_extracted bad_metadata bad_app_name :
      ShipReply
  in_progress bad_domain no_releases_dir not_copied not_moved activated : ShipReply
  not_activated : Failure → ShipReply

-- A reply, whether the temporary directory is still to be removed, and the state.
abbrev pub Ship : Type 0
Ship = ShipReply × Bool × ShipSite

abbrev pub uploads_dir : Text
uploads_dir = codes "/opt/nextdeploy/uploads"

-- The first of two that is not empty.
unfoldable pub coalesce : Text → Text → Text
coalesce a b = if text_eq a [] then b else a

is_lower : ℕ → Bool
is_lower c = leb b'a' c && leb c b'z'

all_lower : Text → Bool
all_lower [] = true
all_lower (c ∷ cs) = let rest = all_lower cs in is_lower c && rest

all_plain : Text → Bool
all_plain [] = true
all_plain (c ∷ cs) = let rest = all_plain cs in (is_lower c || (leb b'0' c && leb c b'9')) && rest

all_words : List Text → Bool
all_words [] = true
all_words (w ∷ ws) = let rest = all_words ws in (not (text_eq w []) && all_plain w) && rest

-- Labels, and a last one of two letters or more.
are_labels : List Text → Bool
are_labels [] = false
are_labels (l ∷ []) = all_lower l && leb 2 (length l)
are_labels (l ∷ m ∷ ls) = let rest = are_labels (m ∷ ls) in all_words (split_on b'-' l) && rest

several : List Text → Bool
several (l ∷ m ∷ ls) = true
several _ = false

-- `^([a-z0-9]+(-[a-z0-9]+)*\.)+[a-z]{2,}$`, or localhost.
unfoldable pub validate_domain : Text → Bool
unfolding is_lower all_lower all_plain all_words are_labels several
validate_domain domain =
    text_eq domain (codes "localhost")
    || (several (split_on b'.' domain) && are_labels (split_on b'.' domain))

unfoldable pub is_extracted : Extraction → Bool
is_extracted (going calls) = true
is_extracted (stopped e calls) = false

-- {unix-timestamp}-{shortSha}
unfoldable pub release_id_of : ℕ → Text → Text
release_id_of time commit = decimal time ++ b'-' ∷ short_sha commit

unfoldable pub release_names : Option (List Text) → List Text
release_names none = []
release_names (some names) = names

unfoldable pub add_release : Text → Text → Server → Server
add_release app id s = record s {
  releases = put app (id ∷ without id (release_names (get app s.releases))) s.releases;
}

unfoldable pub ship_context : Text → Text → Text → Text → Package → ReleaseContext
ship_context tarball token app id p = record {
  app = app;
  domain = coalesce p.domain (codes "localhost");
  release_dir = dir_of_release app id;
  release_id = id;
  output_mode = p.output_mode;
  doppler_token = token;
  package_manager = p.package_manager;
  tarball = tarball;
}

unfoldable pub reply_of_run : Run (Unit {0}) → ShipReply × Server
reply_of_run (Run.done u s) = (activated, s)
reply_of_run (Run.failed e s) = (not_activated e, s)

-- os.RemoveAll, by whether it removes the directory.
unfoldable pub discarded : Bool → Text → ShipSite → ShipSite
discarded true dir s = record s { unpacked = without dir s.unpacked }
discarded false dir s = s

module _ (o : Outcomes) (host : ShipHost) where
  -- The first of the candidates that can be read is decoded.
  unfoldable pub read_candidates : List Text → Option Package
  read_candidates [] = none
  read_candidates (path ∷ paths) =
      let rest = read_candidates paths in
      elim (host.read_file path) [ none ↦ rest | some contents ↦ host.decode contents ]

  unfoldable pub read_metadata : Text → Option Package
  read_metadata dir = read_candidates (
      join_path dir (codes ".nextdeploy/metadata.json")
      ∷ join_path dir (codes "metadata.json")
      ∷ [])

  unfoldable pub activate_shipped : ReleaseContext → ShipSite → Ship
  activate_shipped ctx s =
      let (reply, server) = reply_of_run (activate_release o ctx s.server) in
      (reply, false, record s { server = server })

  -- The temporary directory is gone, and the release is there.
  unfoldable pub placed : Text → ReleaseContext → ShipSite → ShipSite
  placed dir ctx s = record s {
    server = add_release ctx.app ctx.release_id s.server;
    unpacked = without dir s.unpacked;
  }

  unfoldable pub discard : Text → ShipSite → ShipSite
  discard dir s = discarded host.temp_removed dir s

  unfoldable pub copy_release : Copied → Text → ReleaseContext → ShipSite → Ship
  copy_release not_begun dir ctx s = (not_copied, true, s)
  copy_release cut_short dir ctx s =
      (not_copied, true, record s { server = add_release ctx.app ctx.release_id s.server })
  copy_release whole dir ctx s =
      activate_shipped ctx
        (discard dir (record s { server = add_release ctx.app ctx.release_id s.server }))

  unfoldable pub move_release : Renamed → Text → ReleaseContext → ShipSite → Ship
  move_release moved dir ctx s = activate_shipped ctx (placed dir ctx s)
  move_release cross_device dir ctx s = copy_release host.copied dir ctx s
  move_release unmoved dir ctx s = (not_moved, true, s)

  unfoldable pub ship_app : Text → ReleaseContext → ShipSite → Ship
  ship_app dir ctx s =
      if not (validate_domain ctx.domain)
      then (bad_domain, true, s)
      else if not host.releases_dir_made
      then (no_releases_dir, true, s)
      else move_release host.renamed dir ctx s

  -- The deferred release of the lock.
  unfoldable pub unlocked : Text → Ship → Ship
  unlocked app (reply, cleanup, s) = (reply, cleanup, record s { locks = release app s.locks })

  unfoldable pub locked_ship : Text → ReleaseContext → Bool × AppLocker → ShipSite → Ship
  locked_ship dir ctx (false, locks) s = (in_progress, true, record s { locks = locks })
  locked_ship dir ctx (true, locks) s =
      unlocked ctx.app (ship_app dir ctx (record s { locks = locks }))

  unfoldable pub with_package : Text → Text → Text → Option Package → ShipSite → Ship
  with_package tarball token dir none s = (bad_metadata, true, s)
  with_package tarball token dir (some p) s =
      let app = coalesce p.app_name (codes "default-app") in
      if validate_app_name app
      then locked_ship dir
          (ship_context tarball token app (release_id_of host.unix_time p.git_commit) p)
          (try_acquire app s.locks) s
      else (bad_app_name, true, s)

  unfoldable pub extract_and_ship : Text → Text → Text → ShipSite → Ship
  extract_and_ship tarball token dir s =
      if is_extracted (extract_tar_gz host.answers dir (host.archive tarball))
      then with_package tarball token dir (read_metadata dir) s
      else (not_extracted, true, s)

  -- The deferred removal of the temporary directory.
  unfoldable pub cleaned : Text → Ship → ShipReply × ShipSite
  cleaned dir (reply, cleanup, s) = (reply, if cleanup then discard dir s else s)

  unfoldable pub in_temp_dir : Text → Text → Option Text → ShipSite → ShipReply × ShipSite
  in_temp_dir tarball token none s = (no_temp_dir, s)
  in_temp_dir tarball token (some dir) s =
      cleaned dir (extract_and_ship tarball token dir (record s { unpacked = dir ∷ s.unpacked }))

  unfoldable pub ship_tarball : Text → Text → ShipSite → ShipReply × ShipSite
  ship_tarball tarball token s =
      if not (has_prefix tarball uploads_dir)
      then (outside_uploads, s)
      else if not host.work_dir_made
      then (no_work_dir, s)
      else in_temp_dir tarball token host.temp_dir s

  unfoldable pub ship_named : Option Text → Map Arg → ShipSite → ShipReply × ShipSite
  ship_named none args s = (no_tarball, s)
  ship_named (some tarball) args s =
      ship_tarball (clean tarball) (text_of (string_arg args (codes "dopplerToken"))) s

  unfoldable pub handle_ship : Map Arg → ShipSite → ShipReply × ShipSite
  handle_ship args s = ship_named (string_arg args (codes "tarball")) args s
