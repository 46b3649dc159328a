-- ===== src/Archive.antt =====
-- The unpacking of a release (ExtractTarGz and withinDir of shared/archive.go), as the calls that it
-- makes to the file system, in their order. The entries of the archive and the answers to the calls are
-- given.
pub mod Inside
mod Tests
use next_deploy.Common.{
  ℕ, Bool, true, false, not, ◌||◌, Option, none, some, List, [], ◌∷◌, ◌++◌, ◌==◌, if◌then◌else◌,
}
use next_deploy.Common.Text.{Text, text_eq, has_prefix}
use next_deploy.Common.FilePath.{clean, join_path, path_dir, is_abs, slash}

-- `p` is `dest` itself or lies below it.
unfoldable pub within_dir : Text → Text → Bool
within_dir dest p =
    text_eq (clean p) (clean dest) || has_prefix (clean p) (clean dest ++ slash ∷ [])

pub data EntryKind : Type 0 where
  directory : EntryKind
  regular : ℕ → Text → EntryKind  -- the permissions and the contents
  symlink hard_link : Text → EntryKind  -- the name linked to
  device : EntryKind

pub record Entry : Type 0 where
  pub name : Text
  pub kind : EntryKind

pub data Call : Type 0 where
  make_dirs : Text → Call  -- os.MkdirAll
  write_file : Text → ℕ → Text → Call  -- os.OpenFile, io.Copy and Close
  remove : Text → Call  -- os.Remove
  make_symlink : Text → Text → Call  -- os.Symlink: the name linked to, and where
  make_link : Text → Text → Call  -- os.Link

pub data ExtractError : Type 0 where
  unsafe_path escapes link_escapes failed_call bad_archive : ExtractError

-- The calls so far, the last one first, and how the extraction goes on.
pub data Extraction : Type 0 where
  going : List Call → Extraction
  stopped : ExtractError → List Call → Extraction

-- What a symbolic link at `target` points to.
unfoldable pub link_target : Text → Text → Text
link_target target name = if is_abs name then clean name else join_path (path_dir target) name

-- The archive: its entries, and whether it can be read to its end.
pub record Archive : Type 0 where
  pub entries : List Entry
  pub is_whole : Bool

module _ (ok : Call → Bool) where
  -- A call that must succeed.
  unfoldable pub must : Call → Extraction → Extraction
  must c (stopped e calls) = stopped e calls
  must c (going calls) = if ok c then going (c ∷ calls) else stopped failed_call (c ∷ calls)

  -- A call whose error is dropped.
  unfoldable pub may : Call → Extraction → Extraction
  may c (stopped e calls) = stopped e calls
  may c (going calls) = going (c ∷ calls)

  unfoldable pub extract_kind : Text → Text → EntryKind → List Call → Extraction
  extract_kind dest target directory calls = must (make_dirs target) (going calls)
  extract_kind dest target (regular mode content) calls =
      must (write_file target (if mode == 0 then 384 else mode) content)
        (must (make_dirs (path_dir target)) (going calls))
  extract_kind dest target (symlink name) calls =
      if not (within_dir dest (link_target target name))
      then stopped link_escapes calls
      else must (make_symlink name target)
          (may (remove target) (must (make_dirs (path_dir target)) (going calls)))
  extract_kind dest target (hard_link name) calls =
      if not (within_dir dest (join_path dest name))
      then stopped link_escapes calls
      else must (make_link (join_path dest name) target)
          (may (remove target) (must (make_dirs (path_dir target)) (going calls)))
  extract_kind dest target device calls = going calls

  unfoldable pub extract_entry : Text → Entry → List Call → Extraction
  extract_entry dest e calls =
      if is_abs e.name
      then stopped unsafe_path calls
      else if not (within_dir dest (join_path dest e.name))
      then stopped escapes calls
      else extract_kind dest (join_path dest e.name) e.kind calls

  unfoldable pub extract_entries : Text → List Entry → Extraction → Extraction
  extract_entries dest entries (stopped e calls) = stopped e calls
  extract_entries dest [] (going calls) = going calls
  extract_entries dest (e ∷ entries) (going calls) =
      extract_entries dest entries (extract_entry dest e calls)

  ended : Bool → Extraction → Extraction
  ended is_whole (stopped e calls) = stopped e calls
  ended is_whole (going calls) = if is_whole then going calls else stopped bad_archive calls

  opened : Text → Option Archive → Extraction → Extraction
  unfolding ended
  opened dest archive (stopped e calls) = stopped e calls
  opened dest none (going calls) = stopped bad_archive calls
  opened dest (some a) (going calls) =
      ended a.is_whole (extract_entries dest a.entries (going calls))

  -- `dest` is the absolute path; none is an archive that cannot be opened.
  unfoldable pub extract_tar_gz : Text → Option Archive → Extraction
  unfolding opened
  extract_tar_gz dest archive = opened dest archive (must (make_dirs dest) (going []))
