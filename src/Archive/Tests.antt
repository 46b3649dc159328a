-- ===== src/Archive/Tests.antt =====
-- Archives that leave their directory (ExtractTarGz, shared/archive.go).
use next_deploy.Common.{◌≡◌, refl, Bool, true, some, [], ◌∷◌}
use next_deploy.Common.Text.{codes, text_eq, has_prefix}
use next_deploy.Common.FilePath.{clean, split_on, join_on, is_abs, join_path, path_dir}
use next_deploy.Archive.{
  may, link_target, extract_kind, within_dir, extract_entry, extract_entries, must, directory,
  regular, symlink, Call, make_dirs, write_file, remove, make_symlink, going, stopped, link_escapes,
  Archive, extract_tar_gz,
}
use next_deploy.Archive.Inside.{AllBelow, extract_tar_gz-AllBelow}

abbrev always : Call → Bool
always c = true

-- A file, and a link that names a place outside.
abbrev escaping : Archive
escaping = record {
  entries =
      record { name = codes "a/f"; kind = regular 420 (codes "x") }
      ∷ record { name = codes "l"; kind = symlink (codes "../up") }
      ∷ [];
  is_whole = true;
}

refused_test :
    extract_tar_gz always (codes "/d") (some escaping)
    ≡ stopped link_escapes (
        write_file (codes "/d/a/f") 420 (codes "x")
        ∷ make_dirs (codes "/d/a")
        ∷ make_dirs (codes "/d")
        ∷ [])
unfolding extract_tar_gz must extract_entries extract_entry is_abs has_prefix within_dir text_eq
    clean join_path join_on split_on extract_kind link_target path_dir
refused_test = refl

-- Links that go through links: each is fine as it is named, and the file lands above the directory.
abbrev winding : Archive
winding = record {
  entries =
      record { name = codes "a/b"; kind = directory }
      ∷ record { name = codes "a/b/c"; kind = symlink (codes "../..") }
      ∷ record { name = codes "a/b/c/up"; kind = symlink (codes "../x") }
      ∷ record { name = codes "up"; kind = regular 420 (codes "x") }
      ∷ [];
  is_whole = true;
}

winding_test :
    extract_tar_gz always (codes "/d") (some winding)
    ≡ going (
        write_file (codes "/d/up") 420 (codes "x")
        ∷ make_dirs (codes "/d")
        ∷ make_symlink (codes "../x") (codes "/d/a/b/c/up")
        ∷ remove (codes "/d/a/b/c/up")
        ∷ make_dirs (codes "/d/a/b/c")
        ∷ make_symlink (codes "../..") (codes "/d/a/b/c")
        ∷ remove (codes "/d/a/b/c")
        ∷ make_dirs (codes "/d/a/b")
        ∷ make_dirs (codes "/d/a/b")
        ∷ make_dirs (codes "/d")
        ∷ [])
unfolding extract_tar_gz must extract_entries extract_entry is_abs has_prefix within_dir text_eq
    clean join_path join_on split_on extract_kind link_target path_dir may
winding_test = refl

extract_tar_gz-AllBelow_example :
    AllBelow (codes "/d") (extract_tar_gz always (codes "/d") (some winding))
extract_tar_gz-AllBelow_example = extract_tar_gz-AllBelow always (codes "/d") (some winding)
