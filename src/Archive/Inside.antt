-- ===== src/Archive/Inside.antt =====
-- Where an extraction works (ExtractTarGz, shared/archive.go).
use next_deploy.Common.{
  ◌≡◌, ◌∙◌, append_assoc, ◌⊎◌, inl, inr, refl, Bool, true, false, Option, none, some, List, [], ◌∷◌,
  ◌++◌, All, Bool-cases, if◌then◌else◌, ◌==◌,
}
use next_deploy.Common.Text.{Text, text_eq, text_eq_iff, has_prefix, has_prefix_split}
use next_deploy.Common.FilePath.{clean, join_path, path_dir, is_abs, slash}
use next_deploy.Archive.{
  within_dir, EntryKind, directory, regular, symlink, hard_link, device, Entry, Call, make_dirs,
  write_file, remove, make_symlink, make_link, Extraction, going, stopped, link_target, Archive,
  must, may, extract_kind, extract_entry, extract_entries, ended, opened, extract_tar_gz,
}

-- `p` is the directory or goes on from it behind a slash, as cleaned paths.
abbrev pub Below : Text → Text → Type 0
Below dest p = (clean p ≡ clean dest) ⊎ ((rest : Text) × (clean p ≡ clean dest ++ slash ∷ rest))

within_dir-Below : (dest p : Text) → within_dir dest p ≡ true → Below dest p
unfolding within_dir
within_dir-Below dest p h = elim (Bool-cases (text_eq (clean p) (clean dest))) [
  | inl same ↦ inl ((text_eq_iff (clean p) (clean dest)).0 same)
  | inr other ↦
      let prefixed : has_prefix (clean p) (clean dest ++ slash ∷ []) ≡ true = rw other at h in
      let (rest, e) = has_prefix_split (clean p) (clean dest ++ slash ∷ []) prefixed in
      inr (rest, e ∙ append_assoc (clean dest) (slash ∷ []) rest)
]

-- A call that stays below the directory, but for the directory that a target stands in.
abbrev pub StaysBelow : Text → Call → Type 0
StaysBelow dest (make_dirs p) = (t : Text) × Below dest t × ((p ≡ t) ⊎ (p ≡ path_dir t))
StaysBelow dest (write_file p mode content) = Below dest p
StaysBelow dest (remove p) = Below dest p
StaysBelow dest (make_symlink name p) = Below dest p × Below dest (link_target p name)
StaysBelow dest (make_link from to) = Below dest from × Below dest to

abbrev pub AllBelow : Text → Extraction → Type 0
AllBelow dest (going calls) = All (StaysBelow dest) calls
AllBelow dest (stopped e calls) = All (StaysBelow dest) calls

module _ (ok : Call → Bool) (dest : Text) where
  must-AllBelow :
      (c : Call) (x : Extraction)
      → StaysBelow dest c
      → AllBelow dest x
      → AllBelow dest (must ok c x)
  unfolding must
  must-AllBelow c (stopped e calls) h k = k
  must-AllBelow c (going calls) h k = elim (Bool-cases (ok c)) [
    | inl fine ↦ rw fine (h, k)
    | inr failed ↦ rw failed (h, k)
  ]

  may-AllBelow :
      (c : Call) (x : Extraction) → StaysBelow dest c → AllBelow dest x → AllBelow dest (may ok c x)
  unfolding may
  may-AllBelow c (stopped e calls) h k = k
  may-AllBelow c (going calls) h k = (h, k)

  Below-self : Below dest dest
  Below-self = inl refl

  parent-AllBelow :
      (target : Text) (calls : List Call)
      → Below dest target
      → All (StaysBelow dest) calls
      → AllBelow dest (must ok (make_dirs (path_dir target)) (going calls))
  parent-AllBelow target calls t k =
      must-AllBelow (make_dirs (path_dir target)) (going calls) (target, t, inr refl) k

  extract_kind-AllBelow :
      (target : Text) (kind : EntryKind) (calls : List Call)
      → Below dest target
      → All (StaysBelow dest) calls
      → AllBelow dest (extract_kind ok dest target kind calls)
  unfolding extract_kind
  extract_kind-AllBelow target directory calls t k =
      must-AllBelow (make_dirs target) (going calls) (target, t, inl refl) k
  extract_kind-AllBelow target (regular mode content) calls t k =
      must-AllBelow (write_file target (if mode == 0 then 384 else mode) content) _ t
        (parent-AllBelow target calls t k)
  extract_kind-AllBelow target (symlink name) calls t k =
      elim (Bool-cases (within_dir dest (link_target target name))) [
        | inr out ↦ rw out k
        | inl inside ↦ rw inside (
            must-AllBelow (make_symlink name target) _
              (t, within_dir-Below dest (link_target target name) inside)
              (may-AllBelow (remove target) _ t (parent-AllBelow target calls t k)))
      ]
  extract_kind-AllBelow target (hard_link name) calls t k =
      elim (Bool-cases (within_dir dest (join_path dest name))) [
        | inr out ↦ rw out k
        | inl inside ↦ rw inside (
            must-AllBelow (make_link (join_path dest name) target) _
              (within_dir-Below dest (join_path dest name) inside, t)
              (may-AllBelow (remove target) _ t (parent-AllBelow target calls t k)))
      ]
  extract_kind-AllBelow target device calls t k = k

  extract_entry-AllBelow :
      (e : Entry) (calls : List Call)
      → All (StaysBelow dest) calls
      → AllBelow dest (extract_entry ok dest e calls)
  unfolding extract_entry
  extract_entry-AllBelow e calls k = elim (Bool-cases (is_abs e.name)) [
    | inl abs ↦ rw abs k
    | inr relative ↦ elim (Bool-cases (within_dir dest (join_path dest e.name))) [
      | inr out ↦ rw (relative, out) k
      | inl inside ↦
          rw (relative, inside)
            (extract_kind-AllBelow (join_path dest e.name) e.kind calls
              (within_dir-Below dest (join_path dest e.name) inside) k)
    ]
  ]

  extract_entries-AllBelow :
      (entries : List Entry) (x : Extraction)
      → AllBelow dest x
      → AllBelow dest (extract_entries ok dest entries x)
  unfolding extract_entries
  extract_entries-AllBelow entries (stopped e calls) k = k
  extract_entries-AllBelow [] (going calls) k = k
  extract_entries-AllBelow (e ∷ entries) (going calls) k =
      extract_entries-AllBelow entries (extract_entry ok dest e calls)
        (extract_entry-AllBelow e calls k)

  ended-AllBelow :
      (whole : Bool) (x : Extraction) → AllBelow dest x → AllBelow dest (ended ok whole x)
  unfolding ended
  ended-AllBelow whole (stopped e calls) k = k
  ended-AllBelow true (going calls) k = k
  ended-AllBelow false (going calls) k = k

  opened-AllBelow :
      (archive : Option Archive) (x : Extraction)
      → AllBelow dest x
      → AllBelow dest (opened ok dest archive x)
  unfolding opened
  opened-AllBelow archive (stopped e calls) k = k
  opened-AllBelow none (going calls) k = k
  opened-AllBelow (some a) (going calls) k =
      ended-AllBelow a.is_whole _ (extract_entries-AllBelow a.entries (going calls) k)

  -- Whatever the archive holds and however the extraction ends, the paths that it writes, removes and
  -- links, as it names them, are the directory or lie below it, and so are the paths that its links
  -- name; beyond that it only makes the directory in which such a path stands.
  pub extract_tar_gz-AllBelow :
      (archive : Option Archive) → AllBelow dest (extract_tar_gz ok dest archive)
  unfolding extract_tar_gz
  extract_tar_gz-AllBelow archive =
      opened-AllBelow archive _
        (must-AllBelow (make_dirs dest) (going []) (dest, Below-self, inl refl) tt)
