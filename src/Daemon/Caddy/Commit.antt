-- ===== src/Daemon/Caddy/Commit.antt =====
-- What a commit of a fragment does to the live files (commitFragmentSafely and GenerateConfig,
-- daemon/internal/daemon/caddy_manager.go).
use next_deploy.Common.{
  ℕ, ◌≡◌, refl, Bool, true, false, ◌||◌, not, Option, none, some, [], ◌∷◌, ◌++◌, In, inl, inr, ◌⊎◌,
  arith, Bool-cases,
}
use next_deploy.Common.Text.{Text, codes, text_eq, text_eq_iff, text_eq_refl, has_suffix}
use next_deploy.Common.Map.{Map, get, put, get-put}
use next_deploy.Daemon.Caddy.{
  CaddyFiles, CaddyHost, Outcome, done, failed, sanitize_app_name, all_name_bytes, is_name_byte,
  fragment_name, mirror, candidate_main, staged_files, settle, commit_in, commit_fragment_safely,
  generate_config,
}

-- The bytes of a fragment's name: no app name that is accepted leads out of the import directory.
all_name_bytes-In :
    (c : ℕ) (name : Text) → all_name_bytes name ≡ true → In c name → is_name_byte c ≡ true
unfolding all_name_bytes
all_name_bytes-In c [] h i = elim i [ ]
all_name_bytes-In c (d ∷ name) h (inl same) = rw same (ground (arith, h))
all_name_bytes-In c (d ∷ name) h (inr i) = all_name_bytes-In c name (ground (arith, h)) i

In-append_cases : (c : ℕ) (xs ys : Text) → In c (xs ++ ys) → In c xs ⊎ In c ys
In-append_cases c [] ys i = inr i
In-append_cases c (x ∷ xs) ys (inl same) = inl (inl same)
In-append_cases c (x ∷ xs) ys (inr i) = elim (In-append_cases c xs ys i) [
  | inl h ↦ inl (inr h)
  | inr h ↦ inr h
]

-- An app name that is accepted makes the name of a fragment without a separator.
pub fragment_name_inside :
    (app : Text) → sanitize_app_name app ≡ true → ¬ In b'/' (fragment_name app)
unfolding sanitize_app_name fragment_name is_name_byte
fragment_name_inside app h i = elim (In-append_cases b'/' app (codes ".caddy") i) [
  | inl name ↦
      let byte = all_name_bytes-In b'/' app (ground (arith, h)) name in ground (arith, byte)
  | inr suffix ↦ ground (arith, suffix)
]

module _ (host : CaddyHost) where
  -- An entry that the import of the live directory reads, and the sandbox gets.
  pub IsMirrored : Text → Type 0
  IsMirrored name =
      (host.is_dir name ≡ false)
      × (has_suffix name (codes ".caddy") ≡ true)
      × (host.readable name ≡ true)

  get-mirror :
      (name : Text) (files : Map Text)
      → IsMirrored name
      → get name (mirror host files) ≡ get name files
  unfolding IsMirrored mirror get
  get-mirror name [] h = refl
  get-mirror name ((other, content) ∷ files) h =
      let ih = get-mirror name files h in
      elim (Bool-cases (text_eq other name)) [
        | inl same ↦
            let here : other ≡ name = (text_eq_iff other name).0 same in
            rw (here, h.0, h.1, h.2, text_eq_refl name) refl
        | inr apart ↦
            let skipped =
              host.is_dir other
              || not (has_suffix other (codes ".caddy"))
              || not (host.readable other) in
            elim (Bool-cases skipped) [
              | inl out ↦ rw (out, apart) ih
              | inr kept ↦ rw (kept, apart) ih
            ]
      ]

  staged_lem :
      (app content name : Text) (files : CaddyFiles)
      → IsMirrored name
      → get name (staged_files host app content files)
        ≡ get name (put (fragment_name app) content files.fragments)
  unfolding staged_files
  staged_lem app content name files h =
      rw
        (
          get-put (fragment_name app) name content (mirror host files.fragments),
          get-put (fragment_name app) name content files.fragments,
          get-mirror name files.fragments h,
        )
        refl

  -- What a commit of `content` may come to: a failure that leaves the files, or the files with the
  -- app's fragment put, the candidate being valid with what the sandbox held, which agrees with the
  -- files after the commit on each fragment that is mirrored.
  pub IsCommit : Text → Text → CaddyFiles → Outcome → Type 0
  IsCommit app content files (failed e after) = after ≡ files
  IsCommit app content files (done after) =
      (dir : Text) × (host.sandbox ≡ some dir)
      × (host.valid (candidate_main host dir files.main) (staged_files host app content files)
          ≡ true)
      × (after ≡ record files { fragments = put (fragment_name app) content files.fragments })
      × ((name : Text)
          → IsMirrored name
          → get name (staged_files host app content files) ≡ get name after.fragments)

  settle-IsCommit :
      (app content dir : Text) (files : CaddyFiles) (is_staged is_valid is_installed : Bool)
      → host.sandbox ≡ some dir
      → host.valid (candidate_main host dir files.main) (staged_files host app content files)
        ≡ is_valid
      → IsCommit app content files (
          settle is_staged is_valid is_installed files
            (record files { fragments = put (fragment_name app) content files.fragments }))
  unfolding settle IsCommit
  settle-IsCommit app content dir files false is_valid is_installed made valid = refl
  settle-IsCommit app content dir files true false is_installed made valid = refl
  settle-IsCommit app content dir files true true false made valid = refl
  settle-IsCommit app content dir files true true true made valid =
      (dir, made, valid, refl, λ name h. staged_lem app content name files h)

  commit_in-IsCommit :
      (app content : Text) (files : CaddyFiles) (sandbox : Option Text)
      → host.sandbox ≡ sandbox
      → IsCommit app content files (commit_in host app content files sandbox)
  unfolding commit_in IsCommit
  commit_in-IsCommit app content files none made = refl
  commit_in-IsCommit app content files (some dir) made =
      settle-IsCommit app content dir files _ _ _ made refl

  -- A commit that fails leaves the files. One that succeeds changes the app's fragment only; the
  -- candidate Caddyfile was valid with what the sandbox held, which is, of every fragment that the
  -- sandbox gets, what the live directory holds afterwards.
  pub generate_config-IsCommit :
      (app content : Text) (files : CaddyFiles)
      → IsCommit app content files (generate_config host app content files)
  unfolding generate_config commit_fragment_safely IsCommit
  generate_config-IsCommit app content files = elim (Bool-cases (sanitize_app_name app)) [
    | inr bad ↦ rw bad refl
    | inl fine ↦ rw fine (commit_in-IsCommit app content files host.sandbox refl)
  ]
