-- ===== src/Daemon/Destroy/Untouched.antt =====
-- What a destroy leaves of other apps (handleDestroy, daemon/internal/daemon/command_handler.go).
use next_deploy.Common.{
  ◌≡◌, ◌≢◌, refl, sym, ap, ◌∙◌, Bool, true, false, not, ◌||◌, Option, none, some, List, [], ◌∷◌, In,
  inl, inr, if◌then◌else◌, arith, Bool-cases, ℕ,
}
use next_deploy.Common.Text.{Text, codes, text_eq, text_eq_iff, has_prefix}
use next_deploy.Common.Map.{Map, get, get-put, get-remove}
use next_deploy.Daemon.Locks.{AppLocker, try_acquire, release}
use next_deploy.Daemon.Commands.{Arg}
use next_deploy.Daemon.Arguments.{string_arg}
use next_deploy.Daemon.Services.{is_app_service, find_app_services}
use next_deploy.Daemon.Caddy.{
  CaddyFiles, CaddyHost, remove_config, removed_file, fragment_name, sanitize_app_name,
}
use next_deploy.Daemon.Destroy.{
  Machine, DestroyHost, Step, ◌&>◌, is_under, remove_all, exists_under, dropped, remove_unit,
  remove_units, remove_app_services, remove_fragment, remove_tree, remove_uploads_of,
  remove_uploads, clear_state, log_file, destroy, locked_destroy, handle_destroy, destroy_named,
  apps_dir, files_of,
}

In-remove_all :
    (dir f : Text) (files : List Text)
    → is_under dir f ≡ false
    → In f files
    → In f (remove_all dir files)
unfolding remove_all
In-remove_all dir f [] h i = i
In-remove_all dir f (g ∷ files) h (inl same) = rw (ap (is_under dir) (sym same) ∙ h) (inl same)
In-remove_all dir f (g ∷ files) h (inr i) =
    let ih = In-remove_all dir f files h i in
    elim (Bool-cases (is_under dir g)) [ inl gone ↦ rw gone ih | inr kept ↦ rw kept (inr ih) ]

In-dropped : (x y : Text) (ys : List Text) → y ≢ x → In y ys → In y (dropped x ys)
unfolding dropped
In-dropped x y [] h i = i
In-dropped x y (z ∷ ys) h i =
    let ih = In-dropped x y ys h in
    elim (Bool-cases (text_eq z x)) [
      | inl gone ↦ rw gone (elim i [
        | inl same ↦ elim (h (same ∙ (text_eq_iff z x).0 gone)) [ ]
        | inr there ↦ ih there
      ])
      | inr kept ↦ rw kept (elim i [ inl same ↦ inl same | inr there ↦ inr (ih there) ])
    ]

find_app_services-In :
    (app s : Text) (files : List Text)
    → In s (find_app_services app files)
    → is_app_service app s ≡ true
unfolding find_app_services
find_app_services-In app s [] i = elim i [ ]
find_app_services-In app s (f ∷ files) i = elim (Bool-cases (is_app_service app f)) [
  | inl own ↦ ground (arith, i, own, find_app_services-In app s files, ap (is_app_service app))
  | inr other ↦ ground (arith, i, other, find_app_services-In app s files)
]

In-remove_uploads_of :
    (host : DestroyHost) (app u : Text) (uploads : List Text)
    → has_prefix u app ≡ false
    → In u uploads
    → In u (remove_uploads_of host app uploads)
unfolding remove_uploads_of
In-remove_uploads_of host app u [] h i = i
In-remove_uploads_of host app u (v ∷ uploads) h (inl same) =
    rw (ap (λ x. has_prefix x app) (sym same) ∙ h) (inl same)
In-remove_uploads_of host app u (v ∷ uploads) h (inr i) =
    let ih = In-remove_uploads_of host app u uploads h i in
    elim (Bool-cases (has_prefix v app)) [
      | inr other ↦ rw other (inr ih)
      | inl own ↦ elim (Bool-cases (host.upload_removed v)) [
        | inl gone ↦ rw own (ground (arith, gone, ih))
        | inr kept ↦ rw own (ground (arith, kept, ih))
      ]
    ]

module _ (host : DestroyHost) (app : Text) where
  -- A path in the app's directory or among its logs.
  unfoldable pub is_own_file : Text → Bool
  is_own_file f =
      is_under (host.join apps_dir app) f
      || is_under (log_file host app) f
      || is_under (host.join (codes "/var/log/containers") app) f

  -- The other apps keep their units, of which those that run go on, their files, uploads, ports and
  -- Caddy fragments.
  unfoldable pub Leaves : Machine → Machine → Type 0
  Leaves m after =
      ((u : Text) → is_app_service app u ≡ false → In u m.units → In u after.units)
      × ((u : Text) → is_app_service app u ≡ false → In u m.running → In u after.running)
      × ((f : Text) → is_own_file f ≡ false → In f m.files → In f after.files)
      × ((u : Text) → has_prefix u app ≡ false → In u m.uploads → In u after.uploads)
      × ((b : Text) → b ≢ app → get b after.ports ≡ get b m.ports)
      × ((name : Text)
          → name ≢ fragment_name app
          → get name after.caddy.fragments ≡ get name m.caddy.fragments)

  Leaves-refl : (m : Machine) → Leaves m m
  unfolding Leaves
  Leaves-refl m = (λ u h i. i, λ u h i. i, λ f h i. i, λ u h i. i, λ b h. refl, λ name h. refl)

  Leaves-trans : (a b c : Machine) → Leaves a b → Leaves b c → Leaves a c
  unfolding Leaves
  Leaves-trans a b c p q = (
    λ u h i. q.0 u h (p.0 u h i),
    λ u h i. q.1 u h (p.1 u h i),
    λ f h i. q.2 f h (p.2 f h i),
    λ u h i. q.3 u h (p.3 u h i),
    λ x h. q.4 x h ∙ p.4 x h,
    λ name h. q.5 name h ∙ p.5 name h,
  )

  LeavesOthers : Step → Type 0
  LeavesOthers f = (m : Machine) → Leaves m (f m).1

  then-LeavesOthers : (f g : Step) → LeavesOthers f → LeavesOthers g → LeavesOthers (f &> g)
  unfolding LeavesOthers ◌&>◌
  then-LeavesOthers f g lf lg m = Leaves-trans m (f m).1 (g (f m).1).1 (lf m) (lg (f m).1)

  remove_unit-LeavesOthers :
      (s : Text) → is_app_service app s ≡ true → LeavesOthers (remove_unit host s)
  unfolding LeavesOthers remove_unit Leaves
  remove_unit-LeavesOthers s own m =
      let apart : (u : Text) → is_app_service app u ≡ false → u ≢ s =
        λ u h e. ground (arith, h, own, ap (is_app_service app) e) in
      (
        λ u h i. elim (Bool-cases (host.removes s)) [
          | inl gone ↦ rw gone (In-dropped s u m.units (apart u h) i)
          | inr kept ↦ rw kept i
        ],
        λ u h i. elim (Bool-cases (host.stops s)) [
          | inl gone ↦ rw gone (In-dropped s u m.running (apart u h) i)
          | inr kept ↦ rw kept i
        ],
        λ f h i. i,
        λ u h i. i,
        λ b h. refl,
        λ name h. refl,
      )

  remove_units-LeavesOthers :
      (services : List Text)
      → ((s : Text) → In s services → is_app_service app s ≡ true)
      → LeavesOthers (remove_units host services)
  unfolding remove_units LeavesOthers
  remove_units-LeavesOthers [] own = Leaves-refl
  remove_units-LeavesOthers (s ∷ services) own =
      then-LeavesOthers (remove_unit host s) (remove_units host services)
        (remove_unit-LeavesOthers s (own s (inl refl)))
        (remove_units-LeavesOthers services (λ t i. own t (inr i)))

  either-Leaves :
      (m : Machine) (b : Bool) (x y : ℕ × Machine)
      → Leaves m x.1
      → Leaves m y.1
      → Leaves m (if b then x else y).1
  either-Leaves m true x y lx ly = lx
  either-Leaves m false x y lx ly = ly

  remove_app_services-LeavesOthers : LeavesOthers (remove_app_services host app)
  unfolding remove_app_services LeavesOthers
  remove_app_services-LeavesOthers m =
      either-Leaves m host.units_listed (remove_units host (find_app_services app m.units) m) (1, m)
        (remove_units-LeavesOthers (find_app_services app m.units)
          (λ t i. find_app_services-In app t m.units i) m)
        (Leaves-refl m)

  cleared_tree :
      (dir : Text) (m : Machine)
      → ((f : Text) → is_own_file f ≡ false → is_under dir f ≡ false)
      → Leaves m (record m { files = remove_all dir m.files })
  unfolding Leaves
  cleared_tree dir m own = (
    λ u h i. i,
    λ u h i. i,
    λ f h i. In-remove_all dir f m.files (own f h) i,
    λ u h i. i,
    λ b h. refl,
    λ name h. refl,
  )

  remove_tree-LeavesOthers :
      (n : ℕ) (dir : Text)
      → ((f : Text) → is_own_file f ≡ false → is_under dir f ≡ false)
      → LeavesOthers (remove_tree host n dir)
  unfolding remove_tree LeavesOthers
  remove_tree-LeavesOthers n dir own m =
      let cleared = record m { files = remove_all dir m.files } in
      either-Leaves m (not (exists_under dir m.files)) (0, m)
        (if host.tree_removed dir then (0, cleared) else (n, m)) (Leaves-refl m)
        (either-Leaves m (host.tree_removed dir) (0, cleared) (n, m) (cleared_tree dir m own)
          (Leaves-refl m))

  cleared_uploads :
      (m : Machine) → Leaves m (record m { uploads = remove_uploads_of host app m.uploads })
  unfolding Leaves
  cleared_uploads m = (
    λ u h i. i,
    λ u h i. i,
    λ f h i. i,
    λ u h i. In-remove_uploads_of host app u m.uploads h i,
    λ b h. refl,
    λ name h. refl,
  )

  remove_uploads-LeavesOthers : LeavesOthers (remove_uploads host app)
  unfolding remove_uploads LeavesOthers
  remove_uploads-LeavesOthers m =
      either-Leaves m host.uploads_listed
        (0, record m { uploads = remove_uploads_of host app m.uploads }) (0, m) (cleared_uploads m)
        (Leaves-refl m)

  clear_state-LeavesOthers : LeavesOthers (clear_state host app)
  unfolding clear_state LeavesOthers Leaves
  clear_state-LeavesOthers m = (
    λ u h i. i,
    λ u h i. i,
    λ f h i. i,
    λ u h i. i,
    λ b h. rw (get-put app b 0 m.ports) (ground (arith, h, text_eq_iff app b)),
    λ name h. refl,
  )

  file_gone :
      (own name : Text) (files : CaddyFiles) (content : Option Text) (is_removed : Bool)
      → name ≢ own
      → get name (files_of (removed_file own files content is_removed)).fragments
        ≡ get name files.fragments
  unfolding removed_file files_of
  file_gone own name files none is_removed other = refl
  file_gone own name files (some content) false other = refl
  file_gone own name files (some content) true other =
      rw (get-remove own name files.fragments) (ground (arith, text_eq_iff own name, other))

  fragment_gone :
      (caddy : CaddyHost) (files : CaddyFiles) (name : Text)
      → name ≢ fragment_name app
      → get name (files_of (remove_config caddy app files)).fragments ≡ get name files.fragments
  unfolding remove_config files_of
  fragment_gone caddy files name other = elim (Bool-cases (sanitize_app_name app)) [
    | inl fine ↦ rw fine (
        file_gone (fragment_name app) name files (get (fragment_name app) files.fragments)
          caddy.removed other)
    | inr bad ↦ rw bad refl
  ]

  remove_fragment-LeavesOthers : LeavesOthers (remove_fragment host app)
  unfolding remove_fragment LeavesOthers Leaves
  remove_fragment-LeavesOthers m = (
    λ u h i. i,
    λ u h i. i,
    λ f h i. i,
    λ u h i. i,
    λ b h. refl,
    λ name h. fragment_gone host.caddy m.caddy name h,
  )

  own_app : (f : Text) → is_own_file f ≡ false → is_under (host.join apps_dir app) f ≡ false
  unfolding is_own_file
  own_app f h = ground (arith, h)

  own_log : (f : Text) → is_own_file f ≡ false → is_under (log_file host app) f ≡ false
  unfolding is_own_file
  own_log f h = ground (arith, h)

  own_logs :
      (f : Text)
      → is_own_file f ≡ false
      → is_under (host.join (codes "/var/log/containers") app) f ≡ false
  unfolding is_own_file
  own_logs f h = ground (arith, h)

  destroy-LeavesOthers : LeavesOthers (destroy host app)
  unfolding destroy
  destroy-LeavesOthers =
      then-LeavesOthers _ _
        (then-LeavesOthers _ _
          (then-LeavesOthers _ _
            (then-LeavesOthers _ _
              (then-LeavesOthers _ _
                (then-LeavesOthers _ _ remove_app_services-LeavesOthers
                  remove_fragment-LeavesOthers)
                (remove_tree-LeavesOthers 1 (host.join apps_dir app) own_app))
              remove_uploads-LeavesOthers)
            (remove_tree-LeavesOthers 0 (log_file host app) own_log))
          (remove_tree-LeavesOthers 0 (host.join (codes "/var/log/containers") app) own_logs))
        clear_state-LeavesOthers

  relocked :
      (locks locks' : AppLocker) (m after : Machine)
      → Leaves (record m { locks = locks }) after
      → Leaves m (record after { locks = locks' })
  unfolding Leaves
  relocked locks locks' m after h = h

  locked_destroy-Leaves :
      (attempt : Bool × AppLocker) (m : Machine) → Leaves m (locked_destroy host app attempt m).1
  unfolding locked_destroy LeavesOthers
  locked_destroy-Leaves (false, locks) m =
      relocked locks locks m (record m { locks = locks }) (Leaves-refl (record m { locks = locks }))
  locked_destroy-Leaves (true, locks) m =
      let after = (destroy host app (record m { locks = locks })).1 in
      relocked locks (release app after.locks) m after
        (destroy-LeavesOthers (record m { locks = locks }))

  -- A destroy leaves to the other apps their units and what runs of them, their files, uploads, ports
  -- and Caddy fragments, whatever of it fails. Other are the units that FindAppServices does not count
  -- to the app, the files outside its directory and logs, and the uploads whose name does not begin
  -- with its name.
  pub handle_destroy-Leaves :
      (args : Map Arg) (m : Machine)
      → string_arg args (codes "appName") ≡ some app
      → Leaves m (handle_destroy host args m).1
  unfolding handle_destroy destroy_named
  handle_destroy-Leaves args m given = rw given (locked_destroy-Leaves (try_acquire app m.locks) m)
