-- ===== src/Daemon/Caddy/Main.antt =====
-- The main Caddyfile after EnsureMainCaddyfile (daemon/internal/daemon/caddy_manager.go).
use mathlib.Core.Path.{subst}
use next_deploy.Common.{
  ◌≡◌, refl, sym, ap, Bool, true, false, Option, none, some, [], ◌∷◌, ◌++◌, arith, Bool-cases, inl,
  inr, append-nil,
}
use next_deploy.Common.Text.{
  Text, codes, text_eq, text_eq_iff, contains, has_prefix, has_prefix-append, has_suffix,
}
use next_deploy.Daemon.Caddy.{
  CaddyFiles, CaddyHost, Outcome, done, failed, coraza_global, import_line, with_global,
  with_import, ended_line, without_default_site, ensured, ensure_main_caddyfile, settle_main,
  read_main, main_after,
}

contains-prefix : (s p : Text) → has_prefix s p ≡ true → contains s p ≡ true
unfolding contains
contains-prefix [] p h = h
contains-prefix (c ∷ cs) p h = ground (arith, h)

contains-append_right : (s t p : Text) → contains t p ≡ true → contains (s ++ t) p ≡ true
unfolding contains
contains-append_right [] t p h = h
contains-append_right (c ∷ s) t p h = ground (arith, contains-append_right s t p h)

has_prefix-append_left : (s t p : Text) → has_prefix s p ≡ true → has_prefix (s ++ t) p ≡ true
unfolding has_prefix
has_prefix-append_left s t [] h = refl
has_prefix-append_left [] t (y ∷ p) h = cc
has_prefix-append_left (x ∷ s) t (y ∷ p) h = ground (arith, has_prefix-append_left s t p, h)

contains-append_left : (s t p : Text) → contains s p ≡ true → contains (s ++ t) p ≡ true
unfolding contains
contains-append_left [] t p h = contains-prefix t p (has_prefix-append_left [] t p h)
contains-append_left (c ∷ s) t p h =
    ground (arith, contains-append_left s t p, has_prefix-append_left (c ∷ s) t p, h)

contains_self : (s p : Text) → contains (s ++ p) p ≡ true
contains_self s p =
    let whole : has_prefix p p ≡ true =
      subst (λ t. has_prefix t p ≡ true) (append-nil p) (has_prefix-append p []) in
    contains-append_right s p p (contains-prefix p p whole)

marker : Text
marker = codes "order coraza_waf"

-- The global options and the import are both there.
IsReady : Text → Text → Type 0
IsReady dir t = (contains t marker ≡ true) × (contains t (import_line dir) ≡ true)

global_there : contains coraza_global marker ≡ true
unfolding contains has_prefix marker
global_there = refl

contains-with_global : (t : Text) → contains (with_global t) marker ≡ true
unfolding with_global marker
contains-with_global t = elim (Bool-cases (contains t marker)) [
  | inl there ↦ rw there there
  | inr missing ↦ rw missing (contains-append_left coraza_global t marker global_there)
]

contains-ended_line : (t p : Text) → contains t p ≡ true → contains (ended_line t) p ≡ true
unfolding ended_line
contains-ended_line [] p h = h
contains-ended_line (c ∷ cs) p h = elim (Bool-cases (has_suffix (c ∷ cs) (10 ∷ []))) [
  | inl ended ↦ rw ended h
  | inr bare ↦ rw bare (contains-append_left (c ∷ cs) (10 ∷ []) p h)
]

with_import-IsReady : (dir t : Text) → contains t marker ≡ true → IsReady dir (with_import dir t)
unfolding with_import IsReady
with_import-IsReady dir t h = elim (Bool-cases (contains t (import_line dir))) [
  | inl there ↦ rw there (h, there)
  | inr missing ↦ rw missing (
    contains-append_left (ended_line t) (import_line dir) marker (contains-ended_line t marker h),
    contains_self (ended_line t) (import_line dir),
  )
]

fresh-IsReady : (dir : Text) → IsReady dir (coraza_global ++ import_line dir)
unfolding IsReady
fresh-IsReady dir = (
  contains-append_left coraza_global (import_line dir) marker global_there,
  contains_self coraza_global (import_line dir),
)

-- Whatever the main Caddyfile held, what is made of it has the global options that order the firewall
-- first, and the import of every fragment.
ensured-IsReady : (dir t : Text) → IsReady dir (ensured dir t)
unfolding ensured
ensured-IsReady dir t =
    with_import-IsReady dir (with_global (without_default_site t))
      (contains-with_global (without_default_site t))

module _ (host : CaddyHost) where
  -- What may become of the files: left as they are by a failure, or with a main Caddyfile that is ready.
  pub IsEnsured : CaddyFiles → Outcome → Type 0
  IsEnsured files (failed e after) = after ≡ files
  IsEnsured files (done after) =
      (main : Text) × (after.main ≡ some main)
      × IsReady host.config_dir main
      × (after.fragments ≡ files.fragments)

  settle_main-IsEnsured :
      (files : CaddyFiles) (new : Text) (is_same is_written : Bool)
      → IsReady host.config_dir new
      → (is_same ≡ true → files.main ≡ some new)
      → IsEnsured files (settle_main is_same is_written files new)
  unfolding IsEnsured settle_main
  settle_main-IsEnsured files new true is_written ready same = (new, same refl, ready, refl)
  settle_main-IsEnsured files new false true ready same = (new, refl, ready, refl)
  settle_main-IsEnsured files new false false ready same = refl

  read_main-IsEnsured :
      (is_readable : Bool) (files : CaddyFiles) (after : Outcome)
      → IsEnsured files after
      → IsEnsured files (read_main is_readable files after)
  unfolding read_main IsEnsured
  read_main-IsEnsured true files after h = h
  read_main-IsEnsured false files after h = refl

  main_after-IsEnsured :
      (files : CaddyFiles) (main : Option Text)
      → files.main ≡ main
      → IsEnsured files (main_after host files main)
  unfolding main_after IsEnsured
  main_after-IsEnsured files none h =
      settle_main-IsEnsured files (coraza_global ++ import_line host.config_dir) false
        host.main_written (fresh-IsReady host.config_dir) (λ same. ground arith)
  main_after-IsEnsured files (some old) h =
      let new = ensured host.config_dir old in
      read_main-IsEnsured host.main_readable files _ (
        settle_main-IsEnsured files new (text_eq new old) host.main_written
          (ensured-IsReady host.config_dir old)
          (λ same. rw h (ap some (sym ((text_eq_iff new old).0 same)))))

  -- EnsureMainCaddyfile either leaves the main Caddyfile with the global options that order the firewall
  -- first and the import of every fragment, and no fragment changed, or it fails and changes nothing.
  ensure_main_caddyfile-IsEnsured :
      (files : CaddyFiles) → IsEnsured files (ensure_main_caddyfile host files)
  unfolding ensure_main_caddyfile
  ensure_main_caddyfile-IsEnsured files = main_after-IsEnsured files files.main refl
