-- ===== src/Daemon/Secrets/Store.antt =====
-- What the secrets commands (handleSecrets, daemon/internal/daemon/secrets_handler.go) tell of one
-- another.
use next_deploy.Common.{
  ◌≡◌, ◌⊎◌, inl, inr, refl, ◌∙◌, Bool, true, false, Option, none, some, [], ◌∷◌, if◌then◌else◌,
  Bool-cases, Option-cases, arith,
}
use next_deploy.Common.Text.{Text, codes, text_eq}
use next_deploy.Common.Map.{Map, get, put, remove, get-put, get-remove}
use next_deploy.Daemon.Commands.{Arg, text}
use next_deploy.Daemon.Arguments.{string_arg, validate_app_name}
use next_deploy.Daemon.Secrets.{
  Host, Files, Reply, stored, stored_not_synced, unset_done, unset_not_synced, value, not_found,
  load_failed, invalid_app, load_secrets, save_and_sync, set_with, get_with, lookup_reply,
  secrets_for, on_action, set_secret, get_secret, unset_secret, unset_with, unset_found,
  handle_secrets,
}
use next_deploy.Daemon.Secrets.Saved.{load-saved, save_and_sync_lem}

abbrev pub set_args : Text → Text → Text → Map Arg
set_args app k v =
    (codes "action", text (codes "set"))
    ∷ (codes "appName", text app)
    ∷ (codes "key", text k)
    ∷ (codes "value", text v)
    ∷ []

abbrev pub get_args : Text → Text → Map Arg
get_args app k =
    (codes "action", text (codes "get")) ∷ (codes "appName", text app) ∷ (codes "key", text k) ∷ []

abbrev pub unset_args : Text → Text → Map Arg
unset_args app k =
    (codes "action", text (codes "unset"))
    ∷ (codes "appName", text app)
    ∷ (codes "key", text k)
    ∷ []

abbrev pub list_args : Text → Map Arg
list_args app = (codes "action", text (codes "list")) ∷ (codes "appName", text app) ∷ []

-- What is written by json.MarshalIndent is read back by json.Unmarshal, as a map with the same
-- entries.
abbrev pub JsonRoundTrips : Host → Type 0
JsonRoundTrips host =
    (m : Map Text)
    → (m' : Map Text) × (host.decode (host.encode m) ≡ some m') × ((k : Text) → get k m' ≡ get k m)

abbrev pub IsStored : Reply → Type 0
IsStored r = (r ≡ stored) ⊎ (r ≡ stored_not_synced)

abbrev pub IsUnset : Reply → Type 0
IsUnset r = (r ≡ unset_done) ⊎ (r ≡ unset_not_synced)

module _ (host : Host) where
  set_with-IsStored :
      (app k v : Text) (fs : Files)
      → host.readable app ≡ true
      → IsStored (set_with host app (some k) (some v) fs).0
      → (m : Map Text) × (load_secrets host app fs ≡ some m)
        × (load_secrets host app (set_with host app (some k) (some v) fs).1
            ≡ host.decode (host.encode (put k v m)))
  unfolding set_with
  set_with-IsStored app k v fs readable h = elim (Option-cases (load_secrets host app fs)) [
    | inl none_read ↦
        let h' : IsStored load_failed = rw (none_read, set_with) at h in absurd (ground arith)
    | inr (m, read) ↦
        let h' : IsStored (save_and_sync host stored stored_not_synced app (put k v m) fs).0 =
          rw (read, set_with) at h in
        (
          m,
          read,
          rw (read, set_with)
              (load-saved host app (put k v m) fs
                (save_and_sync host stored stored_not_synced app (put k v m) fs).1 readable
                (ground
                  (arith, save_and_sync_lem host stored stored_not_synced app (put k v m) fs))),
        )
  ]

  pub handle_set :
      (app k v : Text) (fs : Files)
      → handle_secrets host (set_args app k v) fs ≡ (
          if validate_app_name app
          then set_with host app (some k) (some v) fs
          else (invalid_app, fs))
  unfolding handle_secrets string_arg get text_eq secrets_for on_action set_secret
  handle_set app k v fs = refl

  handle_get :
      (app k : Text) (fs : Files)
      → handle_secrets host (get_args app k) fs
        ≡ (if validate_app_name app then get_with host app (some k) fs else (invalid_app, fs))
  unfolding handle_secrets string_arg get text_eq secrets_for on_action get_secret
  handle_get app k fs = refl

  get_with-loaded :
      (app k : Text) (fs : Files) (m : Map Text)
      → load_secrets host app fs ≡ some m
      → (get_with host app (some k) fs).0 ≡ lookup_reply host (get k m)
  unfolding get_with
  get_with-loaded app k fs m read = rw (read, get_with) refl

  lookup_if :
      (b : Bool) (v : Text) (o : Option Text)
      → lookup_reply host (if b then some v else o) ≡ (if b then value v else lookup_reply host o)
  unfolding lookup_reply
  lookup_if true v o = refl
  lookup_if false v o = refl

  lookup_unless :
      (b : Bool) (o : Option Text)
      → lookup_reply host (if b then none else o) ≡ (if b then not_found else lookup_reply host o)
  unfolding lookup_reply
  lookup_unless true o = refl
  lookup_unless false o = refl

  -- After a secret has been stored, it is got with its value, and every other key of the app is
  -- answered as before. The app's store must be readable, and JSON must read back what it writes.
  get-set :
      (app k v j : Text) (fs : Files)
      → JsonRoundTrips host
      → host.readable app ≡ true
      → IsStored (handle_secrets host (set_args app k v) fs).0
      → (handle_secrets host (get_args app j) (handle_secrets host (set_args app k v) fs).1).0
        ≡ (if text_eq k j then value v else (handle_secrets host (get_args app j) fs).0)
  get-set app k v j fs json readable h = elim (Bool-cases (validate_app_name app)) [
    | inr bad ↦
        let h' : IsStored invalid_app = rw (handle_set app k v fs, bad) at h in
        absurd (ground arith)
    | inl ok ↦
        let h' : IsStored (set_with host app (some k) (some v) fs).0 =
          rw (handle_set app k v fs, ok) at h in
        let (m, before, after) = set_with-IsStored app k v fs readable h' in
        let (m', decoded, same) = json (put k v m) in
        let fs' = (set_with host app (some k) (some v) fs).1 in
        rw
          (
            handle_set app k v fs,
            handle_get app j fs,
            ok,
            handle_get app j fs',
            ok,
            get_with-loaded app j fs' m' (after ∙ decoded),
            get_with-loaded app j fs m before,
            same j,
            get-put k j v m,
          )
          (lookup_if (text_eq k j) v (get j m))
  ]

  handle_unset :
      (app k : Text) (fs : Files)
      → handle_secrets host (unset_args app k) fs
        ≡ (if validate_app_name app then unset_with host app (some k) fs else (invalid_app, fs))
  unfolding handle_secrets string_arg get text_eq secrets_for on_action unset_secret
  handle_unset app k fs = refl

  unset_with-IsUnset :
      (app k : Text) (fs : Files)
      → host.readable app ≡ true
      → IsUnset (unset_with host app (some k) fs).0
      → (m : Map Text) × (load_secrets host app fs ≡ some m)
        × (load_secrets host app (unset_with host app (some k) fs).1
            ≡ host.decode (host.encode (remove k m)))
  unfolding unset_with unset_found
  unset_with-IsUnset app k fs readable h = elim (Option-cases (load_secrets host app fs)) [
    | inl none_read ↦
        let h' : IsUnset load_failed = rw (none_read, unset_with) at h in absurd (ground arith)
    | inr (m, read) ↦ elim (Option-cases (get k m)) [
      | inl absent ↦
          let h' : IsUnset not_found = rw (read, unset_with, absent, unset_found) at h in
          absurd (ground arith)
      | inr (v, there) ↦
          let h' : IsUnset (save_and_sync host unset_done unset_not_synced app (remove k m) fs).0 =
            rw (read, unset_with, there, unset_found) at h in
          (
            m,
            read,
            rw (read, unset_with, there, unset_found)
                (load-saved host app (remove k m) fs
                  (save_and_sync host unset_done unset_not_synced app (remove k m) fs).1 readable
                  (ground (
                    arith,
                    save_and_sync_lem host unset_done unset_not_synced app (remove k m) fs,
                  ))),
          )
    ]
  ]

  -- After a secret has been unset, it is not found, and every other key of the app is answered as
  -- before. The app's store must be readable, and JSON must read back what it writes.
  get-unset :
      (app k j : Text) (fs : Files)
      → JsonRoundTrips host
      → host.readable app ≡ true
      → IsUnset (handle_secrets host (unset_args app k) fs).0
      → (handle_secrets host (get_args app j) (handle_secrets host (unset_args app k) fs).1).0
        ≡ (if text_eq k j then not_found else (handle_secrets host (get_args app j) fs).0)
  get-unset app k j fs json readable h = elim (Bool-cases (validate_app_name app)) [
    | inr bad ↦
        let h' : IsUnset invalid_app = rw (handle_unset app k fs, bad) at h in absurd (ground arith)
    | inl ok ↦
        let h' : IsUnset (unset_with host app (some k) fs).0 =
          rw (handle_unset app k fs, ok) at h in
        let (m, before, after) = unset_with-IsUnset app k fs readable h' in
        let (m', decoded, same) = json (remove k m) in
        let fs' = (unset_with host app (some k) fs).1 in
        rw
          (
            handle_unset app k fs,
            handle_get app j fs,
            ok,
            handle_get app j fs',
            ok,
            get_with-loaded app j fs' m' (after ∙ decoded),
            get_with-loaded app j fs m before,
            same j,
            get-remove k j m,
          )
          (lookup_unless (text_eq k j) (get j m))
  ]
