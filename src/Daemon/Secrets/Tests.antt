-- ===== src/Daemon/Secrets/Tests.antt =====
-- The secrets of one app (daemon/internal/daemon/secrets_handler.go), with a code in place of JSON in
-- which a zero ends a text.
use next_deploy.Common.{
  zero, suc, ◌≡◌, refl, Bool, true, false, Option, none, some, [], ◌∷◌, ◌++◌, map, append_assoc,
  append-nil,
}
use next_deploy.Common.Text.{Text, codes, text_eq, text_le, has_prefix, has_suffix}
use next_deploy.Common.Map.{Map, get, put, remove}
use next_deploy.Common.Sort.{sort}
use next_deploy.Daemon.Arguments.{string_arg, validate_app_name}
use next_deploy.Daemon.EnvFile.{render_env, merge_extra}
use next_deploy.Daemon.Services.{find_app_services, is_app_service}
use next_deploy.Daemon.Secrets.{
  Host, Files, stored, unset_done, handle_secrets, secrets_for, on_action, set_secret, unset_secret,
  set_with, unset_with, unset_found, save_and_sync, save_secrets, sync_app_secrets, render_env_file,
  write_env, restart_active, restart_service, find_active_service, load_secrets,
}
use next_deploy.Daemon.Secrets.Store.{set_args, unset_args, JsonRoundTrips}
use next_deploy.Daemon.Secrets.Synced.{set_reaches_app}

abbrev encode : Map Text → Text
encode [] = []
encode ((k, v) ∷ m) = map suc k ++ (0 ∷ (map suc v ++ (0 ∷ encode m)))

abbrev entry : Text → Text → Option (Map Text) → Option (Map Text)
entry k v none = none
entry k v (some m) = some ((k, v) ∷ m)

abbrev decode : Bool → Text → Text → Text → Option (Map Text)
decode false k acc [] = some []
decode true k acc [] = none
decode false k acc (zero ∷ cs) = decode true acc [] cs
decode true k acc (zero ∷ cs) = entry k acc (decode false [] [] cs)
decode b k acc (suc c ∷ cs) = decode b k (acc ++ c ∷ []) cs

decode-text :
    (b : Bool) (k acc t rest : Text)
    → decode b k acc (map suc t ++ rest) ≡ decode b k (acc ++ t) rest
decode-text b k acc [] rest = rw append-nil refl
decode-text true k acc (c ∷ t) rest =
    rw (decode-text true k (acc ++ c ∷ []) t rest, append_assoc) refl
decode-text false k acc (c ∷ t) rest =
    rw (decode-text false k (acc ++ c ∷ []) t rest, append_assoc) refl

decode-encode : (m : Map Text) → decode false [] [] (encode m) ≡ some m
decode-encode [] = refl
decode-encode ((k, v) ∷ m) =
    rw
      (
        decode-text false [] [] k (0 ∷ (map suc v ++ (0 ∷ encode m))),
        decode-text true k [] v (0 ∷ encode m),
        decode-encode m,
      )
      refl

abbrev shop : Text
shop = codes "shop"

abbrev host : Host
host = record {
  encode = encode;
  decode = decode false [] [];
  readable = λ a. true;
  writable = λ a. true;
  release_dir = λ a. some (codes "r1");
  env_written = λ d. true;
  units = some (codes "nextdeploy-shop-1-a.service" ∷ []);
  is_active = λ u. true;
  restarts = λ u. true;
}

json : JsonRoundTrips host
json m = (m, decode-encode m, λ k. refl)

abbrev files : Files
files = record {
  stores = (shop, encode ((codes "A", codes "1") ∷ [])) ∷ [];
  env_files = [];
  restarted = [];
}

set_reply : (handle_secrets host (set_args shop (codes "B") (codes "2")) files).0 ≡ stored
unfolding handle_secrets secrets_for on_action set_secret set_with save_and_sync save_secrets
    sync_app_secrets render_env_file write_env restart_active restart_service find_active_service
    load_secrets string_arg validate_app_name get put remove text_eq text_le sort merge_extra
    find_app_services is_app_service has_prefix has_suffix
set_reply = refl

unset_reply : (handle_secrets host (unset_args shop (codes "A")) files).0 ≡ unset_done
unfolding handle_secrets secrets_for on_action unset_secret unset_with unset_found save_and_sync
    save_secrets sync_app_secrets render_env_file write_env restart_active restart_service
    find_active_service load_secrets string_arg validate_app_name get put remove text_eq text_le
    sort merge_extra find_app_services is_app_service has_prefix has_suffix
unset_reply = refl

abbrev later : Files
later = (handle_secrets host (set_args shop (codes "B") (codes "2")) files).1

set_reaches_app_example :
    (m : Map Text) × (load_secrets host shop later ≡ some m)
    × (get (codes "B") m ≡ some (codes "2"))
    × (get (codes "r1") later.env_files ≡ some (render_env m))
set_reaches_app_example =
    set_reaches_app host shop (codes "r1") (codes "B") (codes "2") files json refl refl set_reply
