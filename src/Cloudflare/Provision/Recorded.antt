-- ===== src/Cloudflare/Provision/Recorded.antt =====
-- What the manifest holds after provisioning, whether it ended in an error or not
-- (persistResourceState, cli/internal/serverless/cloudflare_resources.go).
use mathlib.Core.Path.{subst}
use next_deploy.Common.{
  ℕ, ◌++◌, ◌≡◌, ◌≢◌, refl, ap, false, Option, none, some, [], ◌∷◌, ◌==◌, if◌then◌else◌, arith,
  Bool-cases, inl, inr, ==_iff,
}
use next_deploy.Common.Text.{Text, text_eq, text_eq_iff}
use next_deploy.Common.Map.{Map, IsMap, get, get-put}
use next_deploy.Manifest.{Resource, Manifest, Codec, set, key, load, save}
use next_deploy.Cloudflare.Api.{Api, Run, done, failed}
use next_deploy.Cloudflare.Hyperdrive.{Environment}
use next_deploy.Cloudflare.D1.{Migrations}
use next_deploy.Cloudflare.Plan.{Resources}
use next_deploy.Cloudflare.Provision.Kept.{provider_of, KeepsMap, provision_all-KeepsMap}
use next_deploy.Cloudflare.Provision.{
  Provider, Session, before, cut_colon, record_one, record_all, prior_manifest,
  persist_resource_state, persist_with, written_over, persist, deferred, provision_all,
  provision_resources,
}

before-key :
    (c : ℕ) (cs : Text) (rest : Option (Text × Text))
    → ((halves : Text × Text) → rest ≡ some halves → key halves.0 halves.1 ≡ cs)
    → (halves : Text × Text) → before c rest ≡ some halves
    → key halves.0 halves.1 ≡ c ∷ cs
unfolding before key
before-key c cs none ih halves h = ground arith
before-key c cs (some (kind, name)) ih halves h =
    let same : (c ∷ kind, name) ≡ halves = ground (arith, h) in
    subst (λ (x : Text × Text). key x.0 x.1 ≡ c ∷ cs) same (ap (λ t. c ∷ t) (ih (kind, name) refl))

pub cut_colon_lem :
    (k : Text) (halves : Text × Text) → cut_colon k ≡ some halves → key halves.0 halves.1 ≡ k
unfolding cut_colon key
cut_colon_lem [] halves h = ground arith
cut_colon_lem (c ∷ cs) halves h = elim (Bool-cases (c == b':')) [
  | inl colon ↦
      let same : ([], cs) ≡ halves = ground (arith, h, colon) in
      subst (λ (x : Text × Text). x.0 ++ b':' ∷ x.1 ≡ c ∷ cs) same
        (ground (arith, colon, ==_iff c b':'))
  | inr other ↦ before-key c cs (cut_colon cs) (cut_colon_lem cs) halves (ground (arith, h, other))
]

-- What stands under a key of these halves after a run that made `id` of it.
unfoldable pub entry : Text → Text → Option (Text × Text) → Option Resource → Option Resource
entry now id none prior = prior
entry now id (some (kind, name)) prior =
    some (record { kind = kind; name = name; id = id; updated_at = now })

-- What stands under a key after a run.
unfoldable pub recorded : Text → Text → Option Text → Option Resource → Option Resource
recorded now k none prior = prior
recorded now k (some id) prior = entry now id (cut_colon k) prior

get-record_one :
    (now k id j : Text) (m : Manifest) (halves : Option (Text × Text))
    → ((h : Text × Text) → halves ≡ some h → key h.0 h.1 ≡ k)
    → get j (record_one now id halves m).resources
      ≡ (if text_eq k j then entry now id halves (get j m.resources) else get j m.resources)
unfolding record_one entry set
get-record_one now k id j m none whole = ground arith
get-record_one now k id j m (some (kind, name)) whole =
    rw
      (
        get-put (key kind name) j (record { kind = kind; name = name; id = id; updated_at = now })
            m.resources,
        whole (kind, name) refl,
      )
      refl

get-record_all :
    (now j : Text) (snap : Map Text) (m : Manifest)
    → IsMap snap
    → get j (record_all now snap m).resources ≡ recorded now j (get j snap) (get j m.resources)
unfolding record_all recorded get
get-record_all now j [] m d = refl
get-record_all now j ((k, id) ∷ snap) m d =
    let ih = get-record_all now j snap (record_one now id (cut_colon k) m) d.1 in
    let one = get-record_one now k id j m (cut_colon k) (cut_colon_lem k) in
    elim (Bool-cases (text_eq k j)) [
      | inl same ↦
          let here : k ≡ j = (text_eq_iff k j).0 same in
          let gone : get j snap ≡ none = subst (λ x. get x snap ≡ none) here d.0 in
          rw (same, ih, gone, one, same, here) refl
      | inr other ↦ rw (other, ih, one, other) refl
    ]

-- A manifest that is saved with a key is read back with it.
abbrev pub IsReadBack : Codec → Text → Manifest → Type 0
IsReadBack c enc_key m =
    (file : Text) × (save c m enc_key ≡ some file) × (load c (some file) enc_key ≡ some m)

-- The manifest of a run with these identifiers.
abbrev pub manifest_of : Session → Text → Map Text → Option Text → Manifest
manifest_of s enc_key snap file = record_all s.now snap (prior_manifest s.codec file enc_key)

persist_lem :
    (s : Session) (snap : Map Text) (file : Option Text) (enc_key j : Text)
    → IsMap snap
    → s.api_token ≢ []
    → s.derive_key s.api_token ≡ some enc_key
    → IsReadBack s.codec enc_key (manifest_of s enc_key snap file)
    → (m : Manifest) × (load s.codec (persist_resource_state s snap file) enc_key ≡ some m)
      × (get j m.resources
          ≡ recorded s.now j (get j snap) (get j (prior_manifest s.codec file enc_key).resources))
unfolding persist_resource_state persist_with written_over
persist_lem s snap file enc_key j d given derived round =
    let prior = prior_manifest s.codec file enc_key in
    let m = record_all s.now snap prior in
    let (written, saved, loaded) = round in
    let present : text_eq s.api_token [] ≡ false =
      ground (arith, given, text_eq_iff s.api_token []) in
    (m, rw (present, derived, saved) loaded, get-record_all s.now j snap prior d)

deferred_file :
    {World A : Type 0} (s : Session) (r : Run (Provider World) A)
    → (provider_of (deferred s r)).state_file
      ≡ persist_resource_state s (provider_of r).provisioned (provider_of r).state_file
unfolding deferred persist
deferred_file s (done a p) = refl
deferred_file s (failed e p) = refl

deferred_ids :
    {World A : Type 0} (s : Session) (r : Run (Provider World) A)
    → (provider_of (deferred s r)).provisioned ≡ (provider_of r).provisioned
unfolding deferred persist
deferred_ids s (done a p) = refl
deferred_ids s (failed e p) = refl

-- After provisioning, whether it succeeded or stopped at an error, the manifest can be read, and under
-- each key it holds the identifier that this run has for it, and what the state file before the run
-- held (nothing, where it could not be read) if the run has none. There is a token, from which a key
-- is derived, with which the manifest is read back as saved; the identifiers are a map.
pub provision_resources-recorded :
    {World : Type 0} (env : Environment) (fs : Migrations) (api : Api World) (s : Session)
    (r : Resources) (p : Provider World) (enc_key j : Text)
    → IsMap p.provisioned
    → s.api_token ≢ []
    → s.derive_key s.api_token ≡ some enc_key
    → IsReadBack s.codec enc_key (
        manifest_of s enc_key (provider_of (provision_all env fs api r p)).provisioned p.state_file)
    → let q = provider_of (provision_resources env fs api s r p) in
      (m : Manifest) × (load s.codec q.state_file enc_key ≡ some m)
      × (get j m.resources
          ≡ recorded s.now j
              (get j q.provisioned)
              (get j (prior_manifest s.codec p.state_file enc_key).resources))
unfolding provision_resources KeepsMap
provision_resources-recorded env fs api s r p enc_key j d given derived round =
    let run = provision_all env fs api r p in
    let (kept, file) = provision_all-KeepsMap env fs api r p.state_file p (d, refl) in
    rw (deferred_file s run, deferred_ids s run, file)
      (persist_lem s (provider_of run).provisioned p.state_file enc_key j kept given derived round)
