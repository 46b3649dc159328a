-- ===== src/Cloudflare/Provision/Kept.antt =====
-- What every step of provisioning keeps of the provider (cli/internal/serverless/cloudflare_resources.go).
use next_deploy.Common.{◌≡◌, Option, none, some, List, [], ◌∷◌}
use next_deploy.Common.Text.{Text}
use next_deploy.Common.Map.{IsMap, put-IsMap}
use next_deploy.Manifest.{key}
use next_deploy.Cloudflare.Api.{Api, Run, done, failed, M, ◌>>◌, continue}
use next_deploy.Cloudflare.Hyperdrive.{Environment}
use next_deploy.Cloudflare.D1.{Migrations}
use next_deploy.Cloudflare.Zone.{ensure_zone_settings}
use next_deploy.Cloudflare.Plan.{Resources, ZoneSettings}
use next_deploy.Cloudflare.Provision.{
  Provider, set_id, note_id, brought, on_account, provision_one, provision_each, zone_step,
  provision_all,
}

abbrev pub provider_of : {World A : Type 0} → Run (Provider World) A → Provider World
provider_of (done a p) = p
provider_of (failed e p) = p

-- The identifiers are a map, and the state file is `f`.
abbrev pub Holds : {World : Type 0} → Option Text → Provider World → Type 0
Holds f p = IsMap p.provisioned × (p.state_file ≡ f)

-- A step keeps that.
unfoldable pub KeepsMap : {World : Type 0} → M (Provider World) (Unit {0}) → Type 0
KeepsMap {World = World} m =
    (f : Option Text) (p : Provider World) → Holds f p → Holds f (provider_of (m p))

continue-KeepsMap :
    {World : Type 0} (n : M (Provider World) (Unit {0})) (r : Run (Provider World) (Unit {0}))
    → KeepsMap n
    → (f : Option Text) → Holds f (provider_of r)
    → Holds f (provider_of (continue r (λ u. n)))
unfolding KeepsMap
continue-KeepsMap n (done u p) kn f d = kn f p d
continue-KeepsMap n (failed e p) kn f d = d

then-KeepsMap :
    {World : Type 0} (m n : M (Provider World) (Unit {0}))
    → KeepsMap m
    → KeepsMap n
    → KeepsMap (m >> n)
unfolding KeepsMap
then-KeepsMap m n km kn f p d = continue-KeepsMap n (m p) kn f (km f p d)

brought-Holds :
    {World A : Type 0} (f : Option Text) (p : Provider World) (r : Run World A)
    → Holds f p
    → Holds f (provider_of (brought p r))
unfolding brought
brought-Holds f p (done a w) d = d
brought-Holds f p (failed e w) d = d

named-Holds :
    {World : Type 0} (kind name : Text) (f : Option Text) (p : Provider World) (r : Run World Text)
    → Holds f p
    → Holds f (provider_of (continue (brought p r) (note_id kind name)))
unfolding brought note_id set_id
named-Holds kind name f p (done id w) d = (put-IsMap (key kind name) id p.provisioned d.0, d.1)
named-Holds kind name f p (failed e w) d = d

account-KeepsMap : {World : Type 0} (m : M World (Unit {0})) → KeepsMap (on_account m)
unfolding KeepsMap on_account
account-KeepsMap m f p d = brought-Holds f p (m p.account) d

one-KeepsMap :
    {World : Type 0} (kind name : Text) (ensure : M World Text)
    → KeepsMap (provision_one kind name ensure)
unfolding KeepsMap provision_one on_account set_id
one-KeepsMap kind name ensure f p d = named-Holds kind name f p (ensure p.account) d

each-KeepsMap :
    {World A : Type 0} (step : A → M (Provider World) (Unit {0})) (more : List A)
    → ((a : A) → KeepsMap (step a))
    → KeepsMap (provision_each step more)
unfolding provision_each KeepsMap
each-KeepsMap step [] keeps = λ f p d. d
each-KeepsMap step (a ∷ more) keeps =
    then-KeepsMap (step a) (provision_each step more) (keeps a) (each-KeepsMap step more keeps)

module _ {World : Type 0} (env : Environment) (fs : Migrations) (api : Api World) where
  zone-KeepsMap : (z : Option ZoneSettings) → KeepsMap (zone_step env fs api z)
  unfolding zone_step KeepsMap
  zone-KeepsMap none = λ f p d. d
  zone-KeepsMap (some z) = account-KeepsMap (ensure_zone_settings api z)

  pub provision_all-KeepsMap : (r : Resources) → KeepsMap (provision_all env fs api r)
  unfolding provision_all
  provision_all-KeepsMap r =
      then-KeepsMap _ _
        (then-KeepsMap _ _
          (then-KeepsMap _ _
            (then-KeepsMap _ _
              (then-KeepsMap _ _
                (then-KeepsMap _ _
                  (then-KeepsMap _ _ (each-KeepsMap _ r.d1 (λ d. one-KeepsMap _ _ _))
                    (each-KeepsMap _ r.kv (λ k. one-KeepsMap _ _ _)))
                  (each-KeepsMap _ r.hyperdrive (λ h. one-KeepsMap _ _ _)))
                (each-KeepsMap _ r.queues (λ q. one-KeepsMap _ _ _)))
              (each-KeepsMap _ r.vectorize (λ v. one-KeepsMap _ _ _)))
            (each-KeepsMap _ r.ai_gateway (λ g. one-KeepsMap _ _ _)))
          (each-KeepsMap _ r.dns (λ d. account-KeepsMap _)))
        (zone-KeepsMap r.zone_settings)
