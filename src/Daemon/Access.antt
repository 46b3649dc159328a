-- ===== src/Daemon/Access.antt =====
-- VerifySignature and IsIPAllowed of daemon/internal/daemon/security.go. Go's package net and the
-- HMAC are parameters: what they read of an address, and the hex digest of a payload.
mod Tests
use next_deploy.Common.{
  ◌≡◌, ◌≢◌, ◌↔◌, ◌⊎◌, inl, inr, refl, Bool, true, false, ◌||◌, Option, none, some, List, [], ◌∷◌,
  arith, if◌then◌else◌, Option-cases,
}
use mathlib.Core.Path.{subst}
use next_deploy.Common.Text.{Text, text_eq, text_eq_iff}

-- net.SplitHostPort (its host), net.ParseIP, and net.ParseCIDR with the network's Contains.
pub record Net : Type 0 where
  pub split_host : Text → Option Text
  pub parse_ip : Text → Option Text
  pub parse_cidr : Text → Option (Text → Bool)

-- `mac secret payload` is hex.EncodeToString of the HMAC-SHA256.
unfoldable pub verify_signature : (Text → Text → Text) → Text → Text → Text → Bool
verify_signature mac payload signature secret =
    if text_eq secret [] then false else text_eq signature (mac secret payload)

module _ (net : Net) where
  -- `ipStr` without its port, if it has one.
  unfoldable pub host_of : Text → Text
  host_of ip_str = elim (net.split_host ip_str) [ some host ↦ host | none ↦ ip_str ]

  -- One entry of the whitelist: a network, or else an exact address.
  unfoldable pub entry_allows : Text → Text → Text → Bool
  entry_allows ip_str client_ip cidr = elim (net.parse_cidr cidr) [
    | some contains ↦ contains client_ip
    | none ↦ text_eq cidr ip_str
  ]

  any_entry_allows : Text → Text → List Text → Bool
  any_entry_allows ip_str client_ip [] = false
  any_entry_allows ip_str client_ip (cidr ∷ whitelist) =
      entry_allows ip_str client_ip cidr || any_entry_allows ip_str client_ip whitelist

  allowed_address : Text → List Text → Option Text → Bool
  unfolding any_entry_allows
  allowed_address ip_str whitelist none = false
  allowed_address ip_str whitelist (some client_ip) = any_entry_allows ip_str client_ip whitelist

  unfoldable pub is_ip_allowed : Text → List Text → Bool
  unfolding allowed_address
  is_ip_allowed ip_str [] = true
  is_ip_allowed ip_str (cidr ∷ whitelist) =
      let host = host_of ip_str in allowed_address host (cidr ∷ whitelist) (net.parse_ip host)

  -- Some entry of the whitelist allows the address.
  abbrev pub SomeAllows : Text → Text → List Text → Type 0
  SomeAllows ip_str client_ip [] = ⊥
  SomeAllows ip_str client_ip (cidr ∷ whitelist) =
      (entry_allows ip_str client_ip cidr ≡ true) ⊎ SomeAllows ip_str client_ip whitelist

  any_iff :
      (ip_str client_ip : Text) (whitelist : List Text)
      → (any_entry_allows ip_str client_ip whitelist ≡ true) ↔ SomeAllows ip_str client_ip whitelist
  unfolding any_entry_allows
  any_iff ip_str client_ip [] = ground arith
  any_iff ip_str client_ip (cidr ∷ whitelist) = ground (arith, any_iff ip_str client_ip whitelist)

  -- With a whitelist, a client is allowed exactly when its host is an address that some entry
  -- allows.
  is_ip_allowed_iff :
      (ip_str cidr : Text) (whitelist : List Text)
      → (is_ip_allowed ip_str (cidr ∷ whitelist) ≡ true) ↔ (
          (client_ip : Text) × (net.parse_ip (host_of ip_str) ≡ some client_ip)
          × SomeAllows (host_of ip_str) client_ip (cidr ∷ whitelist))
  unfolding is_ip_allowed
  is_ip_allowed_iff ip_str cidr whitelist = elim (Option-cases (net.parse_ip (host_of ip_str))) [
    | inl bad ↦ rw bad (ground arith)
    | inr (ip, good) ↦
        let e = any_iff (host_of ip_str) ip (cidr ∷ whitelist) in
        rw good (
          (λ h. (ip, refl, e.0 h)),
          (λ h.
              let same : h.0 ≡ ip = cc (h.1) in
              e.1 (subst (λ x. SomeAllows (host_of ip_str) x (cidr ∷ whitelist)) same h.2)),
        )
  ]

  -- A whitelist shuts out every client whose host is no address; the daemon names the clients of
  -- its own Unix socket `local-unix-socket`.
  pub no_address_refused :
      (ip_str cidr : Text) (whitelist : List Text)
      → net.parse_ip (host_of ip_str) ≡ none
      → is_ip_allowed ip_str (cidr ∷ whitelist) ≡ false
  unfolding is_ip_allowed
  no_address_refused ip_str cidr whitelist bad = rw bad

-- A signature is accepted exactly when it is the digest under a secret that is not empty.
pub verify_signature_iff :
    (mac : Text → Text → Text) (payload signature secret : Text)
    → (verify_signature mac payload signature secret ≡ true)
      ↔ ((secret ≢ []) × (signature ≡ mac secret payload))
unfolding verify_signature
verify_signature_iff mac payload signature secret = (
  ground (arith, text_eq_iff secret [], text_eq_iff signature (mac secret payload)),
  ground (arith, text_eq_iff secret [], text_eq_iff signature (mac secret payload)),
)
