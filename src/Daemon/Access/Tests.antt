-- ===== src/Daemon/Access/Tests.antt =====
-- The whitelist and the signature of daemon/internal/daemon/security.go, with a stand-in for
-- package net that knows no networks and takes any text for an address.
use next_deploy.Common.{◌≡◌, ◌≢◌, ◌↔◌, refl, true, none, some, [], ◌∷◌, ◌++◌}
use next_deploy.Common.Text.{Text, codes, text_eq}
use next_deploy.Daemon.Access.{
  Net, host_of, entry_allows, verify_signature, is_ip_allowed, verify_signature_iff,
}

abbrev any_text : Net
any_text = record { split_host = λ s. none; parse_ip = λ s. some s; parse_cidr = λ s. none }

abbrev peer : Text
peer = codes "10.0.0.7"

second_entry : is_ip_allowed any_text peer (codes "10.0.0.6" ∷ peer ∷ []) ≡ true
unfolding is_ip_allowed entry_allows host_of text_eq
second_entry = refl

signed_iff :
    (verify_signature ◌++◌ (codes "p") (codes "sp") (codes "s") ≡ true)
    ↔ ((codes "s" ≢ []) × (codes "sp" ≡ codes "sp"))
signed_iff = verify_signature_iff ◌++◌ (codes "p") (codes "sp") (codes "s")
