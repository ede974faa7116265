-- ===== src/Mcp/Hosts.antt =====
-- services/mcp_server.py: `mcp_transport_security`, the hosts that the endpoint accepts.
pub mod Pinned
use argus_sbomguard.Common.{
  ℕ, Bool, true, false, ◌||◌, List, [], ◌∷◌, ◌++◌, length, take, ◌-◌, ◌==◌, nat_eq, list_eq, Text,
  text, starts_with, if◌then◌else◌, ◌≡◌, refl, arith, inl, inr, All, Bool-cases,
}
use mathlib.Core.List.{reverse}
use argus_sbomguard.Settings.{Settings}

abbrev pub default_allowed_hosts : List Text
default_allowed_hosts =
    text "localhost"
    ∷ text "localhost:*"
    ∷ text "127.0.0.1"
    ∷ text "127.0.0.1:*"
    ∷ text "[::1]"
    ∷ text "[::1]:*"
    ∷ []

-- `s.endswith(suffix)`
abbrev pub ends_with : Text → Text → Bool
ends_with s suffix = starts_with (reverse s) (reverse suffix)

-- `allowed[:-2] if allowed.endswith(":*") else allowed`
unfoldable pub base_of : Text → Text
unfolding starts_with
base_of allowed =
    if ends_with allowed (text ":*") then take (length allowed - 2) allowed else allowed

abbrev pub both_forms : Text → List Text
both_forms base = base ∷ (base ++ text ":*") ∷ []

-- The loop: an entry that is a wildcard is passed over.
unfoldable pub hosts_of : List Text → List Text
unfolding base_of
hosts_of [] = []
hosts_of (allowed ∷ rest) =
    let others = hosts_of rest in
    if allowed == text "*" || starts_with allowed (text "*")
    then others
    else both_forms (base_of allowed) ++ others

abbrev pub hosts_of_domain : Text → List Text
hosts_of_domain [] = []
hosts_of_domain (c ∷ s) = both_forms (c ∷ s)

unfoldable pub mcp_transport_security : Settings → List Text
unfolding hosts_of
mcp_transport_security settings =
    default_allowed_hosts ++ (hosts_of settings.allowed_hosts ++ hosts_of_domain settings.domain)
