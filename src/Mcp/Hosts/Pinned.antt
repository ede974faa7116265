-- ===== src/Mcp/Hosts/Pinned.antt =====
-- The endpoint accepts no host by a wildcard.
use argus_sbomguard.Common.{
  ℕ, zero, suc, Bool, false, ◌||◌, List, [], ◌∷◌, ◌++◌, length, take, ◌-◌, ◌==◌, nat_eq, list_eq,
  Text, text, starts_with, ◌≡◌, refl, arith, inl, inr, All, All-append, Bool-cases,
}
use argus_sbomguard.Settings.{Settings}
use argus_sbomguard.Mcp.Hosts.{
  default_allowed_hosts, ends_with, base_of, both_forms, hosts_of, hosts_of_domain,
  mcp_transport_security,
}

-- The entry stands for any host, or for any subdomain.
abbrev pub is_wildcard : Text → Bool
is_wildcard host = starts_with host (text "*")

is_wildcard-take : (n : ℕ) (s : Text) → is_wildcard s ≡ false → is_wildcard (take n s) ≡ false
unfolding starts_with
is_wildcard-take zero s h = refl
is_wildcard-take (suc n) [] h = refl
is_wildcard-take (suc n) (c ∷ s) h = h

is_wildcard-append : (s : Text) → is_wildcard s ≡ false → is_wildcard (s ++ text ":*") ≡ false
unfolding starts_with
is_wildcard-append [] h = refl
is_wildcard-append (c ∷ s) h = h

is_wildcard-base_of : (s : Text) → is_wildcard s ≡ false → is_wildcard (base_of s) ≡ false
unfolding base_of
is_wildcard-base_of s h = elim (Bool-cases (ends_with s (text ":*"))) [
  | inl port ↦ rw port (is_wildcard-take (length s - 2) s h)
  | inr no_port ↦ rw no_port h
]

both_forms_pinned :
    (s : Text) → is_wildcard s ≡ false → All (λ h. is_wildcard h ≡ false) (both_forms s)
both_forms_pinned s h = (h, (is_wildcard-append s h, tt))

hosts_of_pinned : (hosts : List Text) → All (λ h. is_wildcard h ≡ false) (hosts_of hosts)
unfolding hosts_of
hosts_of_pinned [] = tt
hosts_of_pinned (s ∷ hosts) = elim (Bool-cases (s == text "*" || is_wildcard s)) [
  | inl skipped ↦ rw skipped (hosts_of_pinned hosts)
  | inr taken ↦ rw taken (
      All-append (λ h. is_wildcard h ≡ false) (both_forms (base_of s)) (hosts_of hosts)
        (both_forms_pinned (base_of s) (is_wildcard-base_of s (ground arith)))
        (hosts_of_pinned hosts))
]

defaults_pinned : All (λ h. is_wildcard h ≡ false) default_allowed_hosts
unfolding starts_with
defaults_pinned = (refl, (refl, (refl, (refl, (refl, (refl, tt))))))

hosts_of_domain_pinned :
    (domain : Text)
    → is_wildcard domain ≡ false
    → All (λ h. is_wildcard h ≡ false) (hosts_of_domain domain)
hosts_of_domain_pinned [] h = tt
hosts_of_domain_pinned (c ∷ s) h = both_forms_pinned (c ∷ s) h

-- If the configured domain does not begin with a star, no host that the MCP endpoint accepts does,
-- whatever hosts the application allows: neither any host nor the subdomains of one are let in.
pub mcp_transport_security_pinned :
    (settings : Settings)
    → is_wildcard settings.domain ≡ false
    → All (λ h. is_wildcard h ≡ false) (mcp_transport_security settings)
unfolding mcp_transport_security
mcp_transport_security_pinned settings h =
    All-append (λ h. is_wildcard h ≡ false) default_allowed_hosts
      (hosts_of settings.allowed_hosts ++ hosts_of_domain settings.domain) defaults_pinned
      (All-append (λ h. is_wildcard h ≡ false) (hosts_of settings.allowed_hosts)
        (hosts_of_domain settings.domain) (hosts_of_pinned settings.allowed_hosts)
        (hosts_of_domain_pinned settings.domain h))
