-- ===== src/Acceptance.antt =====
-- services/acceptance.py: which findings a user has accepted.
use argus_sbomguard.Common.{
  ℕ, Option, none, some, Bool, true, ◌&&◌, ◌==◌, nat_eq, option_eq, leb, List, any,
}
use argus_sbomguard.Models.{Finding, Sbom, RiskAcceptance}

-- `not_after` absent: every acceptance counts.
abbrev pub created_by : Option ℕ → RiskAcceptance → Bool
created_by none a = true
created_by (some instant) a = leb a.created_at instant

-- `RiskAcceptance.service_id IS NULL OR RiskAcceptance.service_id = sbom.service_id`; in SQL a
-- comparison with NULL does not hold.
abbrev pub in_service_scope : Option ℕ → Option ℕ → Bool
in_service_scope none service = true
in_service_scope (some s) service = option_eq.beq (some s) service

unfoldable pub accepts : Option ℕ → Finding → Sbom → RiskAcceptance → Bool
accepts not_after link sbom a =
    a.vulnerability_id == link.vulnerability_id
    && (a.project_id == sbom.project_id
        && (in_service_scope a.service_id sbom.service_id && created_by not_after a))

unfoldable pub covered_by_acceptance : List RiskAcceptance → Option ℕ → Finding → Sbom → Bool
unfolding accepts
covered_by_acceptance acceptances not_after link sbom =
    any (accepts not_after link sbom) acceptances
