-- ===== src/Mcp/Totals.antt =====
-- The summary for agents and the one of the API count the same vulnerabilities.
use argus_sbomguard.Common.{
  ◌+◌, Option, none, some, Bool, not, ◌&&◌, any, find, filter, List, [], ◌∷◌, map, length, ◌==◌,
  nat_eq, ◌≡◌, refl, ap, ◌∙◌, arith, length-map, Bool-cases, inl, inr, if◌then◌else◌,
}
use argus_sbomguard.Acceptance.{covered_by_acceptance}
use argus_sbomguard.Alerting.{is_actionable}
use argus_sbomguard.Models.{
  Finding, is_open, Vulnerability, Severity, critical, high, medium, low, unknown,
}
use argus_sbomguard.Snapshots.{count_of, joined}
use argus_sbomguard.Mcp.Posture.{
  SeverityCounts, count_one, tally, sum_of, PostureTables, open_now, once_if_joined, distinct_rows,
  vuln_subq, summarize_vulnerabilities, summary_counts, vulnerability_summary,
}

-- One more severity is one more in the sum.
sum_of-count_one :
    (o : Option Severity) (c : SeverityCounts) → sum_of (count_one o c) ≡ sum_of c + 1
sum_of-count_one none c = omega arith
sum_of-count_one (some critical) c = omega arith
sum_of-count_one (some high) c = omega arith
sum_of-count_one (some medium) c = omega arith
sum_of-count_one (some low) c = omega arith
sum_of-count_one (some unknown) c = omega arith

pub sum_of-tally : (l : List (Option Severity)) → sum_of (tally l) ≡ length l
sum_of-tally [] = refl
sum_of-tally (o ∷ l) = omega (arith, sum_of-count_one o (tally l), sum_of-tally l)

-- Each count of the tally is the number of the rows of its severity.
abbrev Agrees : SeverityCounts → List Vulnerability → Type 0
Agrees c l =
    (c.critical ≡ count_of Severity.critical l)
    × (c.high ≡ count_of Severity.high l)
    × (c.medium ≡ count_of Severity.medium l)
    × (c.low ≡ count_of Severity.low l)

tally-Agrees : (l : List Vulnerability) → Agrees (tally (map (λ v. v.severity) l)) l
tally-Agrees [] = (refl, refl, refl, refl)
tally-Agrees (v ∷ l) = one v.severity refl (tally-Agrees l)
  where
    one :
        (o : Option Severity)
        → v.severity ≡ o
        → Agrees (tally (map (λ v. v.severity) l)) l
        → Agrees (count_one v.severity (tally (map (λ v. v.severity) l))) (v ∷ l)
    one none e (a, b, c, d) = rw e (a, b, c, d)
    one (some critical) e (a, b, c, d) = rw e (omega (arith, a), b, c, d)
    one (some high) e (a, b, c, d) = rw e (a, omega (arith, b), c, d)
    one (some medium) e (a, b, c, d) = rw e (a, b, omega (arith, c), d)
    one (some low) e (a, b, c, d) = rw e (a, b, c, omega (arith, d))
    one (some unknown) e (a, b, c, d) = rw e (a, b, c, d)

module _ (t : PostureTables) where
  once_if_joined-any :
      (v : Vulnerability) (p : Finding → Bool) (links : List Finding)
      → once_if_joined t v (filter p links) ≡ (if any p links then v ∷ [] else [])
  once_if_joined-any v p [] = refl
  once_if_joined-any v p (l ∷ links) = elim (Bool-cases (p l)) [
    | inl hit ↦ rw hit refl
    | inr miss ↦ rw miss (once_if_joined-any v p links)
  ]

  -- The two queries find the same vulnerabilities.
  pub vuln_subq-open_now : vuln_subq t ≡ open_now t
  unfolding vuln_subq open_now is_actionable
  vuln_subq-open_now = from t.vulnerabilities
    where
      is_linked : Vulnerability → Bool
      is_linked v =
          any
            (λ l.
              l.vulnerability_id == v.id
              && joined
                  (λ l s. is_open l.status && not (covered_by_acceptance t.acceptances none l s)) l
                  (find (λ s. s.id == l.sbom_id) t.sboms))
            t.findings

      from : (vs : List Vulnerability) → distinct_rows t vs ≡ filter is_linked vs
      from [] = refl
      from (v ∷ vs) = elim (Bool-cases (is_linked v)) [
        | inl hit ↦ rw (once_if_joined-any v _ t.findings, hit) (ap (◌∷◌ v) (from vs))
        | inr miss ↦ rw (once_if_joined-any v _ t.findings, miss) (from vs)
      ]

-- `summarize_vulnerabilities` and `vulnerability_summary` give the same count for each of the
-- severities critical, high, medium and low. The total of the first is the number of vulnerabilities
-- with an actionable finding, and is that of the second and the count of unknown severities, which
-- the API leaves out.
pub summarize_vulnerabilities-total :
    (t : PostureTables)
    → let agent = summarize_vulnerabilities t in
      let api = vulnerability_summary t in
      (agent.counts.critical ≡ api.0.critical)
      × (agent.counts.high ≡ api.0.high)
      × (agent.counts.medium ≡ api.0.medium)
      × (agent.counts.low ≡ api.0.low)
      × (agent.total ≡ length (open_now t))
      × (agent.total ≡ api.1 + agent.counts.unknown)
unfolding summarize_vulnerabilities vulnerability_summary summary_counts
summarize_vulnerabilities-total t =
    let (a, b, c, d) = tally-Agrees (open_now t) in
    rw (vuln_subq-open_now t) (
      a,
      b,
      c,
      d,
      sum_of-tally (map (λ v. v.severity) (open_now t)) ∙ length-map (λ v. v.severity) (open_now t),
      omega (arith, a, b, c, d),
    )
