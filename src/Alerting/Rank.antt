-- ===== src/Alerting/Rank.antt =====
-- `_SEVERITY_RANK` and `_severity_rank`.
use argus_sbomguard.Common.{
  ℕ, Option, none, some, [], ◌∷◌, Text, text, lower, ◌==◌, nat_eq, list_eq, if◌then◌else◌,
}

abbrev rank_of : Text → ℕ
rank_of s =
    if s == text "critical"
    then 0
    else if s == text "high"
    then 1
    else if s == text "medium"
    then 2
    else if s == text "low"
    then 3
    else 99

-- `value or "unknown"`
abbrev pub or_unknown : Option Text → Text
or_unknown none = text "unknown"
or_unknown (some []) = text "unknown"
or_unknown (some (c ∷ s)) = c ∷ s

unfoldable pub severity_rank : Option Text → ℕ
unfolding lower
severity_rank value = rank_of (lower (or_unknown value))
