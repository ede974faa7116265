-- ===== src/Alerting/Threshold.antt =====
-- Which severities reach a threshold, and the sizes of the cards.
use argus_sbomguard.Common.{
  ℕ, ◌-◌, ◌≤◌, ◌<◌, Option, none, some, ltb, leb, ◌≡◌, ◌↔◌, refl, arith, length, length-append,
  length-take, Text, text, Bool-cases, inl, inr, nat_eq, pair_eq,
}
use argus_sbomguard.Models.{Threshold, threshold_value, Severity, severity_value}
use argus_sbomguard.Alerting.{
  severity_rank, truncate, card_text, Details, discord_embed, slack_attachment,
}

-- How urgent a severity is, and the least urgency that a threshold asks for.
abbrev pub urgency : Option Severity → ℕ
urgency (some Severity.critical) = 4
urgency (some Severity.high) = 3
urgency (some Severity.medium) = 2
urgency (some Severity.low) = 1
urgency (some Severity.unknown) = 0
urgency none = 0

abbrev pub asks_for : Threshold → ℕ
asks_for Threshold.critical = 4
asks_for Threshold.high = 3
asks_for Threshold.medium = 2
asks_for Threshold.low = 1

abbrev pub value_of : Option Severity → Option Text
value_of none = none
value_of (some s) = some (severity_value s)

rank_table :
    (t : Threshold) (s : Option Severity)
    → ltb (severity_rank (some (threshold_value t))) (severity_rank (value_of s))
      ≡ ltb (urgency s) (asks_for t)
unfolding severity_rank
rank_table Threshold.critical none = refl
rank_table Threshold.critical (some Severity.critical) = refl
rank_table Threshold.critical (some Severity.high) = refl
rank_table Threshold.critical (some Severity.medium) = refl
rank_table Threshold.critical (some Severity.low) = refl
rank_table Threshold.critical (some Severity.unknown) = refl
rank_table Threshold.high none = refl
rank_table Threshold.high (some Severity.critical) = refl
rank_table Threshold.high (some Severity.high) = refl
rank_table Threshold.high (some Severity.medium) = refl
rank_table Threshold.high (some Severity.low) = refl
rank_table Threshold.high (some Severity.unknown) = refl
rank_table Threshold.medium none = refl
rank_table Threshold.medium (some Severity.critical) = refl
rank_table Threshold.medium (some Severity.high) = refl
rank_table Threshold.medium (some Severity.medium) = refl
rank_table Threshold.medium (some Severity.low) = refl
rank_table Threshold.medium (some Severity.unknown) = refl
rank_table Threshold.low none = refl
rank_table Threshold.low (some Severity.critical) = refl
rank_table Threshold.low (some Severity.high) = refl
rank_table Threshold.low (some Severity.medium) = refl
rank_table Threshold.low (some Severity.low) = refl
rank_table Threshold.low (some Severity.unknown) = refl

-- An alert passes a vulnerability over exactly if its severity is less urgent than the threshold
-- asks for; a vulnerability with no severity, or an unknown one, reaches no threshold.
pub severity_rank-threshold :
    (t : Threshold) (s : Option Severity)
    → (severity_rank (some (threshold_value t)) < severity_rank (value_of s))
      ↔ (urgency s < asks_for t)
severity_rank-threshold t s = ground (arith, rank_table t s)

-- A clipped text has at most `limit` characters.
pub length-truncate-le : (s : Text) (limit : ℕ) → 0 < limit → length (truncate s limit) ≤ limit
unfolding truncate
length-truncate-le s limit h = elim (Bool-cases (leb (length s) limit)) [
  | inl t ↦ rw t (ground arith)
  | inr f ↦ rw (f, length-append) (omega (arith, length-take (limit - 1) s))
]

-- A text that fits is left as it is, and a clipped one keeps the first `limit - 1` characters.
truncate-short : (s : Text) (limit : ℕ) → length s ≤ limit → truncate s limit ≡ s
unfolding truncate
truncate-short s limit h = ground arith

-- The texts of the cards stay within the limits of the receivers: 4096 characters for a Discord
-- description and 3000 for a Slack text, whatever is reported.
pub card_limits :
    (base_url : Text) (d : Details)
    → (length (discord_embed base_url d).description ≤ 4096)
      × (length (slack_attachment base_url d).body ≤ 3000)
unfolding discord_embed slack_attachment
card_limits base_url d = (
  omega (arith, length-truncate-le (card_text (text "**") d) 4000 (omega arith)),
  length-truncate-le (card_text (text "*") d) 3000 (omega arith),
)
