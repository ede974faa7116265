-- ===== src/Scanner/Match.antt =====
-- What a match of grype says: `_map_severity`, `_parse_cvss_score`, `_parse_published_at`,
-- `_parse_epss`, `_to_float`, `_parse_date`, and the head of the loop of `_process_grype_results`.
use argus_sbomguard.Common.{
  ℕ, Option, none, some, Bool, true, false, [], ◌∷◌, ◌==◌, nat_eq, list_eq, Text, text, lower,
  Outcome, return, raise, ◌>>=◌, attribute_error, type_error, if◌then◌else◌,
}
use argus_sbomguard.Common.Json.{
  Json, null, bool, num, str, arr, obj, Items, nil, cons, end, truthy, or_else, get, first,
}
use argus_sbomguard.Models.{Severity}

abbrev severity_named : Text → Severity
severity_named s =
    if s == text "critical"
    then Severity.critical
    else if s == text "high"
    then Severity.high
    else if s == text "medium"
    then Severity.medium
    else if s == text "low"
    then Severity.low
    else Severity.unknown

-- `(value or "").lower()`
abbrev lowered : Json → Outcome Text
lowered (str s) = return (lower s)
lowered v = if truthy v then raise attribute_error else return []

unfoldable pub map_severity : Json → Outcome Severity
unfolding lower truthy
map_severity severity_raw = do s ← lowered severity_raw; return (severity_named s)

-- `metrics.get("baseScore") or cvss[0].get("score")` of a list that is not empty.
abbrev score_of : Json → Outcome Json
score_of entry = do
  metrics ← get entry (text "metrics") (obj end)
  base ← get metrics (text "baseScore") null
  if truthy base then return base else get entry (text "score") null

unfoldable pub parse_cvss_score : Json → Outcome Json
unfolding get truthy first
parse_cvss_score vuln_data = do
  cvss ← get vuln_data (text "cvss") (arr nil)
  if truthy cvss then (do entry ← first cvss; score_of entry) else return null

-- `value.replace("Z", "+00:00")`
abbrev utc_offset : Text → Text
utc_offset [] = []
utc_offset (c ∷ s) =
    if c == b'Z' then b'+' ∷ b'0' ∷ b'0' ∷ b':' ∷ b'0' ∷ b'0' ∷ utc_offset s else c ∷ utc_offset s

-- `datetime.fromisoformat`: the instant, or `none` where it raises ValueError.
abbrev pub Calendar : Type 0
Calendar = Text → Option ℕ

-- A value that is no text has no `replace`, and the AttributeError is caught.
unfoldable pub parse_date : Calendar → Json → Option ℕ
parse_date fromisoformat (str []) = none
parse_date fromisoformat (str (c ∷ s)) = fromisoformat (utc_offset (c ∷ s))
parse_date fromisoformat _ = none

-- The date of the first fix that is available.
abbrev fix_date : Calendar → Json → Outcome (Option ℕ)
fix_date calendar fix =
    if truthy fix
    then (do
      entry ← first fix
      date ← get entry (text "date") null
      return (parse_date calendar date))
    else return none

abbrev or_fix_date : Calendar → Json → Option ℕ → Outcome (Option ℕ)
or_fix_date calendar vuln_data (some d) = return (some d)
or_fix_date calendar vuln_data none = do
  fix ← get vuln_data (text "fix") null
  available ← get (or_else fix (obj end)) (text "available") null
  fix_date calendar (or_else available (arr nil))

unfoldable pub parse_published_at : Calendar → Json → Outcome (Option ℕ)
unfolding get truthy first parse_date or_else
parse_published_at calendar vuln_data = do
  published ← get vuln_data (text "publishedDate") null
  or_fix_date calendar vuln_data (parse_date calendar published)

-- A Boolean is no score.
unfoldable pub to_float : Json → Option ℕ
to_float (num n) = some n
to_float _ = none

abbrev epss_of : Json → Outcome (Option ℕ × Option ℕ)
epss_of entry = do
  score ← get entry (text "epss") null
  percentile ← get entry (text "percentile") null
  return (to_float score, to_float percentile)

abbrev is_text : Text → Json → Bool
is_text s (str t) = t == s
is_text s _ = false

-- The loop over the records; the last argument is what follows it.
abbrev epss_from : Text → Items → Outcome (Option ℕ × Option ℕ) → Outcome (Option ℕ × Option ℕ)
epss_from vuln_id nil otherwise = otherwise
epss_from vuln_id (cons entry rest) otherwise =
    let next = epss_from vuln_id rest otherwise in
    do cve ← get entry (text "cve") null; if is_text vuln_id cve then epss_of entry else next

abbrev epss_records : Text → Json → Outcome (Option ℕ × Option ℕ)
epss_records vuln_id (arr nil) = return (none, none)
epss_records vuln_id (arr (cons entry rest)) = epss_from vuln_id (cons entry rest) (epss_of entry)
epss_records vuln_id _ = return (none, none)

unfoldable pub parse_epss : Text → Json → Outcome (Option ℕ × Option ℕ)
unfolding get to_float
parse_epss vuln_id vuln_data = do epss ← get vuln_data (text "epss") null; epss_records vuln_id epss

-- The driver takes a number, a Boolean as a number, or NULL for a score.
unfoldable pub as_score : Json → Outcome (Option ℕ)
as_score null = return none
as_score (num n) = return (some n)
as_score (bool true) = return (some 1000000)
as_score (bool false) = return (some 0)
as_score _ = raise type_error

-- The driver takes a text or NULL for a text column.
unfoldable pub as_text : Json → Outcome (Option Text)
as_text null = return none
as_text (str s) = return (some s)
as_text _ = raise type_error

-- A text that is tested for truth before it is used.
abbrev text_if_any : Json → Outcome Text
text_if_any (str s) = return s
text_if_any v = if truthy v then raise type_error else return []

-- The fields that the scan writes.
pub record Report : Type 0 where
  pub vuln_id : Text
  pub purl : Text
  pub severity : Severity
  pub cvss_score : Option ℕ
  pub pub_date : Option ℕ
  pub epss_score : Option ℕ
  pub epss_percentile : Option ℕ
  pub description : Option Text
  pub vuln_data : Json

abbrev report_of : Calendar → Json → Json → Text → Outcome (Option Report)
report_of calendar artifact vuln_data [] = return none
report_of calendar artifact vuln_data (c ∷ s) = do
  purl_value ← get artifact (text "purl") (str [])
  purl ← text_if_any purl_value
  severity_raw ← get vuln_data (text "severity") null
  severity ← map_severity severity_raw
  score ← parse_cvss_score vuln_data
  cvss_score ← as_score score
  pub_date ← parse_published_at calendar vuln_data
  epss ← parse_epss (c ∷ s) vuln_data
  described ← get vuln_data (text "description") (str [])
  description ← as_text described
  return (
      some (record {
        vuln_id = c ∷ s;
        purl = purl;
        severity = severity;
        cvss_score = cvss_score;
        pub_date = pub_date;
        epss_score = epss.0;
        epss_percentile = epss.1;
        description = description;
        vuln_data = vuln_data;
      }))

-- One match; `none` is the `continue` for a match with no id.
unfoldable pub read_match : Calendar → Json → Outcome (Option Report)
unfolding get map_severity parse_cvss_score parse_published_at parse_epss as_score as_text truthy
read_match calendar match_data = do
  vuln_data ← get match_data (text "vulnerability") (obj end)
  artifact ← get match_data (text "artifact") (obj end)
  id_value ← get vuln_data (text "id") (str [])
  vuln_id ← text_if_any id_value
  report_of calendar artifact vuln_data vuln_id
