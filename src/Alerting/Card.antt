-- ===== src/Alerting/Card.antt =====
-- The messages: names of packages, colours, and the texts of the cards and mails.
use Prim.Native.Nat.{◌-◌}
use argus_sbomguard.Common.{
  ℕ, ◌+◌, ◌*◌, Option, none, some, Bool, true, false, not, ◌&&◌, List, [], ◌∷◌, ◌++◌, length, take,
  contains, ◌==◌, nat_eq, list_eq, leb, Text, text, lower, before, after_last, join, if◌then◌else◌,
}

-- The short name of a package: `purl.rsplit("/", 1)[-1].split("@", 1)[0].split("?", 1)[0]`.
unfoldable pub package_name : Text → Text
package_name purl = before b'?' (before b'@' (after_last b'/' purl))

abbrev pub is_empty : Text → Bool
is_empty [] = true
is_empty (c ∷ s) = false

abbrev names_from : List Text → List Text → List Text
names_from names [] = names
names_from names (purl ∷ purls) =
    let name = package_name purl in
    names_from
      (if not (is_empty name) && not (contains names name) then names ++ name ∷ [] else names) purls

unfoldable pub package_names : List Text → List Text
package_names = names_from []

-- `str(severity)`
abbrev pub severity_text : Option Text → Text
severity_text none = text "None"
severity_text (some s) = s

abbrev color_of : Text → Text
color_of s =
    if s == text "critical"
    then text "#ED4245"
    else if s == text "high"
    then text "#FAA61A"
    else if s == text "medium"
    then text "#FEE75C"
    else if s == text "low"
    then text "#57F287"
    else text "#99AAB5"

unfoldable pub severity_color_hex : Option Text → Text
unfolding lower
severity_color_hex severity = color_of (lower (severity_text severity))

abbrev emoji_of : Text → Text
emoji_of s =
    if s == text "critical"
    then text "🔴"
    else if s == text "high"
    then text "🟠"
    else if s == text "medium"
    then text "🟡"
    else if s == text "low"
    then text "🟢"
    else text "⚪"

unfoldable pub severity_emoji : Option Text → Text
unfolding lower
severity_emoji severity = emoji_of (lower (severity_text severity))

abbrev pub ellipsis : Text
ellipsis = text "…"

unfoldable pub truncate : Text → ℕ → Text
truncate s limit = if leb (length s) limit then s else take (limit - 1) s ++ ellipsis

-- What a message says.
pub record Details : Type 0 where
  pub cve_id : Text
  pub severity : Option Text
  pub project_name : Text
  pub service_names : List Text
  pub affected : List Text
  pub summary : Text

abbrev or_na : List Text → Text
or_na [] = text "n/a"
or_na (w ∷ ws) = join (text ", ") (w ∷ ws)

abbrev labelled : Text → Text → Text → Text
labelled bold label value = bold ++ (label ++ (bold ++ (text " `" ++ (value ++ text "`"))))

abbrev affected_line : Text → List Text → List Text
affected_line bold [] = []
affected_line bold (w ∷ ws) = labelled bold (text "Affected") (join (text ", ") (w ∷ ws)) ∷ []

unfoldable pub format_detail_lines : Text → Details → List Text
format_detail_lines bold d =
    labelled bold (text "Project") d.project_name
    ∷ labelled bold (text "Services") (or_na d.service_names)
    ∷ affected_line bold d.affected

abbrev pub if_any : Text → List Text
if_any [] = []
if_any (c ∷ s) = (c ∷ s) ∷ []

abbrev title_of : Details → Text
title_of d =
    severity_emoji d.severity
    ++ (text " " ++ (d.cve_id ++ (text " (" ++ (severity_text d.severity ++ text ")"))))

-- The link to the vulnerability, if a base URL is set.
abbrev details_url : Text → Text → Option Text
details_url [] cve = none
details_url (c ∷ base) cve = some ((c ∷ base) ++ (text "/vulnerabilities?cve_id=" ++ cve))

abbrev hex_digit : ℕ → ℕ
hex_digit c = if leb b'a' c then c - 87 else if leb b'A' c then c - 55 else c - 48

abbrev parse_hex : ℕ → Text → ℕ
parse_hex n [] = n
parse_hex n (c ∷ s) = parse_hex (n * 16 + hex_digit c) s

-- `lstrip("#")` on a colour.
abbrev without_hash : Text → Text
without_hash [] = []
without_hash (c ∷ s) = let rest = without_hash s in if c == b'#' then rest else c ∷ s

-- The lines of a card.
abbrev pub card_text : Text → Details → Text
card_text bold d = join (text "\n") (format_detail_lines bold d ++ if_any d.summary)

pub record Embed : Type 0 where
  pub title : Text
  pub color : ℕ
  pub description : Text
  pub url : Option Text

unfoldable pub discord_embed : Text → Details → Embed
unfolding format_detail_lines truncate severity_emoji severity_color_hex
discord_embed base_url d = record {
  title = title_of d;
  color = parse_hex 0 (without_hash (severity_color_hex d.severity));
  description = truncate (card_text (text "**") d) 4000;
  url = details_url base_url d.cve_id;
}

pub record Attachment : Type 0 where
  pub color : Text
  pub title : Text
  pub fallback : Text
  pub body : Text
  pub title_link : Option Text

unfoldable pub slack_attachment : Text → Details → Attachment
unfolding format_detail_lines truncate severity_emoji severity_color_hex
slack_attachment base_url d = record {
  color = severity_color_hex d.severity;
  title = title_of d;
  fallback = title_of d;
  body = truncate (card_text (text "*") d) 3000;
  title_link = details_url base_url d.cve_id;
}

abbrev plain_affected : List Text → List Text
plain_affected [] = []
plain_affected (w ∷ ws) = (text "Affected: " ++ join (text ", ") (w ∷ ws)) ∷ []

abbrev url_line : Option Text → List Text
url_line none = []
url_line (some url) = (text "Details: " ++ url) ∷ []

unfoldable pub email_body : Text → Details → Text
unfolding severity_emoji
email_body base_url d = join (text "\n") (
    title_of d
    ∷ (text "Project: " ++ d.project_name)
    ∷ (text "Services: " ++ or_na d.service_names)
    ∷ (plain_affected d.affected ++ (if_any d.summary ++ url_line (details_url base_url d.cve_id))))
