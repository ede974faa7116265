-- ===== src/Settings.antt =====
-- config.py: the validators of the settings, after pydantic has read the environment, and the computed
-- fields. A value that a validator refuses is `raise value_error`.
pub mod Production
pub mod Retention
use argus_sbomguard.Common.{
  ℕ, suc, ◌+◌, ◌*◌, ◌-◌, Option, none, some, Bool, true, false, not, ◌&&◌, ◌||◌, List, [], ◌∷◌,
  ◌++◌, map, filter, ltb, leb, ◌==◌, nat_eq, list_eq, Text, text, strip, split, if◌then◌else◌,
  Outcome, return, raise, ◌>>=◌, value_error, type_error,
}

-- The settings that the modelled code reads.
pub record Settings : Type 0 where
  pub app_env : Text
  pub secret_key : Text
  pub show_login_code_in_response : Bool
  pub domain : Text
  pub allowed_hosts : List Text

abbrev pub insecure_secret_key : Text
insecure_secret_key = text "change-me-to-a-random-secret"

-- `_validate_log_format`
unfoldable pub validate_log_format : Text → Outcome Text
validate_log_format v = if v == text "json" || v == text "text" then return v else raise value_error

unfoldable pub notification_base_url : Settings → Text
notification_base_url settings = elim settings.domain [ [] ↦ [] | c ∷ s ↦ text "https://" ++ c ∷ s ]

unfoldable pub session_cookie_secure : Settings → Bool
session_cookie_secure settings = not (settings.app_env == text "development")

-- `[part.strip() for part in v.split(",") if part.strip()]`
abbrev is_given : Text → Bool
is_given [] = false
is_given (c ∷ s) = true

unfoldable pub split_email_recipients : Text → List Text
unfolding split strip
split_email_recipients v = filter is_given (map strip (split b',' v))

abbrev or_any_host : List Text → List Text
or_any_host [] = text "*" ∷ []
or_any_host (host ∷ hosts) = host ∷ hosts

unfoldable pub split_allowed_hosts : Text → List Text
unfolding split_email_recipients
split_allowed_hosts v = or_any_host (split_email_recipients v)

-- `_reject_insecure_secret_key`, with both of its checks.
unfoldable pub reject_insecure_secret_key : Settings → Outcome Settings
reject_insecure_secret_key settings =
    if not (settings.app_env == text "development") && settings.secret_key == insecure_secret_key
    then raise value_error
    else if settings.app_env == text "production" && settings.show_login_code_in_response
    then raise value_error
    else return settings
