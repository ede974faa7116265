-- ===== src/Access/Headers.antt =====
-- middleware/security_headers.py: the headers that are set on a response.
use argus_sbomguard.Common.{
  Option, none, some, Bool, false, List, [], ◌∷◌, any, ◌==◌, nat_eq, list_eq, Text, text, lower,
  starts_with, if◌then◌else◌,
}

-- The path of the request, and the headers of the response that are read or set.
pub record Headers : Type 0 where
  pub content_type : Option Text
  pub content_type_options : Option Text
  pub cache_control : Option Text
  pub content_security_policy : Option Text
  pub frame_options : Option Text
  pub referrer_policy : Option Text
  pub permissions_policy : Option Text

abbrev csp_directives : Text
csp_directives =
    text
      "default-src 'self'; script-src 'self'; style-src 'self' 'unsafe-inline'; font-src 'self'; img-src 'self' data:; connect-src 'self'; object-src 'none'; base-uri 'self'; form-action 'self'; frame-ancestors 'none'"

abbrev permissions_policy_value : Text
permissions_policy_value =
    text
      "geolocation=(), microphone=(), camera=(), payment=(), usb=(), magnetometer=(), gyroscope=(), accelerometer=(), browsing-topics=()"

abbrev cache_control_public_path_prefixes : List Text
cache_control_public_path_prefixes = text "/static" ∷ text "/favicon.ico" ∷ []

abbrev docs_paths : List Text
docs_paths = text "/api/docs" ∷ []

abbrev is_html : Option Text → Bool
is_html none = false
is_html (some s) = starts_with (lower s) (text "text/html")

abbrev cache_control_for : Text → Text
cache_control_for path =
    if any (λ prefix. starts_with path prefix) cache_control_public_path_prefixes
    then text "public, max-age=604800"
    else text "private, no-cache, no-store, must-revalidate, max-age=0"

-- A page other than the documentation gets the policy for its content.
abbrev policy_for : Text → Option Text → Option Text
policy_for path old = if any (λ p. p == path) docs_paths then old else some csp_directives

abbrev for_html : Text → Headers → Headers
for_html path h = record h {
  content_security_policy = policy_for path h.content_security_policy;
  frame_options = some (text "DENY");
  referrer_policy = some (text "strict-origin-when-cross-origin");
  permissions_policy = some permissions_policy_value;
}

unfoldable pub with_security_headers : Text → Headers → Headers
unfolding starts_with lower
with_security_headers path h =
    let always = record h {
      content_type_options = some (text "nosniff");
      cache_control = some (cache_control_for path);
    } in
    if is_html h.content_type then for_html path always else always
