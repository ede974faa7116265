-- ===== src/Access/Session.antt =====
-- middleware/auth.py: the session cookie and `AuthMiddleware`. The signing of the cookie is a
-- parameter. `loads` gets the largest age in seconds and the instant, and gives `none` where the
-- signature is bad or too old; `dumps` gets the instant and signs it with the user.
use argus_sbomguard.Common.{
  ℕ, ◌*◌, Option, none, some, Bool, true, false, ◌||◌, List, [], ◌∷◌, any, ◌==◌, nat_eq, list_eq,
  Text, text, starts_with, rstrip,
}

pub record SessionUser : Type 0 where
  pub id : Text
  pub email : Text

-- `_session_serializer` with its key.
pub record Serializer : Type 0 where
  pub session_max_age_hours : ℕ
  pub loads : (max_age now : ℕ) → Text → Option SessionUser
  pub dumps : (now : ℕ) → SessionUser → Text

-- `_SESSION_MAX_AGE`, in seconds
abbrev pub session_max_age : Serializer → ℕ
session_max_age serializer = serializer.session_max_age_hours * 3600

-- `_session_serializer.loads(cookie, max_age=_SESSION_MAX_AGE)`
abbrev pub loads_now : Serializer → ℕ → Text → Option SessionUser
loads_now serializer now = serializer.loads (session_max_age serializer) now

abbrev pub public_paths : List Text
public_paths =
    text "/login"
    ∷ text "/login/verify"
    ∷ text "/healthz"
    ∷ text "/readyz"
    ∷ text "/version"
    ∷ text "/favicon.ico"
    ∷ []

-- A page or asset of the application, as far as the middleware reads it.
pub record Request : Type 0 where
  pub path : Text
  pub session_cookie : Option Text
  pub authorization : Text
  pub hx_request : Bool

abbrev pub user_of : (Text → Option SessionUser) → Option Text → Option SessionUser
user_of loads none = none
user_of loads (some []) = none
user_of loads (some (c ∷ s)) = loads (c ∷ s)

unfoldable pub get_user_from_cookie : Serializer → ℕ → Request → Option SessionUser
get_user_from_cookie serializer now request =
    user_of (loads_now serializer now) request.session_cookie

-- `request.url.path.rstrip("/") or "/"`
abbrev pub path_of : Text → Text
path_of [] = text "/"
path_of (c ∷ s) = c ∷ s

abbrev pub is_public_path : Text → Bool
is_public_path path =
    any (λ p. p == path) public_paths
    || (starts_with path (text "/login")
        || (starts_with path (text "/static") || starts_with path (text "/api/")))

-- The request goes on with the user in its state, or is sent to the login page.
pub data Passage : Type 0 where
  call_next : (user : Option SessionUser) → Passage
  redirect : (hx_redirect : Bool) → Passage

abbrev pub passage : Bool → Bool → Option SessionUser → Passage
passage true hx user = call_next user
passage false hx none = redirect hx
passage false hx (some u) = call_next (some u)

unfoldable pub dispatch : Serializer → ℕ → Request → Passage
unfolding get_user_from_cookie rstrip starts_with
dispatch serializer now request =
    passage (is_public_path (path_of (rstrip b'/' request.path))) request.hx_request
      (get_user_from_cookie serializer now request)
