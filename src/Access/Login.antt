-- ===== src/Access/Login.antt =====
-- api/auth.py: the login by a code that is mailed. What `send_login_email` answers is not read, so it
-- is not modelled. The pages are records of what the template is given.
pub mod Sessions
use argus_sbomguard.Common.{
  ℕ, Option, none, some, Bool, true, false, List, [], ◌∷◌, map, Text, strip, leb, ◌&&◌, ◌-◌,
  if◌then◌else◌, Outcome, return, raise, ◌>>=◌,
}
use argus_sbomguard.Models.{User}
use argus_sbomguard.Auth.{
  Accounts, clean_email, get_user_by_email, create_login_token, verify_login_token,
}
use argus_sbomguard.Access.Session.{SessionUser, Serializer}

-- What the login page shows, or the redirect behind it with its cookie.
pub data LoginAnswer : Type 0 where
  code_page : (email : Text) (dev_code : Option Text) → LoginAnswer
  invalid_code_page : (email : Text) → LoginAnswer
  welcome : (cookie : Text) → LoginAnswer

-- The settings, and what a request for a code takes from outside.
pub record LoginWorld : Type 0 where
  pub now : ℕ
  pub login_token_expire_minutes : ℕ
  pub show_login_code_in_response : Bool
  pub new_id : ℕ
  pub random_chars : Text

abbrev shown : Bool → Text → Option Text
shown true code = some code
shown false code = none

-- str.upper of ASCII.
abbrev to_upper : ℕ → ℕ
to_upper c = if leb b'a' c && leb c b'z' then c - 32 else c

unfoldable pub clean_code : Text → Text
unfolding strip
clean_code code = map to_upper (strip code)

abbrev pub welcome_if_any : Serializer → ℕ → (ℕ → Text) → Text → Option User → LoginAnswer
welcome_if_any serializer now uuid_text email none = invalid_code_page email
welcome_if_any serializer now uuid_text email (some user) =
    welcome (serializer.dumps now (record { id = uuid_text user.id; email = user.email }))

module _ (digest : Text → Text) (world : LoginWorld) where
  abbrev pub answer_for : Text → Accounts → Option User → LoginAnswer × Accounts
  answer_for email a none = (code_page email none, a)
  answer_for email a (some user) =
      let (code, b) =
        create_login_token digest world.now world.login_token_expire_minutes world.new_id
          world.random_chars user.id a in
      (code_page email (shown world.show_login_code_in_response code), b)

  -- The address is cleaned here and once more by the query.
  unfoldable pub login_request : Text → Accounts → Outcome (LoginAnswer × Accounts)
  unfolding get_user_by_email clean_email create_login_token
  login_request address a = do
    user ← get_user_by_email (clean_email address) a.users
    return (answer_for (clean_email address) a user)

  -- `uuid_text` is `str` of a UUID.
  unfoldable pub login_verify :
      Serializer → (ℕ → Text) → Text → Text → Accounts → Outcome (LoginAnswer × Accounts)
  unfolding clean_email clean_code
  login_verify serializer uuid_text address code a = do
    (user, b) ← verify_login_token digest world.now (clean_code code) (clean_email address) a
    return (welcome_if_any serializer world.now uuid_text (clean_email address) user, b)
