-- ===== src/Settings/Production.antt =====
-- What the settings of a production deployment mean for the login.
use argus_sbomguard.Common.{
  true, false, ◌==◌, list_eq, nat_eq, Text, text, ◌≡◌, ◌≢◌, refl, ◌∙◌, inl, inr, Bool-cases, return,
}
use argus_sbomguard.Auth.{Accounts}
use argus_sbomguard.Access.Login.{LoginAnswer, LoginWorld, login_request}
use argus_sbomguard.Access.Login.Sessions.{login_request_hides_accounts}
use argus_sbomguard.Settings.{
  Settings, insecure_secret_key, reject_insecure_secret_key, session_cookie_secure,
}

-- The settings of a production deployment that are accepted.
accepted_in_production :
    (settings checked : Settings)
    → reject_insecure_secret_key settings ≡ return checked
    → settings.app_env ≡ text "production"
    → (settings.show_login_code_in_response ≡ false)
      × (settings.secret_key ≢ insecure_secret_key)
      × (session_cookie_secure settings ≡ true)
unfolding reject_insecure_secret_key session_cookie_secure
accepted_in_production settings checked e production =
    let checks = rw production at e in
    elim (Bool-cases (settings.secret_key == insecure_secret_key)) [
      | inl same ↦ cc (rw same at checks)
      | inr differs ↦ elim (Bool-cases settings.show_login_code_in_response) [
        | inl shown ↦ cc (rw (differs, shown) at checks)
        | inr hidden ↦ (
          hidden,
          λ same. cc ((list_eq.beq_iff settings.secret_key insecure_secret_key).1 same, differs),
          rw production refl,
        )
      ]
    ]

-- In production, with settings that are accepted, the secret key is not the default one, the session
-- cookie is secure, and a request for a login code is answered with the same page whatever accounts
-- there are.
pub login_request_in_production :
    (digest : Text → Text) (world : LoginWorld) (settings checked : Settings) (address : Text)
    (a b c d : Accounts) (answer other : LoginAnswer)
    → reject_insecure_secret_key settings ≡ return checked
    → settings.app_env ≡ text "production"
    → world.show_login_code_in_response ≡ settings.show_login_code_in_response
    → login_request digest world address a ≡ return (answer, b)
    → login_request digest world address c ≡ return (other, d)
    → (settings.secret_key ≢ insecure_secret_key)
      × (session_cookie_secure settings ≡ true)
      × (answer ≡ other)
login_request_in_production digest world settings checked address a b c d answer other accepted
      production same first second =
    let (hidden, key, secure) = accepted_in_production settings checked accepted production in
    (
      key,
      secure,
      login_request_hides_accounts digest world address a b c d answer other (same ∙ hidden) first
          second,
    )
