-- ===== src/Access/Login/Sessions.antt =====
-- What the login tells about accounts, and the session that it leads to.
use argus_sbomguard.Common.{
  ℕ, Option, none, some, Bool, true, false, [], ◌∷◌, map, Text, ◌≡◌, refl, sym, ap, ◌∙◌, Memᴰ,
  IsUnique, nat_eq, ◌≢◌, ◌≤◌, ◌+◌, ◌*◌, rstrip, ◌<◌, Outcome, return, >>=-eq-return,
}
use argus_sbomguard.Models.{User, LoginToken}
use argus_sbomguard.Auth.{Accounts, clean_email, get_user_by_email, verify_login_token}
use argus_sbomguard.Auth.Logins.{verify_login_token_sound}
use argus_sbomguard.Access.Session.{
  SessionUser, Serializer, session_max_age, loads_now, get_user_from_cookie, Request, call_next,
  is_public_path, path_of, passage, user_of, dispatch,
}
use argus_sbomguard.Access.Login.{
  LoginAnswer, code_page, welcome, LoginWorld, clean_code, answer_for, login_request,
  welcome_if_any, login_verify,
}

passage-some :
    (public hx : Bool) (v : SessionUser) → passage public hx (some v) ≡ call_next (some v)
passage-some true hx v = refl
passage-some false hx v = refl

-- What the signature with its time promises, with instants in microseconds: a signed user is given
-- back up to the largest age in seconds, and not from one second later on; an empty text is not signed.
pub record IsTimed (serializer : Serializer) : Type 0 where
  pub fresh :
      (max_age signed now : ℕ) (u : SessionUser)
      → signed ≤ now
      → now ≤ signed + max_age * 1_000_000
      → serializer.loads max_age now (serializer.dumps signed u) ≡ some u
  pub stale :
      (max_age signed now : ℕ) (u : SessionUser)
      → signed + (max_age + 1) * 1_000_000 ≤ now
      → serializer.loads max_age now (serializer.dumps signed u) ≡ none
  pub not_empty : (signed : ℕ) (u : SessionUser) → serializer.dumps signed u ≢ []

-- The user of a cookie that is not empty is what the serializer makes of it.
user_of-signed :
    (loads : Text → Option SessionUser) (signed cookie : Text) (o : Option SessionUser)
    (c : Option Text)
    → signed ≢ []
    → signed ≡ cookie
    → c ≡ some cookie
    → loads signed ≡ o
    → user_of loads c ≡ o
user_of-signed loads signed [] o c full e h found = absurd (full e)
user_of-signed loads signed (x ∷ s) o c full e h found = rw h (ap loads (sym e) ∙ found)

-- For a session of the age allowed, the request goes on as the user; with an older one it has none.
abbrev pub Lasts : Serializer → ℕ → Text → SessionUser → Type 0
Lasts serializer signed cookie u =
    (now : ℕ) (request : Request)
    → request.session_cookie ≡ some cookie
    → (signed ≤ now
        → now ≤ signed + serializer.session_max_age_hours * 3600 * 1_000_000
        → dispatch serializer now request ≡ call_next (some u))
      × (signed + (serializer.session_max_age_hours * 3600 + 1) * 1_000_000 ≤ now
          → get_user_from_cookie serializer now request ≡ none)

dumps-Lasts :
    (serializer : Serializer) (signed : ℕ) (cookie : Text) (u : SessionUser)
    → IsTimed serializer
    → serializer.dumps signed u ≡ cookie
    → Lasts serializer signed cookie u
unfolding dispatch get_user_from_cookie
dumps-Lasts serializer signed cookie u timed e now request h = (
  λ after young.
      rw
        (user_of-signed (loads_now serializer now) (serializer.dumps signed u) cookie (some u)
          request.session_cookie (timed.not_empty signed u) e h
          (timed.fresh (session_max_age serializer) signed now u after young))
        (passage-some (is_public_path (path_of (rstrip b'/' request.path))) request.hx_request u),
  λ old.
      user_of-signed (loads_now serializer now) (serializer.dumps signed u) cookie none
        request.session_cookie (timed.not_empty signed u) e h
        (timed.stale (session_max_age serializer) signed now u old),
)

module _ (digest : Text → Text) (world : LoginWorld) where
  login_request-page :
      (address : Text) (a b : Accounts) (answer : LoginAnswer)
      → world.show_login_code_in_response ≡ false
      → login_request digest world address a ≡ return (answer, b)
      → code_page (clean_email address) none ≡ answer
  unfolding login_request
  login_request-page address a b answer hidden e =
      let (user, found, e1) = >>=-eq-return (get_user_by_email (clean_email address) a.users) _ e in
      from user e1
    where
      from :
          (o : Option User)
          → ◌≡◌ {A = Outcome (LoginAnswer × Accounts)}
              (return (answer_for digest world (clean_email address) a o))
              (return (answer, b))
          → code_page (clean_email address) none ≡ answer
      from none h = cc
      from (some u) h = cc (rw hidden at h)

  -- If codes are not shown in the response, a request for a code is answered with the same page
  -- whatever accounts there are: it does not tell whether the address has one.
  pub login_request_hides_accounts :
      (address : Text) (a b c d : Accounts) (answer other : LoginAnswer)
      → world.show_login_code_in_response ≡ false
      → login_request digest world address a ≡ return (answer, b)
      → login_request digest world address c ≡ return (other, d)
      → answer ≡ other
  login_request_hides_accounts address a b c d answer other hidden e f =
      sym (login_request-page address a b answer hidden e)
      ∙ login_request-page address c d other hidden f

  -- A login token of the user with the hash of the code, not used and not expired.
  abbrev pub HasToken : Text → Accounts → User → Type 0
  HasToken code a u =
      (t : LoginToken) × Memᴰ t a.login_tokens
      × (t.token_hash ≡ digest (clean_code code))
      × (t.used ≡ false)
      × (world.now < t.expires_at)
      × (t.user_id ≡ u.id)

  -- If the serializer gives back what it signed up to the largest age and not from one second later on,
  -- never signs an empty text, and the ids of the users are distinct, then a code is
  -- answered with a session cookie only if a live login token of a user has its hash and the address is
  -- the user's. Every request with the cookie goes on as this user for `session_max_age_hours`, and from
  -- one second later on it has no user from the cookie.
  pub login_verify-session :
      (serializer : Serializer) (uuid_text : ℕ → Text) (address code cookie : Text) (a b : Accounts)
      → IsTimed serializer
      → IsUnique (map (λ v. v.id) a.users)
      → login_verify digest world serializer uuid_text address code a ≡ return (welcome cookie, b)
      → (u : User) × HasToken code a u
        × (u.email ≡ clean_email (clean_email address))
        × Lasts serializer world.now cookie (record { id = uuid_text u.id; email = u.email })
  unfolding login_verify
  login_verify-session serializer uuid_text address code cookie a b timed unique e =
      let ((o, c), first, rest) =
        >>=-eq-return
          (verify_login_token digest world.now (clean_code code) (clean_email address) a) _ e in
      from o c first rest
    where
      from :
          (o : Option User) (c : Accounts)
          → verify_login_token digest world.now (clean_code code) (clean_email address) a
            ≡ return (o, c)
          → ◌≡◌ {A = Outcome (LoginAnswer × Accounts)}
              (return (welcome_if_any serializer world.now uuid_text (clean_email address) o, c))
              (return (welcome cookie, b))
          → (u : User) × HasToken code a u
            × (u.email ≡ clean_email (clean_email address))
            × Lasts serializer world.now cookie (record { id = uuid_text u.id; email = u.email })
      from none c first rest = cc
      from (some u) c first rest =
          let (t, m, hash, fresh, time, owner, email) =
            verify_login_token_sound digest world.now (clean_code code) (clean_email address) a c u
              unique first in
          (
            u,
            (t, m, hash, fresh, time, owner),
            email,
            dumps-Lasts serializer world.now cookie
                (record { id = uuid_text u.id; email = u.email }) timed cc,
          )
