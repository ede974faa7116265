-- ===== src/Examples/Access.antt =====
-- Requests with a session, with a key and with neither.
use argus_sbomguard.Common.{
  ℕ, ◌+◌, ◌*◌, ◌≤◌, ltb, arith, if◌then◌else◌, zero, suc, Option, none, some, true, false, [], ◌∷◌,
  Text, text, ◌≡◌, ◌↔◌, ◌⊎◌, refl, Memᴰ, return, lower, strip, partition, list_eq,
}
use argus_sbomguard.Common.Reply.{ok, refuse}
use argus_sbomguard.Models.{User, ApiKey}
use argus_sbomguard.Auth.{
  Accounts, clean_email, revoke_api_key, authenticate_api_key, get_user_by_id, get_user_by_email,
  create_login_token, verify_login_token,
}
use argus_sbomguard.Auth.Sound.{IsKeyOf}
use argus_sbomguard.Access.Session.{SessionUser, Serializer, Request, call_next, dispatch}
use argus_sbomguard.Access.Bearer.{session, key_holder, api_key_required}
use argus_sbomguard.Access.Mcp.{Scope, unauthorized, mcp_auth}
use argus_sbomguard.Access.Guarded.{
  IsGuarded, dispatch-IsGuarded, token_of, api_key_required_sound, revoked_key_refused,
}
use argus_sbomguard.Grpc.{response, intercept_service}
use argus_sbomguard.Grpc.Same.{intercept-iff-api_key_required}
use argus_sbomguard.Access.Login.{
  code_page, welcome, LoginWorld, clean_code, login_request, login_verify,
}
use argus_sbomguard.Access.Login.Sessions.{HasToken, IsTimed, Lasts, login_verify-session}
use argus_sbomguard.Common.{◌≢◌, All, starts_with}
use argus_sbomguard.Settings.{
  Settings, insecure_secret_key, reject_insecure_secret_key, session_cookie_secure,
}
use argus_sbomguard.Settings.Production.{login_request_in_production}
use argus_sbomguard.Mcp.Hosts.{mcp_transport_security}
use argus_sbomguard.Mcp.Hosts.Pinned.{is_wildcard, mcp_transport_security_pinned}
use argus_sbomguard.Examples.Auth.{digest, someone, accounts, key, with_code, logged_in}

abbrev visitor : SessionUser
visitor = record { id = text "7"; email = text "a@b.c" }

-- A signature for one user only.
abbrev loaded : Text → Option SessionUser
loaded [] = none
loaded (c ∷ s) = some visitor

abbrev open_serializer : Serializer
open_serializer = record {
  session_max_age_hours = 12;
  loads = λ max_age now. loaded;
  dumps = λ now u. text "signed";
}

abbrev dashboard : Request
dashboard = record {
  path = text "/projects/";
  session_cookie = some (text "signed");
  authorization = [];
  hx_request = false;
}

shown : dispatch open_serializer 0 dashboard ≡ call_next (some visitor)
unfolding dispatch
shown = refl

dispatch-IsGuarded_example : IsGuarded open_serializer 0 dashboard (some visitor)
dispatch-IsGuarded_example = dispatch-IsGuarded open_serializer 0 dashboard (some visitor) shown

abbrev with_key : Accounts
with_key = record accounts { api_keys = key ∷ [] }

abbrev used : Accounts
used = record accounts { api_keys = (record key { last_used_at = some 5 }) ∷ [] }

abbrev header : Text
header = text "Bearer argus_xyz"

key_works : api_key_required digest 5 none header with_key ≡ ok (key_holder someone, used)
unfolding api_key_required authenticate_api_key get_user_by_id
key_works = refl

api_key_required_sound_example :
    ((u : SessionUser) × (◌≡◌ {A = Option SessionUser} none (some u))
      × (key_holder someone ≡ session u))
    ⊎ ((u : User) × (key_holder someone ≡ key_holder u)
        × ((k : ApiKey) × IsKeyOf digest 5 (token_of header) with_key u k))
api_key_required_sound_example =
    api_key_required_sound digest 5 none header with_key used (key_holder someone) key_works

abbrev scope : Scope
scope = record { is_http = true; headers = (text "Authorization", header) ∷ [] }

revoked : revoke_api_key 4 with_key ≡ return (true, accounts)
unfolding revoke_api_key
revoked = refl

same_hash : key.key_hash ≡ digest (token_of header)
unfolding partition
same_hash = refl

revoked_key_refused_example :
    (api_key_required digest 5 none header accounts ≡ refuse 401)
    × (mcp_auth digest 5 scope accounts ≡ return (unauthorized false, accounts))
unfolding lower
revoked_key_refused_example =
    revoked_key_refused digest 5 scope key with_key accounts refl (refl, tt) (Memᴰ.head refl)
      same_hash revoked

abbrev login_world : LoginWorld
login_world = record {
  now = 5;
  login_token_expire_minutes = 15;
  show_login_code_in_response = false;
  new_id = 3;
  random_chars = text "ABCDEFGHIJKLMNOP";
}

abbrev nobody : Accounts
nobody = record { users = []; login_tokens = []; api_keys = [] }

abbrev invited : Accounts
invited = (create_login_token digest 5 15 3 (text "ABCDEFGHIJKLMNOP") 7 accounts).1

known :
    login_request digest login_world (text "a@b.c") accounts
    ≡ return (code_page (text "a@b.c") none, invited)
unfolding login_request clean_email get_user_by_email lower strip
known = refl

stranger :
    login_request digest login_world (text "a@b.c") nobody
    ≡ return (code_page (text "a@b.c") none, nobody)
unfolding login_request clean_email get_user_by_email lower strip
stranger = refl

abbrev deployed : Settings
deployed = record {
  app_env = text "production";
  secret_key = text "x";
  show_login_code_in_response = false;
  domain = text "argus.example";
  allowed_hosts = text "*" ∷ text "web:*" ∷ [];
}

accepted : reject_insecure_secret_key deployed ≡ return deployed
unfolding reject_insecure_secret_key
accepted = refl

login_request_in_production_example :
    (deployed.secret_key ≢ insecure_secret_key)
    × (session_cookie_secure deployed ≡ true)
    × (code_page (text "a@b.c") none ≡ code_page (text "a@b.c") none)
login_request_in_production_example =
    login_request_in_production digest login_world deployed deployed (text "a@b.c") accounts invited
      nobody nobody (code_page (text "a@b.c") none) (code_page (text "a@b.c") none) accepted refl
      refl known stranger

no_star : is_wildcard deployed.domain ≡ false
unfolding starts_with
no_star = refl

mcp_transport_security_pinned_example :
    All (λ h. is_wildcard h ≡ false) (mcp_transport_security deployed)
mcp_transport_security_pinned_example = mcp_transport_security_pinned deployed no_star

-- A serializer that marks the characters of the id, and so knows where the address begins.
abbrev dumped : Text → Text → Text
dumped [] e = 0 ∷ e
dumped (c ∷ s) e = suc c ∷ dumped s e

abbrev in_front : ℕ → Option SessionUser → Option SessionUser
in_front c none = none
in_front c (some u) = some (record u { id = c ∷ u.id })

abbrev loaded_back : Text → Option SessionUser
loaded_back [] = none
loaded_back (zero ∷ e) = some (record { id = []; email = e })
loaded_back (suc c ∷ s) = in_front c (loaded_back s)

loaded_back_of_dumped :
    (id e : Text) → loaded_back (dumped id e) ≡ some (record { id = id; email = e })
loaded_back_of_dumped [] e = refl
loaded_back_of_dumped (c ∷ s) e = rw (loaded_back_of_dumped s e) refl

-- The time of the signature stands in front of it.
abbrev loaded_at : ℕ → ℕ → Text → Option SessionUser
loaded_at max_age now [] = none
loaded_at max_age now (signed ∷ s) =
    if ltb (signed + max_age * 1_000_000) now then none else loaded_back s

abbrev marking : Serializer
marking = record {
  session_max_age_hours = 12;
  loads = loaded_at;
  dumps = λ now u. now ∷ dumped u.id u.email;
}

marking-IsTimed : IsTimed marking
marking-IsTimed = record {
  fresh = λ max_age signed now u after young.
      rw (young_enough max_age signed now young) (loaded_back_of_dumped u.id u.email);
  stale = λ max_age signed now u old. rw (too_old max_age signed now old) refl;
  not_empty = λ signed u e. cc;
}
  where
    young_enough :
        (max_age signed now : ℕ)
        → now ≤ signed + max_age * 1_000_000
        → ltb (signed + max_age * 1_000_000) now ≡ false
    young_enough max_age signed now h = ground (arith, h)

    too_old :
        (max_age signed now : ℕ)
        → signed + (max_age + 1) * 1_000_000 ≤ now
        → ltb (signed + max_age * 1_000_000) now ≡ true
    too_old max_age signed now h = ground (arith, h)

abbrev cookie : Text
cookie = login_world.now ∷ dumped (7 ∷ []) (text "a@b.c")

verified :
    login_verify digest login_world marking
      (λ k. k ∷ [])
      (text "A@b.c")
      (text " abcd-EFGH-IJKL-MNOP")
      with_code
    ≡ return (welcome cookie, logged_in)
unfolding login_verify clean_email clean_code verify_login_token lower strip
verified = refl

login_verify-session_example :
    (u : User) × HasToken digest login_world (text " abcd-EFGH-IJKL-MNOP") with_code u
    × (u.email ≡ clean_email (clean_email (text "A@b.c")))
    × Lasts marking login_world.now cookie (record { id = u.id ∷ []; email = u.email })
login_verify-session_example =
    login_verify-session digest login_world marking (λ k. k ∷ []) (text "A@b.c")
      (text " abcd-EFGH-IJKL-MNOP") cookie with_code logged_in marking-IsTimed (refl, tt) verified

intercept-iff-api_key_required_example :
    (intercept_service digest 5 header with_key ≡ return (response tt, used))
    ↔ ((u : User) × (api_key_required digest 5 none header with_key ≡ ok (key_holder u, used)))
intercept-iff-api_key_required_example =
    intercept-iff-api_key_required digest 5 header with_key used
