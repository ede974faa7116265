-- ===== src/Access/Guarded.antt =====
-- Nobody gets through without a session or a key, and both ways to present a key agree.
use argus_sbomguard.Common.{
  ℕ, Option, none, some, Bool, true, false, [], ◌∷◌, any, ◌==◌, nat_eq, list_eq, Text, text,
  starts_with, rstrip, partition, ◌≡◌, ◌↔◌, ◌⊎◌, inl, inr, refl, sym, map, IsUnique, Memᴰ,
  mem_of_any, Bool-cases, ◌>>=◌ as and_then, Outcome, return, raise,
}
use argus_sbomguard.Common.Reply.{
  ok, refuse, ◌>>=◌, >>=-eq-ok, found_or, reply_of, refuse_if->>-eq-ok, found_or-eq-ok,
  reply_of-eq-ok,
}
use argus_sbomguard.Models.{User, ApiKey}
use argus_sbomguard.Auth.ApiKeys.{authenticate-revoke_api_key}
use argus_sbomguard.Auth.{revoke_api_key, Accounts, AuthResult, authenticate_api_key}
use argus_sbomguard.Auth.Sound.{IsKeyOf, authenticate_api_key_sound}
use argus_sbomguard.Access.Session.{
  SessionUser, Serializer, loads_now, Request, call_next, public_paths, is_public_path, path_of,
  passage, user_of, dispatch,
}
use argus_sbomguard.Access.Bearer.{
  Principal, session, key_holder, is_no_bearer, granted, by_key, api_key_required,
}
use argus_sbomguard.Access.Mcp.{
  Scope, Answer, forwarded, unauthorized, authorization_of, verdict, mcp_auth,
}

user_of-eq-some :
    (loads : Text → Option SessionUser) (cookie : Option Text) (u : SessionUser)
    → user_of loads cookie ≡ some u
    → (c : Text) × (cookie ≡ some c) × (loads c ≡ some u)
user_of-eq-some loads none u h = cc
user_of-eq-some loads (some []) u h = cc
user_of-eq-some loads (some (c ∷ s)) u h = (c ∷ s, refl, h)

-- The paths that need no session: those of the login, the assets, the API, which asks for a key
-- itself, and four more.
abbrev pub IsOpenPath : Text → Type 0
IsOpenPath path =
    (starts_with path (text "/login") ≡ true)
    ⊎ (starts_with path (text "/static") ≡ true)
    ⊎ (starts_with path (text "/api/") ≡ true)
    ⊎ Memᴰ path (text "/healthz" ∷ text "/readyz" ∷ text "/version" ∷ text "/favicon.ico" ∷ [])

login_path : starts_with (text "/login") (text "/login") ≡ true
unfolding starts_with
login_path = refl

verify_path : starts_with (text "/login/verify") (text "/login") ≡ true
unfolding starts_with
verify_path = refl

public_path-IsOpenPath : (path : Text) → is_public_path path ≡ true → IsOpenPath path
public_path-IsOpenPath path h = elim (Bool-cases (any (λ p. p == path) public_paths)) [
  | inr not_listed ↦ elim (Bool-cases (starts_with path (text "/login"))) [
    | inl login ↦ inl login
    | inr no_login ↦ elim (Bool-cases (starts_with path (text "/static"))) [
      | inl static ↦ inr (inl static)
      | inr no_static ↦ inr (inr (inl (rw (not_listed, no_login, no_static) at h)))
    ]
  ]
  | inl listed ↦ among (mem_of_any (λ p. p == path) public_paths listed)
]
  where
    equal : (p : Text) → (p == path) ≡ true → path ≡ p
    equal p e = sym ((list_eq.beq_iff p path).0 e)

    among : (p : Text) × Memᴰ p public_paths × ((p == path) ≡ true) → IsOpenPath path
    among (p, Memᴰ.head e, s) = inl (rw (equal p s, e) login_path)
    among (p, Memᴰ.tail (Memᴰ.head e), s) = inl (rw (equal p s, e) verify_path)
    among (p, Memᴰ.tail (Memᴰ.tail m), s) = inr (inr (inr (rw (equal p s) m)))

-- What a page knows of its user: none, on an open path, or the one that the serializer accepts at
-- this instant for the cookie of the request.
abbrev pub IsGuarded : Serializer → ℕ → Request → Option SessionUser → Type 0
IsGuarded serializer now request user =
    ((user ≡ none) × IsOpenPath (path_of (rstrip b'/' request.path)))
    ⊎ ((u : SessionUser) × (user ≡ some u)
        × ((c : Text) × (request.session_cookie ≡ some c) × (loads_now serializer now c ≡ some u)))

-- A request that `AuthMiddleware` lets through has no user in its state and is for an open path, or
-- has the user in its state that the serializer accepts at this instant for the cookie of the request.
pub dispatch-IsGuarded :
    (serializer : Serializer) (now : ℕ) (request : Request) (user : Option SessionUser)
    → dispatch serializer now request ≡ call_next user
    → IsGuarded serializer now request user
unfolding dispatch
dispatch-IsGuarded serializer now request user e =
    from (is_public_path (path_of (rstrip b'/' request.path)))
      (user_of (loads_now serializer now) request.session_cookie) refl refl e
  where
    valid :
        (u : SessionUser)
        → user_of (loads_now serializer now) request.session_cookie ≡ some u
        → user ≡ some u
        → IsGuarded serializer now request user
    valid u found same =
        inr (u, same, user_of-eq-some (loads_now serializer now) request.session_cookie u found)

    from :
        (public : Bool) (o : Option SessionUser)
        → is_public_path (path_of (rstrip b'/' request.path)) ≡ public
        → user_of (loads_now serializer now) request.session_cookie ≡ o
        → passage public request.hx_request o ≡ call_next user
        → IsGuarded serializer now request user
    from true none p f e = inl (cc, public_path-IsOpenPath _ p)
    from true (some u) p f e = valid u f cc
    from false none p f e = cc
    from false (some u) p f e = valid u f cc

granted-eq-ok :
    (result : AuthResult) (c b : Accounts) (p : Principal)
    → granted result c ≡ ok (p, b)
    → (u : User) × (result.user ≡ some u) × (p ≡ key_holder u)
granted-eq-ok result c b p e =
    let (live, e1) =
      refuse_if->>-eq-ok result.expired 401
        (found_or result.user 401 >>= λ user. ok (key_holder user, c)) e in
    let (u, found, same) =
      >>=-eq-ok (found_or result.user 401) (λ user. ok (key_holder user, c)) e1 in
    (u, found_or-eq-ok result.user 401 found, cc)

verdict-iff-granted :
    (result : AuthResult) (c b : Accounts)
    → (◌≡◌ {A = Outcome (Answer × Accounts)} (return (verdict result, c)) (return (forwarded, b)))
      ↔ ((u : User) × (granted result c ≡ ok (key_holder u, b)))
verdict-iff-granted result c b = from result.user result.expired
  where
    from :
        (o : Option User) (late : Bool)
        → (◌≡◌ {A = Outcome (Answer × Accounts)}
            (return (verdict (record { user = o; expired = late }), c))
            (return (forwarded, b)))
          ↔ ((u : User) × (granted (record { user = o; expired = late }) c ≡ ok (key_holder u, b)))
    from o true = (λ h. cc, λ h. cc h.1)
    from none false = (λ h. cc, λ h. cc h.1)
    from (some u) false = (λ h. (u, cc), λ h. cc h.1)

-- The text behind the scheme of the header.
abbrev pub token_of : Text → Text
token_of authorization = (partition b' ' authorization).1

module _ (digest : Text → Text) (now : ℕ) where
  -- A route of the API runs only for the user of the session, or for the user of a key whose hash is
  -- that of the token in the header, and which has not expired.
  pub api_key_required_sound :
      (user : Option SessionUser) (authorization : Text) (a b : Accounts) (p : Principal)
      → api_key_required digest now user authorization a ≡ ok (p, b)
      → ((u : SessionUser) × (user ≡ some u) × (p ≡ session u))
        ⊎ ((u : User) × (p ≡ key_holder u)
            × ((k : ApiKey) × IsKeyOf digest now (token_of authorization) a u k))
  unfolding api_key_required by_key
  api_key_required_sound (some u) authorization a b p e = inl (u, refl, cc)
  api_key_required_sound none authorization a b p e =
      let (bearer, e1) = refuse_if->>-eq-ok (is_no_bearer (partition b' ' authorization)) 401 _ e in
      let ((result, c), checked, e2) =
        >>=-eq-ok (reply_of (authenticate_api_key digest now (token_of authorization) a)) _ e1 in
      let (u, found, same) = granted-eq-ok result c b p e2 in
      inr (
        u,
        same,
        authenticate_api_key_sound digest now (token_of authorization) a u result c
            (reply_of-eq-ok (authenticate_api_key digest now (token_of authorization) a) checked)
            found,
      )

  -- For one and the same header, the MCP endpoint forwards a request, and leaves the tables in the
  -- same state, exactly if a route of the API would run for a key without a session.
  pub mcp_auth-iff-api_key_required :
      (scope : Scope) (a b : Accounts)
      → scope.is_http ≡ true
      → (mcp_auth digest now scope a ≡ return (forwarded, b)) ↔ (
          (u : User) × (api_key_required digest now none (authorization_of scope.headers) a
            ≡ ok (key_holder u, b)))
  unfolding mcp_auth api_key_required
  mcp_auth-iff-api_key_required scope a b http =
      rw http (elim (Bool-cases (is_no_bearer (partition b' ' (authorization_of scope.headers)))) [
        | inl bad ↦ rw bad (λ h. cc, λ h. cc h.1)
        | inr bearer ↦ rw bearer (
            looked_up
              (authenticate_api_key digest now (token_of (authorization_of scope.headers)) a))
      ])
    where
      looked_up :
          (m : Outcome (AuthResult × Accounts))
          → (and_then {B = Answer × Accounts} m (λ p. return (verdict p.0, p.1))
              ≡ return (forwarded, b))
            ↔ ((u : User) × ((reply_of m >>= λ p. granted p.0 p.1) ≡ ok (key_holder u, b)))
      looked_up (return (result, c)) = verdict-iff-granted result c b
      looked_up (raise e) = (λ h. cc, λ h. cc h.1)

  -- If the hashes of the keys are distinct, a request with a key that was revoked is answered with 401
  -- by the API, unless it has a session, and by the MCP endpoint, and the tables stay as they are.
  pub revoked_key_refused :
      (scope : Scope) (k : ApiKey) (a b : Accounts)
      → scope.is_http ≡ true
      → IsUnique (map (λ j. j.key_hash) a.api_keys)
      → Memᴰ k a.api_keys
      → k.key_hash ≡ digest (token_of (authorization_of scope.headers))
      → revoke_api_key k.id a ≡ return (true, b)
      → (api_key_required digest now none (authorization_of scope.headers) b ≡ refuse 401)
        × (mcp_auth digest now scope b ≡ return (unauthorized false, b))
  unfolding mcp_auth api_key_required
  revoked_key_refused scope k a b http unique m h e =
      let gone =
        authenticate-revoke_api_key digest now (token_of (authorization_of scope.headers)) k a b
          unique m h e in
      rw http (elim (Bool-cases (is_no_bearer (partition b' ' (authorization_of scope.headers)))) [
        | inl bad ↦ rw bad (refl, refl)
        | inr bearer ↦ rw (bearer, gone) (refl, refl)
      ])
