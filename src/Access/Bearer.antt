-- ===== src/Access/Bearer.antt =====
-- middleware/api_key.py: `api_key_required`, by the user of the session or a key in the header.
use argus_sbomguard.Common.{
  ℕ, Option, none, some, Bool, true, not, [], ◌∷◌, ◌==◌, nat_eq, list_eq, Text, text, lower,
  partition,
}
use argus_sbomguard.Common.Reply.{Reply, ok, ◌>>=◌, ◌>>◌, refuse_if, found_or, reply_of}
use argus_sbomguard.Models.{User}
use argus_sbomguard.Auth.{Accounts, AuthResult, authenticate_api_key}
use argus_sbomguard.Access.Session.{SessionUser}

-- `scheme.lower() != "bearer" or not token`, of the parts of the header.
abbrev pub is_no_bearer : Text × Text → Bool
is_no_bearer (scheme, []) = true
is_no_bearer (scheme, c ∷ s) = not (lower scheme == text "bearer")

-- The user on whose behalf a route runs.
pub data Principal : Type 0 where
  session : SessionUser → Principal
  key_holder : User → Principal

-- The answer to a key that was looked up.
abbrev pub granted : AuthResult → Accounts → Reply (Principal × Accounts)
granted result b = do
  refuse_if result.expired 401
  user ← found_or result.user 401
  ok (key_holder user, b)

module _ (digest : Text → Text) (now : ℕ) where
  -- The key of a header, checked; the tables with the time of use.
  unfoldable pub by_key : Text → Accounts → Reply (Principal × Accounts)
  unfolding lower partition
  by_key authorization a = do
    refuse_if (is_no_bearer (partition b' ' authorization)) 401
    (result, b) ← reply_of (authenticate_api_key digest now (partition b' ' authorization).1 a)
    granted result b

  unfoldable pub api_key_required :
      Option SessionUser → Text → Accounts → Reply (Principal × Accounts)
  unfolding by_key
  api_key_required (some u) authorization a = ok (session u, a)
  api_key_required none authorization a = by_key authorization a
