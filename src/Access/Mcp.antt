-- ===== src/Access/Mcp.antt =====
-- middleware/mcp_auth.py and the gate of api/mcp_server.py. Headers are texts: the decoding of
-- Latin-1 takes each byte for a character.
use argus_sbomguard.Common.{
  ℕ, none, some, Bool, true, false, not, ◌||◌, List, [], ◌∷◌, ◌==◌, nat_eq, list_eq, Text, text,
  lower, partition, if◌then◌else◌, Outcome, return, ◌>>=◌,
}
use argus_sbomguard.Auth.{Accounts, AuthResult, authenticate_api_key}
use argus_sbomguard.Access.Bearer.{is_no_bearer}

-- The scope of a call: its type and, of a request, the headers.
pub record Scope : Type 0 where
  pub is_http : Bool
  pub headers : List (Text × Text)

-- What becomes of a call.
pub data Answer : Type 0 where
  forwarded : Answer
  unauthorized : (expired : Bool) → Answer
  not_found : Answer

-- The loop with its `break`: the first header of the name.
abbrev pub authorization_of : List (Text × Text) → Text
authorization_of [] = []
authorization_of ((name, value) ∷ headers) =
    let rest = authorization_of headers in
    if lower name == text "authorization" then value else rest

abbrev pub verdict : AuthResult → Answer
verdict result =
    if result.expired
    then unauthorized true
    else elim result.user [ none ↦ unauthorized false | some u ↦ forwarded ]

module _ (digest : Text → Text) (now : ℕ) where
  -- The changes to the tables are committed before the verdict.
  unfoldable pub call_with : Text → Accounts → Outcome (Answer × Accounts)
  unfolding lower partition
  call_with authorization a =
      if is_no_bearer (partition b' ' authorization) then return (unauthorized false, a) else (do
        (result, b) ← authenticate_api_key digest now (partition b' ' authorization).1 a
        return (verdict result, b))

  unfoldable pub mcp_auth : Scope → Accounts → Outcome (Answer × Accounts)
  unfolding call_with
  mcp_auth scope a =
      if scope.is_http then call_with (authorization_of scope.headers) a else return (forwarded, a)

  -- `_MCPGate`
  unfoldable pub mcp_gate : Bool → Scope → Accounts → Outcome (Answer × Accounts)
  unfolding mcp_auth
  mcp_gate enabled scope a =
      if not scope.is_http || enabled then mcp_auth scope a else return (not_found, a)
