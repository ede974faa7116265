-- ===== src/Examples/Auth.antt =====
-- A login with a code, and a key that is used and revoked.
use argus_sbomguard.Common.{
  none, some, true, false, [], ◌∷◌, Memᴰ, Text, text, ◌≡◌, refl, arith, return, lower, strip,
  list_eq,
}
use argus_sbomguard.Models.{User, ApiKey}
use argus_sbomguard.Auth.{
  Accounts, clean_email, generate_code, create_login_token, verify_login_token, create_api_key,
  authenticate_api_key, revoke_api_key, raw_key_of,
}
use argus_sbomguard.Auth.Logins.{verify_login_token_once, verify-create_login_token}
use argus_sbomguard.Auth.ApiKeys.{IsLive, IsOver, authenticate-create_api_key}

-- A hash that keeps the text, with a mark in front.
abbrev pub digest : Text → Text
digest s = 1 ∷ s

abbrev pub someone : User
someone = record { id = 7; email = text "a@b.c"; is_admin = false }

abbrev pub accounts : Accounts
accounts = record { users = someone ∷ []; login_tokens = []; api_keys = [] }

abbrev chars : Text
chars = text "ABCDEFGHIJKLMNOP"

abbrev pub with_code : Accounts
with_code = record accounts {
  login_tokens =
      (record {
        id = 3;
        user_id = 7;
        token_hash = digest (text "ABCD-EFGH-IJKL-MNOP");
        expires_at = 900_000_000;
        used = false;
      })
      ∷ [];
}

abbrev pub logged_in : Accounts
logged_in = record accounts {
  login_tokens =
      (record {
        id = 3;
        user_id = 7;
        token_hash = digest (text "ABCD-EFGH-IJKL-MNOP");
        expires_at = 900_000_000;
        used = true;
      })
      ∷ [];
}

logs_in :
    verify_login_token digest 5 (text "ABCD-EFGH-IJKL-MNOP") (text " A@b.c") with_code
    ≡ return (some someone, logged_in)
unfolding verify_login_token clean_email lower strip
logs_in = refl

verify_login_token_once_example :
    verify_login_token digest 6 (text "ABCD-EFGH-IJKL-MNOP") (text " A@b.c") logged_in
    ≡ return (none, logged_in)
verify_login_token_once_example =
    verify_login_token_once digest 5 6 (text "ABCD-EFGH-IJKL-MNOP") (text " A@b.c") with_code
      logged_in someone logs_in (ground arith)

same_address : someone.email ≡ clean_email (text " A@b.c")
unfolding clean_email lower strip
same_address = refl

verify-create_login_token_example :
    (b : Accounts) × (verify_login_token digest 5
        (generate_code chars)
        (text " A@b.c")
        (create_login_token digest 0 15 3 chars 7 accounts).1
      ≡ return (some someone, b))
verify-create_login_token_example =
    verify-create_login_token digest 0 5 15 3 chars (text " A@b.c") accounts someone (refl, tt)
      (Memᴰ.head refl) same_address refl (ground arith)

authenticate-create_api_key_example :
    (IsLive 5 (some 100)
      → (b : Accounts) × (authenticate_api_key digest 5
            (raw_key_of (text "xyz"))
            (create_api_key digest 0 4 (text "xyz") 7 (text "ci") (some 100) accounts).1
          ≡ return (record { user = some someone; expired = false }, b)))
    × (IsOver 5 (some 100)
        → (b : Accounts) × (authenticate_api_key digest 5
              (raw_key_of (text "xyz"))
              (create_api_key digest 0 4 (text "xyz") 7 (text "ci") (some 100) accounts).1
            ≡ return (record { user = none; expired = true }, b)))
authenticate-create_api_key_example =
    authenticate-create_api_key digest 0 5 4 (text "xyz") (text "ci") (some 100) accounts someone
      (refl, tt) (Memᴰ.head refl) refl

abbrev pub key : ApiKey
key = record {
  id = 4;
  user_id = 7;
  key_prefix = text "argus_xyz";
  key_hash = digest (raw_key_of (text "xyz"));
  label = [];
  last_used_at = none;
  expires_at = none;
  created_at = 0;
}

revoked : revoke_api_key 4 (record accounts { api_keys = key ∷ [] }) ≡ return (true, accounts)
unfolding revoke_api_key
revoked = refl
