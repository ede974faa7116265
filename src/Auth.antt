-- ===== src/Auth.antt =====
-- services/auth.py: login codes and API keys. The keyed hash and the random characters are
-- parameters. A query with two results where one is asked for raises.
pub mod Logins
pub mod ApiKeys
pub mod Sound
use argus_sbomguard.Common.{
  ℕ, ◌+◌, ◌*◌, Option, none, some, Bool, true, false, not, ◌&&◌, List, [], ◌∷◌, ◌++◌, map, filter,
  any, update_where, delete_where, take, drop, ltb, leb, ◌==◌, nat_eq, list_eq, Text, text, lower,
  strip, starts_with, join, if◌then◌else◌, Outcome, return, raise, ◌>>=◌, multiple_results,
}
use argus_sbomguard.Models.{User, LoginToken, ApiKey}

pub record Accounts : Type 0 where
  pub users : List User
  pub login_tokens : List LoginToken
  pub api_keys : List ApiKey

-- `scalar_one_or_none`
abbrev pub one_or_none {ℓ} : {A : Type ℓ} → List A → Outcome (Option A)
one_or_none [] = return none
one_or_none (a ∷ []) = return (some a)
one_or_none (a ∷ b ∷ l) = raise multiple_results

-- `email.strip().lower()`
unfoldable pub clean_email : Text → Text
clean_email email = lower (strip email)

unfoldable pub get_user_by_email : Text → List User → Outcome (Option User)
unfolding clean_email
get_user_by_email email users = one_or_none (filter (λ u. u.email == clean_email email) users)

unfoldable pub get_user_by_id : ℕ → List User → Outcome (Option User)
get_user_by_id id users = one_or_none (filter (λ u. u.id == id) users)

abbrev pub admin_or_new : ℕ → Text → Accounts → Option User → User × Accounts
admin_or_new id email a (some u) = (u, a)
admin_or_new id email a none =
    let u : User = record { id = id; email = email; is_admin = true } in
    (u, record a { users = a.users ++ u ∷ [] })

-- `seed_admin_user`; `id` is the id of a new row.
unfoldable pub seed_admin_user : ℕ → Text → Accounts → Outcome (User × Accounts)
unfolding get_user_by_email clean_email
seed_admin_user id admin_email a = do
  user ← get_user_by_email (clean_email admin_email) a.users
  return (admin_or_new id (clean_email admin_email) a user)

-- `_generate_code` from its sixteen random characters.
unfoldable pub generate_code : Text → Text
generate_code chars = join (text "-") (map (λ idx. take 4 (drop idx chars)) (0 ∷ 4 ∷ 8 ∷ 12 ∷ []))

abbrev pub microseconds_per_minute : ℕ
microseconds_per_minute = 60_000_000

abbrev pub use_token : LoginToken → LoginToken
use_token t = record t { used = true }

abbrev pub login_with : Accounts → Option LoginToken → Outcome (Option User × Accounts)
login_with a none = return (none, a)
login_with a (some lt) = do
  user ← get_user_by_id lt.user_id a.users
  return
      (user, record a { login_tokens = update_where (λ t. t.id == lt.id) use_token a.login_tokens })

-- `ApiKeyAuthResult`
pub record AuthResult : Type 0 where
  pub user : Option User
  pub expired : Bool

abbrev pub is_expired_key : ℕ → Option ℕ → Bool
is_expired_key now none = false
is_expired_key now (some t) = leb t now

abbrev pub key_result : ℕ → Accounts → Option ApiKey → Outcome (AuthResult × Accounts)
key_result now a none = return (record { user = none; expired = false }, a)
key_result now a (some key) =
    if is_expired_key now key.expires_at
    then return (record { user = none; expired = true }, a)
    else (do
      user ← get_user_by_id key.user_id a.users
      return (
        record { user = user; expired = false },
        record a {
          api_keys =
              update_where (λ k. k.id == key.id) (λ k. record k { last_used_at = some now })
                a.api_keys;
        },
      ))

-- `generate_api_key` from its random part.
abbrev pub raw_key_of : Text → Text
raw_key_of random = text "argus_" ++ random

module _ (digest : Text → Text) where
  abbrev pub new_login_token : ℕ → ℕ → ℕ → Text → ℕ → LoginToken
  new_login_token now minutes id raw_code user_id = record {
    id = id;
    user_id = user_id;
    token_hash = digest raw_code;
    expires_at = now + minutes * microseconds_per_minute;
    used = false;
  }

  -- The code goes back to the caller, who passes its random characters.
  unfoldable pub create_login_token : ℕ → ℕ → ℕ → Text → ℕ → Accounts → Text × Accounts
  create_login_token now minutes id chars user_id a = (
    generate_code chars,
    record a {
      login_tokens =
          a.login_tokens ++ new_login_token now minutes id (generate_code chars) user_id ∷ [];
    },
  )

  -- The token's user has the address. The id of a user is a primary key, so that the join yields a
  -- token once.
  abbrev pub is_of_user : List User → Text → LoginToken → Bool
  is_of_user users email t = any (λ u. u.id == t.user_id && u.email == email) users

  abbrev pub is_live : ℕ → List User → Text → Text → LoginToken → Bool
  is_live now users raw_token email t =
      t.token_hash == digest raw_token
      && (not t.used && (ltb now t.expires_at && is_of_user users (clean_email email) t))

  unfoldable pub verify_login_token : ℕ → Text → Text → Accounts → Outcome (Option User × Accounts)
  unfolding get_user_by_id
  verify_login_token now raw_token email a = do
    lt ← one_or_none (filter (is_live now a.users raw_token email) a.login_tokens)
    login_with a lt

  unfoldable pub create_api_key : ℕ → ℕ → Text → ℕ → Text → Option ℕ → Accounts → Text × Accounts
  create_api_key now id random user_id label expires_at a = (
    raw_key_of random,
    record a {
      api_keys =
          a.api_keys
          ++ record {
            id = id;
            user_id = user_id;
            key_prefix = take 16 (raw_key_of random);
            key_hash = digest (raw_key_of random);
            label = label;
            last_used_at = none;
            expires_at = expires_at;
            created_at = now;
          }
            ∷ [];
    },
  )

  unfoldable pub authenticate_api_key : ℕ → Text → Accounts → Outcome (AuthResult × Accounts)
  unfolding get_user_by_id starts_with
  authenticate_api_key now raw_key a =
      if starts_with raw_key (text "argus_")
      then (do
        key ← one_or_none (filter (λ k. k.key_hash == digest raw_key) a.api_keys)
        key_result now a key)
      else return (record { user = none; expired = false }, a)

abbrev pub revoke_found : Accounts → Option ApiKey → Bool × Accounts
revoke_found a none = (false, a)
revoke_found a (some key) =
    (true, record a { api_keys = delete_where (λ k. k.id == key.id) a.api_keys })

unfoldable pub revoke_api_key : ℕ → Accounts → Outcome (Bool × Accounts)
revoke_api_key key_id a = do
  key ← one_or_none (filter (λ k. k.id == key_id) a.api_keys)
  return (revoke_found a key)

-- `api_key_default_expiry`; no setting, or 0, is no expiry.
unfoldable pub api_key_default_expiry : ℕ → Option ℕ → Option ℕ
api_key_default_expiry now none = none
api_key_default_expiry now (some days) =
    if days == 0 then none else some (now + days * (1440 * microseconds_per_minute))
