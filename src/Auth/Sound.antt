-- ===== src/Auth/Sound.antt =====
-- Whom an API key authenticates.
use argus_sbomguard.Common.{
  ℕ, Option, none, some, false, filter, ◌==◌, nat_eq, list_eq, Text, text, starts_with, ◌≡◌, ap,
  ◌∙◌, inl, inr, Memᴰ, Bool-cases, nat_beq_iff, return, >>=-eq-return,
}
use argus_sbomguard.Models.{User, ApiKey}
use argus_sbomguard.Auth.{
  Accounts, AuthResult, one_or_none, get_user_by_id, is_expired_key, key_result,
  authenticate_api_key,
}
use argus_sbomguard.Auth.Logins.{mem_of_one}
use argus_sbomguard.Auth.ApiKeys.{has_hash}

module _ (digest : Text → Text) (now : ℕ) (raw : Text) (a : Accounts) (u : User) where
  -- A key with the hash of the text is there, has not expired, and is the user's.
  pub record IsKeyOf (k : ApiKey) : Type 0 where
    pub is_key : Memᴰ k a.api_keys
    pub same_hash : k.key_hash ≡ digest raw
    pub is_live : is_expired_key now k.expires_at ≡ false
    pub is_user : Memᴰ u a.users
    pub is_owner : u.id ≡ k.user_id

  from_key :
      (o : Option ApiKey) (r : AuthResult) (b : Accounts)
      → one_or_none (filter (has_hash (digest raw)) a.api_keys) ≡ return o
      → key_result now a o ≡ return (r, b)
      → r.user ≡ some u
      → (k : ApiKey) × IsKeyOf k
  unfolding get_user_by_id
  from_key none r b first e h = cc
  from_key (some k) r b first e h = elim (Bool-cases (is_expired_key now k.expires_at)) [
    | inl late ↦ cc (rw late at e)
    | inr live ↦
        let (o, found, same) = >>=-eq-return (get_user_by_id k.user_id a.users) _ (rw live at e) in
        let o_u : o ≡ some u = cc in
        let (mu, owner) = mem_of_one (λ v. v.id == k.user_id) a.users u (found ∙ ap return o_u) in
        let (mk, hash) = mem_of_one (has_hash (digest raw)) a.api_keys k first in
        (
          k,
          record {
            is_key = mk;
            same_hash = (list_eq.beq_iff k.key_hash (digest raw)).0 hash;
            is_live = live;
            is_user = mu;
            is_owner = (nat_beq_iff u.id k.user_id).0 owner;
          },
        )
  ]

  pub authenticate_api_key_sound :
      (r : AuthResult) (b : Accounts)
      → authenticate_api_key digest now raw a ≡ return (r, b)
      → r.user ≡ some u
      → (k : ApiKey) × IsKeyOf k
  unfolding authenticate_api_key
  authenticate_api_key_sound r b e h = elim (Bool-cases (starts_with raw (text "argus_"))) [
    | inr bad ↦ cc (rw bad at e)
    | inl good ↦
        let (o, first, rest) =
          >>=-eq-return (one_or_none (filter (has_hash (digest raw)) a.api_keys)) (key_result now a)
            (rw good at e) in
        from_key o r b first rest h
  ]
