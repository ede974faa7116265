-- ===== src/Auth/ApiKeys.antt =====
-- An API key works for its user until it expires or is revoked.
use argus_sbomguard.Common.{
  ℕ, ◌<◌, ◌≤◌, arith, Option, none, some, Bool, true, false, [], ◌∷◌, map, filter, update_where,
  delete_where, ◌==◌, nat_eq, list_eq, ==_refl, Text, text, starts_with, ◌≡◌, refl, sym, ap, ◌∙◌,
  Memᴰ, All, mem_of_mem-filter, nat_beq_iff, Outcome, return, >>=-eq-return, IsUnique,
  filter-append, Bool-cases, inl, inr, filter-eq-nil, All-delete_where, same_of_key, if◌then◌else◌,
  take,
}
use argus_sbomguard.Models.{User, ApiKey}
use argus_sbomguard.Auth.{
  Accounts, AuthResult, one_or_none, get_user_by_id, raw_key_of, is_expired_key, create_api_key,
  authenticate_api_key, revoke_api_key, revoke_found,
}
use argus_sbomguard.Auth.Logins.{filter_by_key, one_or_none-eq-some}

abbrev pub has_hash : Text → ApiKey → Bool
has_hash hash k = k.key_hash == hash

-- The key never expires, or later than now; or it has expired by now.
abbrev pub IsLive : ℕ → Option ℕ → Type 0
IsLive now expires_at = (t : ℕ) → expires_at ≡ some t → now < t

abbrev pub IsOver : ℕ → Option ℕ → Type 0
IsOver now expires_at = (t : ℕ) × (expires_at ≡ some t) × (t ≤ now)

not_expired :
    (now : ℕ) (expires_at : Option ℕ)
    → IsLive now expires_at
    → is_expired_key now expires_at ≡ false
not_expired now none h = refl
not_expired now (some t) h = let later = h t refl in ground (arith, later)

has_expired :
    (now : ℕ) (expires_at : Option ℕ) → IsOver now expires_at → is_expired_key now expires_at ≡ true
has_expired now none (t, e, h) = cc
has_expired now (some s) (t, e, h) = let same : s ≡ t = cc in ground (arith, same)

-- What a key with this expiry answers for its user.
abbrev pub answer : ℕ → Option ℕ → User → AuthResult
answer now expires_at u = record {
  user = if is_expired_key now expires_at then none else some u;
  expired = is_expired_key now expires_at;
}

module _ (digest : Text → Text) where
  authenticate-new_key :
      (created now id : ℕ) (random label : Text) (expires_at : Option ℕ) (a : Accounts) (u : User)
      → IsUnique (map (λ v. v.id) a.users)
      → Memᴰ u a.users
      → filter (has_hash (digest (raw_key_of random))) a.api_keys ≡ []
      → (b : Accounts) × (authenticate_api_key digest now
            (raw_key_of random)
            (create_api_key digest created id random u.id label expires_at a).1
          ≡ return (answer now expires_at u, b))
  unfolding authenticate_api_key create_api_key starts_with get_user_by_id
  authenticate-new_key created now id random label expires_at a u unique m fresh =
      elim (Bool-cases (is_expired_key now expires_at)) [
        | inl late ↦ (
          (create_api_key digest created id random u.id label expires_at a).1,
          rw (late, found) (rw late refl),
        )
        | inr early ↦ (
          record a {
            api_keys =
                update_where (λ k. k.id == id) (λ k. record k { last_used_at = some now })
                  (create_api_key digest created id random u.id label expires_at a).1.api_keys;
          },
          rw (early, found) (rw (early, filter_by_key (λ v. v.id) a.users u unique m) refl),
        )
      ]
    where
      found :
          filter
            (has_hash (digest (raw_key_of random)))
            (create_api_key digest created id random u.id label expires_at a).1.api_keys
          ≡ record {
            id = id;
            user_id = u.id;
            key_prefix = take 16 (raw_key_of random);
            key_hash = digest (raw_key_of random);
            label = label;
            last_used_at = none;
            expires_at = expires_at;
            created_at = created;
          }
            ∷ []
      found =
          filter-append (has_hash (digest (raw_key_of random))) a.api_keys _
          ∙ rw (fresh, ==_refl (digest (raw_key_of random))) refl

  -- If the ids of the users are distinct and no key has the hash of a new one, then the key that was
  -- created for a user authenticates this user at every instant before its expiry, and always if it
  -- has none; and from its expiry on it authenticates nobody, with the word that it has expired.
  pub authenticate-create_api_key :
      (created now id : ℕ) (random label : Text) (expires_at : Option ℕ) (a : Accounts) (u : User)
      → IsUnique (map (λ v. v.id) a.users)
      → Memᴰ u a.users
      → filter (has_hash (digest (raw_key_of random))) a.api_keys ≡ []
      → (IsLive now expires_at
          → (b : Accounts) × (authenticate_api_key digest now
                (raw_key_of random)
                (create_api_key digest created id random u.id label expires_at a).1
              ≡ return (record { user = some u; expired = false }, b)))
        × (IsOver now expires_at
            → (b : Accounts) × (authenticate_api_key digest now
                  (raw_key_of random)
                  (create_api_key digest created id random u.id label expires_at a).1
                ≡ return (record { user = none; expired = true }, b)))
  authenticate-create_api_key created now id random label expires_at a u unique m fresh =
      let (b, e) = authenticate-new_key created now id random label expires_at a u unique m fresh in
      (
        λ live. (b, rw (not_expired now expires_at live) at e),
        λ over. (b, rw (has_expired now expires_at over) at e),
      )

  -- If the hashes of the keys are distinct, a key that was revoked authenticates nobody any more, and
  -- the attempt changes nothing.
  pub authenticate-revoke_api_key :
      (now : ℕ) (raw : Text) (k : ApiKey) (a b : Accounts)
      → IsUnique (map (λ j. j.key_hash) a.api_keys)
      → Memᴰ k a.api_keys
      → k.key_hash ≡ digest raw
      → revoke_api_key k.id a ≡ return (true, b)
      → authenticate_api_key digest now raw b ≡ return (record { user = none; expired = false }, b)
  unfolding authenticate_api_key revoke_api_key
  authenticate-revoke_api_key now raw k a b unique m h e =
      let (o, first, rest) =
        >>=-eq-return (one_or_none (filter (λ j. j.id == k.id) a.api_keys))
          (λ o. return (revoke_found a o)) e in
      elim (Bool-cases (starts_with raw (text "argus_"))) [
        | inl good ↦ rw (good, gone o first rest) refl
        | inr bad ↦ rw bad refl
      ]
    where
      kept :
          All (λ j. has_hash (digest raw) j ≡ false) (delete_where (λ j. j.id == k.id) a.api_keys)
      kept =
          All-delete_where (λ j. j.id == k.id) (λ j. has_hash (digest raw) j ≡ false) a.api_keys
            (λ j mj other. elim (Bool-cases (has_hash (digest raw) j)) [
              | inr no_match ↦ no_match
              | inl match_ ↦
                  let same : j ≡ k =
                    same_of_key (λ x. x.key_hash) a.api_keys unique mj m
                      ((list_eq.beq_iff j.key_hash (digest raw)).0 match_ ∙ sym h) in
                  cc (ap (λ x. x.id) same, ==_refl k.id)
            ])

      gone :
          (o : Option ApiKey)
          → one_or_none (filter (λ j. j.id == k.id) a.api_keys) ≡ return o
          → ◌≡◌ {A = Outcome (Bool × Accounts)} (return (revoke_found a o)) (return (true, b))
          → filter (has_hash (digest raw)) b.api_keys ≡ []
      gone none first rest = cc
      gone (some j) first rest =
          let e' : record a { api_keys = delete_where (λ x. x.id == j.id) a.api_keys } ≡ b = cc in
          let mem : Memᴰ j (filter (λ x. x.id == k.id) a.api_keys) =
            rw (one_or_none-eq-some _ j first) (Memᴰ.head refl) in
          let same : j.id ≡ k.id =
            (nat_beq_iff j.id k.id).0 (mem_of_mem-filter (λ x. x.id == k.id) a.api_keys mem).1 in
          rw (← e') (rw same (filter-eq-nil (has_hash (digest raw)) _ kept))
