-- ===== src/Auth/Logins.antt =====
-- A login code works once, for its user, and until it expires.
use argus_sbomguard.Common.{
  ℕ, ◌+◌, ◌*◌, ◌≤◌, ◌<◌, Option, none, some, Bool, true, false, ◌&&◌, List, [], ◌∷◌, ◌++◌, map,
  filter, update_where, ◌==◌, nat_eq, list_eq, ==_refl, Text, ◌≡◌, refl, sym, ap, ◌∙◌, arith, Memᴰ,
  All, All-of_mem, mem-filter, mem_of_mem-filter, mem_of_any, any_of_mem, return, >>=-eq-return,
  IsUnique, same_of_key, filter-append, Bool-cases, inl, inr, nat_beq_iff, contains,
  contains-map_of_mem,
}
use argus_sbomguard.Models.{User, LoginToken}
use argus_sbomguard.Auth.{
  Accounts, one_or_none, clean_email, get_user_by_id, is_of_user, is_live, use_token, login_with,
  verify_login_token, create_login_token, new_login_token, generate_code, microseconds_per_minute,
}

-- A query with one result has this row alone.
pub one_or_none-eq-some {ℓ} :
    {A : Type ℓ} (l : List A) (a : A) → one_or_none l ≡ return (some a) → l ≡ a ∷ []
one_or_none-eq-some [] a h = cc
one_or_none-eq-some (x ∷ []) a h = cc
one_or_none-eq-some (x ∷ y ∷ l) a h = cc

-- An update that spoils each row for the query leaves it nothing, if the rows it passes over fit no
-- query either.
none_left :
    (p q : LoginToken → Bool) (tokens : List LoginToken)
    → All (λ t. q t ≡ false → p t ≡ false) tokens
    → ((t : LoginToken) → p (use_token t) ≡ false)
    → filter p (update_where q use_token tokens) ≡ []
none_left p q [] h spoil = refl
none_left p q (t ∷ tokens) (h, hs) spoil = elim (Bool-cases (q t)) [
  | inl hit ↦ rw (hit, spoil t) (none_left p q tokens hs spoil)
  | inr miss ↦ rw (miss, h miss) (none_left p q tokens hs spoil)
]

-- It is a row of the table that fits the query.
pub mem_of_one {ℓ} :
    {A : Type ℓ} (p : A → Bool) (l : List A) (a : A)
    → one_or_none (filter p l) ≡ return (some a)
    → Memᴰ a l × (p a ≡ true)
mem_of_one p l a h =
    let found : Memᴰ a (filter p l) = rw (one_or_none-eq-some (filter p l) a h) (Memᴰ.head refl) in
    mem_of_mem-filter p l found

none_by_key {ℓ} :
    {A : Type ℓ} (key : A → ℕ) (xs : List A) (k : ℕ)
    → contains (map key xs) k ≡ false
    → filter (λ x. key x == k) xs ≡ []
none_by_key key [] k h = refl
none_by_key key (x ∷ xs) k h = ground (arith, none_by_key key xs k)

-- The row of a unique key is all that a query for the key finds.
pub filter_by_key {ℓ} :
    {A : Type ℓ} (key : A → ℕ) (xs : List A) (a : A)
    → IsUnique (map key xs)
    → Memᴰ a xs
    → filter (λ x. key x == key a) xs ≡ a ∷ []
filter_by_key key [] a u m = elim m [ ]
filter_by_key key (x ∷ xs) a u (Memᴰ.head e) =
    ap (λ y. filter (λ z. key z == key y) (x ∷ xs)) e ∙ here ∙ ap (λ y. y ∷ []) (sym e)
  where
    here : filter (λ z. key z == key x) (x ∷ xs) ≡ x ∷ []
    here = rw (==_refl (key x)) (ap (◌∷◌ x) (none_by_key key xs (key x) u.0))
filter_by_key key (x ∷ xs) a u (Memᴰ.tail m) =
    let other : (key x == key a) ≡ false = ground (arith, contains-map_of_mem key xs m, u.0) in
    rw other (filter_by_key key xs a u.1 m)

module _ (digest : Text → Text) where
  live_later :
      (now later : ℕ) (users : List User) (raw email : Text) (t : LoginToken)
      → now ≤ later
      → is_live digest later users raw email t ≡ true
      → is_live digest now users raw email t ≡ true
  live_later now later users raw email t h l = ground arith

  -- A code that has logged somebody in logs nobody in again with the same address, at that time or
  -- later, and the second attempt changes nothing.
  pub verify_login_token_once :
      (now later : ℕ) (raw email : Text) (a b : Accounts) (u : User)
      → verify_login_token digest now raw email a ≡ return (some u, b)
      → now ≤ later
      → verify_login_token digest later raw email b ≡ return (none, b)
  unfolding verify_login_token
  verify_login_token_once now later raw email a b u e h =
      let (o, first, rest) =
        >>=-eq-return (one_or_none (filter (is_live digest now a.users raw email) a.login_tokens))
          (login_with a) e in
      from o first rest
    where
      other :
          (lt : LoginToken)
          → one_or_none (filter (is_live digest now a.users raw email) a.login_tokens)
            ≡ return (some lt)
          → (t : LoginToken) → Memᴰ t a.login_tokens
          → (t.id == lt.id) ≡ false
          → is_live digest later a.users raw email t ≡ false
      other lt first t m n = elim (Bool-cases (is_live digest later a.users raw email t)) [
        | inr no_more ↦ no_more
        | inl still ↦
            let was =
              mem-filter (is_live digest now a.users raw email) a.login_tokens m
                (live_later now later a.users raw email t h still) in
            let only : Memᴰ t (lt ∷ []) = rw (← one_or_none-eq-some _ lt first) was in
            let e' : t ≡ lt = elim only [ Memᴰ.head e ↦ e | Memᴰ.tail m' ↦ elim m' [ ] ] in
            cc (ap (λ x. x.id) e', ==_refl lt.id)
      ]

      from :
          (o : Option LoginToken)
          → one_or_none (filter (is_live digest now a.users raw email) a.login_tokens) ≡ return o
          → login_with a o ≡ return (some u, b)
          → verify_login_token digest later raw email b ≡ return (none, b)
      from none first rest = cc
      from (some lt) first rest =
          let (o, found, same) = >>=-eq-return (get_user_by_id lt.user_id a.users) _ rest in
          let e' : record a {
            login_tokens = update_where (λ t. t.id == lt.id) use_token a.login_tokens;
          }
              ≡ b =
            cc in
          rw (← e') (
            rw
              (none_left (is_live digest later a.users raw email) (λ t. t.id == lt.id)
                a.login_tokens (All-of_mem _ a.login_tokens (λ t m. other lt first t m))
                (λ t. ground arith))
              refl)

  -- If the ids of the users are distinct and a code logs a user in, then a login token with the hash
  -- of the code was there that was not used, had not expired, and was the user's, and the address is
  -- the user's.
  pub verify_login_token_sound :
      (now : ℕ) (raw email : Text) (a b : Accounts) (u : User)
      → IsUnique (map (λ v. v.id) a.users)
      → verify_login_token digest now raw email a ≡ return (some u, b)
      → (t : LoginToken) × Memᴰ t a.login_tokens
        × (t.token_hash ≡ digest raw)
        × (t.used ≡ false)
        × (now < t.expires_at)
        × (t.user_id ≡ u.id)
        × (u.email ≡ clean_email email)
  unfolding verify_login_token get_user_by_id
  verify_login_token_sound now raw email a b u unique e =
      let (o, first, rest) =
        >>=-eq-return (one_or_none (filter (is_live digest now a.users raw email) a.login_tokens))
          (login_with a) e in
      from o first rest
    where
      owner :
          (t : LoginToken)
          → get_user_by_id t.user_id a.users ≡ return (some u)
          → is_of_user digest a.users (clean_email email) t ≡ true
          → (t.user_id ≡ u.id) × (u.email ≡ clean_email email)
      owner t found joined =
          let mem : Memᴰ u (filter (λ v. v.id == t.user_id) a.users) =
            rw (one_or_none-eq-some _ u found) (Memᴰ.head refl) in
          let (mu, same) = mem_of_mem-filter (λ v. v.id == t.user_id) a.users mem in
          let (w, mw, fits) =
            mem_of_any (λ v. v.id == t.user_id && v.email == clean_email email) a.users joined in
          let id_u : u.id ≡ t.user_id = (nat_beq_iff u.id t.user_id).0 same in
          let id_w : w.id ≡ t.user_id = ground (arith, nat_beq_iff w.id t.user_id) in
          let e' : w ≡ u = same_of_key (λ v. v.id) a.users unique mw mu (id_w ∙ sym id_u) in
          let address : w.email ≡ clean_email email =
            (list_eq.beq_iff w.email (clean_email email)).0 (ground arith) in
          (sym id_u, ap (λ v. v.email) (sym e') ∙ address)

      from :
          (o : Option LoginToken)
          → one_or_none (filter (is_live digest now a.users raw email) a.login_tokens) ≡ return o
          → login_with a o ≡ return (some u, b)
          → (t : LoginToken) × Memᴰ t a.login_tokens
            × (t.token_hash ≡ digest raw)
            × (t.used ≡ false)
            × (now < t.expires_at)
            × (t.user_id ≡ u.id)
            × (u.email ≡ clean_email email)
      from none first rest = cc
      from (some t) first rest =
          let (o, found, same) = >>=-eq-return (get_user_by_id t.user_id a.users) _ rest in
          let o_u : o ≡ some u = cc in
          let mem : Memᴰ t (filter (is_live digest now a.users raw email) a.login_tokens) =
            rw (one_or_none-eq-some _ t first) (Memᴰ.head refl) in
          let (m, live) =
            mem_of_mem-filter (is_live digest now a.users raw email) a.login_tokens mem in
          let joined : is_of_user digest a.users (clean_email email) t ≡ true = ground arith in
          let (id, address) = owner t (found ∙ ap return o_u) joined in
          (
            t,
            m,
            (list_eq.beq_iff t.token_hash (digest raw)).0 (ground arith),
            ground arith,
            ground arith,
            id,
            address,
          )

  -- If the ids of the users are distinct, no live token of the user's has the hash of the code yet,
  -- and the code has not expired, then a code that was created for a user logs this user in.
  pub verify-create_login_token :
      (created now minutes id : ℕ) (chars email : Text) (a : Accounts) (u : User)
      → IsUnique (map (λ v. v.id) a.users)
      → Memᴰ u a.users
      → u.email ≡ clean_email email
      → filter (is_live digest now a.users (generate_code chars) email) a.login_tokens ≡ []
      → now < created + minutes * microseconds_per_minute
      → (b : Accounts) × (verify_login_token digest now
            (generate_code chars)
            email
            (create_login_token digest created minutes id chars u.id a).1
          ≡ return (some u, b))
  unfolding verify_login_token create_login_token get_user_by_id
  verify-create_login_token created now minutes id chars email a u unique m address fresh time = (
    record a {
      login_tokens =
          update_where (λ t. t.id == id) use_token
            (a.login_tokens
              ++ new_login_token digest created minutes id (generate_code chars) u.id ∷ []);
    },
    rw
        (
          filter-append (is_live digest now a.users (generate_code chars) email) a.login_tokens
              (new_login_token digest created minutes id (generate_code chars) u.id ∷ []),
          fresh,
          live,
        )
        (rw (filter_by_key (λ v. v.id) a.users u unique m) refl),
  )
    where
      live :
          is_live digest now a.users
            (generate_code chars)
            email
            (new_login_token digest created minutes id (generate_code chars) u.id)
          ≡ true
      live =
          let joined =
            any_of_mem (λ v. v.id == u.id && v.email == clean_email email) a.users m
              (rw (==_refl u.id) ((list_eq.beq_iff u.email (clean_email email)).1 address)) in
          rw (==_refl (digest (generate_code chars)), joined) (ground arith)
