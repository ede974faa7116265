-- ===== src/Models/Accounts.antt =====
-- models/auth.py: users, login tokens and API keys.
use argus_sbomguard.Common.{ℕ, Option, Bool, Text}

pub record User : Type 0 where
  pub id : ℕ
  pub email : Text
  pub is_admin : Bool

pub record LoginToken : Type 0 where
  pub id : ℕ
  pub user_id : ℕ
  pub token_hash : Text
  pub expires_at : ℕ
  pub used : Bool

pub record ApiKey : Type 0 where
  pub id : ℕ
  pub user_id : ℕ
  pub key_prefix : Text
  pub key_hash : Text
  pub label : Text
  pub last_used_at : Option ℕ
  pub expires_at : Option ℕ
  pub created_at : ℕ
