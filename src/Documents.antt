-- ===== src/Documents.antt =====
-- The rows of the two tables as the code decodes them: `RomanceDocumentSchema` and
-- `CountersDocumentSchema` (internal/context/voting/infrastructure/persistence).
pub mod Decoding
use recs.Prelude.{ℕ, String, Option}
use recs.Prelude.Int.{ℤ}

pub record RomanceDocumentSchema : Type 0 where
  pub pk_user_id : String
  pub sk_user_id : String
  pub pk_user_vote_type : ℕ
  pub pk_user_voted_at : Option ℤ
  pub pk_user_vote_created_at : Option ℤ
  pub pk_user_vote_updated_at : Option ℤ
  pub sk_user_vote_type : ℕ
  pub sk_user_voted_at : Option ℤ
  pub sk_user_vote_created_at : Option ℤ
  pub sk_user_vote_updated_at : Option ℤ
  pub version : ℕ

pub record CountersDocumentSchema : Type 0 where
  pub user_id : String
  pub hour_unix_timestamp : ℤ
  pub incoming_yes : ℕ
  pub incoming_no : ℕ
  pub outgoing_yes : ℕ
  pub outgoing_no : ℕ
