-- ===== src/Models/Matches.antt =====
-- app/models.py: matches, their two participants, and the postcards sent in them.
use dalm_backend.Prelude.{String, Option}
use dalm_backend.Models.Times.{Uuid, DateTime}

pub record Match : Type 0 where
  pub id : Uuid
  pub explanation : String
  pub matched_at : DateTime

pub record MatchParticipant : Type 0 where
  pub match_id : Uuid
  pub user_id : Uuid
  pub photo_id : Uuid
  pub viewed_at : Option DateTime
  pub hidden_at : Option DateTime

pub record Postcard : Type 0 where
  pub id : Uuid
  pub match_id : Uuid
  pub sender_id : Uuid
  pub receiver_id : Uuid
  pub content : String
  pub idempotency_key : Option Uuid
  pub read_at : Option DateTime
  pub sent_at : DateTime
  pub sender_deleted_at : Option DateTime
  pub receiver_deleted_at : Option DateTime
