-- ===== src/RedisTokens.antt =====
-- app/token_store.py `RedisRefreshTokenStore`: the refresh tokens in Redis, which is a parameter. Its
-- scripts and its transaction run as one step.
use Prim.Native.String.{◌++◌ as append}
pub mod Laws
pub mod Represents
pub mod Refines
pub mod Clearing
pub mod Runs
use dalm_backend.Models.{
  embedding_status_eq, notification_type_eq, photo_status_eq, report_target_eq, term_type_eq,
  user_status_eq, validation_status_eq,
}
use dalm_backend.Prelude.{
  Bool, List, Option, String, [], false, if◌then◌else◌, length, nat_eq, option_eq, some, string_eq,
  true, ℕ, ◌==◌, ◌∷◌,
}

-- The commands that the store uses; `set` is `SET … EX`.
pub record Redis (R : Type 0) : Type 0 where
  pub get : String → R → Option String
  pub set : String → String → ℕ → R → R
  pub del : String → R → R
  pub smembers : String → R → List String
  pub sadd : String → String → R → R
  pub srem : String → String → R → R
  pub expire : String → ℕ → R → R

module _ {R : Type 0} (redis : Redis R) (key_prefix : String) where
  abbrev pub token_key : String → String
  token_key token_id = append key_prefix token_id

  abbrev pub subject_key : String → String
  subject_key subject = append key_prefix (append "subject:" subject)

  unfoldable pub redis_register : String → String → ℕ → R → R
  redis_register token_id subject ttl r = redis.expire (subject_key subject) ttl (
      redis.sadd (subject_key subject) (token_key token_id)
        (redis.set (token_key token_id) subject ttl r))

  -- `_rotate_script`.
  unfoldable pub redis_rotate : String → String → String → ℕ → R → Bool × R
  redis_rotate old new subject ttl r =
      if redis.get (token_key old) r == some subject
      then (
        true,
        redis.expire (subject_key subject) ttl (
            redis.sadd (subject_key subject) (token_key new) (
              redis.srem (subject_key subject) (token_key old)
                (redis.set (token_key new) subject ttl (redis.del (token_key old) r)))),
      )
      else (false, r)

  -- `_revoke_script`.
  unfoldable pub redis_revoke : String → String → R → Bool × R
  redis_revoke token_id subject r =
      if redis.get (token_key token_id) r == some subject
      then (
        true,
        redis.srem (subject_key subject) (token_key token_id) (redis.del (token_key token_id) r),
      )
      else (false, r)

  unfoldable pub del_all : List String → R → R
  del_all [] r = r
  del_all (k ∷ ks) r = del_all ks (redis.del k r)

  -- `_revoke_all_script`.
  unfoldable pub redis_revoke_all : String → R → ℕ × R
  unfolding del_all
  redis_revoke_all subject r =
      let keys = redis.smembers (subject_key subject) r in
      (length keys, redis.del (subject_key subject) (del_all keys r))
