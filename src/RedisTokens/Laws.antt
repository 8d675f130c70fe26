-- ===== src/RedisTokens/Laws.antt =====
-- What is documented of the commands, while no key runs out of time.
use dalm_backend.Models.{
  embedding_status_eq, notification_type_eq, photo_status_eq, report_target_eq, term_type_eq,
  user_status_eq, validation_status_eq,
}
use dalm_backend.Prelude.{
  String, [], any, false, if◌then◌else◌, nat_eq, none, not, option_eq, some, string_eq, ℕ, ◌&&◌,
  ◌==◌, ◌||◌, ◌≡◌,
}
use dalm_backend.RedisTokens.{Redis}

pub record RedisLaws {R : Type 0} (redis : Redis R) : Type 0 where
  pub get-set :
      (j k v : String) (ttl : ℕ) (r : R)
      → redis.get j (redis.set k v ttl r) ≡ (if k == j then some v else redis.get j r)
  pub get-del :
      (j k : String) (r : R)
      → redis.get j (redis.del k r) ≡ (if k == j then none else redis.get j r)
  -- The key of a set holds no text, so the commands on sets leave the other keys.
  pub get-sadd :
      (j k v : String) (r : R) → (k == j) ≡ false → redis.get j (redis.sadd k v r) ≡ redis.get j r
  pub get-srem :
      (j k v : String) (r : R) → (k == j) ≡ false → redis.get j (redis.srem k v r) ≡ redis.get j r
  pub get-expire :
      (j k : String) (ttl : ℕ) (r : R) → redis.get j (redis.expire k ttl r) ≡ redis.get j r
  pub smembers-set :
      (j k v : String) (ttl : ℕ) (r : R)
      → (k == j) ≡ false
      → redis.smembers j (redis.set k v ttl r) ≡ redis.smembers j r
  pub smembers-del :
      (j k : String) (r : R)
      → redis.smembers j (redis.del k r) ≡ (if k == j then [] else redis.smembers j r)
  pub smembers-sadd :
      (j k v x : String) (r : R)
      → any (λ y. y == x) (redis.smembers j (redis.sadd k v r))
        ≡ (k == j && v == x || any (λ y. y == x) (redis.smembers j r))
  pub smembers-srem :
      (j k v x : String) (r : R)
      → any (λ y. y == x) (redis.smembers j (redis.srem k v r))
        ≡ (not (k == j && v == x) && any (λ y. y == x) (redis.smembers j r))
  pub smembers-expire :
      (j k : String) (ttl : ℕ) (r : R)
      → redis.smembers j (redis.expire k ttl r) ≡ redis.smembers j r
