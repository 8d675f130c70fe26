-- ===== src/RedisTokens/Clearing.antt =====
-- The store in Redis revokes all tokens of a subject as the store in memory does.
use dalm_backend.Models.{
  embedding_status_eq, notification_type_eq, photo_status_eq, report_target_eq, term_type_eq,
  user_status_eq, validation_status_eq,
}
use dalm_backend.Prelude.{
  ==_sound, Bool, Bool-cases, List, String, [], any, arith, eq_iff, false, if◌then◌else◌, inl, inr,
  nat_eq, none, option_beq_iff, option_eq, refl, some, string_eq, true, ◌==◌, ◌∷◌, ◌≡◌,
}
use dalm_backend.RedisTokens.{Redis, del_all, redis_revoke_all, subject_key, token_key}
use dalm_backend.RedisTokens.Laws.{RedisLaws}
use dalm_backend.RedisTokens.Represents.{Represents, subject_key-same}
use dalm_backend.TokenStore.{Active, lookup, revoke_all}
use dalm_backend.TokenStore.Laws.{IsDict, revoke_all_lem}

module _ {R : Type 0} (redis : Redis R) (key_prefix : String) (laws : RedisLaws redis)
    (is_token : String → Bool)
    (apart_keys : (s id : String)
      → is_token id ≡ true
      → (subject_key redis key_prefix s == token_key redis key_prefix id) ≡ false) where
  abbrev tk : String → String
  tk = token_key redis key_prefix

  abbrev sk : String → String
  sk = subject_key redis key_prefix

  abbrev Stands : R → Active → Type 0
  Stands = Represents redis key_prefix is_token

  get-del_all :
      (j : String) (ks : List String) (r : R)
      → redis.get j (del_all redis key_prefix ks r)
        ≡ (if any (λ y. y == j) ks then none else redis.get j r)
  unfolding del_all
  get-del_all j [] r = refl
  get-del_all j (k ∷ ks) r =
      rw (get-del_all j ks (redis.del k r), laws.get-del j k r) (ground arith)

  smembers-del_all :
      (j : String) (ks : List String) (r : R)
      → any (λ y. y == j) ks ≡ false
      → redis.smembers j (del_all redis key_prefix ks r) ≡ redis.smembers j r
  unfolding del_all
  smembers-del_all j [] r h = refl
  smembers-del_all j (k ∷ ks) r h =
      let other : (k == j) ≡ false = ground arith in
      rw (smembers-del_all j ks (redis.del k r) (ground arith), laws.smembers-del j k r, other) refl

  pub revoke_all-Represents :
      (s : String) (r : R) (m : Active)
      → IsDict m
      → Stands r m
      → Stands (redis_revoke_all redis key_prefix s r).1 (revoke_all s m).1
  unfolding redis_revoke_all
  revoke_all-Represents s r m dict rep =
      let keys = redis.smembers (sk s) r in
      let r1 = del_all redis key_prefix keys r in
      let gone = (revoke_all_lem s m dict).1 in
      record {
        held = λ j h.
            rw
              (
                laws.get-del (tk j) (sk s) r1,
                apart_keys s j h,
                get-del_all (tk j) keys r,
                rep.listed s j h,
                rep.held j h,
                gone j,
              )
              refl;
        listed = λ t j h.
            rw
              (
                laws.smembers-del (sk t) (sk s) r1,
                subject_key-same redis key_prefix s t,
                smembers-del_all (sk t) keys r (rep.only_tokens s t),
                gone j,
              )
              (elim (Bool-cases (s == t)) [
                | inl e ↦
                    let same : s ≡ t = ==_sound s t e in
                    rw (e, same) (ground (arith, option_beq_iff (lookup j m) (some t)))
                | inr e ↦
                    rw (e, rep.listed t j h)
                      (ground (
                        arith,
                        option_beq_iff (lookup j m) (some s),
                        option_beq_iff (lookup j m) (some t),
                        eq_iff s t,
                      ))
              ]);
        only_tokens = λ t u.
            rw
              (
                laws.smembers-del (sk t) (sk s) r1,
                subject_key-same redis key_prefix s t,
                smembers-del_all (sk t) keys r (rep.only_tokens s t),
              )
              (elim (Bool-cases (s == t)) [
                | inl e ↦ rw e refl
                | inr e ↦ rw e (rep.only_tokens t u)
              ]);
      }
