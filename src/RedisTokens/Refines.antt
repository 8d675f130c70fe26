-- ===== src/RedisTokens/Refines.antt =====
-- The store in Redis registers, revokes and rotates as the store in memory does.
use dalm_backend.Models.{
  embedding_status_eq, notification_type_eq, photo_status_eq, report_target_eq, term_type_eq,
  user_status_eq, validation_status_eq,
}
use dalm_backend.Prelude.{
  ==_sound, Bool, Bool-cases, String, arith, eq_iff, false, inl, inr, nat_eq, none, option_eq, refl,
  some, string_eq, subst, true, ℕ, ◌==◌, ◌≡◌,
}
use dalm_backend.RedisTokens.{
  Redis, redis_register, redis_revoke, redis_rotate, subject_key, token_key,
}
use dalm_backend.RedisTokens.Laws.{RedisLaws}
use dalm_backend.RedisTokens.Represents.{Represents, subject_key-same, token_key-same}
use dalm_backend.TokenStore.{Active, erase, insert, lookup, register, revoke, rotate}
use dalm_backend.TokenStore.Laws.{lookup-erase, lookup-insert}

module _ {R : Type 0} (redis : Redis R) (key_prefix : String) (laws : RedisLaws redis)
    (is_token : String → Bool)
    (apart_keys : (s id : String)
      → is_token id ≡ true
      → (subject_key redis key_prefix s == token_key redis key_prefix id) ≡ false) where
  abbrev tk : String → String
  tk = token_key redis key_prefix

  abbrev sk : String → String
  sk = subject_key redis key_prefix

  abbrev Stands : R → Active → Type 0
  Stands = Represents redis key_prefix is_token

  apart_keys' : (s id : String) → is_token id ≡ true → (tk id == sk s) ≡ false
  apart_keys' s id h =
      ground (arith, apart_keys s id h, eq_iff (tk id) (sk s), eq_iff (sk s) (tk id))

  pub register-Represents :
      (id s : String) (ttl : ℕ) (r : R) (m : Active)
      → is_token id ≡ true
      → lookup id m ≡ none
      → Stands r m
      → Stands (redis_register redis key_prefix id s ttl r) (register id s m)
  unfolding redis_register register
  register-Represents id s ttl r m new fresh rep = record {
    held = λ j h.
        rw
          (
            laws.get-expire (tk j) (sk s) ttl
                (redis.sadd (sk s) (tk id) (redis.set (tk id) s ttl r)),
            laws.get-sadd (tk j) (sk s) (tk id) (redis.set (tk id) s ttl r) (apart_keys s j h),
            laws.get-set (tk j) (tk id) s ttl r,
            token_key-same redis key_prefix id j,
            rep.held j h,
            lookup-insert id j s m,
          )
          refl;
    listed = λ t j h.
        rw
          (
            laws.smembers-expire (sk t) (sk s) ttl
                (redis.sadd (sk s) (tk id) (redis.set (tk id) s ttl r)),
            laws.smembers-sadd (sk t) (sk s) (tk id) (tk j) (redis.set (tk id) s ttl r),
            laws.smembers-set (sk t) (tk id) s ttl r (apart_keys' t id new),
            token_key-same redis key_prefix id j,
            subject_key-same redis key_prefix s t,
            rep.listed t j h,
            lookup-insert id j s m,
          )
          (elim (Bool-cases (id == j)) [
            | inl e ↦
                let gone : lookup j m ≡ none =
                  subst (λ x. lookup x m ≡ none) (==_sound id j e) fresh in
                rw (e, gone) (ground arith)
            | inr e ↦ rw e (ground arith)
          ]);
    only_tokens = λ t u.
        rw
          (
            laws.smembers-expire (sk t) (sk s) ttl
                (redis.sadd (sk s) (tk id) (redis.set (tk id) s ttl r)),
            laws.smembers-sadd (sk t) (sk s) (tk id) (sk u) (redis.set (tk id) s ttl r),
            laws.smembers-set (sk t) (tk id) s ttl r (apart_keys' t id new),
            apart_keys' u id new,
            rep.only_tokens t u,
          )
          (ground arith);
  }

  -- The part of a rotation or a revocation that takes a token away.
  taken_away :
      (id s : String) (r : R) (m : Active)
      → is_token id ≡ true
      → lookup id m ≡ some s
      → Stands r m
      → Stands (redis.srem (sk s) (tk id) (redis.del (tk id) r)) (erase id m)
  taken_away id s r m token there rep = record {
    held = λ j h.
        rw
          (
            laws.get-srem (tk j) (sk s) (tk id) (redis.del (tk id) r) (apart_keys s j h),
            laws.get-del (tk j) (tk id) r,
            token_key-same redis key_prefix id j,
            rep.held j h,
            lookup-erase id j m,
          )
          refl;
    listed = λ t j h.
        rw
          (
            laws.smembers-srem (sk t) (sk s) (tk id) (tk j) (redis.del (tk id) r),
            laws.smembers-del (sk t) (tk id) r,
            apart_keys' t id token,
            token_key-same redis key_prefix id j,
            subject_key-same redis key_prefix s t,
            rep.listed t j h,
            lookup-erase id j m,
          )
          (elim (Bool-cases (id == j)) [
            | inl e ↦
                let kept : lookup j m ≡ some s =
                  subst (λ x. lookup x m ≡ some s) (==_sound id j e) there in
                rw (e, kept) (ground arith)
            | inr e ↦ rw e (ground arith)
          ]);
    only_tokens = λ t u.
        rw
          (
            laws.smembers-srem (sk t) (sk s) (tk id) (sk u) (redis.del (tk id) r),
            laws.smembers-del (sk t) (tk id) r,
            apart_keys' t id token,
            rep.only_tokens t u,
          )
          (ground arith);
  }

  pub revoke-Represents :
      (id s : String) (r : R) (m : Active)
      → is_token id ≡ true
      → Stands r m
      → ((redis_revoke redis key_prefix id s r).0 ≡ (revoke id s m).0)
        × Stands (redis_revoke redis key_prefix id s r).1 (revoke id s m).1
  unfolding redis_revoke revoke
  revoke-Represents id s r m token rep = elim (Bool-cases (lookup id m == some s)) [
    | inl e ↦
        rw (rep.held id token, e)
          (refl, taken_away id s r m token (==_sound (lookup id m) (some s) e) rep)
    | inr e ↦ rw (rep.held id token, e) (refl, rep)
  ]

  rotated :
      (old new s : String) (ttl : ℕ) (r : R) (m : Active)
      → is_token old ≡ true
      → is_token new ≡ true
      → lookup old m ≡ some s
      → lookup new m ≡ none
      → Stands r m
      → Stands
          (redis.expire (sk s) ttl (
            redis.sadd
              (sk s)
              (tk new)
              (redis.srem (sk s) (tk old) (redis.set (tk new) s ttl (redis.del (tk old) r)))))
          (insert new s (erase old m))
  rotated old new s ttl r m token token' there fresh rep =
      let r1 = redis.del (tk old) r in
      let r2 = redis.set (tk new) s ttl r1 in
      let r3 = redis.srem (sk s) (tk old) r2 in
      record {
        held = λ j h.
            rw
              (
                laws.get-expire (tk j) (sk s) ttl (redis.sadd (sk s) (tk new) r3),
                laws.get-sadd (tk j) (sk s) (tk new) r3 (apart_keys s j h),
                laws.get-srem (tk j) (sk s) (tk old) r2 (apart_keys s j h),
                laws.get-set (tk j) (tk new) s ttl r1,
                laws.get-del (tk j) (tk old) r,
                token_key-same redis key_prefix new j,
                token_key-same redis key_prefix old j,
                rep.held j h,
                lookup-insert new j s (erase old m),
                lookup-erase old j m,
              )
              refl;
        listed = λ t j h.
            rw
              (
                laws.smembers-expire (sk t) (sk s) ttl (redis.sadd (sk s) (tk new) r3),
                laws.smembers-sadd (sk t) (sk s) (tk new) (tk j) r3,
                laws.smembers-srem (sk t) (sk s) (tk old) (tk j) r2,
                laws.smembers-set (sk t) (tk new) s ttl r1 (apart_keys' t new token'),
                laws.smembers-del (sk t) (tk old) r,
                apart_keys' t old token,
                token_key-same redis key_prefix new j,
                token_key-same redis key_prefix old j,
                subject_key-same redis key_prefix s t,
                rep.listed t j h,
                lookup-insert new j s (erase old m),
                lookup-erase old j m,
              )
              (elim (Bool-cases (new == j)) [
                | inl e ↦
                    let gone : lookup j m ≡ none =
                      subst (λ x. lookup x m ≡ none) (==_sound new j e) fresh in
                    rw (e, gone) (ground arith)
                | inr e ↦ elim (Bool-cases (old == j)) [
                  | inl k ↦
                      let kept : lookup j m ≡ some s =
                        subst (λ x. lookup x m ≡ some s) (==_sound old j k) there in
                      rw (e, k, kept) (ground arith)
                  | inr k ↦ rw (e, k) (ground arith)
                ]
              ]);
        only_tokens = λ t u.
            rw
              (
                laws.smembers-expire (sk t) (sk s) ttl (redis.sadd (sk s) (tk new) r3),
                laws.smembers-sadd (sk t) (sk s) (tk new) (sk u) r3,
                laws.smembers-srem (sk t) (sk s) (tk old) (sk u) r2,
                laws.smembers-set (sk t) (tk new) s ttl r1 (apart_keys' t new token'),
                laws.smembers-del (sk t) (tk old) r,
                apart_keys' t old token,
                apart_keys' u new token',
                rep.only_tokens t u,
              )
              (ground arith);
      }

  pub rotate-Represents :
      (old new s : String) (ttl : ℕ) (r : R) (m : Active)
      → is_token old ≡ true
      → is_token new ≡ true
      → lookup new m ≡ none
      → Stands r m
      → ((redis_rotate redis key_prefix old new s ttl r).0 ≡ (rotate old new s m).0)
        × Stands (redis_rotate redis key_prefix old new s ttl r).1 (rotate old new s m).1
  unfolding redis_rotate rotate
  rotate-Represents old new s ttl r m token token' fresh rep =
      elim (Bool-cases (lookup old m == some s)) [
        | inl e ↦
            rw (rep.held old token, e)
              (
                refl,
                rotated old new s ttl r m token token' (==_sound (lookup old m) (some s) e) fresh
                    rep,
              )
        | inr e ↦ rw (rep.held old token, e) (refl, rep)
      ]
