-- ===== src/RedisTokens/Runs.antt =====
-- Sequences of the operations of app/token_store.py `RefreshTokenStore`, on both stores.
use dalm_backend.Models.{
  embedding_status_eq, notification_type_eq, photo_status_eq, report_target_eq, term_type_eq,
  user_status_eq, validation_status_eq,
}
use dalm_backend.Prelude.{
  ==_sound, Bool, Bool-cases, List, Option, String, [], ap, arith, eq_iff, false, inl, inr, nat_eq,
  none, option_eq, refl, some, string_eq, subst, true, ℕ, ◌&&◌, ◌==◌, ◌∷◌, ◌≡◌,
}
use dalm_backend.RedisTokens.{
  Redis, redis_register, redis_revoke, redis_revoke_all, redis_rotate, subject_key, token_key,
}
use dalm_backend.RedisTokens.Clearing.{revoke_all-Represents}
use dalm_backend.RedisTokens.Laws.{RedisLaws}
use dalm_backend.RedisTokens.Refines.{register-Represents, revoke-Represents, rotate-Represents}
use dalm_backend.RedisTokens.Represents.{Represents}
use dalm_backend.TokenStore.{
  Active, erase, erase_all, insert, lookup, owned, register, revoke, revoke_all, rotate,
}
use dalm_backend.TokenStore.Laws.{IsDict, lookup-erase, lookup-insert}

-- The operations of the protocol.
pub data TokenOp : Type 0 where
  op_register : (token_id subject : String) → (ttl : ℕ) → TokenOp
  op_rotate : (old new subject : String) → (ttl : ℕ) → TokenOp
  op_revoke : (token_id subject : String) → TokenOp
  op_revoke_all : (subject : String) → TokenOp

-- What an operation answers to the callers, which do not read the count of `revoke_all`.
unfoldable pub in_memory : TokenOp → Active → Option Bool × Active
in_memory (op_register id s ttl) m = (none, register id s m)
in_memory (op_rotate old new s ttl) m = let x = rotate old new s m in (some x.0, x.1)
in_memory (op_revoke id s) m = let x = revoke id s m in (some x.0, x.1)
in_memory (op_revoke_all s) m = (none, (revoke_all s m).1)

unfoldable pub run_memory : List TokenOp → Active → List (Option Bool) × Active
unfolding in_memory
run_memory [] m = ([], m)
run_memory (o ∷ os) m =
    let x = in_memory o m in let rest = run_memory os x.1 in (x.0 ∷ rest.0, rest.1)

-- The identifiers are tokens, and one that is issued is not in use.
unfoldable pub issues_fresh : (String → Bool) → TokenOp → Active → Bool
issues_fresh is_token (op_register id s ttl) m = is_token id && lookup id m == none
issues_fresh is_token (op_rotate old new s ttl) m =
    is_token old && is_token new && lookup new m == none
issues_fresh is_token (op_revoke id s) m = is_token id
issues_fresh is_token (op_revoke_all s) m = true

unfoldable pub all_fresh : (String → Bool) → List TokenOp → Active → Bool
unfolding issues_fresh in_memory
all_fresh is_token [] m = true
all_fresh is_token (o ∷ os) m = issues_fresh is_token o m && all_fresh is_token os (in_memory o m).1

IsDict-insert : (k s : String) (m : Active) → IsDict m → IsDict (insert k s m)
unfolding insert lookup
IsDict-insert k s [] d = (refl, tt)
IsDict-insert k s ((i, w) ∷ m) d = elim (Bool-cases (i == k)) [
  | inl e ↦ rw e (subst (λ x. lookup x m ≡ none) (==_sound i k e) d.0, d.1)
  | inr e ↦ rw e (
    rw (lookup-insert k i s m, d.0) (ground (arith, eq_iff i k, eq_iff k i)),
    IsDict-insert k s m d.1,
  )
]

IsDict-erase : (k : String) (m : Active) → IsDict m → IsDict (erase k m)
unfolding erase lookup
IsDict-erase k [] d = tt
IsDict-erase k ((i, w) ∷ m) d = elim (Bool-cases (i == k)) [
  | inl e ↦ rw e (IsDict-erase k m d.1)
  | inr e ↦ rw e (rw (lookup-erase k i m, d.0) (ground arith), IsDict-erase k m d.1)
]

IsDict-erase_all : (ks : List String) (m : Active) → IsDict m → IsDict (erase_all ks m)
unfolding erase_all
IsDict-erase_all [] m d = d
IsDict-erase_all (k ∷ ks) m d = IsDict-erase_all ks (erase k m) (IsDict-erase k m d)

in_memory-IsDict : (o : TokenOp) (m : Active) → IsDict m → IsDict (in_memory o m).1
unfolding in_memory register rotate revoke revoke_all
in_memory-IsDict (op_register id s ttl) m d = IsDict-insert id s m d
in_memory-IsDict (op_rotate old new s ttl) m d = elim (Bool-cases (lookup old m == some s)) [
  | inl e ↦ rw e (IsDict-insert new s (erase old m) (IsDict-erase old m d))
  | inr e ↦ rw e d
]
in_memory-IsDict (op_revoke id s) m d = elim (Bool-cases (lookup id m == some s)) [
  | inl e ↦ rw e (IsDict-erase id m d)
  | inr e ↦ rw e d
]
in_memory-IsDict (op_revoke_all s) m d = IsDict-erase_all (owned s m) m d

module _ {R : Type 0} (redis : Redis R) (key_prefix : String) where
  unfoldable pub in_redis : TokenOp → R → Option Bool × R
  in_redis (op_register id s ttl) r = (none, redis_register redis key_prefix id s ttl r)
  in_redis (op_rotate old new s ttl) r =
      let x = redis_rotate redis key_prefix old new s ttl r in (some x.0, x.1)
  in_redis (op_revoke id s) r = let x = redis_revoke redis key_prefix id s r in (some x.0, x.1)
  in_redis (op_revoke_all s) r = (none, (redis_revoke_all redis key_prefix s r).1)

  unfoldable pub run_redis : List TokenOp → R → List (Option Bool) × R
  unfolding in_redis
  run_redis [] r = ([], r)
  run_redis (o ∷ os) r =
      let x = in_redis o r in let rest = run_redis os x.1 in (x.0 ∷ rest.0, rest.1)

  module _ (laws : RedisLaws redis) (is_token : String → Bool)
      (apart_keys : (s id : String)
        → is_token id ≡ true
        → (subject_key redis key_prefix s == token_key redis key_prefix id) ≡ false) where
    step-Represents :
        (o : TokenOp) (r : R) (m : Active)
        → issues_fresh is_token o m ≡ true
        → IsDict m
        → Represents redis key_prefix is_token r m
        → ((in_redis o r).0 ≡ (in_memory o m).0)
          × Represents redis key_prefix is_token (in_redis o r).1 (in_memory o m).1
    unfolding issues_fresh in_memory in_redis
    step-Represents (op_register id s ttl) r m h d rep = (
      refl,
      register-Represents redis key_prefix laws is_token apart_keys id s ttl r m (ground arith)
          (==_sound (lookup id m) none (ground arith)) rep,
    )
    step-Represents (op_rotate old new s ttl) r m h d rep =
        let x =
          rotate-Represents redis key_prefix laws is_token apart_keys old new s ttl r m
            (ground arith) (ground arith) (==_sound (lookup new m) none (ground arith)) rep in
        (ap some x.0, x.1)
    step-Represents (op_revoke id s) r m h d rep =
        let x = revoke-Represents redis key_prefix laws is_token apart_keys id s r m h rep in
        (ap some x.0, x.1)
    step-Represents (op_revoke_all s) r m h d rep =
        (refl, revoke_all-Represents redis key_prefix laws is_token apart_keys s r m d rep)

    -- From a Redis that represents the store in memory, every sequence of operations whose issued
    -- tokens are fresh is answered by the store in Redis as by the store in memory, apart from the
    -- count of `revoke_all`, and Redis still represents the store in memory. The keys of subjects
    -- are none of tokens, each token stands once in the store in memory, and no key runs out of time.
    pub run-Represents :
        (os : List TokenOp) (r : R) (m : Active)
        → all_fresh is_token os m ≡ true
        → IsDict m
        → Represents redis key_prefix is_token r m
        → ((run_redis os r).0 ≡ (run_memory os m).0)
          × Represents redis key_prefix is_token (run_redis os r).1 (run_memory os m).1
    unfolding all_fresh run_memory run_redis
    run-Represents [] r m h d rep = (refl, rep)
    run-Represents (o ∷ os) r m h d rep =
        let x = step-Represents o r m (ground arith) d rep in
        let rest =
          run-Represents os (in_redis o r).1 (in_memory o m).1 (ground arith)
            (in_memory-IsDict o m d) x.1 in
        (rw (x.0, rest.0) refl, rest.1)
