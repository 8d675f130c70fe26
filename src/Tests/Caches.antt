-- ===== src/Tests/Caches.antt =====
-- Refresh tokens in a small Redis.
use Prim.Native.Char.{code}
use text.Mathlib.TextLemmas.{append_cancel_left, cons-append}
use Prim.Native.String.{◌++◌ as append}
use dalm_backend.Models.{
  embedding_status_eq, notification_type_eq, photo_status_eq, report_target_eq, term_type_eq,
  user_status_eq, validation_status_eq,
}
use dalm_backend.Prelude.{
  ==_sound, Bool, Bool-cases, List, Option, String, [], any, ap, arith, eq_iff, false,
  if◌then◌else◌, inl, inr, nat_eq, none, not, option_eq, refl, some, string_eq, subst, sym, true,
  ◌&&◌, ◌==◌, ◌||◌, ◌∷◌, ◌≡◌,
}
use dalm_backend.RedisTokens.{Redis, subject_key, token_key}
use dalm_backend.RedisTokens.Laws.{RedisLaws}
use dalm_backend.RedisTokens.Represents.{Represents}
use dalm_backend.RedisTokens.Runs.{
  TokenOp, all_fresh, in_memory, issues_fresh, op_register, op_revoke, op_revoke_all, op_rotate,
  run-Represents, run_memory, run_redis,
}
use dalm_backend.TokenStore.{
  erase, erase_all, insert, lookup, owned, register, revoke, revoke_all, rotate,
}

record Toy : Type 0 where
  texts : String → Option String
  sets : String → List String

without : String → List String → List String
without v [] = []
without v (x ∷ xs) = if v == x then without v xs else x ∷ without v xs

abbrev toy : Redis Toy
toy = record {
  get = λ k r. r.texts k;
  set = λ k v ttl r. record { texts = λ j. if k == j then some v else r.texts j; sets = r.sets };
  del = λ k r. record {
    texts = λ j. if k == j then none else r.texts j;
    sets = λ j. if k == j then [] else r.sets j;
  };
  smembers = λ k r. r.sets k;
  sadd = λ k v r. record { texts = r.texts; sets = λ j. if k == j then v ∷ r.sets j else r.sets j };
  srem = λ k v r. record {
    texts = r.texts;
    sets = λ j. if k == j then without v (r.sets j) else r.sets j;
  };
  expire = λ k ttl r. r;
}

any-without :
    (v x : String) (l : List String)
    → any (λ y. y == x) (without v l) ≡ (not (v == x) && any (λ y. y == x) l)
unfolding without
any-without v x [] = ground arith
any-without v x (y ∷ l) = ground (arith, any-without v x l, eq_iff v y, eq_iff v x, eq_iff y x)

toy-RedisLaws : RedisLaws toy
toy-RedisLaws = record {
  get-set = λ j k v ttl r. refl;
  get-del = λ j k r. refl;
  get-sadd = λ j k v r h. refl;
  get-srem = λ j k v r h. refl;
  get-expire = λ j k ttl r. refl;
  smembers-set = λ j k v ttl r h. refl;
  smembers-del = λ j k r. refl;
  smembers-sadd = λ j k v x r. added (k == j) v x (r.sets j);
  smembers-srem = λ j k v x r. removed (k == j) v x (r.sets j);
  smembers-expire = λ j k ttl r. refl;
}
  where
    added :
        (b : Bool) (v x : String) (l : List String)
        → any (λ y. y == x) (if b then v ∷ l else l) ≡ (b && v == x || any (λ y. y == x) l)
    added true v x l = refl
    added false v x l = refl

    removed :
        (b : Bool) (v x : String) (l : List String)
        → any (λ y. y == x) (if b then without v l else l)
          ≡ (not (b && v == x) && any (λ y. y == x) l)
    removed true v x l = any-without v x l
    removed false v x l = refl

-- Hexadecimal identifiers do not begin with "s".
abbrev is_token : String → Bool
is_token String.[] = true
is_token (String.◌∷◌ c text) = not (code c == 115)

apart_keys :
    (s id : String)
    → is_token id ≡ true
    → (subject_key toy "auth:refresh:" s == token_key toy "auth:refresh:" id) ≡ false
apart_keys s id h =
    elim (Bool-cases (subject_key toy "auth:refresh:" s == token_key toy "auth:refresh:" id)) [
      | inr e ↦ e
      | inl e ↦
          let same : append "subject:" s ≡ id =
            append_cancel_left "auth:refresh:" (append "subject:" s) id (==_sound _ _ e) in
          let starts : is_token (append "subject:" s) ≡ true =
            subst (λ x. is_token x ≡ true) (sym same) h in
          let not_so : is_token (append "subject:" s) ≡ false =
            ap is_token (cons-append "s" "ubject:" s) in
          cc
    ]

abbrev empty_toy : Toy
empty_toy = record { texts = λ k. none; sets = λ k. [] }

empty_toy-Represents : Represents toy "auth:refresh:" is_token empty_toy []
unfolding lookup
empty_toy-Represents = record {
  held = λ id h. refl;
  listed = λ s id h. refl;
  only_tokens = λ s t. refl;
}

abbrev operations : List TokenOp
operations =
    op_register "1" "u" 60
    ∷ op_rotate "1" "2" "u" 60
    ∷ op_revoke "1" "u"
    ∷ op_register "3" "u" 60
    ∷ op_revoke_all "u"
    ∷ op_revoke "2" "u"
    ∷ []

operations_fresh : all_fresh is_token operations [] ≡ true
unfolding all_fresh issues_fresh in_memory register rotate revoke revoke_all insert erase lookup
    owned erase_all
operations_fresh = refl

run-Represents_example :
    ((run_redis toy "auth:refresh:" operations empty_toy).0 ≡ (run_memory operations []).0)
    × Represents toy "auth:refresh:" is_token
        (run_redis toy "auth:refresh:" operations empty_toy).1
        (run_memory operations []).1
run-Represents_example =
    run-Represents toy "auth:refresh:" toy-RedisLaws is_token apart_keys operations empty_toy []
      operations_fresh tt empty_toy-Represents

run_memory_answers :
    (run_memory operations []).0 ≡ none ∷ some true ∷ some false ∷ none ∷ none ∷ some false ∷ []
unfolding run_memory in_memory register rotate revoke revoke_all insert erase lookup owned erase_all
run_memory_answers = refl
