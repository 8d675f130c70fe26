-- ===== src/RedisTokens/Represents.antt =====
-- What it means that Redis holds what the store in memory holds.
use text.Mathlib.TextLemmas.{append_cancel_left}
use Prim.Native.String.{◌++◌ as append}
use dalm_backend.Models.{
  embedding_status_eq, notification_type_eq, photo_status_eq, report_target_eq, term_type_eq,
  user_status_eq, validation_status_eq,
}
use dalm_backend.Prelude.{
  ==_self, ==_sound, Bool, Bool-cases, String, any, ap, arith, false, inl, inr, nat_eq, option_eq,
  refl, some, string_eq, true, ◌==◌, ◌≡◌,
}
use dalm_backend.RedisTokens.{Redis, subject_key, token_key}
use dalm_backend.TokenStore.{Active, lookup}

-- Tests of two texts that are equal exactly if two others are agree.
same_test : (a b c d : String) → (a ≡ b → c ≡ d) → (c ≡ d → a ≡ b) → (c == d) ≡ (a == b)
same_test a b c d f g = elim (Bool-cases (a == b)) [
  | inl h ↦ let e = f (==_sound a b h) in rw (e, h) (==_self d)
  | inr h ↦ elim (Bool-cases (c == d)) [
    | inr k ↦ rw (h, k) refl
    | inl k ↦
        let same : (a == b) ≡ true = rw (g (==_sound c d k)) (==_self b) in absurd (ground arith)
  ]
]

module _ {R : Type 0} (redis : Redis R) (key_prefix : String) where
  abbrev tk : String → String
  tk = token_key redis key_prefix

  abbrev sk : String → String
  sk = subject_key redis key_prefix

  pub token_key-same : (a b : String) → (tk a == tk b) ≡ (a == b)
  token_key-same a b =
      same_test a b (tk a) (tk b) (λ e. ap (append key_prefix) e)
        (λ e. append_cancel_left key_prefix a b e)

  pub subject_key-same : (a b : String) → (sk a == sk b) ≡ (a == b)
  subject_key-same a b =
      same_test a b (sk a) (sk b) (λ e. ap (λ s. append key_prefix (append "subject:" s)) e)
        (λ e.
          append_cancel_left "subject:" a b
            (append_cancel_left key_prefix (append "subject:" a) (append "subject:" b) e))

  -- What the keys hold and the sets list is what the store in memory holds, for the identifiers that
  -- are tokens.
  pub record Represents (is_token : String → Bool) (r : R) (m : Active) : Type 0 where
    pub held : (id : String) → is_token id ≡ true → redis.get (tk id) r ≡ lookup id m
    pub listed :
        (s id : String)
        → is_token id ≡ true
        → any (λ y. y == tk id) (redis.smembers (sk s) r) ≡ (lookup id m == some s)
    pub only_tokens : (s t : String) → any (λ y. y == sk t) (redis.smembers (sk s) r) ≡ false
