-- ===== src/TokenStore/Laws.antt =====
-- What each operation of the store does to the activity of every token.
use dalm_backend.Models.{
  embedding_status_eq, notification_type_eq, photo_status_eq, report_target_eq, term_type_eq,
  user_status_eq, validation_status_eq,
}
use dalm_backend.Prelude.{
  ==_self, ==_sound, Bool, Bool-cases, List, Option, String, [], any, ap, arith, eq_iff, false,
  if◌then◌else◌, inl, inr, length, nat_eq, none, option_beq_iff, option_eq, refl, some, string_eq,
  true, ◌==◌, ◌∙◌, ◌∷◌, ◌≡◌, ◌≢◌, ◌⊎◌,
}
use dalm_backend.TokenStore.{Active, erase, erase_all, insert, lookup, owned, revoke_all, rotate}

-- After a registration a token is active for its subject, and every other one is as before.
pub lookup-insert :
    (token_id other subject : String) (active : Active)
    → lookup other (insert token_id subject active)
      ≡ (if token_id == other then some subject else lookup other active)
unfolding lookup insert
lookup-insert token_id other subject [] = refl
lookup-insert token_id other subject ((id, owner) ∷ rest) = ground (
  arith,
  lookup-insert token_id other subject rest,
  eq_iff token_id other,
  eq_iff id token_id,
  eq_iff id other,
)

pub lookup-erase :
    (k j : String) (m : Active) → lookup j (erase k m) ≡ (if k == j then none else lookup j m)
unfolding lookup erase
lookup-erase k j [] = ground arith
lookup-erase k j ((i, w) ∷ m) =
    ground (arith, eq_iff k j, eq_iff i k, eq_iff i j, lookup-erase k j m)

-- A rotation succeeds exactly if the old token is active for this subject. Then the old token is no
-- longer active (unless it is issued again), the new one is active for the subject, and every other
-- token is as before; else nothing changes.
pub rotate_lem :
    (old new subject : String) (m : Active)
    → ((lookup old m ≡ some subject)
        × ((rotate old new subject m).0 ≡ true)
        × ((j : String)
            → lookup j (rotate old new subject m).1
              ≡ (if new == j then some subject else if old == j then none else lookup j m)))
      ⊎ ((lookup old m ≢ some subject) × (rotate old new subject m ≡ (false, m)))
unfolding rotate
rotate_lem old new subject m = elim (Bool-cases (lookup old m == some subject)) [
  | inl h ↦ inl (
    ==_sound (lookup old m) (some subject) h,
    rw h,
    (λ j. rw (h, lookup-insert new j subject (erase old m), lookup-erase old j m)),
  )
  | inr h ↦ inr ((λ e. absurd (true_false (lookup old m) (some subject) e h)), rw h)
]
  where
    true_false : (a b : Option String) → a ≡ b → (a == b) ≡ false → ⊥
    true_false a b e h = let k : (a == b) ≡ true = rw e (==_self b) in cc

lookup-erase_all :
    (j : String) (ks : List String) (m : Active)
    → lookup j (erase_all ks m) ≡ (if any (λ k. k == j) ks then none else lookup j m)
unfolding erase_all
lookup-erase_all j [] m = refl
lookup-erase_all j (k ∷ ks) m =
    ground (arith, lookup-erase_all j ks (erase k m), lookup-erase k j m)

-- An active token of a subject is among its tokens.
lookup-owned :
    (j subject : String) (m : Active)
    → lookup j m ≡ some subject
    → any (λ k. k == j) (owned subject m) ≡ true
unfolding lookup owned
lookup-owned j subject [] h = cc
lookup-owned j subject ((i, w) ∷ m) h =
    ground (arith, eq_iff i j, eq_iff w subject, eq_iff subject subject, lookup-owned j subject m)

-- Each token stands once in the dict.
abbrev pub IsDict : Active → Type 0
IsDict [] = Unit
IsDict ((k, v) ∷ m) = (lookup k m ≡ none) × IsDict m

owned-lookup :
    (j subject : String) (m : Active)
    → IsDict m
    → any (λ k. k == j) (owned subject m) ≡ true
    → lookup j m ≡ some subject
unfolding lookup owned
owned-lookup j subject [] d h = cc
owned-lookup j subject ((i, w) ∷ m) d h =
    ground (arith, eq_iff i j, eq_iff w subject, owned-lookup j subject m d.1)

-- In a store where each token stands once: after `revoke_all` no token of the subject is active,
-- and every other token is as before; the answer is the number of tokens that the subject had.
pub revoke_all_lem :
    (subject : String) (m : Active)
    → IsDict m
    → ((revoke_all subject m).0 ≡ length (owned subject m))
      × ((j : String)
          → lookup j (revoke_all subject m).1
            ≡ (if lookup j m == some subject then none else lookup j m))
unfolding revoke_all
revoke_all_lem subject m d = (
  refl,
  (λ j.
      lookup-erase_all j (owned subject m) m
      ∙ ap (λ (c : Bool). if c then none else lookup j m) (agree j)),
)
  where
    agree : (j : String) → any (λ k. k == j) (owned subject m) ≡ (lookup j m == some subject)
    agree j = ground (
      arith,
      lookup-owned j subject m,
      owned-lookup j subject m d,
      option_beq_iff (lookup j m) (some subject),
    )
