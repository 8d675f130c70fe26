-- ===== src/Users/SignUp.antt =====
-- Signing up again with an identity that has an account.
use dalm_backend.Models.{
  User, embedding_status_eq, notification_type_eq, photo_status_eq, report_target_eq, term_type_eq,
  user_status_eq, validation_status_eq,
}
use dalm_backend.Prelude.{
  List, String, [], any, arith, false, nat_eq, none, option_eq, select, some, string_eq, true, ◌++◌,
  ◌||◌, ◌∷◌, ◌≡◌,
}
use dalm_backend.Store.{
  Db, Env, ok, request, same_value, satisfies_constraints, unique, unique-clash,
}
use dalm_backend.Users.{
  add_user, create_from_kakao, create_or_find, get_by_kakao_id, has_id, new_user,
}

add_user-clash :
    (e : Env) (kakao_id : String) (db : Db)
    → any (λ u. has_id u.kakao_id kakao_id) db.users ≡ true
    → satisfies_constraints (add_user (new_user e (some kakao_id) none) db) ≡ false
unfolding satisfies_constraints
add_user-clash e kakao_id db h = all_false (unique-clash _ db.users new (clash db.users h))
  where
    new : User
    new = new_user e (some kakao_id) none

    clash :
        (us : List User)
        → any (λ u. has_id u.kakao_id kakao_id) us ≡ true
        → any (λ u. same_value u.kakao_id new.kakao_id) us ≡ true
    clash [] k = k
    clash (u ∷ us) k =
        elim u.kakao_id
            as (λ o.
              (has_id o kakao_id || any (λ v. has_id v.kakao_id kakao_id) us) ≡ true
              → (same_value o new.kakao_id || any (λ v. same_value v.kakao_id new.kakao_id) us)
                ≡ true) [ none ↦ clash us | some c ↦ (λ q. ground (arith, clash us)) ]
          k

    all_false :
        unique (λ (u v : User). same_value u.kakao_id v.kakao_id) (db.users ++ new ∷ []) ≡ false
        → satisfies_constraints (add_user new db) ≡ false
    all_false k = ground arith

-- A sign-up with a Kakao identity that one account has is answered with that account, and nothing is
-- written: the insertion is refused by the unique index, and the account is looked up.
pub create_from_kakao_again :
    (e : Env) (kakao_id : String) (u : User) (db : Db)
    → select (λ (v : User). has_id v.kakao_id kakao_id) db.users ≡ u ∷ []
    → request (create_from_kakao e kakao_id) db ≡ (ok u, db)
unfolding create_from_kakao create_or_find get_by_kakao_id
create_from_kakao_again e kakao_id u db found =
    ground (arith, add_user-clash e kakao_id db (there db.users found))
  where
    there :
        (us : List User)
        → select (λ (v : User). has_id v.kakao_id kakao_id) us ≡ u ∷ []
        → any (λ v. has_id v.kakao_id kakao_id) us ≡ true
    there [] k = cc
    there (v ∷ us) k = ground (arith, there us)
