-- ===== src/Login/Refusals.antt =====
-- Who gets tokens.
use dalm_backend.Login.{
  AuthData, LoginEnv, LoginState, auth_data, complete_login, find_or_create, login_with,
  login_with_kakao,
}
use dalm_backend.Models.{
  User, UserStatus, embedding_status_eq, notification_type_eq, photo_status_eq, report_target_eq,
  term_type_eq, user_status_eq, validation_status_eq,
}
use dalm_backend.Prelude.{
  Bool, Bool-cases, Option, Rows-cases, String, [], arith, false, inl, inr, nat_eq, none, option_eq,
  refl, select, some, string_eq, subst, sym, true, ◌==◌, ◌∷◌, ◌≡◌, ◌≢◌, ◌⊎◌,
}
use dalm_backend.Store.{
  Action, Code, Db, Env, Error, Result, Result-cases, api_error, err, ok, request,
  satisfies_constraints,
}
use dalm_backend.TokenStore.{register}
use dalm_backend.Tokens.{issue_pair, new_pair}
use dalm_backend.Users.{
  add_user, create_from_kakao, create_or_find, get_by_kakao_id, has_id, new_user,
}

complete_login_lem :
    (l : LoginEnv) (user : User) (is_new_user : Bool) (s : LoginState)
    → ((user.status ≢ UserStatus.active)
        × (x : Error) × (complete_login l user is_new_user s ≡ (err x, s)))
      ⊎ ((user.status ≡ UserStatus.active)
          × (d : AuthData) × (complete_login l user is_new_user s
              ≡ (ok d, record s { active = register l.refresh_id (l.str_of_id user.id) s.active }))
          × (d.user.id ≡ user.id)
          × (d.is_new_user ≡ is_new_user))
unfolding complete_login issue_pair
complete_login_lem l user is_new_user s = elim (Bool-cases (user.status == UserStatus.restricted)) [
  | inl h ↦ inl (ground arith, api_error 403 Code.account_restricted, rw h refl)
  | inr h ↦ elim (Bool-cases (user.status == UserStatus.withdrawn)) [
    | inl k ↦ inl (ground arith, api_error 403 Code.account_withdrawn, rw (h, k) refl)
    | inr k ↦ inr (
      ground arith,
      auth_data user is_new_user
          (new_pair l.jwt l.settings l.env.now (l.str_of_id user.id) l.access_id l.refresh_id).0,
      rw (h, k) refl,
      refl,
      refl,
    )
  ]
]

-- What a login gives, for an account that is looked up or created as `find` and `create` do: an
-- error leaves the refresh tokens as they were.
login_with_lem :
    (l : LoginEnv) (find : Action (Option User)) (create : Action User) (s : LoginState)
    → ((x : Error) × ((login_with l find create s).0 ≡ err x)
        × ((login_with l find create s).1.active ≡ s.active))
      ⊎ ((user : User) × (is_new_user : Bool) × (d : AuthData) × ((request
              (find_or_create find create)
              s.db).0
            ≡ ok (user, is_new_user))
          × (user.status ≡ UserStatus.active)
          × ((login_with l find create s).0 ≡ ok d)
          × (d.user.id ≡ user.id)
          × (d.is_new_user ≡ is_new_user)
          × ((login_with l find create s).1.active
              ≡ register l.refresh_id (l.str_of_id user.id) s.active)
          × ((login_with l find create s).1.db ≡ (request (find_or_create find create) s.db).1))
unfolding login_with
login_with_lem l find create s = elim (Result-cases (request (find_or_create find create) s.db).0) [
  | inl (x, failed) ↦ inl (x, rw (login_with, failed) refl, rw (login_with, failed) refl)
  | inr ((user, is_new_user), found) ↦
      let db = (request (find_or_create find create) s.db).1 in
      elim (complete_login_lem l user is_new_user (record s { db = db })) [
        | inl (inactive, x, refused) ↦
            inl (x, rw (login_with, found, refused) refl, rw (login_with, found, refused) refl)
        | inr (live, d, succeeds, same, said) ↦ inr (
          user,
          is_new_user,
          d,
          found,
          live,
          rw (login_with, found, succeeds) refl,
          same,
          said,
          rw (login_with, found, succeeds) refl,
          rw (login_with, found, succeeds) refl,
        )
      ]
]

-- The account of a login, from the tables before to those after: the one that has the identity, with
-- the tables as they were, or a new one, where none has it.
abbrev pub IsAccount : Env → String → User → Bool → Db → Db → Type 0
IsAccount e kakao_id user is_new_user db db' =
    ((is_new_user ≡ false)
      × (select (λ (u : User). has_id u.kakao_id kakao_id) db.users ≡ user ∷ [])
      × (db' ≡ db))
    ⊎ ((is_new_user ≡ true)
        × (select (λ (u : User). has_id u.kakao_id kakao_id) db.users ≡ [])
        × (user ≡ new_user e (some kakao_id) none)
        × (db' ≡ add_user user db))

new_user-IsAccount :
    (e : Env) (kakao_id : String) (user : User) (is_new_user : Bool) (db : Db)
    → select (λ (u : User). has_id u.kakao_id kakao_id) db.users ≡ []
    → let m = find_or_create (get_by_kakao_id kakao_id) (create_from_kakao e kakao_id) in
      (request m db).0 ≡ ok (user, is_new_user)
      → IsAccount e kakao_id user is_new_user db (request m db).1
unfolding get_by_kakao_id create_from_kakao create_or_find
new_user-IsAccount e kakao_id user is_new_user db nobody h =
    elim (Bool-cases (satisfies_constraints (add_user (new_user e (some kakao_id) none) db))) [
      | inl accepted ↦ inr (ground arith, nobody, ground arith, ground arith)
      | inr refused ↦ absurd (ground arith)
    ]

find_or_create-IsAccount :
    (e : Env) (kakao_id : String) (user : User) (is_new_user : Bool) (db : Db)
    → let m = find_or_create (get_by_kakao_id kakao_id) (create_from_kakao e kakao_id) in
      (request m db).0 ≡ ok (user, is_new_user)
      → IsAccount e kakao_id user is_new_user db (request m db).1
unfolding get_by_kakao_id
find_or_create-IsAccount e kakao_id user is_new_user db h =
    elim (Rows-cases (select (λ (u : User). has_id u.kakao_id kakao_id) db.users)) [
      | inl nobody ↦ new_user-IsAccount e kakao_id user is_new_user db nobody h
      | inr (inr (v, w, r, many)) ↦ absurd (ground arith)
      | inr (inl (v, found)) ↦ inl (ground arith, ground arith, ground arith)
    ]

-- The two ends of a login, with an answer of the provider, from one state to another.
abbrev pub LoginEnds : LoginEnv → Result String → LoginState → Result AuthData × LoginState → Type 0
LoginEnds l answer s r =
    ((x : Error) × (r.0 ≡ err x) × (r.1.active ≡ s.active))
    ⊎ ((kakao_id : String) × (user : User) × (d : AuthData) × (answer ≡ ok kakao_id)
        × IsAccount l.env kakao_id user d.is_new_user s.db r.1.db
        × (user.status ≡ UserStatus.active)
        × (r.0 ≡ ok d)
        × (d.user.id ≡ user.id)
        × (r.1.active ≡ register l.refresh_id (l.str_of_id user.id) s.active))

-- A login with Kakao that is answered with an error issues no refresh token. One that succeeds is
-- of an active account: the one account in the tables that has the identity which the provider
-- names, and then the tables stay as they are, or a new one where no account has it. It issues
-- exactly one refresh token, for that account, and says whether the account is new.
pub login_with_kakao_lem :
    (l : LoginEnv) (answer : Result String) (s : LoginState)
    → LoginEnds l answer s (login_with_kakao l answer s)
unfolding login_with_kakao
login_with_kakao_lem l (err x) s = inl (x, refl, refl)
login_with_kakao_lem l (ok kakao_id) s =
    elim (login_with_lem l (get_by_kakao_id kakao_id) (create_from_kakao l.env kakao_id) s) [
      | inl refused ↦ inl refused
      | inr (user, is_new_user, d, found, live, succeeds, same, said, issued, tables) ↦ inr (
        kakao_id,
        user,
        d,
        refl,
        subst
            (λ b.
              IsAccount l.env kakao_id user b s.db
                (login_with l (get_by_kakao_id kakao_id) (create_from_kakao l.env kakao_id) s).1.db)
            (sym said)
            (subst (IsAccount l.env kakao_id user is_new_user s.db) (sym tables)
              (find_or_create-IsAccount l.env kakao_id user is_new_user s.db found)),
        live,
        succeeds,
        same,
        issued,
      )
    ]
