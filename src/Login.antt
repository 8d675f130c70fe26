-- ===== src/Login.antt =====
-- app/auth.py `AuthService`: the login with an identity of Kakao or Apple. The identity providers
-- and `str` on identifiers are parameters.
pub mod Refusals
use dalm_backend.Models.{
  User, UserStatus, Uuid, embedding_status_eq, notification_type_eq, onboarding_required,
  photo_status_eq, report_target_eq, term_type_eq, user_status_eq, validation_status_eq,
}
use dalm_backend.Prelude.{
  Bool, Option, String, false, if◌then◌else◌, nat_eq, none, option_eq, some, string_eq, true, ◌==◌,
}
use dalm_backend.Store.{
  Action, Code, Db, Env, Result, api_error, err, ok, pure, request, ◌>>=◌, ◌>>◌,
}
use dalm_backend.TokenStore.{Active}
use dalm_backend.Tokens.{Jwt, TokenPair, TokenSettings, issue_pair}
use dalm_backend.Users.{create_from_apple, create_from_kakao, get_by_apple_id, get_by_kakao_id}

pub record AuthUser : Type 0 where
  pub id : Uuid
  pub nickname : Option String
  pub status : UserStatus

pub record AuthData : Type 0 where
  pub is_new_user : Bool
  pub is_onboarding_required : Bool
  pub tokens : TokenPair
  pub user : AuthUser

-- What a login works on: the tables and the refresh tokens that are active.
pub record LoginState : Type 0 where
  pub db : Db
  pub active : Active

-- The signing library, the token settings, `str` on identifiers, and the identifiers of the tokens.
pub record LoginEnv : Type 0 where
  pub env : Env
  pub jwt : Jwt
  pub settings : TokenSettings
  pub str_of_id : Uuid → String
  pub access_id : String
  pub refresh_id : String

abbrev pub auth_data : User → Bool → TokenPair → AuthData
auth_data user is_new_user pair = record {
  is_new_user = is_new_user;
  is_onboarding_required = onboarding_required user;
  tokens = pair;
  user = record { id = user.id; nickname = user.nickname; status = user.status };
}

unfoldable pub complete_login : LoginEnv → User → Bool → LoginState → Result AuthData × LoginState
unfolding issue_pair
complete_login l user is_new_user s =
    if user.status == UserStatus.restricted
    then (err (api_error 403 Code.account_restricted), s)
    else if user.status == UserStatus.withdrawn
    then (err (api_error 403 Code.account_withdrawn), s)
    else (let (r, active) =
          issue_pair l.jwt l.settings l.env.now (l.str_of_id user.id) l.access_id l.refresh_id
            s.active in
        elim r [
          | err x ↦ (err x, record s { active = active })
          | ok pair ↦ (ok (auth_data user is_new_user pair), record s { active = active })
        ])

-- `get_by_…`, and `create_from_…` where there is no account.
abbrev pub find_or_create : Action (Option User) → Action User → Action (User × Bool)
find_or_create find create = do
  found ← find
  elim found [ some user ↦ pure (user, false) | none ↦ (do user ← create; pure (user, true)) ]

unfoldable pub login_with :
    LoginEnv → Action (Option User) → Action User → LoginState → Result AuthData × LoginState
unfolding complete_login
login_with l find create s =
    let (r, db) = request (find_or_create find create) s.db in
    elim r [
      | err x ↦ (err x, record s { db = db })
      | ok (user, is_new_user) ↦ complete_login l user is_new_user (record s { db = db })
    ]

-- The profile is what the provider answers to the caller's token.
unfoldable pub login_with_kakao :
    LoginEnv → Result String → LoginState → Result AuthData × LoginState
unfolding login_with get_by_kakao_id create_from_kakao
login_with_kakao l (err x) s = (err x, s)
login_with_kakao l (ok kakao_id) s =
    login_with l (get_by_kakao_id kakao_id) (create_from_kakao l.env kakao_id) s

unfoldable pub login_with_apple :
    LoginEnv → Result String → LoginState → Result AuthData × LoginState
unfolding login_with get_by_apple_id create_from_apple
login_with_apple l (err x) s = (err x, s)
login_with_apple l (ok apple_id) s =
    login_with l (get_by_apple_id apple_id) (create_from_apple l.env apple_id) s
