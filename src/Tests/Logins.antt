-- ===== src/Tests/Logins.antt =====
-- Refresh tokens, with a signing library that knows one token.
use dalm_backend.Login.{LoginEnv, LoginState, complete_login, login_with, login_with_kakao}
use dalm_backend.Login.Refusals.{LoginEnds, login_with_kakao_lem}
use dalm_backend.Models.{
  DateTime, User, UserStatus, embedding_status_eq, notification_type_eq, photo_status_eq,
  report_target_eq, term_type_eq, user_status_eq, validation_status_eq,
}
use dalm_backend.Prelude.{
  Bool, String, [], ap, arith, eq_iff, false, if◌then◌else◌, leb, length, nat_eq, none, option_eq,
  refl, some, string_eq, sym, true, ◌==◌, ◌∙◌, ◌∷◌, ◌≡◌, ◌≢◌, ◌⊎◌,
}
use dalm_backend.Store.{Code, Db, Result, api_error, err, is_ok, ok, request, satisfies_constraints}
use dalm_backend.Tests.Fixtures.{empty_db, env, member}
use dalm_backend.TokenStore.{Active, insert, lookup, owned, register, revoke_all, rotate}
use dalm_backend.TokenStore.Laws.{IsDict, revoke_all_lem, rotate_lem}
use dalm_backend.Tokens.{
  Decoded, Jwt, Payload, TokenClaims, TokenPair, TokenSettings, decode_token, encode_token,
  expired_signature, invalid_token, issue_pair, new_pair, payload, refresh, rotate_pair,
}
use dalm_backend.Tokens.Rotation.{IsStable, rotate_pair_once}
use dalm_backend.Users.{create_from_kakao, create_or_find, get_by_kakao_id}
use dalm_backend.Users.SignUp.{create_from_kakao_again}

abbrev signed : Payload
signed = record { sub = "u"; jti = "r1"; type = "refresh"; iat = 0; exp = 1000 }

abbrev read : DateTime → Bool → Decoded
read t true = if leb 1000 t then expired_signature else payload signed
read t false = payload signed

abbrev toy_jwt : Jwt
toy_jwt = record {
  encode = λ p. "T";
  decode = λ t check token. if token == "T" then read t check else invalid_token;
}

read-signed : (t : DateTime) (b : Bool) (p : Payload) → read t b ≡ payload p → p ≡ signed
read-signed t true p h = ground arith
read-signed t false p h = ground arith

decode_signed :
    (token : String) (t : DateTime) (b : Bool) (p : Payload)
    → toy_jwt.decode t b token ≡ payload p
    → p ≡ signed
decode_signed token t b p h = ground (arith, read-signed t b p)

toy_jwt-IsStable : IsStable toy_jwt
toy_jwt-IsStable token t t' b b' p p' h h' =
    decode_signed token t b p h ∙ sym (decode_signed token t' b' p' h')

abbrev settings : TokenSettings
settings = record { access_token_ttl_seconds = 900; refresh_token_ttl_seconds = 86_400 }

abbrev logged_in : Active
logged_in = ("r1", "u") ∷ ("r9", "v") ∷ []

abbrev new_tokens : TokenPair
new_tokens = record { access_token = "T"; refresh_token = "T"; expires_in = 900 }

rotated_once : (rotate_pair toy_jwt settings 10 "T" "a2" "r2" logged_in).0 ≡ ok new_tokens
unfolding rotate_pair decode_token new_pair encode_token rotate lookup
rotated_once = refl

abbrev token_of : Result TokenClaims → String
token_of (ok c) = c.token_id
token_of (err x) = ""

fresh_identifier :
    (c : TokenClaims) → decode_token toy_jwt settings 10 "T" refresh ≡ ok c → c.token_id ≢ "r2"
unfolding decode_token
fresh_identifier c h e = let k : "r1" ≡ "r2" = ap token_of h ∙ e in ground (arith, eq_iff "r1" "r2")

abbrev after_rotation : Active
after_rotation = (rotate_pair toy_jwt settings 10 "T" "a2" "r2" logged_in).1

rotate_pair_once_example :
    (is_ok (rotate_pair toy_jwt settings 20 "T" "a3" "r3" after_rotation).0 ≡ false)
    × ((rotate_pair toy_jwt settings 20 "T" "a3" "r3" after_rotation).1 ≡ after_rotation)
rotate_pair_once_example =
    rotate_pair_once toy_jwt settings 10 20 "T" "a2" "r2" "a3" "r3" logged_in new_tokens
      toy_jwt-IsStable fresh_identifier rotated_once

rotate_lem_example :
    ((lookup "r1" logged_in ≡ some "u")
      × ((rotate "r1" "r2" "u" logged_in).0 ≡ true)
      × ((j : String)
          → lookup j (rotate "r1" "r2" "u" logged_in).1
            ≡ (if "r2" == j then some "u" else if "r1" == j then none else lookup j logged_in)))
    ⊎ ((lookup "r1" logged_in ≢ some "u") × (rotate "r1" "r2" "u" logged_in ≡ (false, logged_in)))
rotate_lem_example = rotate_lem "r1" "r2" "u" logged_in

logged_in-IsDict : IsDict logged_in
unfolding lookup
logged_in-IsDict = (refl, (refl, tt))

revoke_all_lem_example :
    ((revoke_all "u" logged_in).0 ≡ length (owned "u" logged_in))
    × ((j : String)
        → lookup j (revoke_all "u" logged_in).1
          ≡ (if lookup j logged_in == some "u" then none else lookup j logged_in))
revoke_all_lem_example = revoke_all_lem "u" logged_in logged_in-IsDict

abbrev kakao_user : User
kakao_user = record (member 1 "가") { kakao_id = some "k" }

abbrev kakao_db : Db
kakao_db = record empty_db { users = kakao_user ∷ member 2 "나" ∷ [] }

create_from_kakao_again_example :
    request (create_from_kakao (env 9 900) "k") kakao_db ≡ (ok kakao_user, kakao_db)
create_from_kakao_again_example = create_from_kakao_again (env 9 900) "k" kakao_user kakao_db refl

abbrev login_env : LoginEnv
login_env = record {
  env = env 100 1000;
  jwt = toy_jwt;
  settings = record { access_token_ttl_seconds = 1_800; refresh_token_ttl_seconds = 3_600 };
  str_of_id = λ id. "u";
  access_id = "a1";
  refresh_id = "r1";
}

abbrev logged_out : LoginState
logged_out = record { db = empty_db; active = [] }

login_with_kakao_example :
    LoginEnds login_env (ok "k1") logged_out (login_with_kakao login_env (ok "k1") logged_out)
login_with_kakao_example = login_with_kakao_lem login_env (ok "k1") logged_out

-- A first login makes an account and one refresh token.
first_login : (login_with_kakao login_env (ok "k1") logged_out).1.active ≡ ("r1", "u") ∷ []
unfolding login_with_kakao login_with complete_login get_by_kakao_id create_from_kakao
    create_or_find issue_pair register insert satisfies_constraints
first_login = refl

-- A restricted account gets no token.
abbrev restricted_state : LoginState
restricted_state = record {
  db = record empty_db {
    users = record (member 1 "가") { kakao_id = some "k1"; status = UserStatus.restricted } ∷ [];
  };
  active = [];
}

restricted_login :
    login_with_kakao login_env (ok "k1") restricted_state
    ≡ (err (api_error 403 Code.account_restricted), restricted_state)
unfolding login_with_kakao login_with complete_login get_by_kakao_id
restricted_login = refl
