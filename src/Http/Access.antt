-- ===== src/Http/Access.antt =====
-- app/config.py, app/dependencies.py and app/main.py: the settings, and who may call what.
use dalm_backend.Http.Cursors.{Codec}
use dalm_backend.Models.{
  Date, DateTime, Uuid, embedding_status_eq, notification_type_eq, photo_status_eq,
  report_target_eq, term_type_eq, user_status_eq, validation_status_eq,
}
use dalm_backend.Prelude.{
  Bool, Option, String, if◌then◌else◌, nat_eq, none, not, option_eq, some, string_eq, ℕ, ◌==◌,
}
use dalm_backend.Store.{Action, Code, Result, api_error, err, lift, ok, or_raise, ◌>>=◌, ◌>>◌}
use dalm_backend.Tokens.{Jwt, TokenClaims, TokenSettings, TokenType, decode_token}

-- The settings that the handlers read.
pub record Settings : Type 0 where
  pub photo_max_bytes : ℕ
  pub photo_min_width : ℕ
  pub photo_min_height : ℕ
  pub photo_signed_url_ttl_seconds : ℕ
  pub internal_api_key : Option String
  pub mock_validation_on_upload : Bool
  pub validation_max_attempts : ℕ
  pub validation_retry_base_seconds : ℕ
  pub validation_lease_seconds : ℕ

-- What the handlers rest on: the settings, the cursors' formats, `UUID` on a token's subject, `str`
-- on an identifier, and the date in Seoul at a time.
pub record App : Type 0 where
  pub settings : Settings
  pub codec : Codec
  pub parse_subject : String → Option Uuid
  pub str_of_id : Uuid → String
  pub seoul_date : DateTime → Date

unfoldable pub verify_internal_key : Option String → Option String → Result (Unit {0})
verify_internal_key none key = err (api_error 503 Code.internal_api_not_configured)
verify_internal_key (some expected) none = err (api_error 401 Code.invalid_internal_api_key)
verify_internal_key (some expected) (some key) =
    if key == expected then ok tt else err (api_error 401 Code.invalid_internal_api_key)

unfoldable pub authenticated_user_id : App → TokenClaims → Action Uuid
authenticated_user_id app claims =
    or_raise (app.parse_subject claims.subject) (api_error 401 Code.invalid_access_token)

-- The credentials of an Authorization header.
pub record Credentials : Type 0 where
  pub scheme : String
  pub credentials : String

-- `str.lower` is a parameter.
unfoldable pub require_access_token :
    Jwt → TokenSettings → (String → String) → DateTime → Option Credentials → Result TokenClaims
require_access_token jwt settings lower now none = err (api_error 401 Code.authentication_required)
require_access_token jwt settings lower now (some c) =
    if not (lower c.scheme == "bearer")
    then err (api_error 401 Code.authentication_required)
    else decode_token jwt settings now c.credentials TokenType.access

-- A handler behind the internal key.
abbrev pub with_key : {A : Type 0} → App → Option String → Action A → Action A
with_key app key handler = do lift (verify_internal_key app.settings.internal_api_key key); handler

-- A handler of the user that the token names.
abbrev pub with_user : {A : Type 0} → App → TokenClaims → (Uuid → Action A) → Action A
with_user app claims handler = do user_id ← authenticated_user_id app claims; handler user_id
