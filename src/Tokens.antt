-- ===== src/Tokens.antt =====
-- app/tokens.py `TokenService`: the signed pairs of an access and a refresh token. The signing
-- library is a parameter.
pub mod Rotation
use dalm_backend.Models.{
  DateTime, embedding_status_eq, notification_type_eq, photo_status_eq, report_target_eq, seconds,
  term_type_eq, user_status_eq, validation_status_eq,
}
use dalm_backend.Prelude.{
  Bool, String, false, if◌then◌else◌, nat_eq, option_eq, string_eq, true, ℕ, ◌+◌, ◌==◌,
}
use dalm_backend.Store.{Code, Error, Result, api_error, err, ok}
use dalm_backend.TokenStore.{Active, register, revoke, rotate}

pub data TokenType : Type 0 where
  access refresh : TokenType

pub record Payload : Type 0 where
  pub sub : String
  pub jti : String
  pub type : String
  pub iat : DateTime
  pub exp : DateTime

-- What `jwt.decode` does: it returns a payload, or raises `ExpiredSignatureError` or another
-- `InvalidTokenError`.
pub data Decoded : Type 0 where
  payload : Payload → Decoded
  expired_signature invalid_token : Decoded

-- PyJWT under the secret and the algorithm of the settings: `encode`, and `decode` at a time with and
-- without the check of `exp`.
pub record Jwt : Type 0 where
  pub encode : Payload → String
  pub decode : DateTime → Bool → String → Decoded

pub record TokenSettings : Type 0 where
  pub access_token_ttl_seconds : ℕ
  pub refresh_token_ttl_seconds : ℕ

pub record TokenClaims : Type 0 where
  pub subject : String
  pub token_id : String
  pub token_type : String

pub record TokenPair : Type 0 where
  pub access_token : String
  pub refresh_token : String
  pub expires_in : ℕ

abbrev pub type_name : TokenType → String
type_name access = "access"
type_name refresh = "refresh"

abbrev pub expired_error : TokenType → Error
expired_error access = api_error 401 Code.access_token_expired
expired_error refresh = api_error 401 Code.refresh_token_expired

abbrev pub authentication_failed : Error
authentication_failed = api_error 401 Code.authentication_failed

-- What an operation on the store returns beside the new store.
abbrev pub StoreAction : Type 0 → Type 0
StoreAction A = Active → Result A × Active

module _ (jwt : Jwt) (settings : TokenSettings) where
  unfoldable pub encode_token : DateTime → String → TokenType → ℕ → String → String
  encode_token now subject type ttl token_id = jwt.encode (record {
    sub = subject;
    jti = token_id;
    type = type_name type;
    iat = now;
    exp = now + seconds ttl;
  })

  abbrev pub claims_of : Payload → TokenClaims
  claims_of p = record { subject = p.sub; token_id = p.jti; token_type = p.type }

  -- The handler of `ExpiredSignatureError`: the payload is read once more without its expiry.
  abbrev pub decode_expired : TokenType → Decoded → Result TokenClaims
  decode_expired t (payload p) =
      if p.type == type_name t then err (expired_error t) else err authentication_failed
  decode_expired t expired_signature = err authentication_failed
  decode_expired t invalid_token = err authentication_failed

  unfoldable pub decode_token : DateTime → String → TokenType → Result TokenClaims
  decode_token now token expected = elim (jwt.decode now true token) [
    | payload p ↦
        if p.type == type_name expected then ok (claims_of p) else err authentication_failed
    | expired_signature ↦ decode_expired expected (jwt.decode now false token)
    | invalid_token ↦ err authentication_failed
  ]

  -- The pair, and the identifier of its refresh token; the two identifiers are drawn by `uuid4`.
  unfoldable pub new_pair : DateTime → String → String → String → TokenPair × String
  unfolding encode_token
  new_pair now subject access_id refresh_id = (
    record {
      access_token = encode_token now subject access settings.access_token_ttl_seconds access_id;
      refresh_token =
          encode_token now subject refresh settings.refresh_token_ttl_seconds refresh_id;
      expires_in = settings.access_token_ttl_seconds;
    },
    refresh_id,
  )

  unfoldable pub issue_pair : DateTime → String → String → String → StoreAction TokenPair
  unfolding new_pair
  issue_pair now subject access_id refresh_id active =
      let (pair, id) = new_pair now subject access_id refresh_id in
      (ok pair, register id subject active)

  -- `TokenService.rotate`.
  unfoldable pub rotate_pair : DateTime → String → String → String → StoreAction TokenPair
  unfolding new_pair decode_token
  rotate_pair now refresh_token access_id refresh_id active =
      elim (decode_token now refresh_token refresh) [
        | err x ↦ (err x, active)
        | ok claims ↦
            let (pair, id) = new_pair now claims.subject access_id refresh_id in
            let (rotated, active') = rotate claims.token_id id claims.subject active in
            (if rotated then ok pair else err authentication_failed, active')
      ]

  -- `TokenService.revoke`.
  unfoldable pub revoke_token : DateTime → String → String → StoreAction (Unit {0})
  unfolding decode_token
  revoke_token now refresh_token expected_subject active =
      elim (decode_token now refresh_token refresh) [
        | err x ↦ (err x, active)
        | ok claims ↦
            if claims.subject == expected_subject
            then (let (revoked, active') = revoke claims.token_id claims.subject active in
                (if revoked then ok tt else err authentication_failed, active'))
            else (err authentication_failed, active)
      ]
