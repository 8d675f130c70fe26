-- ===== src/Http/Accounts.antt =====
-- app/main.py: the handlers under /v1/users.
pub mod Leaving
use dalm_backend.Http.Access.{App, authenticated_user_id, with_user}
use dalm_backend.Models.{DateTime, User, UserStatus, Uuid, onboarding_required}
use dalm_backend.Prelude.{
  Bool, Option, String, if◌then◌else◌, is_empty, is_none, is_some, leb, none, not, some, strip,
  text_length, ℕ, ◌&&◌, ◌||◌,
}
use dalm_backend.Store.{
  Action, Code, Db, Env, Result, api_error, err, lift, ok, or_raise, pure, raise_if, request, ◌>>=◌,
  ◌>>◌,
}
use dalm_backend.TokenStore.{Active, revoke_all}
use dalm_backend.Tokens.{TokenClaims}
use dalm_backend.Users.{
  complete_onboarding, get_by_id, get_stats, is_withdrawn, update_profile, withdraw,
}

unfoldable pub normalized_nickname : String → Result String
unfolding strip text_length
normalized_nickname value =
    let nickname = strip value in
    if leb 2 (text_length nickname) && leb (text_length nickname) 12
    then ok nickname
    else err (api_error 422 Code.invalid_nickname)

unfoldable pub normalized_bio : Option String → Result (Option String)
unfolding strip text_length
normalized_bio none = ok none
normalized_bio (some value) =
    let bio = strip value in
    if leb (text_length bio) 100
    then ok (if is_empty bio then none else some bio)
    else err (api_error 422 Code.invalid_bio)

-- `normalized_nickname(nickname) if nickname is not None else None`.
abbrev pub normalized_name : Option String → Result (Option String)
normalized_name none = ok none
normalized_name (some value) = elim (normalized_nickname value) [
  | ok nickname ↦ ok (some nickname)
  | err e ↦ err e
]

pub record UserStats : Type 0 where
  pub photo_count : ℕ
  pub match_count : ℕ
  pub received_postcard_count : ℕ

pub record UserProfile : Type 0 where
  pub id : Uuid
  pub nickname : Option String
  pub profile_image_url : Option String
  pub bio : Option String
  pub status : UserStatus
  pub stats : UserStats
  pub created_at : DateTime

unfoldable pub user_profile : User → Action UserProfile
unfolding get_stats
user_profile user = do
  counts ← get_stats user.id
  pure (record {
    id = user.id;
    nickname = user.nickname;
    profile_image_url = none;
    bio = user.bio;
    status = user.status;
    stats = record {
      photo_count = counts.0;
      match_count = counts.1;
      received_postcard_count = counts.2;
    };
    created_at = user.created_at;
  })

pub record OnboardingForm : Type 0 where
  pub nickname : String
  pub service_terms_agreed : Bool
  pub privacy_policy_agreed : Bool
  pub age_14_confirmed : Bool
  pub has_profile_image : Bool
  pub bio : Option String
  pub marketing_agreed : Bool
  pub service_terms_version : String
  pub privacy_policy_version : String

unfoldable pub onboard : App → Env → TokenClaims → OnboardingForm → Action UserProfile
unfolding complete_onboarding user_profile normalized_nickname normalized_bio authenticated_user_id
onboard app e claims form = do
  raise_if form.has_profile_image (api_error 503 Code.profile_image_storage_not_configured)
  raise_if (not (form.service_terms_agreed && form.privacy_policy_agreed && form.age_14_confirmed))
      (api_error 422 Code.required_terms_not_agreed)
  user_id ← authenticated_user_id app claims
  nickname ← lift (normalized_nickname form.nickname)
  bio ← lift (normalized_bio form.bio)
  user ← complete_onboarding e user_id (record {
    nickname = nickname;
    bio = bio;
    marketing_agreed = form.marketing_agreed;
    service_terms_version = form.service_terms_version;
    privacy_policy_version = form.privacy_policy_version;
  })
  user_profile user

unfoldable pub get_my_profile : App → TokenClaims → Action UserProfile
unfolding get_by_id user_profile
get_my_profile app claims = with_user app claims λ user_id. do
  found ← get_by_id user_id
  user ← or_raise found (api_error 404 Code.user_not_found)
  raise_if (is_withdrawn user) (api_error 404 Code.user_not_found)
  raise_if (onboarding_required user) (api_error 409 Code.onboarding_required)
  user_profile user

pub record ProfileForm : Type 0 where
  pub nickname : Option String
  pub bio : Option String
  pub has_profile_image : Bool
  pub remove_profile_image : Bool

unfoldable pub update_my_profile : App → Env → TokenClaims → ProfileForm → Action UserProfile
unfolding update_profile user_profile normalized_nickname normalized_bio
update_my_profile app e claims form = do
  raise_if (form.has_profile_image || form.remove_profile_image)
      (api_error 503 Code.profile_image_storage_not_configured)
  raise_if (is_none form.nickname && is_none form.bio) (api_error 422 Code.empty_profile_update)
  user_id ← authenticated_user_id app claims
  nickname ← lift (normalized_name form.nickname)
  bio ← lift (normalized_bio form.bio)
  user ←
      update_profile e user_id
        (record { nickname = nickname; bio = bio; update_bio = is_some form.bio })
  user_profile user

-- The account is withdrawn, and then its refresh tokens are revoked; a withdrawal that fails
-- leaves them.
abbrev pub revoke_after : String → Active → Result (Unit {0}) × Db → Result (Unit {0}) × Db × Active
revoke_after subject active (err x, db) = (err x, db, active)
revoke_after subject active (ok _, db) = (ok tt, db, (revoke_all subject active).1)

unfoldable pub withdraw_my_account :
    App → Env → TokenClaims → Db → Active → Result (Unit {0}) × Db × Active
unfolding withdraw authenticated_user_id
withdraw_my_account app e claims db active =
    revoke_after claims.subject active (request (with_user app claims (withdraw e)) db)
