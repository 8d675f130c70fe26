-- ===== src/Http/Gallery.antt =====
-- app/main.py: the handlers that show a user's photos.
use mathlib.Core.Option
use dalm_backend.Http.Access.{App, authenticated_user_id, with_user}
use dalm_backend.Http.Days.{remaining_days}
use dalm_backend.MatchViews.{MatchCardRow, get_match_card_for_photo}
use dalm_backend.Models.{
  DateTime, Photo, PhotoStatus, Uuid, embedding_status_eq, notification_type_eq, photo_status_eq,
  report_target_eq, term_type_eq, user_status_eq, validation_status_eq,
}
use dalm_backend.Photos.{can_access_photo, get_today_photo}
use dalm_backend.Prelude.{
  Bool, Option, String, if◌then◌else◌, is_empty, is_some, nat_eq, none, not, option_eq, some,
  string_eq, true, ℕ, ◌==◌,
}
use dalm_backend.Store.{
  Action, Code, Env, Result, api_error, get_photo, lift, or_raise, pure, query, raise_if, ◌>>=◌,
  ◌>>◌,
}
use dalm_backend.Tokens.{TokenClaims}

pub record PhotoRejection : Type 0 where
  pub code : String
  pub message : String

-- `value or default`.
abbrev pub or_default : Option String → String → String
or_default none d = d
or_default (some s) d = if is_empty s then d else s

unfoldable pub from_photo_status :
    PhotoStatus → Option String → Option String → Option PhotoRejection
from_photo_status status code message =
    if not (status == PhotoStatus.rejected)
    then none
    else some (record {
      code = or_default code "VALIDATION_FAILED";
      message = or_default message "사진을 확인하지 못했습니다. 잠시 후 다시 등록해주세요.";
    })

pub record TodayPhoto : Type 0 where
  pub id : Uuid
  pub status : PhotoStatus
  pub image_url : String
  pub ai_title : Option String
  pub registered_at : DateTime
  pub search_expires_at : Option DateTime
  pub remaining : Option ℕ
  pub rejection : Option PhotoRejection
  pub match_id : Option Uuid
  pub partner_image_url : Option String
  pub matched_at : Option DateTime

abbrev pub shown_days : DateTime → PhotoStatus → Option DateTime → Option ℕ
shown_days now status expires_at =
    if status == PhotoStatus.searching then remaining_days now expires_at else none

abbrev pub today_photo_data : DateTime → Photo → Option MatchCardRow → TodayPhoto
today_photo_data now p card = record {
  id = p.id;
  status = p.status;
  image_url = p.image_url;
  ai_title = p.ai_title;
  registered_at = p.registered_at;
  search_expires_at = p.search_expires_at;
  remaining = shown_days now p.status p.search_expires_at;
  rejection = from_photo_status p.status p.rejection_code p.rejection_message;
  match_id = Option.map (λ c. c.match_id) card;
  partner_image_url = Option.map (λ c. c.partner_image_url) card;
  matched_at = Option.map (λ c. c.matched_at) card;
}

-- The card of the match, for a photo that has matched.
abbrev pub card_of : Uuid → Photo → Action (Option MatchCardRow)
card_of user_id p =
    if p.status == PhotoStatus.matched then get_match_card_for_photo user_id p.id else pure none

pub record TodayPhotoData : Type 0 where
  pub can_register : Bool
  pub photo : Option TodayPhoto

unfoldable pub show_today_photo : App → Env → TokenClaims → Action TodayPhotoData
unfolding get_today_photo get_match_card_for_photo from_photo_status remaining_days
show_today_photo app e claims = with_user app claims λ user_id. do
  found ← get_today_photo e user_id (app.seoul_date e.now)
  elim found [
    | none ↦ pure (record { can_register = true; photo = none })
    | some p ↦ (do
      card ← card_of user_id p
      pure (record {
        can_register = p.status == PhotoStatus.rejected;
        photo = some (today_photo_data e.now p card);
      }))
  ]

unfoldable pub show_photo : App → Env → TokenClaims → Uuid → Action TodayPhoto
unfolding get_match_card_for_photo from_photo_status remaining_days
show_photo app e claims photo_id = with_user app claims λ user_id. do
  found ← query (get_photo photo_id)
  p ← or_raise found (api_error 404 Code.photo_not_found)
  raise_if (p.status == PhotoStatus.deleted) (api_error 404 Code.photo_not_found)
  raise_if (not (p.user_id == user_id)) (api_error 403 Code.photo_not_owned)
  card ← card_of user_id p
  pure (today_photo_data e.now p card)

-- The key of the stored image, where the photo is there and has one.
abbrev pub image_key : Option Photo → Option String
image_key none = none
image_key (some p) = if is_some p.deleted_at then none else p.storage_key

-- `get_photo_image`: the address that it redirects to, by a storage that signs one.
unfoldable pub get_photo_image :
    App → (String → ℕ → Result String) → TokenClaims → Uuid → Action String
unfolding can_access_photo
get_photo_image app signed_url claims photo_id = do
  found ← query (get_photo photo_id)
  key ← or_raise (image_key found) (api_error 404 Code.photo_not_found)
  user_id ← authenticated_user_id app claims
  allowed ← can_access_photo user_id photo_id
  raise_if (not allowed) (api_error 403 Code.photo_access_denied)
  lift (signed_url key app.settings.photo_signed_url_ttl_seconds)
