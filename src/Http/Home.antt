-- ===== src/Http/Home.antt =====
-- app/main.py `get_home`: what the home screen shows.
use mathlib.Core.Option
use dalm_backend.Http.Access.{App, with_user}
use dalm_backend.Http.Days.{shown_search_day}
use dalm_backend.MatchViews.{MatchCardRow, get_next_unviewed_match}
use dalm_backend.Models.{
  Date, DateTime, Photo, PhotoStatus, Uuid, embedding_status_eq, notification_type_eq,
  photo_status_eq, report_target_eq, term_type_eq, user_status_eq, validation_status_eq,
}
use dalm_backend.Photos.{get_today_photo, is_closed, list_searching_photos}
use dalm_backend.Prelude.{
  Bool, List, Option, String, [], if◌then◌else◌, map, nat_eq, none, option_eq, some, string_eq,
  take, true, ℕ, ◌==◌, ◌||◌, ◌∷◌,
}
use dalm_backend.Store.{Action, Env, pure, ◌>>=◌}
use dalm_backend.Tokens.{TokenClaims}

pub data HomeState : Type 0 where
  empty today_available_with_history today_searching previous_matched today_matched : HomeState

pub record HomePhotoSummary : Type 0 where
  pub id : Uuid
  pub image_url : String
  pub captured_at : DateTime
  pub search_day : ℕ

pub record HomeMatchSummary : Type 0 where
  pub id : Uuid
  pub photo_id : Uuid
  pub photo_image_url : String
  pub matched_at : DateTime

pub record HomeData : Type 0 where
  pub date : Date
  pub state : HomeState
  pub can_upload_today : Bool
  pub today_photo : Option HomePhotoSummary
  pub searching_photos : List HomePhotoSummary
  pub new_match : Option HomeMatchSummary

-- `status in {"REJECTED", "DELETED"}`.
abbrev pub can_upload : Option Photo → Bool
can_upload none = true
can_upload (some p) = is_closed p

abbrev pub photo_summary : ℕ → Photo → HomePhotoSummary
photo_summary day p = record {
  id = p.id;
  image_url = p.image_url;
  captured_at = p.registered_at;
  search_day = day;
}

abbrev pub today_summary : DateTime → Photo → HomePhotoSummary
today_summary now p =
    photo_summary
      (if p.status == PhotoStatus.searching then shown_search_day now p.search_expires_at else 1) p

abbrev pub active_today : DateTime → Option Photo → Option HomePhotoSummary
active_today now none = none
active_today now (some p) = if is_closed p then none else some (today_summary now p)

abbrev pub match_summary : MatchCardRow → HomeMatchSummary
match_summary row = record {
  id = row.match_id;
  photo_id = row.my_photo_id;
  photo_image_url = row.partner_image_url;
  matched_at = row.matched_at;
}

-- The state of the screen without an active photo of today.
abbrev pub idle_state : Option HomeMatchSummary → List HomePhotoSummary → HomeState
idle_state (some m) searching = HomeState.previous_matched
idle_state none (p ∷ ps) = HomeState.today_available_with_history
idle_state none [] = HomeState.empty

unfoldable pub home_state :
    Option Photo → Option HomeMatchSummary → List HomePhotoSummary → HomeState
home_state none new_match searching = idle_state new_match searching
home_state (some p) new_match searching =
    if p.status == PhotoStatus.matched
    then HomeState.today_matched
    else if p.status == PhotoStatus.validating || p.status == PhotoStatus.searching
    then HomeState.today_searching
    else idle_state new_match searching

abbrev pub home_data : DateTime → Date → Option Photo → List Photo → Option MatchCardRow → HomeData
home_data now today_date photo searching row =
    let summaries =
      map (λ p. photo_summary (shown_search_day now p.search_expires_at) p) (take 3 searching) in
    let new_match = Option.map match_summary row in
    record {
      date = today_date;
      state = home_state photo new_match summaries;
      can_upload_today = can_upload photo;
      today_photo = active_today now photo;
      searching_photos = summaries;
      new_match = new_match;
    }

unfoldable pub get_home : App → Env → TokenClaims → Action HomeData
unfolding get_today_photo list_searching_photos get_next_unviewed_match home_state shown_search_day
get_home app e claims = with_user app claims λ user_id. do
  photo ← get_today_photo e user_id (app.seoul_date e.now)
  searching ← list_searching_photos user_id (app.seoul_date e.now) true 3 none
  unviewed ← get_next_unviewed_match user_id (app.seoul_date e.now)
  pure (home_data e.now (app.seoul_date e.now) photo searching unviewed.0)
