-- ===== src/Http/Matched.antt =====
-- app/main.py: the handlers under /v1/moments and /v1/matches.
use dalm_backend.Http.Access.{App, with_user}
use dalm_backend.Http.Cursors.{Text, decode_cursor, encode_cursor}
use dalm_backend.Http.Days.{remaining_days}
use dalm_backend.Http.Gallery.{shown_days}
use dalm_backend.MatchViews.{
  MatchCardRow, MatchDetailRow, get_match_detail, get_next_unviewed_match, mark_match_viewed,
  update_match_visibility,
}
use dalm_backend.Models.{DateTime, Uuid}
use dalm_backend.Moments.{MomentCounts, MomentFilter, MomentRow, count_moments, list_moments}
use dalm_backend.Pages.{Cursor, Page, map_page, page_of}
use dalm_backend.Postcards.{Permission}
use dalm_backend.Prelude.{Bool, Option, String, ℕ}
use dalm_backend.Store.{Action, Code, Env, api_error, lift, or_raise, pure, ◌>>=◌}
use dalm_backend.Tokens.{TokenClaims}

pub record MomentPhoto : Type 0 where
  pub moment : MomentRow
  pub remaining : Option ℕ

pub record MomentListData : Type 0 where
  pub moments : Page MomentPhoto Text
  pub counts : MomentCounts

abbrev pub moment_key : MomentRow → Cursor
moment_key m = record { at = m.registered_at; id = m.photo_id }

abbrev pub moment_photo : DateTime → MomentRow → MomentPhoto
moment_photo now m = record { moment = m; remaining = shown_days now m.status m.search_expires_at }

unfoldable pub show_moments :
    App → Env → TokenClaims → MomentFilter → Bool → ℕ → Option Text → Action MomentListData
unfolding list_moments count_moments decode_cursor encode_cursor remaining_days
show_moments app e claims filter exclude_today size cursor = with_user app claims λ user_id. do
  decoded ← lift (decode_cursor app.codec cursor)
  rows ← list_moments user_id filter (app.seoul_date e.now) exclude_today size decoded
  counts ← count_moments user_id (app.seoul_date e.now) exclude_today
  pure (record {
    moments =
        map_page (moment_photo e.now) (page_of (encode_cursor app.codec) moment_key size rows);
    counts = counts;
  })

pub record UnviewedMatchData : Type 0 where
  pub unviewed : Option MatchCardRow
  pub unviewed_match_count : ℕ

unfoldable pub show_unviewed_match : App → Env → TokenClaims → Action UnviewedMatchData
unfolding get_next_unviewed_match
show_unviewed_match app e claims = with_user app claims λ user_id. do
  found ← get_next_unviewed_match user_id (app.seoul_date e.now)
  pure (record { unviewed = found.0; unviewed_match_count = found.1 })

unfoldable pub view_match : App → Env → TokenClaims → Uuid → Action (Uuid × DateTime)
unfolding mark_match_viewed
view_match app e claims match_id = with_user app claims λ user_id. do
  found ← mark_match_viewed e user_id match_id
  viewed_at ← or_raise found (api_error 404 Code.match_not_found)
  pure (match_id, viewed_at)

pub record MatchedPhoto : Type 0 where
  pub id : Uuid
  pub image_url : String
  pub registered_at : DateTime
  pub deleted : Bool

pub record MatchPartner : Type 0 where
  pub id : Uuid
  pub nickname : String

pub record MatchDetailData : Type 0 where
  pub id : Uuid
  pub my_photo : MatchedPhoto
  pub partner_photo : MatchedPhoto
  pub match_partner : MatchPartner
  pub explanation : String
  pub matched_at : DateTime
  pub is_hidden_match : Bool
  pub postcard_permission : Permission

abbrev pub match_detail_data : MatchDetailRow → MatchDetailData
match_detail_data row = record {
  id = row.match_id;
  my_photo = record {
    id = row.my_photo_id;
    image_url = row.my_image_url;
    registered_at = row.my_registered_at;
    deleted = row.my_deleted;
  };
  partner_photo = record {
    id = row.partner_photo_id;
    image_url = row.partner_image_url;
    registered_at = row.partner_registered_at;
    deleted = row.partner_deleted;
  };
  match_partner = record { id = row.partner_id; nickname = row.partner_nickname };
  explanation = row.explanation;
  matched_at = row.matched_at;
  is_hidden_match = row.hidden;
  postcard_permission = row.postcard_permission;
}

unfoldable pub get_match : App → TokenClaims → Uuid → Action MatchDetailData
unfolding get_match_detail
get_match app claims match_id = with_user app claims λ user_id. do
  found ← get_match_detail user_id match_id
  row ← or_raise found (api_error 404 Code.match_not_found)
  pure (match_detail_data row)

unfoldable pub change_visibility : App → Env → TokenClaims → Uuid → Bool → Action (Uuid × Bool)
unfolding update_match_visibility
change_visibility app e claims match_id hide = with_user app claims λ user_id. do
  found ← update_match_visibility e user_id match_id hide
  hidden_now ← or_raise found (api_error 404 Code.match_not_found)
  pure (match_id, hidden_now)
