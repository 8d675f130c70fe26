-- ===== src/Http/Lists.antt =====
-- app/main.py: the handlers under /v1/reports, /v1/blocks, /v1/notifications, /v1/postcards and
-- /v1/device-tokens.
use dalm_backend.Http.Access.{App, authenticated_user_id, with_user}
use dalm_backend.Http.Cursors.{Text, decode_cursor, encode_cursor}
use dalm_backend.Inbox.{
  SettingName, get_settings, list_notifications, mark_all_read, mark_notification_read,
  register_device, update_settings,
}
use dalm_backend.Models.{
  DateTime, Notification, NotificationSetting, NotificationType, Report, ReportTarget, Uuid,
}
use dalm_backend.Pages.{Cursor, Page, map_page, page_of}
use dalm_backend.Postcards.{
  Mailbox, PostcardRow, delete_postcard, get_postcard, list_postcards, mark_postcard_read, send,
}
use dalm_backend.Prelude.{
  Bool, List, Option, String, [], false, if◌then◌else◌, is_empty, is_some, none, some, strip, true,
  ℕ, ◌∷◌,
}
use dalm_backend.Ranking.{values}
use dalm_backend.Safety.{BlockedUserRow, block, create_report, list_blocks, unblock}
use dalm_backend.Store.{Action, Code, Env, api_error, lift, pure, raise_if, ◌>>=◌, ◌>>◌}
use dalm_backend.Tokens.{TokenClaims}

-- `detail.strip() if detail else None`.
abbrev pub stripped_detail : Option String → Option String
stripped_detail none = none
stripped_detail (some d) = if is_empty d then none else some (strip d)

pub record ReportForm : Type 0 where
  pub target_type : ReportTarget
  pub target_id : Uuid
  pub reason_code : String
  pub detail : Option String

unfoldable pub post_report : App → Env → TokenClaims → ReportForm → Action Report
unfolding create_report strip
post_report app e claims form = with_user app claims λ user_id. create_report e (record {
  reporter_id = user_id;
  target_type = form.target_type;
  target_id = form.target_id;
  reason_code = form.reason_code;
  detail = stripped_detail form.detail;
})

abbrev pub block_key : BlockedUserRow → Cursor
block_key b = record { at = b.blocked_at; id = b.user_id }

unfoldable pub list_blocked_users :
    App → TokenClaims → ℕ → Option Text → Action (Page BlockedUserRow Text)
unfolding list_blocks decode_cursor encode_cursor
list_blocked_users app claims size cursor = with_user app claims λ user_id. do
  decoded ← lift (decode_cursor app.codec cursor)
  rows ← list_blocks user_id size decoded
  pure (page_of (encode_cursor app.codec) block_key size rows)

unfoldable pub block_user : App → Env → TokenClaims → Uuid → Action (Unit {0})
unfolding block
block_user app e claims blocked_id = with_user app claims λ user_id. block e user_id blocked_id

unfoldable pub unblock_user : App → TokenClaims → Uuid → Action (Unit {0})
unfolding unblock
unblock_user app claims blocked_id = with_user app claims λ user_id. unblock user_id blocked_id

pub record NotificationData : Type 0 where
  pub id : Uuid
  pub type : NotificationType
  pub title : String
  pub message : String
  pub target_type : Option String
  pub target_id : Option Uuid
  pub is_read : Bool
  pub created_at : DateTime

abbrev pub notification_data : Notification → NotificationData
notification_data n = record {
  id = n.id;
  type = n.type;
  title = n.title;
  message = n.message;
  target_type = n.target_type;
  target_id = n.target_id;
  is_read = is_some n.read_at;
  created_at = n.created_at;
}

abbrev pub notification_key : Notification → Cursor
notification_key n = record { at = n.created_at; id = n.id }

pub record NotificationListData : Type 0 where
  pub notifications : Page NotificationData Text
  pub unread_count : ℕ

unfoldable pub show_notifications :
    App → TokenClaims → Bool → ℕ → Option Text → Action NotificationListData
unfolding list_notifications decode_cursor encode_cursor
show_notifications app claims unread_only size cursor = with_user app claims λ user_id. do
  decoded ← lift (decode_cursor app.codec cursor)
  found ← list_notifications user_id unread_only size decoded
  pure (record {
    notifications =
        map_page notification_data
          (page_of (encode_cursor app.codec) notification_key size found.0);
    unread_count = found.1;
  })

unfoldable pub read_one_notification : App → Env → TokenClaims → Uuid → Action NotificationData
unfolding mark_notification_read
read_one_notification app e claims id =
    with_user app claims
      λ user_id. do n ← mark_notification_read e user_id id; pure (notification_data n)

unfoldable pub read_all_notifications : App → Env → TokenClaims → Action (Unit {0})
unfolding mark_all_read
read_all_notifications app e claims = with_user app claims λ user_id. mark_all_read e user_id

pub record PostcardData : Type 0 where
  pub card : PostcardRow
  pub is_read : Bool

abbrev pub postcard_data : PostcardRow → PostcardData
postcard_data row = record { card = row; is_read = is_some row.read_at }

unfoldable pub send_postcard :
    App → Env → TokenClaims → Uuid → String → Option Uuid → Action PostcardData
unfolding send strip
send_postcard app e claims match_id text idempotency_key = do
  raise_if (is_empty (strip text)) (api_error 422 Code.invalid_postcard_content)
  user_id ← authenticated_user_id app claims
  row ← send e (record {
    user_id = user_id;
    match_id = match_id;
    content = strip text;
    idempotency_key = idempotency_key;
  })
  pure (postcard_data row)

abbrev pub postcard_key : PostcardRow → Cursor
postcard_key c = record { at = c.sent_at; id = c.id }

-- `postcard_list`, behind `list_received_postcards` and `list_sent_postcards`.
unfoldable pub postcard_list :
    App → TokenClaims → Mailbox → ℕ → Option Text → Action (Page PostcardData Text)
unfolding list_postcards decode_cursor encode_cursor
postcard_list app claims mailbox size cursor = with_user app claims λ user_id. do
  decoded ← lift (decode_cursor app.codec cursor)
  rows ← list_postcards user_id mailbox size decoded
  pure (map_page postcard_data (page_of (encode_cursor app.codec) postcard_key size rows))

unfoldable pub show_postcard : App → TokenClaims → Uuid → Action PostcardData
unfolding get_postcard
show_postcard app claims id =
    with_user app claims λ user_id. do row ← get_postcard user_id id; pure (postcard_data row)

unfoldable pub remove_postcard : App → Env → TokenClaims → Uuid → Action (Unit {0})
unfolding delete_postcard
remove_postcard app e claims id = with_user app claims λ user_id. delete_postcard e user_id id

unfoldable pub read_postcard : App → Env → TokenClaims → Uuid → Action PostcardData
unfolding mark_postcard_read
read_postcard app e claims id =
    with_user app claims
      λ user_id. do row ← mark_postcard_read e user_id id; pure (postcard_data row)

unfoldable pub register_device_token : App → Env → TokenClaims → String → String → Action (Unit {0})
unfolding register_device strip
register_device_token app e claims token platform = do
  raise_if (is_empty (strip token)) (api_error 422 Code.invalid_device_token)
  user_id ← authenticated_user_id app claims
  register_device e user_id (strip token) platform

unfoldable pub get_notification_settings : App → TokenClaims → Action NotificationSetting
unfolding get_settings
get_notification_settings app claims = with_user app claims λ user_id. get_settings user_id

abbrev pub has_no_values : List (SettingName × Bool) → Bool
has_no_values [] = true
has_no_values (v ∷ vs) = false

unfoldable pub update_notification_settings :
    App → TokenClaims → List (SettingName × Bool) → Action NotificationSetting
unfolding update_settings
update_notification_settings app claims values = do
  raise_if (has_no_values values) (api_error 422 Code.empty_notification_settings)
  user_id ← authenticated_user_id app claims
  update_settings user_id values
