-- ===== src/Inbox.antt =====
-- app/repositories.py `NotificationRepository` and `NotificationPreferenceRepository`: the user's
-- notifications, devices and settings.
use dalm_backend.Models.{
  DateTime, DeviceToken, Notification, NotificationSetting, NotificationType, Uuid,
  embedding_status_eq, notification_type_eq, photo_status_eq, report_target_eq, term_type_eq,
  user_status_eq, validation_status_eq,
}
use dalm_backend.Notifications.{add_notification, new_notification}
use dalm_backend.Pages.{Cursor, behind}
use dalm_backend.Prelude.{
  Bool, List, Option, String, [], head?, if◌then◌else◌, is_none, leb, length, ltb, nat_eq, none,
  not, option_eq, order_by, select, some, string_eq, take, true, update_where, ℕ, ◌&&◌, ◌++◌, ◌+◌,
  ◌==◌, ◌||◌, ◌∷◌,
}
use dalm_backend.Ranking.{values}
use dalm_backend.Store.{
  Action, Code, Env, api_error, commit, modify, or_raise, pure, query, scalar_one_or_none, ◌>>=◌,
  ◌>>◌,
}

unfoldable pub create_notification :
    Env
    → Uuid
    → NotificationType
    → String
    → String
    → Option String
    → Option Uuid
    → Action Notification
create_notification e user_id type title message target_type target_id = do
  modify (
      add_notification
        (new_notification e (e.uuid4 0) user_id type title message target_type target_id))
  commit
  pure (new_notification e (e.uuid4 0) user_id type title message target_type target_id)

abbrev pub is_shown : Uuid → Notification → Bool
is_shown user_id n = n.user_id == user_id && is_none n.deleted_at

abbrev pub is_unread : Uuid → Notification → Bool
is_unread user_id n = is_shown user_id n && is_none n.read_at

abbrev pub notified_later : Notification → Notification → Bool
notified_later m n = ltb n.created_at m.created_at || m.created_at == n.created_at && leb n.id m.id

-- The page, one row longer than its size where more follow, and the number of unread rows.
unfoldable pub list_notifications : Uuid → Bool → ℕ → Option Cursor → Action (List Notification × ℕ)
list_notifications user_id unread_only size cursor = query λ db. (
  take (size + 1) (
      order_by notified_later (
        select
          (λ n.
            is_shown user_id n
            && (not unread_only || is_none n.read_at)
            && behind cursor n.created_at n.id)
          db.notifications)),
  length (select (is_unread user_id) db.notifications),
)

abbrev pub read_notification : DateTime → Notification → Notification
read_notification now n = record n { read_at = some now }

unfoldable pub mark_notification_read : Env → Uuid → Uuid → Action Notification
mark_notification_read e user_id notification_id = do
  rows ← query (λ db. select (λ n. n.id == notification_id && is_shown user_id n) db.notifications)
  found ← scalar_one_or_none rows
  n ← or_raise found (api_error 404 Code.notification_not_found)
  if is_none n.read_at
      then (do
        modify λ db. record db {
          notifications =
              update_where (λ m. m.id == n.id) (read_notification e.now) db.notifications;
        }
        commit
        pure (read_notification e.now n))
      else pure n

unfoldable pub mark_all_read : Env → Uuid → Action (Unit {0})
mark_all_read e user_id = do
  modify λ db. record db {
    notifications = update_where (is_unread user_id) (read_notification e.now) db.notifications;
  }
  commit

abbrev pub new_device : Env → Uuid → String → String → DeviceToken
new_device e user_id token platform = record {
  id = e.uuid4 0;
  user_id = user_id;
  token = token;
  platform = platform;
  last_used_at = e.db_now;
  created_at = e.db_now;
}

abbrev pub taken_over : Env → Uuid → String → DeviceToken → DeviceToken
taken_over e user_id platform d = record d {
  user_id = user_id;
  platform = platform;
  last_used_at = e.now;
}

unfoldable pub register_device : Env → Uuid → String → String → Action (Unit {0})
register_device e user_id token platform = do
  rows ← query (λ db. select (λ d. d.token == token) db.device_tokens)
  item ← scalar_one_or_none rows
  modify λ db. elim item [
    | none ↦ record db {
      device_tokens = db.device_tokens ++ new_device e user_id token platform ∷ [];
    }
    | some d ↦ record db {
      device_tokens =
          update_where (λ c. c.id == d.id) (taken_over e user_id platform) db.device_tokens;
    }
  ]
  commit

abbrev pub default_settings : Uuid → NotificationSetting
default_settings user_id = record {
  user_id = user_id;
  validation_enabled = true;
  match_enabled = true;
  postcard_enabled = true;
  search_expired_enabled = true;
  system_enabled = true;
}

unfoldable pub get_settings : Uuid → Action NotificationSetting
get_settings user_id = do
  found ← query (λ db. head? (select (λ s. s.user_id == user_id) db.notification_settings))
  elim found [
    | some s ↦ pure s
    | none ↦ (do
      modify λ db. record db {
        notification_settings = db.notification_settings ++ default_settings user_id ∷ [];
      }
      commit
      pure (default_settings user_id))
  ]

pub data SettingName : Type 0 where
  validation_enabled match_enabled postcard_enabled : SettingName
  search_expired_enabled system_enabled : SettingName

-- `setattr(settings, name, value)`.
abbrev pub set_setting : SettingName → Bool → NotificationSetting → NotificationSetting
set_setting SettingName.validation_enabled v s = record s { validation_enabled = v }
set_setting SettingName.match_enabled v s = record s { match_enabled = v }
set_setting SettingName.postcard_enabled v s = record s { postcard_enabled = v }
set_setting SettingName.search_expired_enabled v s = record s { search_expired_enabled = v }
set_setting SettingName.system_enabled v s = record s { system_enabled = v }

abbrev pub set_settings : List (SettingName × Bool) → NotificationSetting → NotificationSetting
set_settings [] s = s
set_settings ((n, v) ∷ rest) s = set_settings rest (set_setting n v s)

unfoldable pub update_settings : Uuid → List (SettingName × Bool) → Action NotificationSetting
unfolding get_settings
update_settings user_id values = do
  settings ← get_settings user_id
  modify λ db. record db {
    notification_settings =
        update_where (λ s. s.user_id == user_id) (set_settings values) db.notification_settings;
  }
  commit
  pure (set_settings values settings)
