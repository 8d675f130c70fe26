-- ===== src/Notifications.antt =====
-- app/notifications.py: the templates of the notifications, and the row that an event adds.
use dalm_backend.Models.{Notification, NotificationType, Uuid}
use dalm_backend.Prelude.{Option, String, [], none, some, ◌++◌, ◌∷◌}
use dalm_backend.Store.{Db, Env}

pub record NotificationTemplate : Type 0 where
  pub title : String
  pub message : String
  pub target_type : String

unfoldable pub templates : NotificationType → NotificationTemplate
templates NotificationType.validation_passed = record {
  title = "탐색을 시작했어요";
  message = "오늘의 순간이 닮은 장면을 찾고 있어요.";
  target_type = "PHOTO";
}
templates NotificationType.photo_rejected = record {
  title = "다른 사진이 필요해요";
  message = "사진을 확인하고 새로운 순간을 등록해주세요.";
  target_type = "PHOTO";
}
templates NotificationType.matched = record {
  title = "닮은 순간을 발견했어요";
  message = "당신과 나란한 순간을 확인해보세요.";
  target_type = "MATCH";
}
templates NotificationType.postcard_received = record {
  title = "엽서가 도착했어요";
  message = "평행한 순간으로부터 온 메시지를 확인해보세요.";
  target_type = "POSTCARD";
}
templates NotificationType.search_expired = record {
  title = "탐색이 끝났어요";
  message = "7일간의 순간 탐색이 종료되었습니다.";
  target_type = "PHOTO";
}
templates NotificationType.system = record {
  title = "DALM 안내";
  message = "새로운 운영 안내가 있습니다.";
  target_type = "SYSTEM";
}

-- A new unread row.
abbrev pub new_notification :
    Env
    → Uuid
    → Uuid
    → NotificationType
    → String
    → String
    → Option String
    → Option Uuid
    → Notification
new_notification e id user_id type title message target_type target_id = record {
  id = id;
  user_id = user_id;
  type = type;
  title = title;
  message = message;
  target_type = target_type;
  target_id = target_id;
  read_at = none;
  deleted_at = none;
  created_at = e.db_now;
}

-- The row of an event, with its template's texts.
abbrev pub event_notification : Env → Uuid → Uuid → NotificationType → Uuid → Notification
event_notification e id user_id type target_id =
    let t = templates type in
    new_notification e id user_id type t.title t.message (some t.target_type) (some target_id)

abbrev pub add_notification : Notification → Db → Db
add_notification n db = record db { notifications = db.notifications ++ n ∷ [] }
