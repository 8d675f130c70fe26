-- ===== src/Expiration.antt =====
-- app/expiration.py: the scheduled job that ends the search of photos whose window is over.
use dalm_backend.Models.{
  DateTime, Notification, NotificationType, Photo, PhotoStatus, Uuid, embedding_status_eq,
  notification_type_eq, photo_status_eq, report_target_eq, term_type_eq, user_status_eq,
  validation_status_eq,
}
use dalm_backend.Notifications.{event_notification}
use dalm_backend.Prelude.{
  Bool, List, Option, [], is_none, is_some_and, leb, map, nat_eq, none, option_eq, select, some,
  string_eq, update_where, ℕ, ◌&&◌, ◌++◌, ◌+◌, ◌==◌, ◌∷◌,
}
use dalm_backend.Store.{Action, Env, commit, modify, pure, query, ◌>>=◌, ◌>>◌}

abbrev pub is_expired : DateTime → Photo → Bool
is_expired now p =
    p.status == PhotoStatus.searching
    && is_some_and (λ t. leb t now) p.search_expires_at
    && is_none p.deleted_at

abbrev pub expired_photo : Photo → Photo
expired_photo p = record p { status = PhotoStatus.expired }

-- One notification for each row, under successive identifiers.
unfoldable pub expiry_notifications : Env → ℕ → List Photo → List Notification
expiry_notifications e n [] = []
expiry_notifications e n (p ∷ ps) =
    event_notification e (e.uuid4 n) p.user_id NotificationType.search_expired p.id
    ∷ expiry_notifications e (n + 1) ps

unfoldable pub expire_due : Env → DateTime → Action (List Uuid)
unfolding expiry_notifications
expire_due e now = do
  rows ← query (λ db. select (is_expired now) db.photos)
  modify λ db. record db {
    photos = update_where (is_expired now) expired_photo db.photos;
    notifications = db.notifications ++ expiry_notifications e 0 rows;
  }
  commit
  pure (map (λ p. p.id) rows)

-- `now or datetime.now(UTC)`; a `datetime` of the model is always timezone-aware.
unfoldable pub expire_searching_photos : Env → Option DateTime → Action (List Uuid)
unfolding expire_due
expire_searching_photos e none = expire_due e e.now
expire_searching_photos e (some now) = expire_due e now
