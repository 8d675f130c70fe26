-- ===== src/Http/Reading.antt =====
-- Reading a user's notifications page by page.
use mathlib.Core.Option
use dalm_backend.Http.Access.{App, authenticated_user_id}
use dalm_backend.Http.Cursors.{Text, decode_cursor, encode_cursor}
use dalm_backend.Http.Cursors.RoundTrip.{CodecLaws, decode_cursor-encode}
use dalm_backend.Http.Lists.{
  NotificationData, NotificationListData, notification_data, notification_key, show_notifications,
}
use dalm_backend.Inbox.{is_shown, list_notifications, notified_later}
use dalm_backend.Models.{Notification, Uuid}
use dalm_backend.Pages.{Cursor, Page, behind, map_page, map_result, page_of, walk}
use dalm_backend.Pages.Keys.{order_by-behind, order_by-precedes, same_id}
use dalm_backend.Pages.Order.{select_whole}
use dalm_backend.Pages.Walk.{is_behind, walk-all, walk-map_page}
use dalm_backend.Prelude.{
  All-intro, Bool, List, Option, ap, arith, fun_ext, is_none, length, map, none, not, order_by,
  refl, select, some, subst, suc, sym, take, true, ℕ, ◌&&◌, ◌+◌, ◌<◌, ◌||◌, ◌∙◌, ◌≡◌,
}
use dalm_backend.Store.{Db, Result, err, ok, request, unique}
use dalm_backend.Tokens.{TokenClaims}

-- The pages that the handler answers with.
abbrev pub pages : Result NotificationListData → Result (Page NotificationData Text)
pages (err e) = err e
pages (ok d) = ok d.notifications

-- The test of the rows that the user is shown.
abbrev pub is_listed : Uuid → Bool → Notification → Bool
is_listed user_id unread_only n = is_shown user_id n && (not unread_only || is_none n.read_at)

-- All rows that the user is shown, newest first.
abbrev pub all_notifications : Uuid → Bool → Db → List Notification
all_notifications user_id unread_only db =
    order_by notified_later (select (is_listed user_id unread_only) db.notifications)

module _ (app : App) (laws : CodecLaws app.codec) (claims : TokenClaims) (user_id : Uuid)
    (named : app.parse_subject claims.subject ≡ some user_id) (unread_only : Bool) (m : ℕ)
    (db : Db) where
  abbrev fetch : Option Text → Result (Page Notification Text)
  fetch k =
      map_result
        (λ c. page_of (encode_cursor app.codec) notification_key (suc m) (
          take (suc (suc m))
            (select (is_behind notification_key c) (all_notifications user_id unread_only db))))
        (decode_cursor app.codec k)

  decoded :
      (c : Option Cursor) → decode_cursor app.codec (Option.map (encode_cursor app.codec) c) ≡ ok c
  unfolding decode_cursor
  decoded none = refl
  decoded (some c) = decode_cursor-encode app.codec laws c

  one_more : suc m + 1 ≡ suc (suc m)
  one_more = omega arith

  queried :
      (c : Option Cursor)
      → order_by notified_later (
          select
            (λ n. is_listed user_id unread_only n && behind c n.created_at n.id)
            db.notifications)
        ≡ select (is_behind notification_key c) (all_notifications user_id unread_only db)
  queried c = order_by-behind notification_key (is_listed user_id unread_only) c db.notifications

  shown_pages :
      (k : Option Text) (r : Result (Option Cursor))
      → decode_cursor app.codec k ≡ r
      → pages (request (show_notifications app claims unread_only (suc m) k) db).0
        ≡ map_result (map_page notification_data) (fetch k)
  unfolding show_notifications list_notifications authenticated_user_id
  shown_pages k (err x) h = rw (named, h) refl
  shown_pages k (ok c) h = rw (named, h, one_more, queried c) refl

  -- For a user that the token names, and notifications with unique identifiers: a client that asks
  -- for pages of any size but zero and follows the cursors, for more requests than there are
  -- rows, ends with all of the user's notifications, newest first, each once.
  pub walk-notifications :
      (fuel : ℕ)
      → unique (same_id notification_key) db.notifications ≡ true
      → length (all_notifications user_id unread_only db) < fuel
      → walk fuel
          (λ k. pages (request (show_notifications app claims unread_only (suc m) k) db).0)
          none
        ≡ ok (map notification_data (all_notifications user_id unread_only db))
  walk-notifications fuel distinct enough =
      let whole = all_notifications user_id unread_only db in
      let every : select (is_behind notification_key none) whole ≡ whole =
        select_whole (is_behind notification_key none) whole (All-intro _ whole (λ n. refl)) in
      ap (λ f. walk fuel f none) (fun_ext (λ k. shown_pages k (decode_cursor app.codec k) refl))
      ∙ walk-map_page notification_data fetch fuel none
      ∙ ap (map_result (map notification_data)) (
          walk-all notification_key (encode_cursor app.codec) fetch m whole
            (order_by-precedes notification_key (is_listed user_id unread_only) db.notifications
              distinct)
            (λ c. ap (map_result _) (decoded c)) fuel none
            (subst (λ xs. length xs < fuel) (sym every) enough)
          ∙ ap (λ xs. ok xs) every)
