-- ===== src/Postcards.antt =====
-- app/repositories.py `PostcardRepository` and `resolve_postcard_permission`: the postcards that the
-- two participants of a match send one another in turn.
pub mod Turns
pub mod Again
use mathlib.Core.Option
use dalm_backend.Matching.{are_blocked}
use dalm_backend.Models.{
  DateTime, NotificationType, Postcard, Uuid, embedding_status_eq, notification_type_eq,
  photo_status_eq, report_target_eq, term_type_eq, user_status_eq, validation_status_eq,
}
use dalm_backend.Notifications.{add_notification, event_notification}
use dalm_backend.Pages.{Cursor, behind}
use dalm_backend.Prelude.{
  Bool, List, Option, String, [], false, for_each, head?, if◌then◌else◌, is_none, is_some,
  is_some_and, leb, ltb, nat_eq, none, not, option_eq, order_by, select, some, string_eq, take,
  true, update_where, ℕ, ◌&&◌, ◌++◌, ◌+◌, ◌==◌, ◌||◌, ◌∷◌,
}
use dalm_backend.Store.{
  Action, Code, Db, Env, Error, api_error, commit, commit_or, modify, or_raise, pure, query, raise,
  raise_if, scalar_one_or_none, ◌>>=◌, ◌>>◌,
}

pub data Permission : Type 0 where
  can_send waiting_for_first waiting_for_reply blocked : Permission

unfoldable pub resolve_postcard_permission : Bool → Bool → Option Uuid → Uuid → Permission
resolve_postcard_permission true user_is_first_sender last user_id = Permission.blocked
resolve_postcard_permission false user_is_first_sender none user_id =
    if user_is_first_sender then Permission.can_send else Permission.waiting_for_first
resolve_postcard_permission false user_is_first_sender (some last) user_id =
    if last == user_id then Permission.waiting_for_reply else Permission.can_send

pub record PostcardRow : Type 0 where
  pub id : Uuid
  pub match_id : Uuid
  pub sender_id : Uuid
  pub sender_nickname : Option String
  pub receiver_id : Uuid
  pub receiver_nickname : Option String
  pub content : String
  pub read_at : Option DateTime
  pub sent_at : DateTime
  pub moment_thumbnail_url : String

-- `_row_query`: a postcard with its users' names and the viewer's own photo of the match.
unfoldable pub row_query : Uuid → (Postcard → Bool) → Db → List PostcardRow
row_query user_id test db = for_each (select test db.postcards) λ c.
    for_each (select (λ u. u.id == c.sender_id) db.users) λ sender.
      for_each (select (λ u. u.id == c.receiver_id) db.users) λ receiver.
        for_each
          (select (λ m. m.match_id == c.match_id && m.user_id == user_id) db.match_participants)
          λ viewer. for_each (select (λ p. p.id == viewer.photo_id) db.photos) λ photo.
            record {
              id = c.id;
              match_id = c.match_id;
              sender_id = c.sender_id;
              sender_nickname = sender.nickname;
              receiver_id = c.receiver_id;
              receiver_nickname = receiver.nickname;
              content = c.content;
              read_at = c.read_at;
              sent_at = c.sent_at;
              moment_thumbnail_url = photo.image_url;
            }
            ∷ []

abbrev pub is_visible : Uuid → Postcard → Bool
is_visible user_id c =
    c.sender_id == user_id && is_none c.sender_deleted_at
    || c.receiver_id == user_id && is_none c.receiver_deleted_at

-- `PostcardRepository.get`.
unfoldable pub get_postcard : Uuid → Uuid → Action PostcardRow
get_postcard user_id postcard_id = do
  rows ← query (row_query user_id (λ c. c.id == postcard_id && is_visible user_id c))
  or_raise (head? rows) (api_error 404 Code.postcard_not_found)

-- A participant of the match and when and under which identifier its photo was registered.
pub record Seat : Type 0 where
  pub user_id : Uuid
  pub registered_at : DateTime
  pub photo_id : Uuid

abbrev pub earlier : Seat → Seat → Bool
earlier s t =
    ltb s.registered_at t.registered_at
    || s.registered_at == t.registered_at && leb s.photo_id t.photo_id

unfoldable pub seats : Uuid → Db → List Seat
seats match_id db = order_by earlier (
    for_each (select (λ m. m.match_id == match_id) db.match_participants) λ m.
      for_each (select (λ p. p.id == m.photo_id) db.photos)
        λ p. record { user_id = m.user_id; registered_at = p.registered_at; photo_id = p.id } ∷ [])

-- `ORDER BY sent_at DESC, id DESC`.
abbrev pub sent_later : Postcard → Postcard → Bool
sent_later c d = ltb d.sent_at c.sent_at || c.sent_at == d.sent_at && leb d.id c.id

unfoldable pub last_sender : Uuid → Db → Option Uuid
last_sender match_id db =
    Option.map (λ c. c.sender_id)
      (head? (order_by sent_later (select (λ c. c.match_id == match_id) db.postcards)))

-- The checks of `send` on whose turn it is.
abbrev pub check_turn : Uuid → Uuid → Option Uuid → Action (Unit {0})
check_turn user_id first_id none =
    raise_if (not (user_id == first_id)) (api_error 409 Code.postcard_order_not_allowed)
check_turn user_id first_id (some last) =
    raise_if (last == user_id) (api_error 409 Code.postcard_reply_not_received)

pub record Draft : Type 0 where
  pub user_id : Uuid
  pub match_id : Uuid
  pub content : String
  pub idempotency_key : Option Uuid

abbrev pub new_postcard : Env → Draft → Uuid → Postcard
new_postcard e d receiver_id = record {
  id = e.uuid4 0;
  match_id = d.match_id;
  sender_id = d.user_id;
  receiver_id = receiver_id;
  content = d.content;
  idempotency_key = d.idempotency_key;
  read_at = none;
  sent_at = e.db_now;
  sender_deleted_at = none;
  receiver_deleted_at = none;
}

abbrev pub write_postcard : Env → Draft → Uuid → Db → Db
write_postcard e d receiver_id db =
    add_notification
      (event_notification e (e.uuid4 1) receiver_id NotificationType.postcard_received (e.uuid4 0))
      (record db { postcards = db.postcards ++ new_postcard e d receiver_id ∷ [] })

-- `next(…)` over the participants other than the sender.
abbrev pub other_seat : Uuid → Seat → Seat → Option Uuid
other_seat user_id s t =
    if not (s.user_id == user_id)
    then some s.user_id
    else if not (t.user_id == user_id)
    then some t.user_id
    else none

-- `send` between the two participants, the first of whom starts.
unfoldable pub send_between : Env → Draft → Seat → Seat → Action PostcardRow
send_between e d s t = do
  raise_if (not (s.user_id == d.user_id || t.user_id == d.user_id))
      (api_error 404 Code.match_not_found)
  receiver_id ← or_raise (other_seat d.user_id s t) Error.stop_iteration
  is_blocked ← query (are_blocked d.user_id receiver_id)
  raise_if is_blocked (api_error 409 Code.user_blocked)
  last ← query (last_sender d.match_id)
  check_turn d.user_id s.user_id last
  modify (write_postcard e d receiver_id)
  commit_or (api_error 409 Code.postcard_already_sent)
  get_postcard d.user_id (e.uuid4 0)

unfoldable pub send_in : Env → Draft → List Seat → Action PostcardRow
unfolding send_between
send_in e d [] = raise (api_error 404 Code.match_not_found)
send_in e d (s ∷ []) = raise (api_error 404 Code.match_not_found)
send_in e d (s ∷ t ∷ []) = send_between e d s t
send_in e d (s ∷ t ∷ u ∷ rest) = raise (api_error 404 Code.match_not_found)

unfoldable pub send_new : Env → Draft → Action PostcardRow
unfolding send_in
send_new e d = do rows ← query (seats d.match_id); send_in e d rows

-- A request that repeats an idempotency key is answered with the postcard of the first.
unfoldable pub send : Env → Draft → Action PostcardRow
unfolding send_new
send e d = elim d.idempotency_key [
  | none ↦ send_new e d
  | some key ↦ (do
    rows ← query λ db.
        select (λ c. c.sender_id == d.user_id && is_some_and (λ k. k == key) c.idempotency_key)
          db.postcards
    existing ← scalar_one_or_none rows
    elim existing [ none ↦ send_new e d | some c ↦ get_postcard d.user_id c.id ])
]

pub data Mailbox : Type 0 where
  received sent : Mailbox

abbrev pub in_mailbox : Mailbox → Uuid → Postcard → Bool
in_mailbox received user_id c = c.receiver_id == user_id && is_none c.receiver_deleted_at
in_mailbox sent user_id c = c.sender_id == user_id && is_none c.sender_deleted_at

abbrev pub row_sent_later : PostcardRow → PostcardRow → Bool
row_sent_later c d = ltb d.sent_at c.sent_at || c.sent_at == d.sent_at && leb d.id c.id

unfoldable pub list_postcards : Uuid → Mailbox → ℕ → Option Cursor → Action (List PostcardRow)
list_postcards user_id mailbox size cursor = query λ db. take (size + 1) (
    order_by row_sent_later
      (row_query user_id (λ c. in_mailbox mailbox user_id c && behind cursor c.sent_at c.id) db))

abbrev pub find_postcard : Uuid → Db → Option Postcard
find_postcard id db = head? (select (λ c. c.id == id) db.postcards)

abbrev pub update_postcard : Uuid → (Postcard → Postcard) → Db → Db
update_postcard id f db = record db { postcards = update_where (λ c. c.id == id) f db.postcards }

-- `PostcardRepository.mark_read`.
unfoldable pub mark_postcard_read : Env → Uuid → Uuid → Action PostcardRow
unfolding get_postcard
mark_postcard_read e user_id postcard_id = do
  found ← query (find_postcard postcard_id)
  c ← or_raise found (api_error 404 Code.postcard_not_found)
  raise_if (not (c.receiver_id == user_id) || is_some c.receiver_deleted_at)
      (api_error 404 Code.postcard_not_found)
  if is_none c.read_at
      then (do modify (update_postcard c.id λ d. record d { read_at = some e.now }); commit)
      else pure tt
  get_postcard user_id postcard_id

-- `PostcardRepository.delete`.
unfoldable pub delete_postcard : Env → Uuid → Uuid → Action (Unit {0})
delete_postcard e user_id postcard_id = do
  found ← query (find_postcard postcard_id)
  c ← or_raise found (api_error 404 Code.postcard_not_found)
  if c.sender_id == user_id && is_none c.sender_deleted_at
      then modify (update_postcard c.id λ d. record d { sender_deleted_at = some e.now })
      else if c.receiver_id == user_id && is_none c.receiver_deleted_at
      then modify (update_postcard c.id λ d. record d { receiver_deleted_at = some e.now })
      else raise (api_error 404 Code.postcard_not_found)
  commit
