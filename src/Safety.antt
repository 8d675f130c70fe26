-- ===== src/Safety.antt =====
-- app/repositories.py `ReportRepository` and `SafetyRepository`: reports and blocks.
pub mod Reports
use dalm_backend.Models.{
  Block, DateTime, MatchParticipant, Report, ReportTarget, User, UserStatus, Uuid,
  embedding_status_eq, notification_type_eq, photo_status_eq, report_target_eq, term_type_eq,
  user_status_eq, validation_status_eq,
}
use dalm_backend.Pages.{Cursor, behind}
use dalm_backend.Prelude.{
  Bool, List, Option, String, [], any, for_each, head?, if◌then◌else◌, is_empty, is_none, leb, ltb,
  nat_eq, none, not, option_eq, order_by, select, some, string_eq, take, update_where, ℕ, ◌&&◌,
  ◌++◌, ◌+◌, ◌==◌, ◌||◌, ◌∷◌,
}
use dalm_backend.Store.{
  Action, Code, Db, Env, api_error, commit, commit_or, flush, modify, pure, query, raise, raise_if,
  scalar_one_or_none, ◌>>=◌, ◌>>◌,
}

pub record ReportRequest : Type 0 where
  pub reporter_id : Uuid
  pub target_type : ReportTarget
  pub target_id : Uuid
  pub reason_code : String
  pub detail : Option String

abbrev pub new_report : Env → ReportRequest → Report
new_report e b = record {
  id = e.uuid4 0;
  reporter_id = b.reporter_id;
  target_type = b.target_type;
  target_id = b.target_id;
  reason_code = b.reason_code;
  detail = b.detail;
  status = "PENDING";
  created_at = e.db_now;
}

abbrev pub add_report : Report → Db → Db
add_report r db = record db { reports = db.reports ++ r ∷ [] }

abbrev pub new_block : Env → Uuid → Uuid → Block
new_block e blocker_id blocked_id = record {
  blocker_id = blocker_id;
  blocked_id = blocked_id;
  created_at = e.db_now;
}

abbrev pub is_block : Uuid → Uuid → Block → Bool
is_block blocker_id blocked_id k = k.blocker_id == blocker_id && k.blocked_id == blocked_id

abbrev pub add_block : Block → Db → Db
add_block k db = record db { blocks = db.blocks ++ k ∷ [] }

-- A user that can be reported or blocked.
abbrev pub is_member : Uuid → User → Bool
is_member id u = u.id == id && not (u.status == UserStatus.withdrawn)

-- The lookup of the target, which decides whether the report is taken.
unfoldable pub check_target : ReportRequest → Action (Unit {0})
check_target b = elim b.target_type [
  | ReportTarget.user ↦ (do
    raise_if (b.target_id == b.reporter_id) (api_error 422 Code.cannot_report_self)
    rows ← query (λ db. select (is_member b.target_id) db.users)
    found ← scalar_one_or_none rows
    raise_if (is_none found) (api_error 404 Code.report_target_not_found))
  | ReportTarget.photo ↦ (do
    rows ← query (λ db. select (λ p. p.id == b.target_id && is_none p.deleted_at) db.photos)
    found ← scalar_one_or_none rows
    raise_if (is_none found) (api_error 404 Code.report_target_not_found))
  | ReportTarget.postcard ↦ raise (api_error 422 Code.postcard_report_not_available)
]

-- The reporter's side of the match that the photo is in.
abbrev pub is_reporter_side : ReportRequest → Db → MatchParticipant → Bool
is_reporter_side b db m =
    m.user_id == b.reporter_id
    && any (λ n. n.match_id == m.match_id && n.photo_id == b.target_id) db.match_participants

abbrev pub hidden : Env → MatchParticipant → MatchParticipant
hidden e m = record m { hidden_at = some e.now }

abbrev pub hide_first : Env → Option MatchParticipant → Db → Db
hide_first e none db = db
hide_first e (some m) db = record db {
  match_participants =
      update_where (λ n. n.match_id == m.match_id && n.user_id == m.user_id) (hidden e)
        db.match_participants;
}

-- What follows on a report: its user is blocked, or the match of its photo is hidden.
unfoldable pub follow_up : Env → ReportRequest → Db → Db
follow_up e b db = elim b.target_type [
  | ReportTarget.user ↦
      if any (is_block b.reporter_id b.target_id) db.blocks
      then db
      else add_block (new_block e b.reporter_id b.target_id) db
  | _ ↦ hide_first e (head? (select (is_reporter_side b db) db.match_participants)) db
]

-- `ReportRepository.create`. The query that follows `add(report)` flushes the new row first.
unfoldable pub create_report : Env → ReportRequest → Action Report
unfolding check_target follow_up
create_report e b = do
  check_target b
  modify (add_report (new_report e b))
  flush
  modify (follow_up e b)
  commit_or (api_error 409 Code.report_already_exists)
  pure (new_report e b)

unfoldable pub block : Env → Uuid → Uuid → Action (Unit {0})
block e blocker_id blocked_id = do
  raise_if (blocker_id == blocked_id) (api_error 409 Code.cannot_block_self)
  rows ← query (λ db. select (is_member blocked_id) db.users)
  target ← scalar_one_or_none rows
  raise_if (is_none target) (api_error 404 Code.user_not_found)
  modify (add_block (new_block e blocker_id blocked_id))
  commit_or (api_error 409 Code.user_already_blocked)

unfoldable pub unblock : Uuid → Uuid → Action (Unit {0})
unblock blocker_id blocked_id = do
  modify λ db. record db { blocks = select (λ k. not (is_block blocker_id blocked_id k)) db.blocks }
  commit

pub record BlockedUserRow : Type 0 where
  pub user_id : Uuid
  pub nickname : String
  pub profile_image_url : Option String
  pub blocked_at : DateTime

abbrev pub blocked_later : BlockedUserRow → BlockedUserRow → Bool
blocked_later a b =
    ltb b.blocked_at a.blocked_at || a.blocked_at == b.blocked_at && leb b.user_id a.user_id

-- `row[1] or "…"`: an empty name is replaced too.
abbrev pub shown_name : Option String → String
shown_name none = "알 수 없는 사용자"
shown_name (some n) = if is_empty n then "알 수 없는 사용자" else n

unfoldable pub list_blocks : Uuid → ℕ → Option Cursor → Action (List BlockedUserRow)
list_blocks blocker_id size cursor = query λ db. take (size + 1) (
    order_by blocked_later (
      for_each
        (select (λ k. k.blocker_id == blocker_id && behind cursor k.created_at k.blocked_id)
          db.blocks)
        λ k. for_each (select (is_member k.blocked_id) db.users) λ u.
          record {
            user_id = k.blocked_id;
            nickname = shown_name u.nickname;
            profile_image_url = none;
            blocked_at = k.created_at;
          }
          ∷ []))
