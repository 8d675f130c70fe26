-- ===== src/Http/Days.antt =====
-- app/main.py `remaining_days` and the day of the search that the home screen shows.
pub mod Count
use dalm_backend.Models.{
  DateTime, days, embedding_status_eq, notification_type_eq, photo_status_eq, report_target_eq,
  term_type_eq, user_status_eq, validation_status_eq,
}
use dalm_backend.Prelude.{
  Option, if◌then◌else◌, leb, nat_eq, none, option_eq, some, string_eq, ℕ, ◌+◌, ◌-◌, ◌/◌, ◌==◌,
}

-- `min(7, max(0, ceil(seconds / 86400)))`. The division of whole microseconds by whole days is far
-- inside the precision of a float, so its ceiling is the exact one.
unfoldable pub remaining_days : DateTime → Option DateTime → Option ℕ
remaining_days now none = none
remaining_days now (some expires_at) =
    let left = (expires_at - now + (days 1 - 1)) / days 1 in some (if leb left 7 then left else 7)

-- `x or 7`.
abbrev pub or_seven : Option ℕ → ℕ
or_seven none = 7
or_seven (some n) = if n == 0 then 7 else n

-- `max(1, 8 - (remaining_days(…) or 7))`.
unfoldable pub shown_search_day : DateTime → Option DateTime → ℕ
unfolding remaining_days
shown_search_day now expires_at =
    let day = 8 - or_seven (remaining_days now expires_at) in if leb 1 day then day else 1
