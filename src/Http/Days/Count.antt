-- ===== src/Http/Days/Count.antt =====
-- Which day of its search a photo is in.
use dalm_backend.Http.Days.{remaining_days, shown_search_day}
use dalm_backend.Models.{DateTime, days}
use dalm_backend.Prelude.{
  Bool, Option, arith, leb, none, refl, some, true, ℕ, ◌&&◌, ◌+◌, ◌-◌, ◌<◌, ◌≡◌, ◌≤◌,
}

abbrev pub is_within_week : Option ℕ → Bool
is_within_week none = true
is_within_week (some n) = leb n 7

-- The day of the search that is shown is between the first and the seventh, and the days that
-- remain are at most seven, at every time and for every end of the search: the schemas of the
-- responses allow both.
pub shown_search_day-bounds :
    (now : DateTime) (expires_at : Option DateTime)
    → ((leb 1 (shown_search_day now expires_at) && leb (shown_search_day now expires_at) 7) ≡ true)
      × (is_within_week (remaining_days now expires_at) ≡ true)
unfolding shown_search_day remaining_days
shown_search_day-bounds now none = (refl, refl)
shown_search_day-bounds now (some t) = (ground arith, ground arith)

-- In a search of seven days that began `k` whole days ago, less than seven: the day that is shown is
-- `k + 1`, and `7 - k` days remain.
pub shown_search_day_lem :
    (t now k : ℕ)
    → k < 7
    → t + days k ≤ now
    → now < t + days (k + 1)
    → (shown_search_day now (some (t + days 7)) ≡ k + 1)
      × (remaining_days now (some (t + days 7)) ≡ some (7 - k))
unfolding shown_search_day remaining_days
shown_search_day_lem t now k few begun before = (ground arith, ground arith)
