-- ===== src/Models/Times.antt =====
-- The scalar columns. A UUID is its 128-bit number, which Python's `key=str` and PostgreSQL order
-- alike; a `datetime` is a count of microseconds, a `date` a count of days; a float is the number
-- of its 64-bit pattern, and is only passed on or handed to the float operations.
use dalm_backend.Prelude.{ℕ, ◌*◌}

abbrev pub Uuid : Type 0
Uuid = ℕ

abbrev pub DateTime : Type 0
DateTime = ℕ

abbrev pub Date : Type 0
Date = ℕ

abbrev pub Float : Type 0
Float = ℕ

-- `timedelta(seconds=n)`, `timedelta(minutes=n)` and `timedelta(days=n)`.
abbrev pub seconds : ℕ → ℕ
seconds n = n * 1_000_000

abbrev pub minutes : ℕ → ℕ
minutes n = n * 60_000_000

abbrev pub days : ℕ → ℕ
days n = n * 86_400_000_000
