-- ===== src/Analytics/Outbox.antt =====
-- The durable retry queue of analytics/src/analytics/core/outbox.py: class EventOutbox.
-- The table `pending_events` is the list of its rows in ascending order of the primary key, the
-- order in which SQLite keeps it. A payload is written as JSON and read back unchanged, so its type
-- is a parameter. Every call of `time.time()` is an argument of its own: two calls in one method may
-- read different times. A time is a count of microseconds.

pub mod Retry
mod Order
pub mod Cap
pub mod Backoff
pub mod Pass
pub mod Drains
mod Tests
use next_sec.Prelude.{
  ℕ, ◌+◌, ◌-◌, ◌*◌, ◌^◌, min, max, Bool, not, Option, none, some, List, [], ◌∷◌, ◌++◌, map, ltb,
  leb, ◌==◌, if◌then◌else◌, length, select, drop, take,
}
use next_sec.Prelude.Int.{ℤ, pos, negsuc}

abbrev pub seconds : ℕ → ℕ
seconds n = n * 1_000_000

abbrev pub initial_backoff_seconds : ℕ
initial_backoff_seconds = 5

abbrev pub max_backoff_seconds : ℕ
max_backoff_seconds = 300

-- A row of `pending_events`.
pub record Row (P : Type 0) : Type 0 where
  pub id : ℕ
  pub payload : P
  pub attempts : ℕ
  pub next_attempt_at : ℕ
  pub created_at : ℕ

-- `next_id` is the table's AUTOINCREMENT counter.
pub record EventOutbox (P : Type 0) : Type 0 where
  pub rows : List (Row P)
  pub next_id : ℕ
  pub max_rows : ℕ
  pub max_age_seconds : ℕ
  pub dropped : ℕ

module _ {P : Type 0} where
  unfoldable pub new_outbox : ℕ → ℕ → EventOutbox P
  new_outbox max_rows max_age_seconds = record {
    rows = [];
    next_id = 1;
    max_rows = max_rows;
    max_age_seconds = max_age_seconds;
    dropped = 0;
  }

  -- The test of the first DELETE is `created_at < now - max_age`; here both sides have the age added.
  abbrev pub is_fresh : ℕ → ℕ → Row P → Bool
  is_fresh now age r = not (ltb (r.created_at + seconds age) now)

  -- The rows that the first DELETE leaves.
  abbrev pub fresh_rows : ℕ → EventOutbox P → List (Row P)
  fresh_rows now o = select (is_fresh now o.max_age_seconds) o.rows

  -- By age, then by size: the LIMIT of the second DELETE is `max(0, count - max_rows)`.
  unfoldable pub prune : ℕ → EventOutbox P → EventOutbox P
  prune now o =
      let kept = fresh_rows now o in
      let by_age = length o.rows - length kept in
      let by_size = length kept - o.max_rows in
      record o { rows = drop by_size kept; dropped = o.dropped + (by_age + by_size) }

  -- The INSERT of `enqueue`.
  abbrev pub insert_row : ℕ → P → EventOutbox P → EventOutbox P
  insert_row now payload o = record o {
    rows =
        o.rows
        ++ record {
          id = o.next_id;
          payload = payload;
          attempts = 0;
          next_attempt_at = now;
          created_at = now;
        }
          ∷ [];
    next_id = o.next_id + 1;
  }

  unfoldable pub enqueue : ℕ → ℕ → P → EventOutbox P → EventOutbox P × ℕ
  enqueue now prune_now payload o = (prune prune_now (insert_row now payload o), o.next_id)

  abbrev pub is_due : ℕ → Row P → Bool
  is_due now r = leb r.next_attempt_at now

  abbrev pub limit_rows : Option ℕ → List (Row P) → List (Row P)
  limit_rows none rs = rs
  limit_rows (some n) rs = take n rs

  unfoldable pub list_due : ℕ → Option ℕ → EventOutbox P → List (Row P)
  list_due now limit o = limit_rows limit (select (is_due now) o.rows)

  unfoldable pub remove : ℕ → EventOutbox P → EventOutbox P
  remove row_id o = record o { rows = select (λ r. not (r.id == row_id)) o.rows }

  abbrev pub set_row : ℕ → ℕ → ℕ → Row P → Row P
  set_row row_id attempts at r =
      if r.id == row_id then record r { attempts = attempts; next_attempt_at = at } else r

  unfoldable pub set_next_attempt : ℕ → ℕ → ℕ → EventOutbox P → EventOutbox P
  set_next_attempt row_id attempts at o = record o {
    rows = map (set_row row_id attempts at) o.rows;
  }

-- The delay of `reschedule`.
unfoldable pub backoff : ℕ → ℕ
backoff attempts = min (initial_backoff_seconds * 2 ^ attempts) max_backoff_seconds

-- `max(seconds, 1)` over Python's signed integers.
abbrev pub at_least_one : ℤ → ℕ
at_least_one (pos n) = max n 1
at_least_one (negsuc _) = 1

module _ {P : Type 0} where
  unfoldable pub reschedule : ℕ → ℕ → ℕ → EventOutbox P → EventOutbox P
  reschedule now row_id attempts o =
      set_next_attempt row_id (attempts + 1) (now + seconds (backoff attempts)) o

  abbrev pub defer_row : ℕ → Row P → Row P
  defer_row until r =
      if ltb r.next_attempt_at until then record r { next_attempt_at = until } else r

  unfoldable pub defer_all : ℕ → ℤ → EventOutbox P → EventOutbox P
  defer_all now wait o = record o {
    rows = map (defer_row (now + seconds (at_least_one wait))) o.rows;
  }

  unfoldable pub count_pending : EventOutbox P → ℕ
  count_pending o = length o.rows

  unfoldable pub drain_dropped_count : EventOutbox P → EventOutbox P × ℕ
  drain_dropped_count o = (record o { dropped = 0 }, o.dropped)
