-- ===== src/DocIntel/Schedule.antt =====
-- backend/doc_intel/schedule.py: when the next synchronisation is due. Times are seconds in UTC. The
-- time zone, of the standard library, is a parameter; two times of one zone compare by their dates and
-- clocks there, as datetimes with the same `tzinfo` do.
pub mod Laws
use aiva_v.Prelude.{ℕ, ◌+◌, ◌*◌, Bool, true, false, Option, none, some, leb, ltb, if◌then◌else◌}

-- A local date, counted in days, with the seconds since its midnight.
pub record Local : Type 0 where
  pub day : ℕ
  pub second : ℕ

-- The local time of a moment, and the moment of a full hour on a local date, the first one where the
-- clock is put back and shows it twice.
pub record Zone : Type 0 where
  pub to_local : ℕ → Local
  pub to_utc : ℕ → ℕ → ℕ

module _ (tz : Zone) where
  pub next_after_run : ℕ → ℕ → ℕ → ℕ
  next_after_run run_started interval_days hour =
      tz.to_utc ((tz.to_local run_started).day + interval_days) hour

  pub next_hour_occurrence : ℕ → ℕ → ℕ
  next_hour_occurrence now hour =
      let local_now = tz.to_local now in
      if leb (hour * 3600) local_now.second
      then tz.to_utc (local_now.day + 1) hour
      else tz.to_utc local_now.day hour

  after_last : ℕ → ℕ → ℕ → Option ℕ → ℕ
  after_last interval_days hour now none = next_hour_occurrence now hour
  after_last interval_days hour now (some last_sync) =
      let candidate = next_after_run last_sync interval_days hour in
      if ltb now candidate then candidate else next_hour_occurrence now hour

  pub next_sync_at : Bool → ℕ → ℕ → ℕ → Option ℕ → Option ℕ
  unfolding after_last
  next_sync_at enabled interval_days hour now last_sync =
      if enabled then some (after_last interval_days hour now last_sync) else none
