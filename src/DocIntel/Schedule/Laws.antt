-- ===== src/DocIntel/Schedule/Laws.antt =====
-- A scheduled synchronisation lies ahead, and is the one that the schedule asks for.
use aiva_v.Prelude.{
  ℕ, ◌+◌, ◌*◌, ◌≤◌, ◌<◌, ◌≡◌, ◌⊎◌, inl, inr, refl, Bool, true, false, Option, none, some, leb, ltb,
  arith, Bool-cases,
}
use aiva_v.DocIntel.Schedule.{
  Local, Zone, next_after_run, next_hour_occurrence, after_last, next_sync_at,
}

-- A clock reading is before a full hour of a date.
abbrev pub IsBefore : Local → ℕ → ℕ → Type 0
IsBefore l day hour = (l.day < day) ⊎ ((l.day ≡ day) × (l.second < hour * 3600))

-- The zone has one offset from UTC, `east` less `west`, now and at the full hour of a date: its clock is
-- not changed between the two.
pub record KeepsOffset (tz : Zone) (now day hour : ℕ) : Type 0 where
  pub east : ℕ
  pub west : ℕ
  pub at_now : (tz.to_local now).day * 86400 + (tz.to_local now).second + west ≡ now + east
  pub at_hour : day * 86400 + hour * 3600 + west ≡ tz.to_utc day hour + east

-- Which time is next: the full hour of the date that is the interval after that of the last run, if it
-- lies ahead; the full hour of the first date on which the local clock has not reached it, otherwise.
pub IsChosen : Zone → ℕ → ℕ → ℕ → Option ℕ → ℕ → Type 0
IsChosen tz interval_days hour now last_sync t =
    ((last : ℕ) × (last_sync ≡ some last)
      × (t ≡ tz.to_utc ((tz.to_local last).day + interval_days) hour))
    ⊎ (((last : ℕ)
          → last_sync ≡ some last
          → tz.to_utc ((tz.to_local last).day + interval_days) hour ≤ now)
        × (day : ℕ) × (t ≡ tz.to_utc day hour)
        × IsBefore (tz.to_local now) day hour
        × ((d : ℕ) → IsBefore (tz.to_local now) d hour → day ≤ d))

-- What `next_sync_at` gives.
pub IsScheduled : Zone → Bool → ℕ → ℕ → ℕ → Option ℕ → Option ℕ → Type 0
IsScheduled tz false interval_days hour now last_sync next = next ≡ none
IsScheduled tz true interval_days hour now last_sync next =
    (t : ℕ) × (next ≡ some t) × (now < t) × IsChosen tz interval_days hour now last_sync t

module _ (tz : Zone) (hour now : ℕ) (reading : (tz.to_local now).second < 86400) where
  ahead :
      (day : ℕ)
      → IsBefore (tz.to_local now) day hour
      → KeepsOffset tz now day hour
      → now < tz.to_utc day hour
  ahead day (inl h) k = omega (arith, reading, k.at_now, k.at_hour)
  ahead day (inr h) k = omega (arith, h.0, h.1, k.at_now, k.at_hour)

  no_earlier_today : (d : ℕ) → IsBefore (tz.to_local now) d hour → (tz.to_local now).day ≤ d
  no_earlier_today d (inl h) = omega arith
  no_earlier_today d (inr h) = omega (arith, h.0)

  no_earlier_passed :
      hour * 3600 ≤ (tz.to_local now).second
      → (d : ℕ) → IsBefore (tz.to_local now) d hour
      → (tz.to_local now).day + 1 ≤ d
  no_earlier_passed p d (inl h) = omega arith
  no_earlier_passed p d (inr h) = omega (arith, p, h.1)

  -- The first date whose full hour is still to come on the local clock.
  next_hour_occurrence-first :
      (day : ℕ) × (next_hour_occurrence tz now hour ≡ tz.to_utc day hour)
      × IsBefore (tz.to_local now) day hour
      × ((d : ℕ) → IsBefore (tz.to_local now) d hour → day ≤ d)
      × ((day ≡ (tz.to_local now).day) ⊎ (day ≡ (tz.to_local now).day + 1))
  unfolding next_hour_occurrence
  next_hour_occurrence-first = elim (Bool-cases (leb (hour * 3600) (tz.to_local now).second)) [
    | inl passed ↦ rw passed (
      (tz.to_local now).day + 1,
      refl,
      inl (omega arith),
      no_earlier_passed (ground (arith, passed)),
      inr refl,
    )
    | inr early ↦
        rw early (
          (tz.to_local now).day,
          refl,
          inr (refl, ground (arith, early)),
          no_earlier_today,
          inl refl,
        )
  ]

  module _ (interval_days : ℕ) (last_sync : Option ℕ)
      (today : KeepsOffset tz now (tz.to_local now).day hour)
      (tomorrow : KeepsOffset tz now ((tz.to_local now).day + 1) hour)
      (past : (last : ℕ)
        → last_sync ≡ some last
        → tz.to_utc ((tz.to_local last).day + interval_days) hour ≤ now) where
    next_hour_occurrence-IsScheduled :
        IsScheduled tz true interval_days hour now last_sync
          (some (next_hour_occurrence tz now hour))
    unfolding IsScheduled IsChosen
    next_hour_occurrence-IsScheduled =
        let (day, e, before, first, which) = next_hour_occurrence-first in
        let later : now < tz.to_utc day hour = elim which [
          | inl d ↦ ahead day before (rw d today)
          | inr d ↦ ahead day before (rw d tomorrow)
        ] in
        (next_hour_occurrence tz now hour, refl, rw e later, inr (past, day, e, before, first))

-- A schedule that is off has no next run. One that is on always has one, and it lies ahead: it is the full
-- hour on the local date that is the interval after that of the last run, if that is ahead of now; and
-- otherwise the full hour of the first local date on which the local clock has not reached it. For
-- that the zone's offset is the same now and at the full hours of today and tomorrow, and the local
-- clock reads less than a day.
pub next_sync_at_ahead :
    (tz : Zone) (enabled : Bool) (interval_days hour now : ℕ) (last_sync : Option ℕ)
    → (tz.to_local now).second < 86400
    → KeepsOffset tz now (tz.to_local now).day hour
    → KeepsOffset tz now ((tz.to_local now).day + 1) hour
    → IsScheduled tz enabled interval_days hour now last_sync
        (next_sync_at tz enabled interval_days hour now last_sync)
unfolding next_sync_at after_last next_after_run IsScheduled IsChosen
next_sync_at_ahead tz false interval_days hour now last_sync reading today tomorrow = refl
next_sync_at_ahead tz true interval_days hour now none reading today tomorrow =
    next_hour_occurrence-IsScheduled tz hour now reading interval_days none today tomorrow
      (λ last e. cc)
next_sync_at_ahead tz true interval_days hour now (some last) reading today tomorrow =
    let candidate = tz.to_utc ((tz.to_local last).day + interval_days) hour in
    elim (Bool-cases (ltb now candidate)) [
      | inl later ↦ rw later (candidate, refl, ground (arith, later), inl (last, refl, refl))
      | inr passed ↦ rw passed (
          next_hour_occurrence-IsScheduled tz hour now reading interval_days (some last) today
            tomorrow (λ l e. let same : last ≡ l = cc in rw (← same) (ground (arith, passed))))
    ]
