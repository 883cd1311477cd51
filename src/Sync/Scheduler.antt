-- ===== src/Sync/Scheduler.antt =====
-- backend/doc_intel/scheduler.py: a tick of the scheduler. What other sessions commit between its
-- transactions, and which of its calls the database fails, are parameters. The loop that ticks and the
-- log are left out.
pub mod Laws
use aiva_v.Prelude.{
  ℕ, ◌+◌, ◌*◌, ◌/◌, Bool, true, false, not, ◌&&◌, Option, none, some, List, [], ◌∷◌, any_of, ltb,
  ◌==◌, if◌then◌else◌, max,
}
use aiva_v.DocIntel.Schedule.{Zone, next_after_run}
use aiva_v.Sync.Rows.{scheduled, Source}
use aiva_v.Sync.Tables.{Tables}
use aiva_v.Sync.Runs.{Created, created, already_active, insert_failed, create_run}
use aiva_v.Sync.Sources.{
  due_sources, Claimed, claimed, refused, claim_due_source, restore_next_sync,
}
use aiva_v.Sync.Moves.{Op, steps}

-- For each source: what the other sessions commit before the claim, the new run and the undoing of the
-- claim, and whether the database fails these three calls.
pub record Around : Type 0 where
  pub before_claim : ℕ → List (ℕ × Op)
  pub before_create : ℕ → List (ℕ × Op)
  pub before_restore : ℕ → List (ℕ × Op)
  pub claim_fails : ℕ → Bool
  pub create_fails : ℕ → Bool
  pub restore_fails : ℕ → Bool

-- The list of the summary that a source is put on; `unscheduled` for none.
pub data Outcome : Type 0 where
  queued lost covered failed unscheduled : Outcome

-- `row.get("sync_interval_days") or 14`
or_fortnight : ℕ → ℕ
or_fortnight days = if days == 0 then 14 else days

-- The next time after the one that is due, in milliseconds.
unfoldable pub next_time : Zone → ℕ → Source → ℕ
unfolding or_fortnight
next_time tz now row =
    1000 * next_after_run tz (now / 1000) (or_fortnight row.sync_interval_days) row.sync_hour

module _ (tz : Zone) (a : Around) (now : ℕ) (row : Source) where
  -- The claim is undone.
  unfoldable pub undo : ℕ → Tables → Tables
  undo old t =
      if a.restore_fails row.id
      then t
      else (restore_next_sync row.id (next_time tz now row) old
          (steps (a.before_restore row.id) t)).0

  -- What follows the claim.
  unfoldable pub after_create : ℕ → Tables × Created → Tables × Outcome
  after_create old (t, created run) = (t, queued)
  after_create old (t, already_active) = (t, covered)
  after_create old (t, insert_failed) = (undo old t, failed)

  unfoldable pub after_claim : ℕ → Tables × Claimed → Tables × Outcome
  after_claim old (t, claimed true) = after_create old (
      create_run (a.create_fails row.id) now row.id scheduled none
        (steps (a.before_create row.id) t))
  after_claim old (t, claimed false) = (t, lost)
  after_claim old (t, refused) = (t, failed)

  -- `_queue_one`, and the `except` of its caller.
  unfoldable pub queue_one : Tables → Tables × Outcome
  queue_one t = elim (row.next_sync_at) [
    | none ↦ (t, unscheduled)
    | some old ↦
        let before = steps (a.before_claim row.id) t in
        if a.claim_fails row.id
        then (before, failed)
        else after_claim old (claim_due_source row.id now (next_time tz now row) before)
  ]

module _ (tz : Zone) (a : Around) (now : ℕ) where
  unfoldable pub queue_each : List Source → Tables → Tables × List (ℕ × Outcome)
  queue_each [] t = (t, [])
  queue_each (row ∷ rows) t =
      let one = queue_one tz a now row t in
      let rest = queue_each rows one.0 in (rest.0, (row.id, one.1) ∷ rest.1)

  -- `_queue_due_syncs`, up to the waking of the worker.
  unfoldable pub queue_due_syncs : Tables → Tables × List (ℕ × Outcome)
  queue_due_syncs t = queue_each (due_sources now t) t

is_queued_outcome : Outcome → Bool
is_queued_outcome queued = true
is_queued_outcome _ = false

-- Whether the worker is woken.
unfoldable pub wakes : List (ℕ × Outcome) → Bool
unfolding is_queued_outcome
wakes outcomes = any_of (λ o. is_queued_outcome o.1) outcomes

newest_of : Option ℕ → List (Option ℕ) → Option ℕ
newest_of best [] = best
newest_of best (none ∷ stamps) = newest_of best stamps
newest_of none (some t ∷ stamps) = newest_of (some t) stamps
newest_of (some best) (some t ∷ stamps) = newest_of (some (max best t)) stamps

-- The stored results of the health checks, and whether reading or running them fails.
pub record Health : Type 0 where
  pub stamps : List (Option ℕ)
  pub interval_minutes : ℕ
  pub load_fails : Bool
  pub run_fails : Bool

-- `_run_health_if_due`: whether the checks ran.
unfoldable pub run_health_if_due : ℕ → Health → Bool
unfolding newest_of
run_health_if_due now h =
    not h.load_fails
    && (elim (newest_of none h.stamps) [
      | none ↦ true
      | some newest ↦ not (ltb now (newest + h.interval_minutes * 60000))
    ]
        && not h.run_fails)

-- The summary of a tick.
pub record Ticked : Type 0 where
  pub tables : Tables
  pub outcomes : List (ℕ × Outcome)
  pub woken : Bool
  pub health : Bool

-- `tick`, with a registry: `read_fails` is whether the due sources cannot be read.
unfoldable pub tick : Zone → Around → ℕ → Bool → Option Health → Tables → Ticked
tick tz a now read_fails health t =
    let done = if read_fails then (t, []) else queue_due_syncs tz a now t in
    record {
      tables = done.0;
      outcomes = done.1;
      woken = wakes done.1;
      health = elim health [ none ↦ false | some h ↦ run_health_if_due now h ];
    }
