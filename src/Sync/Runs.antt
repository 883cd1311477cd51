-- ===== src/Sync/Runs.antt =====
-- backend/doc_intel/crm_repo.py: the runs, which are also the queue of the synchronisation.
use aiva_v.Prelude.{
  ℕ, zero, suc, Bool, true, false, ◌&&◌, ◌||◌, Option, none, some, List, [], ◌∷◌, ◌++◌, take,
  keep_if, ltb, ◌==◌, if◌then◌else◌, Text, codes, text_eq, Map,
}
use aiva_v.Queues.Catalog.{Value}
use aiva_v.Import.Textutil.{truncate_utf8}
use aiva_v.Import.Rows.{max_error_bytes}
use aiva_v.Sync.Rows.{
  as_date, RunStatus, run_queued, run_running, run_completed, run_partial, run_failed, Trigger,
  running_file_stage, Source, Counts, no_counts, SyncRun, File, is_queued, is_in_progress,
  is_deleted, is_active, is_processing,
}
use aiva_v.Sync.Tables.{Tables, update_where, count_where, fetch_where, is_unfinished_of}
use aiva_v.Sync.Files.{update_file, failing, failed_columns}

abbrev pub interrupted_run_reason : Text
interrupted_run_reason = codes "Interrupted (server restart or crash) — use Sync now"

abbrev pub interrupted_file_reason : Text
interrupted_file_reason =
    codes "Interrupted before the file finished — it is retried on the next sync"

-- What `create_run` returns or raises: the id, RunAlreadyActive, or another error of the database,
-- such as that of the foreign key.
pub data Created : Type 0 where
  created : ℕ → Created
  already_active insert_failed : Created

unfoldable pub new_run : ℕ → ℕ → ℕ → Trigger → Option ℕ → SyncRun
new_run now id source trigger_type triggered_by = record {
  id = id;
  source_id = source;
  trigger_type = trigger_type;
  triggered_by = triggered_by;
  status = run_queued;
  worker_id = none;
  counts = no_counts;
  error_message = none;
  run_details = [];
  created_at = as_date now;
  started_at = none;
  finished_at = none;
  updated_at = as_date now;
}

abbrev pub is_source : ℕ → Source → Bool
is_source id s = s.id == id

-- `create_run`; the first argument is whether the database fails for a reason of its own. The unique
-- index and the foreign key are those of migrations/V002__sharepoint_crm.sql.
unfoldable pub create_run : Bool → ℕ → ℕ → Trigger → Option ℕ → Tables → Tables × Created
create_run fault now source trigger_type triggered_by t =
    if fault
    then (t, insert_failed)
    else if count_where (is_source source) t.sources == 0
    then (t, insert_failed)
    else if count_where (is_unfinished_of source) t.runs == 0
    then (
      record t {
        runs = t.runs ++ new_run now t.next_run_id source trigger_type triggered_by ∷ [];
        next_run_id = suc t.next_run_id;
      },
      created t.next_run_id,
    )
    else (t, already_active)

-- `ORDER BY created_at, id FETCH FIRST 1 ROWS ONLY`
comes_before : SyncRun → SyncRun → Bool
comes_before r s = ltb r.created_at s.created_at || (r.created_at == s.created_at && ltb r.id s.id)

oldest_of : SyncRun → List SyncRun → SyncRun
unfolding comes_before
oldest_of r [] = r
oldest_of r (s ∷ ss) = oldest_of (if comes_before s r then s else r) ss

unfoldable pub oldest : List SyncRun → Option SyncRun
unfolding oldest_of
oldest [] = none
oldest (r ∷ rs) = some (oldest_of r rs)

-- A worker's name as the column holds it.
abbrev pub worker_name : Text → Text
worker_name worker = take 128 worker

-- `WHERE id = :id AND status = 'QUEUED'`
abbrev pub is_queued_run : ℕ → SyncRun → Bool
is_queued_run id r = r.id == id && is_queued r.status

-- The conditional update of `claim_next_run`.
unfoldable pub claim_run : ℕ → Text → ℕ → Tables → Tables × Bool
claim_run now worker id t = (
  record t {
    runs =
        update_where (is_queued_run id)
          (λ r. record r {
            status = run_running;
            worker_id = some (worker_name worker);
            started_at = some (as_date now);
            updated_at = as_date now;
          })
          t.runs;
  },
  count_where (is_queued_run id) t.runs == 1,
)

abbrev pub claim_attempts : ℕ
claim_attempts = 3

-- The loop of `claim_next_run`; what other sessions do between the selection and the update of each
-- attempt is a parameter.
unfoldable pub claim_from : ℕ → ℕ → Text → (ℕ → Tables → Tables) → Tables → Tables × Option SyncRun
claim_from zero now worker elsewhere t = (t, none)
claim_from (suc n) now worker elsewhere t =
    elim (oldest (keep_if (λ r. is_queued r.status) t.runs)) [
      | none ↦ (t, none)
      | some r ↦
          let done = claim_run now worker r.id (elsewhere n t) in
          let again = claim_from n now worker elsewhere done.0 in
          if done.1 then (done.0, fetch_where (λ s. s.id == r.id) done.0.runs) else again
    ]

unfoldable pub claim_next_run : ℕ → Text → (ℕ → Tables → Tables) → Tables → Tables × Option SyncRun
claim_next_run = claim_from claim_attempts

abbrev pub is_worker : Text → Option Text → Bool
is_worker worker none = false
is_worker worker (some w) = text_eq w (worker_name worker)

-- `WHERE id = :id AND status = 'RUNNING' AND worker_id = :worker_id`
abbrev pub is_run_of : ℕ → Text → SyncRun → Bool
is_run_of id worker r = r.id == id && (is_in_progress r.status && is_worker worker r.worker_id)

-- `touch_run`
unfoldable pub touch_run : ℕ → ℕ → Text → Tables → Tables
touch_run now id worker t = record t {
  runs = update_where (is_run_of id worker) (λ r. record r { updated_at = as_date now }) t.runs;
}

-- `set_run_progress`, which always gets all of the counts.
unfoldable pub set_run_progress :
    ℕ → ℕ → Text → Counts → Option (Map Value) → Tables → Tables × Bool
set_run_progress now id worker counts details t = (
  record t {
    runs =
        update_where (is_run_of id worker)
          (λ r. record r {
            counts = counts;
            run_details = elim details [ none ↦ r.run_details | some d ↦ d ];
            updated_at = as_date now;
          })
          t.runs;
  },
  count_where (is_run_of id worker) t.runs == 1,
)

-- The schedule that a run read: `next_sync_at`, `schedule_interval_days` and `schedule_hour`.
pub record Planned : Type 0 where
  pub next_sync_at : ℕ
  pub interval_days : ℕ
  pub hour : ℕ

abbrev pub keeps_schedule : Planned → Source → Bool
keeps_schedule p s =
    s.sync_enabled
    && (is_active s.status && (s.sync_interval_days == p.interval_days && s.sync_hour == p.hour))

unfoldable pub next_of : Option Planned → Source → Option ℕ
next_of none s = s.next_sync_at
next_of (some p) s = if keeps_schedule p s then some (as_date p.next_sync_at) else s.next_sync_at

is_completed : RunStatus → Bool
is_completed run_completed = true
is_completed _ = false

unfoldable pub recorded : ℕ → RunStatus → Option Text → Option Planned → Source → Source
unfolding is_completed
recorded now status error planned s = record s {
  last_sync_at = some (as_date now);
  last_sync_status = some status;
  last_sync_error = error;
  last_success_at = if is_completed status then some (as_date now) else s.last_success_at;
  next_sync_at = next_of planned s;
}

-- `WHERE id = :id AND status <> 'DELETED'`
abbrev pub is_kept_source : ℕ → Source → Bool
is_kept_source id s = s.id == id && (if is_deleted s.status then false else true)

-- `_record_on_source`
unfoldable pub record_on_source : ℕ → ℕ → RunStatus → Option Text → Option Planned → Tables → Tables
record_on_source now source status error planned t = record t {
  sources = update_where (is_kept_source source) (recorded now status error planned) t.sources;
}

-- The statuses that `finish_run` takes: FINISHED_RUN_STATUSES.
pub data Ending : Type 0 where
  completed_run partial_run failed_run : Ending

unfoldable pub ending_status : Ending → RunStatus
ending_status completed_run = run_completed
ending_status partial_run = run_partial
ending_status failed_run = run_failed

unfoldable pub finished : ℕ → Ending → Option Text → Counts → Map Value → SyncRun → SyncRun
finished now ending error counts details r = record r {
  status = ending_status ending;
  error_message = truncate_utf8 error max_error_bytes;
  counts = counts;
  run_details = details;
  finished_at = some (as_date now);
  updated_at = as_date now;
}

-- `finish_run`
unfoldable pub finish_run :
    ℕ
    → ℕ
    → Text
    → Ending
    → Option Text
    → Counts
    → Map Value
    → ℕ
    → Option Planned
    → Tables
    → Tables × Bool
finish_run now id worker ending error counts details source planned t =
    let after = record t {
      runs = update_where (is_run_of id worker) (finished now ending error counts details) t.runs;
    } in
    if count_where (is_run_of id worker) t.runs == 1
    then (
      record_on_source now source (ending_status ending) (truncate_utf8 error max_error_bytes)
          planned after,
      true,
    )
    else (after, false)

-- Which RUNNING run `_fail_interrupted_run` takes: `stale_before` and `worker_id`.
pub record Interrupted : Type 0 where
  pub stale_before : Option ℕ
  pub worker : Option Text

unfoldable pub is_interrupted : ℕ → Interrupted → SyncRun → Bool
is_interrupted id i r =
    r.id == id
    && (is_in_progress r.status
        && (elim (i.stale_before) [ none ↦ true | some limit ↦ ltb r.updated_at (as_date limit) ]
            && elim (i.worker) [ none ↦ true | some w ↦ is_worker w r.worker_id ]))

unfoldable pub interrupted : ℕ → Text → SyncRun → SyncRun
interrupted now reason r = record r {
  status = run_failed;
  error_message = some reason;
  finished_at = some (as_date now);
  updated_at = as_date now;
}

-- `WHERE last_run_id = :run_id AND status = 'PROCESSING'`
abbrev pub is_in_flight : ℕ → File → Bool
is_in_flight run f = f.last_run_id == run && is_processing f.status

unfoldable pub fail_in_flight : ℕ → File → Tables → Tables
fail_in_flight now f t =
    let stage = running_file_stage f.stages in
    (update_file now f.id (failing stage interrupted_file_reason [] ∷ [])
      (failed_columns now stage interrupted_file_reason) (λ g. is_processing g.status) t).0

unfoldable pub fail_each : ℕ → List File → Tables → Tables
fail_each now [] t = t
fail_each now (f ∷ fs) t = fail_each now fs (fail_in_flight now f t)

-- `_fail_interrupted_run`
unfoldable pub fail_interrupted_run : ℕ → ℕ → ℕ → Text → Interrupted → Tables → Tables × Bool
fail_interrupted_run now id source reason i t =
    let after = record t {
      runs = update_where (is_interrupted id i) (interrupted now reason) t.runs;
    } in
    if count_where (is_interrupted id i) t.runs == 1
    then (
      record_on_source now source run_failed (some reason) none
          (fail_each now (keep_if (is_in_flight id) t.files) after),
      true,
    )
    else (after, false)

abbrev pub is_stale : ℕ → SyncRun → Bool
is_stale limit r = is_in_progress r.status && ltb r.updated_at (as_date limit)

unfoldable pub recover_each : ℕ → ℕ → List SyncRun → Tables → Tables × List ℕ
recover_each now limit [] t = (t, [])
recover_each now limit (r ∷ rs) t =
    let one =
      fail_interrupted_run now r.id r.source_id interrupted_run_reason
        (record { stale_before = some limit; worker = none }) t in
    let rest = recover_each now limit rs one.0 in
    (rest.0, (if one.1 then r.id ∷ rest.1 else rest.1))

-- `recover_stale_runs`
unfoldable pub recover_stale_runs : ℕ → ℕ → Tables → Tables × List ℕ
recover_stale_runs now limit t = recover_each now limit (keep_if (is_stale limit) t.runs) t

-- `release_interrupted_run`
unfoldable pub release_interrupted_run : ℕ → ℕ → Text → Text → Tables → Tables × Bool
release_interrupted_run now id worker reason t = elim (fetch_where (is_run_of id worker) t.runs) [
  | none ↦ (t, false)
  | some r ↦
      fail_interrupted_run now id r.source_id reason
        (record { stale_before = none; worker = some worker }) t
]
