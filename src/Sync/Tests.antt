-- ===== src/Sync/Tests.antt =====
-- The theorems on the synchronisation at concrete inputs.
use aiva_v.Prelude.{
  ℕ, ◌+◌, ◌*◌, ◌/◌, ◌%◌, ◌≤◌, ◌≡◌, refl, ◌⊎◌, true, false, some, none, List, [], ◌∷◌, codes, All,
  arith,
}
use aiva_v.DocIntel.Schedule.{Zone}
use aiva_v.Import.Rows.{stage_pending}
use aiva_v.Sync.Rows.{
  as_date, source_active, run_running, file_processing, tracked, entity_active, manual, scheduled,
  each_stage, no_counts, Source, SyncRun, File, Remote, Entity,
}
use aiva_v.Sync.Tables.{Tables, count_where, fetch_where}
use aiva_v.Sync.Runs.{completed_run, is_in_flight, is_stale, recover_stale_runs, is_source}
use aiva_v.Sync.Sources.{is_due, is_past, claimed, refused, claim_due_source}
use aiva_v.Sync.Sources.Laws.{claim_due_source-once}
use aiva_v.Sync.Moves.{Op, creating_run, claiming_run, finishing, marking_deleted, steps}
use aiva_v.Sync.Moves.OneActive.{OneActive, steps-OneActive}
use aiva_v.Sync.Moves.Known.{OnlyTracked, is_known}
use aiva_v.Sync.Moves.Tracked.{steps-OnlyTracked}
use aiva_v.Sync.Moves.History.{is_run, steps-Follows}
use aiva_v.Sync.Moves.RunChange.{Follows}
use aiva_v.Sync.Moves.Recovery.{IsKeyed, recover_stale_runs-Recovered}
use aiva_v.Sync.Scheduler.{Around, queue_one}
use aiva_v.Sync.Scheduler.Laws.{Settled, Undisturbed, queue_one-Settled}

abbrev source : Source
source = record {
  id = 3;
  status = source_active;
  sync_enabled = true;
  sync_interval_days = 14;
  sync_hour = 2;
  next_sync_at = some 7200000;
  client_secret_enc = some (codes "sealed");
  last_sync_at = none;
  last_sync_status = none;
  last_sync_error = none;
  last_success_at = none;
  updated_by = some 1;
  updated_at = 0;
}

-- A run that is in progress without a heartbeat.
abbrev stuck : SyncRun
stuck = record {
  id = 5;
  source_id = 4;
  trigger_type = manual;
  triggered_by = some 1;
  status = run_running;
  worker_id = some (codes "host:1");
  counts = no_counts;
  error_message = none;
  run_details = [];
  created_at = 1000;
  started_at = some 2000;
  finished_at = none;
  updated_at = 2000;
}

abbrev remote : Remote
remote = record {
  name = some (codes "Leads.xlsx");
  path = some (codes "/CRM");
  web_url = none;
  etag = some (codes "1");
  ctag = none;
  quick_xor_hash = none;
  size = some 10;
  modified_at = some 500;
}

abbrev file : File
file = record {
  id = 9;
  source_id = 4;
  drive_id = codes "d";
  item_id = codes "i";
  remote = remote;
  content_sha256 = none;
  state = tracked;
  status = file_processing;
  stages = each_stage stage_pending;
  failed_stage = none;
  error_message = none;
  warnings = [];
  file_result = [];
  stage_details = each_stage none;
  entity_count = none;
  is_valid = none;
  attempts = 1;
  last_run_id = 5;
  first_seen_at = 1000;
  last_seen_at = 1000;
  processed_at = none;
  deleted_at = none;
  updated_at = 2000;
}

abbrev entity : Entity
entity = record {
  source_id = 4;
  source_file_id = 9;
  account_id = none;
  stored = record {
    entity_type = codes "lead";
    display_value = none;
    match_key = none;
    confidence = none;
    is_valid = some true;
    entity_fields = [];
    issues = [];
  };
  status = entity_active;
  created_at = 1000;
  updated_at = 1000;
  withdrawn_at = none;
}

abbrev tables : Tables
tables = record {
  sources = source ∷ record source { id = 4; next_sync_at = none } ∷ [];
  runs = stuck ∷ [];
  files = file ∷ [];
  entities = entity ∷ [];
  next_source_id = 5;
  next_run_id = 6;
  next_file_id = 10;
}

-- The scheduler asks for a run that a worker claims and ends, and the file is gone.
abbrev ops : List (ℕ × Op)
ops =
    (8000000, creating_run false 3 scheduled none)
    ∷ (8001000, claiming_run (codes "host:2") 6)
    ∷ (8002000, marking_deleted (9 ∷ []))
    ∷ (8003000, finishing 6 (codes "host:2") completed_run none no_counts [] 3 none)
    ∷ []

tables-OneActive : OneActive tables
tables-OneActive s = ground arith

steps-OneActive_example : OneActive (steps ops tables)
steps-OneActive_example = steps-OneActive ops tables tables-OneActive

tables-OnlyTracked : OnlyTracked tables
unfolding is_known
tables-OnlyTracked = (λ l. refl, tt)

steps-OnlyTracked_example : OnlyTracked (steps ops tables)
steps-OnlyTracked_example = steps-OnlyTracked ops tables tables-OnlyTracked

stuck_found : fetch_where (is_run 5) tables.runs ≡ some stuck
unfolding fetch_where
stuck_found = refl

steps-Follows_example :
    (s : SyncRun) × (fetch_where (is_run 5) (steps ops tables).runs ≡ some s) × Follows stuck s
steps-Follows_example = steps-Follows ops tables 5 stuck stuck_found

-- A time zone without an offset.
abbrev utc : Zone
utc = record {
  to_local = λ t. record { day = t / 86400; second = t % 86400 };
  to_utc = λ day hour. day * 86400 + hour * 3600;
}

abbrev claimed_tables : Tables
claimed_tables = (claim_due_source 3 8000000 1216800000 tables).0

got_it : (claim_due_source 3 8000000 1216800000 tables).1 ≡ claimed true
unfolding claim_due_source is_due is_past as_date
got_it = refl

claim_due_source-once_example :
    (claim_due_source 3 8000500 1216800000 claimed_tables ≡ (claimed_tables, refused))
    ⊎ (claim_due_source 3 8000500 1216800000 claimed_tables ≡ (claimed_tables, claimed false))
claim_due_source-once_example =
    claim_due_source-once 3 8000000 1216800000 8000500 1216800000 tables claimed_tables refl
      (omega arith) (omega arith) got_it refl

-- The database fails the new run, and no other session does anything.
abbrev around : Around
around = record {
  before_claim = λ id. [];
  before_create = λ id. [];
  before_restore = λ id. [];
  claim_fails = λ id. false;
  create_fails = λ id. true;
  restore_fails = λ id. false;
}

around-Undisturbed : Undisturbed utc around 8000000 source
unfolding steps
around-Undisturbed = record {
  creating_apart = λ t. refl;
  restoring_apart = λ t. refl;
  restored = refl;
}

source_due : is_due 8000000 source ≡ true
unfolding is_due is_past as_date
source_due = refl

source_keyed : count_where (is_source 3) (steps [] tables).sources ≤ 1
unfolding steps
source_keyed = omega arith

queue_one-Settled_example :
    Settled utc around 8000000 source
      (steps [] tables)
      (queue_one utc around 8000000 source tables).0
      (queue_one utc around 8000000 source tables).1
queue_one-Settled_example =
    queue_one-Settled utc around 8000000 source tables source_due around-Undisturbed source_keyed

files-IsKeyed : IsKeyed tables.files
files-IsKeyed i = ground arith

recover_stale_runs-Recovered_example :
    (count_where (is_stale 900000) (recover_stale_runs 1000000 900000 tables).0.runs ≡ 0)
    × All
        (λ id. count_where (is_in_flight id) (recover_stale_runs 1000000 900000 tables).0.files ≡ 0)
        (recover_stale_runs 1000000 900000 tables).1
recover_stale_runs-Recovered_example =
    recover_stale_runs-Recovered 1000000 900000 tables files-IsKeyed
