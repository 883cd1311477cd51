-- ===== src/Sync/Rows.antt =====
-- backend/doc_intel/crm_repo.py: the rows of the four tables and what is computed on one of them. The
-- texts of the columns that no operation reads are `Value`s.
use aiva_v.Prelude.{
  ℕ, ◌-◌, ◌%◌, Bool, true, false, ◌||◌, Option, none, some, List, [], ◌∷◌, leb, if◌then◌else◌, Text,
  Map,
}
use aiva_v.Queues.Catalog.{Value}
use aiva_v.Import.Textutil.{size, truncated, truncate_utf8}
use aiva_v.Import.Rows.{
  StageStatus, stage_pending, stage_running, stage_completed, stage_failed, stage_skipped,
  StageEntry, max_error_bytes, or_failed, or_now, start_of, metrics_of, is_running, is_open,
}

-- The datetime as python-oracledb binds it.
unfoldable pub as_date : ℕ → ℕ
as_date t = t - t % 1000

pub data SourceStatus : Type 0 where
  source_active source_disabled source_deleted : SourceStatus

pub data RunStatus : Type 0 where
  run_queued run_running run_completed run_partial run_failed : RunStatus

pub data FileStatus : Type 0 where
  file_pending file_processing file_completed file_failed file_skipped : FileStatus

pub data FileState : Type 0 where
  tracked gone : FileState

pub data EntityStatus : Type 0 where
  entity_active entity_withdrawn : EntityStatus

pub data Trigger : Type 0 where
  manual scheduled : Trigger

-- `CRM_STAGES`
pub data CrmStage : Type 0 where
  download extraction intelligence entities persist : CrmStage

abbrev pub crm_stages : List CrmStage
crm_stages = download ∷ extraction ∷ intelligence ∷ entities ∷ persist ∷ []

pub record PerStage {ℓ} (A : Type ℓ) : Type ℓ where
  pub for_download : A
  pub for_extraction : A
  pub for_intelligence : A
  pub for_entities : A
  pub for_persist : A

module _ {ℓ} {A : Type ℓ} where
  unfoldable pub stage_at : CrmStage → PerStage A → A
  stage_at download p = p.for_download
  stage_at extraction p = p.for_extraction
  stage_at intelligence p = p.for_intelligence
  stage_at entities p = p.for_entities
  stage_at persist p = p.for_persist

  unfoldable pub put_stage : CrmStage → A → PerStage A → PerStage A
  put_stage download a p = record p { for_download = a }
  put_stage extraction a p = record p { for_extraction = a }
  put_stage intelligence a p = record p { for_intelligence = a }
  put_stage entities a p = record p { for_entities = a }
  put_stage persist a p = record p { for_persist = a }

  abbrev pub each_stage : A → PerStage A
  each_stage a = record {
    for_download = a;
    for_extraction = a;
    for_intelligence = a;
    for_entities = a;
    for_persist = a;
  }

abbrev pub FileDetails : Type 0
FileDetails = PerStage (Option StageEntry)

pub record FileChange : Type 0 where
  pub stage : CrmStage
  pub status : StageStatus
  pub error : Option Text
  pub metrics : Map Value
  pub started_at : Option ℕ

abbrev pub change : CrmStage → StageStatus → FileChange
change stage status = record {
  stage = stage;
  status = status;
  error = none;
  metrics = [];
  started_at = none;
}

ended : ℕ → FileChange → Option Text → Option StageEntry → StageEntry
ended now c error entry = record {
  started_at = start_of now c.started_at entry;
  finished_at = some now;
  seconds = some (now - start_of now c.started_at entry);
  metrics = metrics_of entry c.metrics;
  error = error;
}

file_entry : ℕ → FileChange → StageStatus → Option StageEntry → Option StageEntry
unfolding ended
file_entry now c stage_running entry = some (record {
  started_at = or_now now c.started_at;
  finished_at = none;
  seconds = none;
  metrics = [];
  error = none;
})
file_entry now c stage_completed entry = some (ended now c none entry)
file_entry now c stage_failed entry =
    some (ended now c (some (truncated (or_failed c.error) max_error_bytes)) entry)
file_entry now c stage_pending entry = none
file_entry now c stage_skipped entry = none

unfoldable pub apply_file_stage_change : ℕ → FileChange → FileDetails → FileDetails
unfolding file_entry
apply_file_stage_change now c details =
    put_stage c.stage (file_entry now c c.status (stage_at c.stage details)) details

first_where : (StageStatus → Bool) → PerStage StageStatus → List CrmStage → Option CrmStage
first_where p statuses [] = none
first_where p statuses (s ∷ ss) =
    if p (stage_at s statuses) then some s else first_where p statuses ss

unfoldable pub running_file_stage : PerStage StageStatus → CrmStage
unfolding first_where
running_file_stage statuses = elim (first_where is_running statuses crm_stages) [
  | some s ↦ s
  | none ↦ elim (first_where is_open statuses crm_stages) [ some s ↦ s | none ↦ persist ]
]

-- `RemoteFile`, but for its identity and its MIME type; `web_url or None`.
pub record Remote : Type 0 where
  pub name : Option Text
  pub path : Option Text
  pub web_url : Option Text
  pub etag : Option Text
  pub ctag : Option Text
  pub quick_xor_hash : Option Text
  pub size : Option ℕ
  pub modified_at : Option ℕ

unfoldable pub fits : Option Text → ℕ → Bool
fits none max_bytes = true
fits (some text) max_bytes = leb (size text) max_bytes

unfoldable pub remote_columns : Remote → Remote
remote_columns r = record {
  name = truncate_utf8 r.name 1024;
  path = truncate_utf8 r.path 4000;
  web_url = if fits r.web_url 4000 then r.web_url else none;
  etag = truncate_utf8 r.etag 512;
  ctag = truncate_utf8 r.ctag 512;
  quick_xor_hash = truncate_utf8 r.quick_xor_hash 128;
  size = r.size;
  modified_at = r.modified_at;
}

-- A row of AIVA_crm_sources, but for its name, place, credentials and settings.
pub record Source : Type 0 where
  pub id : ℕ
  pub status : SourceStatus
  pub sync_enabled : Bool
  pub sync_interval_days : ℕ
  pub sync_hour : ℕ
  pub next_sync_at : Option ℕ
  pub client_secret_enc : Option Text
  pub last_sync_at : Option ℕ
  pub last_sync_status : Option RunStatus
  pub last_sync_error : Option Text
  pub last_success_at : Option ℕ
  pub updated_by : Option ℕ
  pub updated_at : ℕ

-- `_RUN_COUNT_COLUMNS`
pub record Counts : Type 0 where
  pub files_seen : ℕ
  pub files_new : ℕ
  pub files_changed : ℕ
  pub files_deleted : ℕ
  pub files_unchanged : ℕ
  pub files_failed : ℕ

abbrev pub no_counts : Counts
no_counts = record {
  files_seen = 0;
  files_new = 0;
  files_changed = 0;
  files_deleted = 0;
  files_unchanged = 0;
  files_failed = 0;
}

-- A row of AIVA_crm_sync_runs.
pub record SyncRun : Type 0 where
  pub id : ℕ
  pub source_id : ℕ
  pub trigger_type : Trigger
  pub triggered_by : Option ℕ
  pub status : RunStatus
  pub worker_id : Option Text
  pub counts : Counts
  pub error_message : Option Text
  pub run_details : Map Value
  pub created_at : ℕ
  pub started_at : Option ℕ
  pub finished_at : Option ℕ
  pub updated_at : ℕ

-- A row of AIVA_crm_source_files.
pub record File : Type 0 where
  pub id : ℕ
  pub source_id : ℕ
  pub drive_id : Text
  pub item_id : Text
  pub remote : Remote
  pub content_sha256 : Option Text
  pub state : FileState
  pub status : FileStatus
  pub stages : PerStage StageStatus
  pub failed_stage : Option CrmStage
  pub error_message : Option Text
  pub warnings : List Value
  pub file_result : Map Value
  pub stage_details : FileDetails
  pub entity_count : Option ℕ
  pub is_valid : Option Bool
  pub attempts : ℕ
  pub last_run_id : ℕ
  pub first_seen_at : ℕ
  pub last_seen_at : ℕ
  pub processed_at : Option ℕ
  pub deleted_at : Option ℕ
  pub updated_at : ℕ

-- What `complete_file` stores of an extracted entity: `EntityRow`.
pub record EntityRow : Type 0 where
  pub entity_type : Text
  pub display_value : Option Text
  pub match_key : Option Text
  pub confidence : Option Value
  pub is_valid : Option Bool
  pub entity_fields : Map Value
  pub issues : List Value

-- A row of AIVA_crm_entities.
pub record Entity : Type 0 where
  pub source_id : ℕ
  pub source_file_id : ℕ
  pub account_id : Option ℕ
  pub stored : EntityRow
  pub status : EntityStatus
  pub created_at : ℕ
  pub updated_at : ℕ
  pub withdrawn_at : Option ℕ

abbrev pub is_queued : RunStatus → Bool
is_queued run_queued = true
is_queued _ = false

abbrev pub is_in_progress : RunStatus → Bool
is_in_progress run_running = true
is_in_progress _ = false

-- `status IN ('QUEUED', 'RUNNING')`
abbrev pub is_unfinished : RunStatus → Bool
is_unfinished s = is_queued s || is_in_progress s

abbrev pub is_deleted : SourceStatus → Bool
is_deleted source_deleted = true
is_deleted _ = false

abbrev pub is_active : SourceStatus → Bool
is_active source_active = true
is_active _ = false

abbrev pub is_tracked : FileState → Bool
is_tracked tracked = true
is_tracked gone = false

abbrev pub is_live : EntityStatus → Bool
is_live entity_active = true
is_live entity_withdrawn = false

abbrev pub is_pending : FileStatus → Bool
is_pending file_pending = true
is_pending _ = false

abbrev pub is_processing : FileStatus → Bool
is_processing file_processing = true
is_processing _ = false

abbrev pub has_failed : FileStatus → Bool
has_failed file_failed = true
has_failed _ = false
