-- ===== src/Import/Rows.antt =====
-- The rows of `AIVA_kb_documents`, and what backend/doc_intel/kb_repo.py computes on one row: the stage
-- columns and their details. A moment is a number of milliseconds; `iso_utc` and `parse_utc` turn it into
-- the text of the JSON column and back, and have no counterpart here. Costs are in millionths of a
-- dollar.
use aiva_v.Prelude.{
  ℕ, ◌-◌, Bool, true, false, Option, none, some, List, [], ◌∷◌, if◌then◌else◌, Text, codes, Map,
}
use aiva_v.Import.Textutil.{truncated}
use aiva_v.Queues.Catalog.{Value}

-- backend/doc_intel/constants.py
pub data Stage : Type 0 where
  upload extraction chunking embedding publishing : Stage

pub data StageStatus : Type 0 where
  stage_pending stage_running stage_completed stage_failed stage_skipped : StageStatus

pub data DocStatus : Type 0 where
  doc_queued doc_processing doc_published doc_failed doc_unpublished : DocStatus

abbrev pub kb_stages : List Stage
kb_stages = upload ∷ extraction ∷ chunking ∷ embedding ∷ publishing ∷ []

abbrev pub max_error_bytes : ℕ
max_error_bytes = 4000

-- A value for each stage: the columns, or the keys of the details.
pub record PerStage {ℓ} (A : Type ℓ) : Type ℓ where
  pub for_upload : A
  pub for_extraction : A
  pub for_chunking : A
  pub for_embedding : A
  pub for_publishing : A

module _ {ℓ} {A : Type ℓ} where
  unfoldable pub at : Stage → PerStage A → A
  at upload p = p.for_upload
  at extraction p = p.for_extraction
  at chunking p = p.for_chunking
  at embedding p = p.for_embedding
  at publishing p = p.for_publishing

  unfoldable pub put_at : Stage → A → PerStage A → PerStage A
  put_at upload a p = record p { for_upload = a }
  put_at extraction a p = record p { for_extraction = a }
  put_at chunking a p = record p { for_chunking = a }
  put_at embedding a p = record p { for_embedding = a }
  put_at publishing a p = record p { for_publishing = a }

  abbrev pub each_stage : A → PerStage A
  each_stage a = record {
    for_upload = a;
    for_extraction = a;
    for_chunking = a;
    for_embedding = a;
    for_publishing = a;
  }

-- What `stage_details` holds of a stage.
pub record StageEntry : Type 0 where
  pub started_at : ℕ
  pub finished_at : Option ℕ
  pub seconds : Option ℕ
  pub metrics : Map Value
  pub error : Option Text

abbrev pub Details : Type 0
Details = PerStage (Option StageEntry)

pub record StageChange : Type 0 where
  pub stage : Stage
  pub status : StageStatus
  pub error : Option Text
  pub metrics : Map Value
  pub started_at : Option ℕ

abbrev pub change : Stage → StageStatus → StageChange
change stage status = record {
  stage = stage;
  status = status;
  error = none;
  metrics = [];
  started_at = none;
}

-- `error or "Failed"`
unfoldable pub or_failed : Option Text → Text
or_failed none = codes "Failed"
or_failed (some []) = codes "Failed"
or_failed (some (c ∷ s)) = c ∷ s

pub or_now : ℕ → Option ℕ → ℕ
or_now now none = now
or_now now (some at) = at

-- When the entry of a stage that ends says that it started.
pub start_of : ℕ → Option ℕ → Option StageEntry → ℕ
start_of now (some begun) entry = begun
start_of now none none = now
start_of now none (some entry) = entry.started_at

pub metrics_of : Option StageEntry → Map Value → Map Value
metrics_of none ms = ms
metrics_of (some entry) [] = entry.metrics
metrics_of (some entry) (m ∷ ms) = m ∷ ms

ended : ℕ → StageChange → Option Text → Option StageEntry → StageEntry
unfolding start_of metrics_of
ended now c error entry = record {
  started_at = start_of now c.started_at entry;
  finished_at = some now;
  seconds = some (now - start_of now c.started_at entry);
  metrics = metrics_of entry c.metrics;
  error = error;
}

-- The entry of the changed stage afterwards.
changed_entry : ℕ → StageChange → StageStatus → Option StageEntry → Option StageEntry
unfolding or_now ended or_failed
changed_entry now c stage_running entry = some (record {
  started_at = or_now now c.started_at;
  finished_at = none;
  seconds = none;
  metrics = [];
  error = none;
})
changed_entry now c stage_completed entry = some (ended now c none entry)
changed_entry now c stage_failed entry =
    some (ended now c (some (truncated (or_failed c.error) max_error_bytes)) entry)
changed_entry now c stage_pending entry = none
changed_entry now c stage_skipped entry = none

-- `apply_stage_change`
unfoldable pub apply_stage_change : ℕ → StageChange → Details → Details
unfolding changed_entry
apply_stage_change now c details =
    put_at c.stage (changed_entry now c c.status (at c.stage details)) details

unfoldable pub is_running : StageStatus → Bool
is_running stage_running = true
is_running _ = false

-- `in (STAGE_PENDING, STAGE_FAILED)`
unfoldable pub is_open : StageStatus → Bool
is_open stage_pending = true
is_open stage_failed = true
is_open _ = false

first_where : (StageStatus → Bool) → PerStage StageStatus → List Stage → Option Stage
first_where p statuses [] = none
first_where p statuses (s ∷ ss) = if p (at s statuses) then some s else first_where p statuses ss

-- `interrupted_stage`
unfoldable pub interrupted_stage : PerStage StageStatus → Stage
unfolding first_where at is_running is_open
interrupted_stage statuses = elim (first_where is_running statuses kb_stages) [
  | some s ↦ s
  | none ↦ elim (first_where is_open statuses kb_stages) [ some s ↦ s | none ↦ publishing ]
]

pub record Row : Type 0 where
  pub id : ℕ
  pub batch_id : Text
  pub account_id : ℕ
  pub corpus_id : Text
  pub queue_keys : List Text
  pub vertical : Text
  pub filename : Text
  pub content_type : Option Text
  pub size_bytes : Option ℕ
  pub sha256 : Option Text
  pub storage_dir : Option Text
  pub status : DocStatus
  pub stages : PerStage StageStatus
  pub failed_stage : Option Stage
  pub error_message : Option Text
  pub stage_details : Details
  pub warnings : List Value
  pub page_count : Option ℕ
  pub chunk_count : Option ℕ
  pub tokens_used : Option ℕ
  pub cost_usd : Option ℕ
  pub attempts : ℕ
  pub worker_id : Option Text
  pub uploaded_by : Option ℕ
  pub created_at : ℕ
  pub updated_at : ℕ
  pub started_at : Option ℕ
  pub finished_at : Option ℕ
  pub published_at : Option ℕ

-- A value of a timestamp column: `NOW`, or `None`.
pub data Stamp : Type 0 where
  at_now no_time : Stamp

abbrev pub stamped : ℕ → Stamp → Option ℕ
stamped now at_now = some now
stamped now no_time = none

-- A column that an update writes, with its value: `_WRITABLE_COLUMNS`.
pub data Column : Type 0 where
  status_column : DocStatus → Column
  failed_stage_column : Option Stage → Column
  error_message_column : Option Text → Column
  page_count_column : Option ℕ → Column
  chunk_count_column : Option ℕ → Column
  tokens_used_column : Option ℕ → Column
  cost_usd_column : Option ℕ → Column
  warnings_column : List Value → Column
  queue_keys_column : List Text → Column
  started_at_column : Stamp → Column
  finished_at_column : Stamp → Column
  published_at_column : Stamp → Column

unfoldable pub write_column : ℕ → Column → Row → Row
write_column now (status_column v) r = record r { status = v }
write_column now (failed_stage_column v) r = record r { failed_stage = v }
write_column now (error_message_column v) r = record r { error_message = v }
write_column now (page_count_column v) r = record r { page_count = v }
write_column now (chunk_count_column v) r = record r { chunk_count = v }
write_column now (tokens_used_column v) r = record r { tokens_used = v }
write_column now (cost_usd_column v) r = record r { cost_usd = v }
write_column now (warnings_column v) r = record r { warnings = v }
write_column now (queue_keys_column v) r = record r { queue_keys = v }
write_column now (started_at_column v) r = record r { started_at = stamped now v }
write_column now (finished_at_column v) r = record r { finished_at = stamped now v }
write_column now (published_at_column v) r = record r { published_at = stamped now v }

unfoldable pub write_columns : ℕ → List Column → Row → Row
write_columns now [] r = r
write_columns now (c ∷ cs) r = write_columns now cs (write_column now c r)

unfoldable pub write_stages : ℕ → List StageChange → Row → Row
write_stages now [] r = r
write_stages now (c ∷ cs) r = write_stages now cs (record r {
  stages = put_at c.stage c.status r.stages;
  stage_details = apply_stage_change now c r.stage_details;
})

-- What `_update` writes into the row.
unfoldable pub written : ℕ → List StageChange → List Column → Row → Row
written now stages columns r = record (write_columns now columns (write_stages now stages r)) {
  updated_at = now;
}
