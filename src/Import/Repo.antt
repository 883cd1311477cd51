-- ===== src/Import/Repo.antt =====
-- backend/doc_intel/kb_repo.py: the registry of documents, which is also the queue of the import. Each
-- operation is one transaction, or a selection and then one for each row; `now` is `utc_now()` in it.
pub mod Queue
pub mod Moves
use aiva_v.Prelude.{
  ℕ, suc, ◌+◌, Bool, true, false, not, ◌&&◌, ◌||◌, Option, none, some, List, [], ◌∷◌, ◌++◌, map,
  drop, keep_if, any_of, ltb, ◌==◌, if◌then◌else◌, Text, codes, text_eq, Map, take, is_nil,
}
use aiva_v.DocIntel.Chunking.Build.{kb_vertical_for}
use aiva_v.Import.Textutil.{truncated, truncate_utf8}
use aiva_v.Import.Rows.{
  Stage, upload, extraction, chunking, embedding, publishing, StageStatus, stage_pending,
  stage_completed, stage_failed, DocStatus, doc_queued, doc_processing, doc_published, doc_failed,
  doc_unpublished, kb_stages, max_error_bytes, PerStage, Details, StageChange, change, or_failed,
  interrupted_stage, Row, at_now, no_time, Column, status_column, failed_stage_column,
  error_message_column, page_count_column, chunk_count_column, tokens_used_column, cost_usd_column,
  warnings_column, queue_keys_column, finished_at_column, published_at_column, written,
}
use aiva_v.Queues.Catalog.{Value}

-- The table, with the identity column's next value.
pub record Docs : Type 0 where
  pub rows : List Row
  pub next_id : ℕ

abbrev pub max_filename_bytes : ℕ
max_filename_bytes = 1024

abbrev pub interrupted_reason : Text
interrupted_reason = codes "Interrupted (server restart or crash) — use Retry"

-- A worker's name as the column holds it.
abbrev pub worker_name : Text → Text
worker_name worker = take 128 worker

unfoldable pub status_code : DocStatus → ℕ
status_code doc_queued = 0
status_code doc_processing = 1
status_code doc_published = 2
status_code doc_failed = 3
status_code doc_unpublished = 4

unfoldable pub has_status : DocStatus → Row → Bool
has_status s r = status_code r.status == status_code s

unfoldable pub fetch : ℕ → List Row → Option Row
fetch id [] = none
fetch id (r ∷ rs) = if r.id == id then some r else fetch id rs

-- `get_document`
unfoldable pub get_document : ℕ → Docs → Option Row
get_document id d = fetch id d.rows

unfoldable pub store : ℕ → (Row → Row) → List Row → List Row
store id f [] = []
store id f (r ∷ rs) = let rest = store id f rs in if r.id == id then f r ∷ rs else r ∷ rest

-- The conditions of `_update`.
pub record Guard : Type 0 where
  pub expect_status : List DocStatus
  pub stale_before : Option ℕ
  pub worker_id : Option Text

abbrev pub expecting : List DocStatus → Guard
expecting statuses = record { expect_status = statuses; stale_before = none; worker_id = none }

unfoldable pub is_worker : Text → Option Text → Bool
is_worker worker none = false
is_worker worker (some w) = text_eq w (worker_name worker)

unfoldable pub is_expected : List DocStatus → Row → Bool
is_expected [] r = false
is_expected (s ∷ ss) r = has_status s r || is_expected ss r

unfoldable pub matches : Guard → Row → Bool
unfolding is_worker
matches g r =
    (is_nil g.expect_status || is_expected g.expect_status r)
    && elim (g.stale_before) [ none ↦ true | some t ↦ ltb r.updated_at t ]
    && elim (g.worker_id) [ none ↦ true | some w ↦ is_worker w r.worker_id ]

-- A conditional write to one row, and whether it was made.
unfoldable pub write_if : ℕ → (Row → Bool) → (Row → Row) → Docs → Docs × Bool
write_if id p f d = elim (fetch id d.rows) [
  | none ↦ (d, false)
  | some r ↦ if p r then (record d { rows = store id f d.rows }, true) else (d, false)
]

-- `_update`
unfoldable pub update : ℕ → ℕ → List StageChange → List Column → Guard → Docs → Docs × Bool
update now id stages columns g = write_if id (matches g) (written now stages columns)

-- The arguments of `insert_document`.
pub record NewDocument : Type 0 where
  pub batch_id : Text
  pub account_id : ℕ
  pub corpus_id : Text
  pub queue_keys : List Text
  pub filename : Text
  pub status : DocStatus
  pub stages : PerStage StageStatus
  pub content_type : Option Text
  pub size_bytes : Option ℕ
  pub sha256 : Option Text
  pub storage_dir : Option Text
  pub uploaded_by : Option ℕ
  pub failed_stage : Option Stage
  pub error_message : Option Text
  pub stage_details : Details
  pub finished : Bool

unfoldable pub new_row : ℕ → ℕ → NewDocument → Row
new_row now id n = record {
  id = id;
  batch_id = n.batch_id;
  account_id = n.account_id;
  corpus_id = n.corpus_id;
  queue_keys = n.queue_keys;
  vertical = kb_vertical_for id;
  filename = truncated n.filename max_filename_bytes;
  content_type = n.content_type;
  size_bytes = n.size_bytes;
  sha256 = n.sha256;
  storage_dir = n.storage_dir;
  status = n.status;
  stages = n.stages;
  failed_stage = n.failed_stage;
  error_message = truncate_utf8 n.error_message max_error_bytes;
  stage_details = n.stage_details;
  warnings = [];
  page_count = none;
  chunk_count = none;
  tokens_used = none;
  cost_usd = none;
  attempts = 0;
  worker_id = none;
  uploaded_by = n.uploaded_by;
  created_at = now;
  updated_at = now;
  started_at = none;
  finished_at = if n.finished then some now else none;
  published_at = none;
}

-- `insert_document`
unfoldable pub insert_document : ℕ → NewDocument → Docs → Docs × ℕ
insert_document now n d =
    (record { rows = d.rows ++ new_row now d.next_id n ∷ []; next_id = suc d.next_id }, d.next_id)

unfoldable pub stage_columns : Stage → StageStatus → Option Text → List Column
stage_columns stage stage_failed error =
    failed_stage_column (some stage)
    ∷ error_message_column (some (truncated (or_failed error) max_error_bytes))
    ∷ []
stage_columns stage _ error = []

-- `set_stage`
unfoldable pub set_stage : ℕ → ℕ → StageChange → Docs → Docs × Bool
unfolding stage_columns
set_stage now id c =
    update now id (c ∷ []) (stage_columns c.stage c.status c.error)
      (expecting (doc_processing ∷ []))

-- The arguments of `set_results`, `none` for one that is not set.
pub record Results : Type 0 where
  pub page_count : Option (Option ℕ)
  pub chunk_count : Option (Option ℕ)
  pub tokens_used : Option (Option ℕ)
  pub cost_usd : Option (Option ℕ)
  pub warnings : Option (List Value)

unfoldable pub given {ℓ} : {A : Type ℓ} → (A → Column) → Option A → List Column → List Column
given column none cs = cs
given column (some v) cs = column v ∷ cs

unfoldable pub result_columns : Results → List Column
result_columns n = given page_count_column n.page_count (
    given chunk_count_column n.chunk_count (
      given tokens_used_column n.tokens_used
        (given cost_usd_column n.cost_usd (given warnings_column n.warnings []))))

-- `set_results`
unfoldable pub set_results : ℕ → ℕ → Results → Docs → Docs × Bool
set_results now id results d =
    if is_nil (result_columns results)
    then (d, true)
    else update now id [] (result_columns results) (expecting (doc_processing ∷ [])) d

-- The counts that `finish` records when they are given.
pub record Counts : Type 0 where
  pub page_count : Option ℕ
  pub chunk_count : Option ℕ
  pub tokens_used : Option ℕ
  pub cost_usd : Option ℕ

unfoldable pub count_columns : Counts → List Column
count_columns n =
    given (λ v. page_count_column (some v)) n.page_count
      (given (λ v. chunk_count_column (some v)) n.chunk_count
        (given (λ v. tokens_used_column (some v)) n.tokens_used
          (given (λ v. cost_usd_column (some v)) n.cost_usd [])))

-- `finish` with the status PUBLISHED.
unfoldable pub finish_published : ℕ → ℕ → Map Value → Counts → Docs → Docs × Bool
finish_published now id metrics counts =
    update now id (record (change publishing stage_completed) { metrics = metrics } ∷ [])
      (status_column doc_published
        ∷ finished_at_column at_now
        ∷ published_at_column at_now
        ∷ failed_stage_column none
        ∷ error_message_column none
        ∷ count_columns counts)
      (expecting (doc_processing ∷ []))

unfoldable pub failure_columns : Stage → Text → List Column
failure_columns stage reason =
    status_column doc_failed
    ∷ finished_at_column at_now
    ∷ failed_stage_column (some stage)
    ∷ error_message_column (some reason)
    ∷ []

-- `finish` with the status FAILED.
unfoldable pub finish_failed : ℕ → ℕ → Stage → Option Text → Docs → Docs × Bool
unfolding failure_columns
finish_failed now id stage error =
    let reason = truncated (or_failed error) max_error_bytes in
    update now id (record (change stage stage_failed) { error = some reason } ∷ [])
      (failure_columns stage reason) (expecting (doc_processing ∷ []))

-- `touch`, with the worker's name if one is given.
unfoldable pub touch : ℕ → ℕ → Option Text → Docs → Docs
touch now id worker d =
    (write_if id (matches (record (expecting (doc_processing ∷ [])) { worker_id = worker }))
      (λ r. record r { updated_at = now }) d).0

-- `_fail_interrupted`
unfoldable pub fail_interrupted : ℕ → ℕ → Stage → Option ℕ → Option Text → Docs → Docs × Bool
unfolding failure_columns
fail_interrupted now id stage stale_before worker =
    update now id (record (change stage stage_failed) { error = some interrupted_reason } ∷ [])
      (failure_columns stage interrupted_reason)
      (record {
        expect_status = doc_processing ∷ [];
        stale_before = stale_before;
        worker_id = worker;
      })

unfoldable pub is_stale : ℕ → Row → Bool
is_stale older_than r = has_status doc_processing r && ltb r.updated_at older_than

unfoldable pub recover_each : ℕ → ℕ → List Row → Docs → Docs × List ℕ
recover_each now older_than [] d = (d, [])
recover_each now older_than (r ∷ rs) d =
    let done = fail_interrupted now r.id (interrupted_stage r.stages) (some older_than) none d in
    let rest = recover_each now older_than rs done.0 in
    (rest.0, if done.1 then r.id ∷ rest.1 else rest.1)

-- `recover_stale`
unfoldable pub recover_stale : ℕ → ℕ → Docs → Docs × List ℕ
unfolding recover_each is_stale
recover_stale now older_than d =
    recover_each now older_than (keep_if (is_stale older_than) d.rows) d

-- `release_interrupted`
unfoldable pub release_interrupted : ℕ → ℕ → Text → Docs → Docs × Bool
unfolding is_worker
release_interrupted now id worker d = elim (fetch id d.rows) [
  | none ↦ (d, false)
  | some r ↦
      if has_status doc_processing r && is_worker worker r.worker_id
      then fail_interrupted now id (interrupted_stage r.stages) none (some worker) d
      else (d, false)
]

-- An identical document that is queued, processed or published.
unfoldable pub is_duplicate : Text → Text → Row → Bool
is_duplicate corpus_id sha256 r =
    text_eq r.corpus_id corpus_id
    && elim (r.sha256) [ none ↦ false | some h ↦ text_eq h sha256 ]
    && (has_status doc_queued r || has_status doc_processing r || has_status doc_published r)

unfoldable pub least_id : List Row → Option ℕ
least_id [] = none
least_id (r ∷ rs) = elim (least_id rs) [
  | none ↦ some r.id
  | some i ↦ if ltb r.id i then some r.id else some i
]

-- `find_active_duplicate`
unfoldable pub find_active_duplicate : Text → Text → Docs → Option ℕ
unfolding least_id
find_active_duplicate corpus_id sha256 d = least_id (keep_if (is_duplicate corpus_id sha256) d.rows)

unfoldable pub stage_index : Stage → ℕ
stage_index upload = 0
stage_index extraction = 1
stage_index chunking = 2
stage_index embedding = 3
stage_index publishing = 4

unfoldable pub pending : Stage → StageChange
pending stage = change stage stage_pending

unfoldable pub queued_columns : List Column
queued_columns =
    status_column doc_queued
    ∷ failed_stage_column none
    ∷ error_message_column none
    ∷ finished_at_column no_time
    ∷ []

-- `reset_for_retry`
unfoldable pub reset_for_retry : ℕ → ℕ → Stage → Docs → Docs × Bool
unfolding pending queued_columns stage_index
reset_for_retry now id from_stage =
    update now id (map pending (drop (stage_index from_stage) kb_stages)) queued_columns
      (expecting (doc_failed ∷ []))

-- `reset_for_republish`
unfoldable pub reset_for_republish : ℕ → ℕ → Docs → Docs × Bool
unfolding pending queued_columns
reset_for_republish now id =
    update now id (map pending (chunking ∷ embedding ∷ publishing ∷ [])) queued_columns
      (expecting (doc_published ∷ doc_failed ∷ []))

-- `mark_unpublished`
unfoldable pub mark_unpublished : ℕ → ℕ → Docs → Docs × Bool
mark_unpublished now id =
    update now id [] (status_column doc_unpublished ∷ [])
      (expecting (doc_published ∷ doc_failed ∷ []))

-- `update_queue_keys`
unfoldable pub update_queue_keys : ℕ → ℕ → List Text → List DocStatus → Docs → Docs × Bool
update_queue_keys now id keys statuses =
    update now id [] (queue_keys_column keys ∷ []) (expecting statuses)
