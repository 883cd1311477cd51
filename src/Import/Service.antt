-- ===== src/Import/Service.antt =====
-- backend/doc_intel/kb_import.py: what an administrator does with documents: uploading, retrying,
-- republishing, unpublishing, and changing queues. What other sessions do in the registry between the
-- reading of a row and its update is a parameter, as are the storage of files and the errors of the
-- knowledge base. The audit log and the shown copy of the row are left out.
pub mod Laws
use aiva_v.Prelude.{
  ℕ, ◌+◌, Bool, true, false, not, ◌&&◌, ◌||◌, Option, none, some, List, [], ◌∷◌, ◌++◌, length, ltb,
  ◌==◌, if◌then◌else◌, Text, codes, is_nil, Map, find, has_key,
}
use aiva_v.DocIntel.Chunking.Build.{Document}
use aiva_v.DocIntel.Chunking.Header.{decimal}
use aiva_v.Queues.Catalog.{Config}
use aiva_v.Import.Rows.{
  Stage, upload, extraction, chunking, StageStatus, stage_pending, stage_completed, stage_failed,
  stage_skipped, DocStatus, doc_queued, doc_processing, doc_published, doc_failed, doc_unpublished,
  each_stage, put_at, change, apply_stage_change, Details, Row,
}
use aiva_v.Import.Repo.{
  Docs, get_document, NewDocument, insert_document, find_active_duplicate, reset_for_retry,
  reset_for_republish, mark_unpublished, update_queue_keys, has_status,
}
use aiva_v.Import.Store.{
  Kb, Written, done, publish_failed, PublishFailed, is_database_error, Faults, unpublish,
  set_queues, Unpublished,
}
use aiva_v.Import.Pipeline.Files.{is_completed, original_path}
use aiva_v.Import.Pipeline.Publish.{vertical_of}

-- The exceptions that the routes turn into responses.
pub data ServiceError : Type 0 where
  not_found_error : ServiceError
  conflict_error : Text → ServiceError
  service_unavailable_error : Text → ServiceError
  -- An exception of the registry, which no handler of the service turns into one of these.
  registry_error : ServiceError

pub data Reply (A : Type 0) : Type 0 where
  ok : A → Reply A
  error : ServiceError → Reply A

abbrev pub state_changed : Text
state_changed = codes "The document changed state in the meantime; refresh and try again"

-- `StoredUpload`
pub record Stored : Type 0 where
  pub filename : Text
  pub content_type : Text
  pub size_bytes : ℕ
  pub sha256 : Text
  pub doc_dir : Text

-- What storing an upload ends in: a stored file, `UploadRejected` with its reason, or another failure
-- of the storage with the reason that is made of it.
pub data SavedUpload : Type 0 where
  saved : Stored → SavedUpload
  upload_rejected : Text → SavedUpload
  not_stored : Text → SavedUpload

-- The arguments that are common to the documents of a batch.
pub record Batch : Type 0 where
  pub batch_id : Text
  pub account_id : ℕ
  pub corpus_id : Text
  pub queue_keys : List Text
  pub user_id : ℕ

abbrev no_details : Details
no_details = each_stage none

unfoldable pub upload_details : ℕ → StageStatus → Option Text → ℕ → Details
upload_details now status reason started =
    apply_stage_change now
      (record (change upload status) { error = reason; started_at = some started }) no_details

-- The file that `_insert_rejected` is told of, if it was stored.
unfoldable pub rejected : ℕ → ℕ → Batch → Text → Option Stored → Text → NewDocument
rejected now started b filename stored reason = record {
  batch_id = b.batch_id;
  account_id = b.account_id;
  corpus_id = b.corpus_id;
  queue_keys = b.queue_keys;
  filename = filename;
  status = doc_failed;
  stages = put_at upload stage_failed (each_stage stage_skipped);
  content_type = elim stored [ none ↦ none | some f ↦ some f.content_type ];
  size_bytes = elim stored [ none ↦ none | some f ↦ some f.size_bytes ];
  sha256 = elim stored [ none ↦ none | some f ↦ some f.sha256 ];
  storage_dir = none;
  uploaded_by = some b.user_id;
  failed_stage = some upload;
  error_message = some reason;
  stage_details = upload_details now stage_failed (some reason) started;
  finished = true;
}

unfoldable pub accepted : ℕ → ℕ → Batch → Stored → NewDocument
accepted now started b f = record {
  batch_id = b.batch_id;
  account_id = b.account_id;
  corpus_id = b.corpus_id;
  queue_keys = b.queue_keys;
  filename = f.filename;
  status = doc_queued;
  stages = put_at upload stage_completed (each_stage stage_pending);
  content_type = some f.content_type;
  size_bytes = some f.size_bytes;
  sha256 = some f.sha256;
  storage_dir = some f.doc_dir;
  uploaded_by = some b.user_id;
  failed_stage = none;
  error_message = none;
  stage_details = upload_details now stage_completed none started;
  finished = false;
}

unfoldable pub insert_rejected :
    ℕ → ℕ → Batch → Text → Option Stored → Text → Docs → Docs × (ℕ × Bool)
insert_rejected now started b filename stored reason d =
    let out = insert_document now (rejected now started b filename stored reason) d in
    (out.0, (out.1, false))

-- `_store_one`: the id of the new row, and whether the file was accepted.
unfoldable pub store_one :
    ℕ → ℕ → Batch → (Docs → Docs) → Text → SavedUpload → Docs → Docs × (ℕ × Bool)
store_one now started b others filename (upload_rejected reason) d =
    insert_rejected now started b filename none reason (others d)
store_one now started b others filename (not_stored reason) d =
    insert_rejected now started b filename none reason (others d)
store_one now started b others filename (saved f) d =
    elim (find_active_duplicate b.corpus_id f.sha256 d) [
      | some duplicate ↦
          insert_rejected now started b f.filename (some f)
            (codes "Duplicate of document #"
              ++ decimal duplicate
              ++ codes ", which is already imported — use Change queues instead")
            (others d)
      | none ↦
          let out = insert_document now (accepted now started b f) (others d) in
          (out.0, (out.1, true))
    ]

status_text : DocStatus → Text
status_text doc_queued = codes "QUEUED"
status_text doc_processing = codes "PROCESSING"
status_text doc_published = codes "PUBLISHED"
status_text doc_failed = codes "FAILED"
status_text doc_unpublished = codes "UNPUBLISHED"

this_one : Row → Text
unfolding status_text
this_one row = codes " (this one is " ++ status_text row.status ++ codes ")"

-- What a retry looks at on the disk.
pub record Disk : Type 0 where
  pub lower : Text → Text
  pub is_file : Text → Bool
  pub normalized : Map (Option Document)

unfoldable pub has_extracted_text : Disk → Row → Bool
has_extracted_text disk row = elim (row.storage_dir) [
  | none ↦ false
  | some dir ↦ has_key dir disk.normalized
]

-- The stage at which `retry` starts again.
unfoldable pub retry_stage : Disk → Row → Option Stage
retry_stage disk row =
    if is_completed row.stages.for_extraction && has_extracted_text disk row
    then some chunking
    else elim (original_path disk.lower disk.is_file row) [
      | some path ↦ some extraction
      | none ↦ none
    ]

is_failed_stage : StageStatus → Bool
is_failed_stage stage_failed = true
is_failed_stage _ = false

made_or_conflict : Docs × Bool → Docs × Reply (Unit {0})
made_or_conflict out =
    if out.1 then (out.0, ok tt) else (out.0, error (conflict_error state_changed))

-- `retry`
unfoldable pub retry_row : ℕ → Disk → (Docs → Docs) → Row → Docs → Docs × Reply (Unit {0})
unfolding is_failed_stage made_or_conflict this_one
retry_row now disk others row d =
    if not (has_status doc_failed row)
    then (d, error (conflict_error (codes "Only failed documents can be retried" ++ this_one row)))
    else if is_failed_stage row.stages.for_upload
    then (d, error (conflict_error (codes "The upload failed; upload the file again")))
    else elim (retry_stage disk row) [
      | none ↦ (
        d,
        error (
            conflict_error (codes "The uploaded file is no longer on the server; upload it again")),
      )
      | some from ↦ made_or_conflict (reset_for_retry now row.id from (others d))
    ]

unfoldable pub retry : ℕ → Disk → (Docs → Docs) → ℕ → Docs → Docs × Reply (Unit {0})
retry now disk others id d = elim (get_document id d) [
  | none ↦ (d, error not_found_error)
  | some row ↦ retry_row now disk others row d
]

-- `republish`
unfoldable pub republish_row : ℕ → Disk → (Docs → Docs) → Row → Docs → Docs × Reply (Unit {0})
unfolding made_or_conflict this_one
republish_row now disk others row d =
    if not (
      has_status doc_published row
      || (has_status doc_failed row && is_completed row.stages.for_extraction))
    then (
      d,
      error (
          conflict_error (
            codes
              "Only published documents, or failed documents whose extraction completed, can be republished"
            ++ this_one row)),
    )
    else if not (has_extracted_text disk row)
    then (
      d,
      error (
          conflict_error
            (codes "The extracted text is no longer on the server; upload the file again")),
    )
    else made_or_conflict (reset_for_republish now row.id (others d))

unfoldable pub republish : ℕ → Disk → (Docs → Docs) → ℕ → Docs → Docs × Reply (Unit {0})
republish now disk others id d = elim (get_document id d) [
  | none ↦ (d, error not_found_error)
  | some row ↦ republish_row now disk others row d
]

-- The end of an action whose write to the knowledge base has committed; `raises` is whether the write to
-- the registry raises an exception instead, which is not caught.
unfoldable pub marked : Bool → Kb → Docs → Docs × Bool → (Docs × Kb) × Reply (Unit {0})
marked true kb before out = ((before, kb), error registry_error)
marked false kb before out =
    if out.1 then ((out.0, kb), ok tt) else ((out.0, kb), error (conflict_error state_changed))

unfoldable pub unpublish_end :
    ℕ
    → Bool
    → (Docs → Docs)
    → Row
    → Docs
    → Kb × Written Unpublished
    → (Docs × Kb) × Reply (Unit {0})
unpublish_end now raises others row d (kb, publish_failed f) =
    ((d, kb), error (service_unavailable_error f.reason))
unpublish_end now raises others row d (kb, done summary) =
    marked raises kb (others d) (mark_unpublished now row.id (others d))

unfoldable pub unpublish_row :
    ℕ → Bool → Faults → (Docs → Docs) → Row → Docs → Kb → (Docs × Kb) × Reply (Unit {0})
unpublish_row now raises faults others row d kb =
    if has_status doc_queued row || has_status doc_processing row
    then (
      (d, kb),
      error (
          conflict_error
            (codes "The document is still being imported; unpublish it once it has finished")),
    )
    else if has_status doc_unpublished row
    then ((d, kb), ok tt)
    else unpublish_end now raises others row d (unpublish faults row.corpus_id (vertical_of row) kb)

-- `unpublish` of the service.
unfoldable pub unpublish_document :
    ℕ → Bool → Faults → (Docs → Docs) → ℕ → Docs → Kb → (Docs × Kb) × Reply (Unit {0})
unpublish_document now raises faults others id d kb = elim (get_document id d) [
  | none ↦ ((d, kb), error not_found_error)
  | some row ↦ unpublish_row now raises faults others row d kb
]

-- The end of `change_queues`, with the queues that were validated.
unfoldable pub queues_set :
    ℕ
    → Bool
    → (Docs → Docs)
    → Row
    → List Text
    → Docs
    → Kb × Written Config
    → (Docs × Kb) × Reply (Unit {0})
queues_set now raises others row keys d (kb, publish_failed f) = (
  (d, kb),
  error
      (if is_database_error f then service_unavailable_error f.reason else conflict_error f.reason),
)
queues_set now raises others row keys d (kb, done config) =
    marked raises kb (others d) (update_queue_keys now row.id keys (doc_published ∷ []) (others d))

unfoldable pub change_queues_row :
    ℕ → Bool → Faults → (Docs → Docs) → Row → List Text → Docs → Kb → (Docs × Kb) × Reply (Unit {0})
change_queues_row now raises faults others row keys d kb =
    if has_status doc_published row
    then queues_set now raises others row keys d
        (set_queues faults row.corpus_id (vertical_of row) keys kb)
    else marked raises kb (others d)
        (update_queue_keys now row.id keys (doc_queued ∷ doc_failed ∷ []) (others d))
