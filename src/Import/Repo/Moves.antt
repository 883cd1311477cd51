-- ===== src/Import/Repo/Moves.antt =====
-- backend/doc_intel/kb_repo.py: the life of a document, as its statuses, and the operations as the steps
-- that sessions and workers interleave.
pub mod Rows
pub mod Writes
pub mod Steps
pub mod Statuses
use aiva_v.Prelude.{ℕ, Option, none, some, List, [], ◌∷◌, Text, Map, ◌≡◌, ◌⊎◌}
use aiva_v.Import.Rows.{
  Stage, DocStatus, doc_queued, doc_processing, doc_published, doc_failed, doc_unpublished,
  StageChange, Row,
}
use aiva_v.Import.Repo.{
  Docs, get_document, NewDocument, insert_document, set_stage, Results, set_results, Counts,
  finish_published, finish_failed, touch, fail_interrupted, reset_for_retry, reset_for_republish,
  mark_unpublished, update_queue_keys,
}
use aiva_v.Import.Repo.Queue.{claim}
use aiva_v.Queues.Catalog.{Value}

-- The diagram of the statuses.
infix 40 ◌⟶◌
pub data ◌⟶◌ : DocStatus → DocStatus → Type 0 where
  begin : doc_queued ⟶ doc_processing
  succeed : doc_processing ⟶ doc_published
  fail : doc_processing ⟶ doc_failed
  retry : doc_failed ⟶ doc_queued
  republish : doc_published ⟶ doc_queued
  withdraw : doc_published ⟶ doc_unpublished
  discard : doc_failed ⟶ doc_unpublished

-- The transactions of the registry, with their arguments.
pub data Op : Type 0 where
  inserting : NewDocument → Op
  claiming : Text → ℕ → Op
  staging : ℕ → StageChange → Op
  recording : ℕ → Results → Op
  publishing_done : ℕ → Map Value → Counts → Op
  failing : ℕ → Stage → Option Text → Op
  touching : ℕ → Option Text → Op
  interrupting : ℕ → Stage → Option ℕ → Option Text → Op
  retrying : ℕ → Stage → Op
  republishing : ℕ → Op
  unpublishing : ℕ → Op
  requeueing : ℕ → List Text → List DocStatus → Op

unfoldable pub run : ℕ → Op → Docs → Docs
run now (inserting n) d = (insert_document now n d).0
run now (claiming worker id) d = (claim now worker id d).0
run now (staging id c) d = (set_stage now id c d).0
run now (recording id results) d = (set_results now id results d).0
run now (publishing_done id metrics counts) d = (finish_published now id metrics counts d).0
run now (failing id stage error) d = (finish_failed now id stage error d).0
run now (touching id worker) d = touch now id worker d
run now (interrupting id stage stale worker) d = (fail_interrupted now id stage stale worker d).0
run now (retrying id stage) d = (reset_for_retry now id stage d).0
run now (republishing id) d = (reset_for_republish now id d).0
run now (unpublishing id) d = (mark_unpublished now id d).0
run now (requeueing id keys statuses) d = (update_queue_keys now id keys statuses d).0

-- The transactions of all sessions, in the order in which they commit, each with its moment.
unfoldable pub run_all : List (ℕ × Op) → Docs → Docs
run_all [] d = d
run_all ((now, op) ∷ ops) d = run_all ops (run now op d)
