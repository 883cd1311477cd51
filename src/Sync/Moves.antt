-- ===== src/Sync/Moves.antt =====
-- The transactions of backend/doc_intel/crm_repo.py as the steps that sessions, workers and the
-- scheduler interleave.
pub mod OneActive
pub mod Known
pub mod Tracked
pub mod RunChange
pub mod History
pub mod Within
pub mod Recovery
use aiva_v.Prelude.{ℕ, Bool, Option, List, [], ◌∷◌, Text, Map}
use aiva_v.Queues.Catalog.{Value}
use aiva_v.Sync.Rows.{CrmStage, FileChange, Remote, Trigger, Counts}
use aiva_v.Sync.Tables.{Tables}
use aiva_v.Sync.Files.{
  upsert_file, refresh_file_metadata, mark_chunk_seen, mark_chunk_deleted, begin_file,
  set_file_stage, fail_file, Extracted, complete_file, reset_file_for_retry, withdraw_file_entities,
}
use aiva_v.Sync.Runs.{
  create_run, claim_run, touch_run, set_run_progress, Planned, Ending, finish_run, Interrupted,
  fail_interrupted_run,
}
use aiva_v.Sync.Sources.{
  insert_source, SourceChange, update_source, soft_delete_source, claim_due_source,
  restore_next_sync,
}

-- A transaction with its arguments.
pub data Op : Type 0 where
  adding_source : Bool → ℕ → ℕ → Option ℕ → Text → Option ℕ → Op
  editing_source : ℕ → Option ℕ → SourceChange → Op
  deleting_source : ℕ → Option ℕ → Op
  claiming_schedule : ℕ → ℕ → Op
  restoring_schedule : ℕ → ℕ → ℕ → Op
  creating_run : Bool → ℕ → Trigger → Option ℕ → Op
  claiming_run : Text → ℕ → Op
  touching_run : ℕ → Text → Op
  progressing : ℕ → Text → Counts → Option (Map Value) → Op
  finishing : ℕ → Text → Ending → Option Text → Counts → Map Value → ℕ → Option Planned → Op
  interrupting : ℕ → ℕ → Text → Interrupted → Op
  upserting : ℕ → ℕ → Text → Text → Remote → Bool → Op
  refreshing : ℕ → Remote → Op
  seeing : List ℕ → Op
  marking_deleted : List ℕ → Op
  beginning : ℕ → ℕ → Op
  staging : ℕ → FileChange → Op
  failing_file : ℕ → CrmStage → Text → List CrmStage → List CrmStage → Map Value → Op
  completing : ℕ → ℕ → Option ℕ → Extracted → Op
  retrying : ℕ → Op
  withdrawing : ℕ → Op

unfoldable pub step : ℕ → Op → Tables → Tables
step now (adding_source on days hour next secret by) t =
    (insert_source now on days hour next secret by t).0
step now (editing_source id by c) t = (update_source now id by c t).0
step now (deleting_source id by) t = (soft_delete_source now id by t).0
step now (claiming_schedule id next) t = (claim_due_source id now next t).0
step now (restoring_schedule id expected value) t = (restore_next_sync id expected value t).0
step now (creating_run fault source trigger by) t = (create_run fault now source trigger by t).0
step now (claiming_run worker id) t = (claim_run now worker id t).0
step now (touching_run id worker) t = touch_run now id worker t
step now (progressing id worker counts details) t =
    (set_run_progress now id worker counts details t).0
step now (finishing id worker ending error counts details source planned) t =
    (finish_run now id worker ending error counts details source planned t).0
step now (interrupting id source reason i) t = (fail_interrupted_run now id source reason i t).0
step now (upserting run source drive item remote reset_attempts) t =
    (upsert_file now run source drive item remote reset_attempts t).0
step now (refreshing id remote) t = refresh_file_metadata now id remote t
step now (seeing ids) t = mark_chunk_seen now ids t
step now (marking_deleted ids) t = (mark_chunk_deleted now ids t).0
step now (beginning id run) t = (begin_file now id run t).0
step now (staging id c) t = (set_file_stage now id c t).0
step now (failing_file id stage reason completed pending metrics) t =
    (fail_file now id stage reason completed pending metrics t).0
step now (completing id source account x) t = (complete_file now id source account x t).0
step now (retrying id) t = (reset_file_for_retry now id t).0
step now (withdrawing id) t = (withdraw_file_entities now id t).0

-- The transactions of all sessions, in the order in which they commit, each with its moment.
unfoldable pub steps : List (ℕ × Op) → Tables → Tables
steps [] t = t
steps ((now, op) ∷ ops) t = steps ops (step now op t)
