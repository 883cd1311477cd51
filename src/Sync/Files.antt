-- ===== src/Sync/Files.antt =====
-- backend/doc_intel/crm_repo.py: the files of a source and their entities. `now` is `utc_now()` in each
-- transaction.
use aiva_v.Prelude.{
  ℕ, zero, suc, ◌+◌, Bool, true, false, not, ◌&&◌, ◌||◌, Option, none, some, List, [], ◌∷◌, ◌++◌,
  length, map, take, drop, keep_if, any_of, ◌==◌, if◌then◌else◌, Text, codes, text_eq, Map, put,
  min,
}
use aiva_v.DocIntel.Chunking.Header.{decimal}
use aiva_v.Queues.Catalog.{Value, other}
use aiva_v.Import.Textutil.{truncated, truncate_utf8}
use aiva_v.Import.Rows.{stage_pending, stage_completed, stage_failed, max_error_bytes, or_failed}
use aiva_v.Sync.Rows.{
  as_date, file_pending, file_processing, file_completed, file_failed, tracked, gone, entity_active,
  entity_withdrawn, CrmStage, persist, crm_stages, put_stage, each_stage, FileChange, change,
  apply_file_stage_change, Remote, remote_columns, File, EntityRow, Entity, is_tracked, is_live,
  is_pending, is_processing, has_failed,
}
use aiva_v.Sync.Tables.{Tables, update_where, count_where, fetch_where}

abbrev pub is_file : ℕ → File → Bool
is_file id f = f.id == id

unfoldable pub write_stages : ℕ → List FileChange → File → File
write_stages now [] f = f
write_stages now (c ∷ cs) f = write_stages now cs (record f {
  stages = put_stage c.stage c.status f.stages;
  stage_details = apply_file_stage_change now c f.stage_details;
})

-- `_update_file_in`: `expected` stands for `expect_status` and `expect_state`, and `columns` for the
-- values of the columns, given the file as it was.
unfoldable pub update_file :
    ℕ → ℕ → List FileChange → (File → File) → (File → Bool) → Tables → Tables × Bool
update_file now id changes columns expected t = elim (fetch_where (is_file id) t.files) [
  | none ↦ (t, false)
  | some f ↦
      if expected f
      then (
        record t {
          files =
              update_where (is_file id)
                (λ g. record (columns (write_stages now changes g)) { updated_at = as_date now })
                t.files;
        },
        count_where (is_file id) t.files == 1,
      )
      else (t, false)
]

unfoldable pub pending_changes : List CrmStage → List FileChange
pending_changes stages = map (λ s. change s stage_pending) stages

bound : Option ℕ → Option ℕ
bound none = none
bound (some t) = some (as_date t)

-- The listing metadata as its columns hold it.
unfoldable pub stored_remote : Remote → Remote
unfolding bound
stored_remote r = record (remote_columns r) { modified_at = bound r.modified_at }

-- The file of a source that `upsert_file` looks for.
abbrev pub is_item : ℕ → Text → Text → File → Bool
is_item source drive item f =
    f.source_id == source && (text_eq f.drive_id drive && text_eq f.item_id item)

unfoldable pub new_file : ℕ → ℕ → ℕ → ℕ → Text → Text → Remote → File
new_file now id run source drive item remote = record {
  id = id;
  source_id = source;
  drive_id = drive;
  item_id = item;
  remote = stored_remote remote;
  content_sha256 = none;
  state = tracked;
  status = file_pending;
  stages = each_stage stage_pending;
  failed_stage = none;
  error_message = none;
  warnings = [];
  file_result = [];
  stage_details = each_stage none;
  entity_count = none;
  is_valid = none;
  attempts = 0;
  last_run_id = run;
  first_seen_at = as_date now;
  last_seen_at = as_date now;
  processed_at = none;
  deleted_at = none;
  updated_at = as_date now;
}

unfoldable pub rearmed : ℕ → Bool → Remote → File → File
rearmed now reset_attempts remote f = record f {
  remote = stored_remote remote;
  state = tracked;
  deleted_at = none;
  status = file_pending;
  failed_stage = none;
  error_message = none;
  last_seen_at = as_date now;
  attempts = if reset_attempts then 0 else f.attempts;
}

-- `upsert_file`
unfoldable pub upsert_file : ℕ → ℕ → ℕ → Text → Text → Remote → Bool → Tables → Tables × ℕ
upsert_file now run source drive item remote reset_attempts t =
    elim (fetch_where (is_item source drive item) t.files) [
      | none ↦ (
        record t {
          files = t.files ++ new_file now t.next_file_id run source drive item remote ∷ [];
          next_file_id = suc t.next_file_id;
        },
        t.next_file_id,
      )
      | some f ↦ (
        (update_file now f.id (pending_changes crm_stages) (rearmed now reset_attempts remote)
            (λ g. true) t).0,
        f.id,
      )
    ]

-- `refresh_file_metadata`
unfoldable pub refresh_file_metadata : ℕ → ℕ → Remote → Tables → Tables
refresh_file_metadata now id remote t = record t {
  files =
      update_where (λ f. is_file id f && is_tracked f.state)
        (λ f. record f { remote = stored_remote remote; last_seen_at = as_date now }) t.files;
}

abbrev pub is_one_of : List ℕ → ℕ → Bool
is_one_of ids id = any_of (λ i. i == id) ids

-- One statement of `mark_seen`.
unfoldable pub mark_chunk_seen : ℕ → List ℕ → Tables → Tables
mark_chunk_seen now ids t = record t {
  files =
      update_where (λ f. is_one_of ids f.id) (λ f. record f { last_seen_at = as_date now }) t.files;
}

-- The live entities that fit become withdrawn.
unfoldable pub withdraw : ℕ → (Entity → Bool) → List Entity → List Entity
withdraw now fit =
    update_where (λ e. fit e && is_live e.status)
      (λ e. record e {
        status = entity_withdrawn;
        withdrawn_at = some (as_date now);
        updated_at = as_date now;
      })

unfoldable pub mark_gone : ℕ → File → File
mark_gone now f = record f {
  state = gone;
  deleted_at = some (as_date now);
  updated_at = as_date now;
}

-- One transaction of `mark_files_deleted`, with the number of the files that it marks.
unfoldable pub mark_chunk_deleted : ℕ → List ℕ → Tables → Tables × ℕ
mark_chunk_deleted now ids t = (
  record t {
    files = update_where (λ f. is_one_of ids f.id && is_tracked f.state) (mark_gone now) t.files;
    entities = withdraw now (λ e. is_one_of ids e.source_file_id) t.entities;
  },
  count_where (λ f. is_one_of ids f.id && is_tracked f.state) t.files,
)

-- `list(dict.fromkeys(ids))`
unfoldable pub distinct : List ℕ → List ℕ
distinct [] = []
distinct (i ∷ is) = i ∷ keep_if (λ j. not (j == i)) (distinct is)

abbrev pub chunk_size : ℕ
chunk_size = 500

-- `_chunks`; each round takes an id at least.
chunks_from : ℕ → List ℕ → List (List ℕ)
chunks_from zero ids = []
chunks_from (suc n) [] = []
chunks_from (suc n) (i ∷ is) = take chunk_size (i ∷ is) ∷ chunks_from n (drop chunk_size (i ∷ is))

unfoldable pub in_chunks : List ℕ → List (List ℕ)
unfolding chunks_from
in_chunks ids = chunks_from (length ids) ids

delete_chunks : ℕ → List (List ℕ) → Tables → Tables × ℕ
delete_chunks now [] t = (t, 0)
delete_chunks now (ids ∷ more) t =
    let one = mark_chunk_deleted now ids t in
    let rest = delete_chunks now more one.0 in (rest.0, one.1 + rest.1)

-- `mark_files_deleted`
unfoldable pub mark_files_deleted : ℕ → List ℕ → Tables → Tables × ℕ
unfolding delete_chunks
mark_files_deleted now ids t = delete_chunks now (in_chunks (distinct ids)) t

-- `begin_file`
unfoldable pub begin_file : ℕ → ℕ → ℕ → Tables → Tables × Bool
begin_file now id run =
    update_file now id (pending_changes crm_stages)
      (λ f. record f {
        status = file_processing;
        attempts = f.attempts + 1;
        last_run_id = run;
        failed_stage = none;
        error_message = none;
      })
      (λ f. (is_pending f.status || has_failed f.status) && is_tracked f.state)

-- `set_file_stage`
unfoldable pub set_file_stage : ℕ → ℕ → FileChange → Tables → Tables × Bool
set_file_stage now id c = update_file now id (c ∷ []) (λ f. f) (λ f. is_processing f.status)

stage_code : CrmStage → ℕ
stage_code CrmStage.download = 0
stage_code CrmStage.extraction = 1
stage_code CrmStage.intelligence = 2
stage_code CrmStage.entities = 3
stage_code CrmStage.persist = 4

unfoldable pub others : CrmStage → List CrmStage → List CrmStage
unfolding stage_code
others stage = keep_if (λ s. not (stage_code s == stage_code stage))

unfoldable pub failed_columns : ℕ → CrmStage → Text → File → File
failed_columns now stage reason f = record f {
  status = file_failed;
  failed_stage = some stage;
  error_message = some reason;
  processed_at = some (as_date now);
}

unfoldable pub failing : CrmStage → Text → Map Value → FileChange
failing stage reason metrics = record (change stage stage_failed) {
  error = some reason;
  metrics = metrics;
}

-- `truncate_utf8(reason or "Failed", MAX_ERROR_BYTES) or "Failed"`
unfoldable pub failure_text : Text → Text
failure_text reason = truncated (or_failed (some reason)) max_error_bytes

-- `fail_file`
unfoldable pub fail_file :
    ℕ → ℕ → CrmStage → Text → List CrmStage → List CrmStage → Map Value → Tables → Tables × Bool
fail_file now id stage reason completed pending metrics =
    update_file now id
      (pending_changes (others stage pending)
        ++ (map (λ s. change s stage_completed) (others stage completed)
            ++ failing stage (failure_text reason) metrics ∷ []))
      (failed_columns now stage (failure_text reason)) (λ f. is_processing f.status)

abbrev pub max_entities_per_file : ℕ
max_entities_per_file = 2000

unfoldable pub new_entity : ℕ → ℕ → ℕ → Option ℕ → EntityRow → Entity
new_entity now source file account e = record {
  source_id = source;
  source_file_id = file;
  account_id = account;
  stored = record e {
    display_value = truncate_utf8 e.display_value 1024;
    match_key = truncate_utf8 e.match_key 1024;
  };
  status = entity_active;
  created_at = as_date now;
  updated_at = as_date now;
  withdrawn_at = none;
}

-- `replace_file_entities`, inside the transaction of `complete_file`.
unfoldable pub replace_file_entities :
    ℕ → ℕ → List EntityRow → ℕ → Option ℕ → List Entity → List Entity
replace_file_entities now file rows source account es =
    withdraw now (λ e. e.source_file_id == file) es
    ++ map (new_entity now source file account) (take max_entities_per_file rows)

-- The arguments of `complete_file` that it stores.
pub record Extracted : Type 0 where
  pub rows : List EntityRow
  pub file_result : Map Value
  pub warnings : List Value
  pub is_valid : Option Bool
  pub content_sha256 : Option Text
  pub metrics : Map Value

unfoldable pub completed_columns : ℕ → Extracted → File → File
completed_columns now x f = record f {
  status = file_completed;
  failed_stage = none;
  error_message = none;
  file_result = x.file_result;
  warnings = x.warnings;
  entity_count = some (length x.rows);
  is_valid = x.is_valid;
  content_sha256 = x.content_sha256;
  processed_at = some (as_date now);
}

unfoldable pub is_completable : File → Bool
is_completable f = is_processing f.status && is_tracked f.state

number : ℕ → Value
number n = other (decimal n) (not (n == 0))

-- What `replace_file_entities` returns.
replacement : ℕ → List EntityRow → List Entity → Map Value
unfolding number
replacement file rows es =
    (codes "withdrawn", number (count_where (λ e. e.source_file_id == file && is_live e.status) es))
    ∷ (codes "inserted", number (min (length rows) max_entities_per_file))
    ∷ []

-- `{**base, **more}`
with_each : Map Value → Map Value → Map Value
with_each base [] = base
with_each base ((k, v) ∷ more) = with_each (put k v base) more

-- `complete_file`
unfoldable pub complete_file : ℕ → ℕ → ℕ → Option ℕ → Extracted → Tables → Tables × Bool
unfolding replacement with_each
complete_file now id source account x t = elim (fetch_where (is_file id) t.files) [
  | none ↦ (t, false)
  | some f ↦
      if is_completable f
      then update_file now id
          (record (change persist stage_completed) {
            metrics = with_each (replacement id x.rows t.entities) x.metrics;
          }
            ∷ [])
          (completed_columns now x) (λ g. is_processing g.status)
          (record t { entities = replace_file_entities now id x.rows source account t.entities })
      else (t, false)
]

-- `reset_file_for_retry`
unfoldable pub reset_file_for_retry : ℕ → ℕ → Tables → Tables × Bool
reset_file_for_retry now id =
    update_file now id (pending_changes crm_stages)
      (λ f. record f {
        status = file_pending;
        failed_stage = none;
        error_message = none;
        attempts = 0;
      })
      (λ f. has_failed f.status && is_tracked f.state)

-- `withdraw_file_entities`, with the number of the entities.
unfoldable pub withdraw_file_entities : ℕ → ℕ → Tables → Tables × ℕ
withdraw_file_entities now id t = (
  record t { entities = withdraw now (λ e. e.source_file_id == id) t.entities },
  count_where (λ e. e.source_file_id == id && is_live e.status) t.entities,
)
