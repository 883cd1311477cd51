-- ===== src/Sync/Moves/RunChange.antt =====
-- What a transaction does to the runs: nothing, or it adds one, or it updates some of them.
use aiva_v.Prelude.{
  ℕ, ◌≡◌, refl, sym, ap, ◌∙◌, Bool, ==_iff, true, false, Option, List, [], ◌∷◌, ◌++◌, keep_if, ◌==◌,
  arith, Bool-cases, inl, inr, Text, Map,
}
use mathlib.Core.Path.{subst}
use aiva_v.Queues.Catalog.{Value}
use aiva_v.Sync.Rows.{SyncRun, Trigger, is_unfinished, is_queued, File, FileChange, Counts, Remote}
use aiva_v.Sync.Tables.{Tables, update_where, count_where, is_unfinished_of}
use aiva_v.Sync.Files.{
  update_file, complete_file, upsert_file, Extracted, refresh_file_metadata, mark_chunk_seen,
  mark_chunk_deleted, begin_file, set_file_stage, fail_file, reset_file_for_retry,
  withdraw_file_entities,
}
use aiva_v.Sync.Runs.{
  create_run, claim_run, touch_run, set_run_progress, Planned, Ending, finish_run, Interrupted,
  fail_interrupted_run, fail_each, fail_in_flight, new_run, is_queued_run, is_run_of, finished,
  is_interrupted, interrupted, record_on_source, ending_status, is_source, completed_run,
  partial_run, failed_run, is_in_flight,
}
use aiva_v.Sync.Sources.{
  insert_source, update_source, soft_delete_source, claim_due_source, restore_next_sync,
}
use aiva_v.Sync.Moves.{
  Op, step, adding_source, editing_source, deleting_source, claiming_schedule, restoring_schedule,
  creating_run, claiming_run, touching_run, progressing, finishing, interrupting, upserting,
  refreshing, seeing, marking_deleted, beginning, staging, failing_file, completing, retrying,
  withdrawing,
}

-- What a later row of a run keeps of it: who asked for it; once it is claimed, that it is, by whom and
-- when; once it is finished, everything.
pub record Follows (r s : SyncRun) : Type 0 where
  pub same_id : s.id ≡ r.id
  pub same_source : s.source_id ≡ r.source_id
  pub same_trigger : s.trigger_type ≡ r.trigger_type
  pub same_asker : s.triggered_by ≡ r.triggered_by
  pub same_creation : s.created_at ≡ r.created_at
  pub not_revived : is_unfinished s.status ≡ true → is_unfinished r.status ≡ true
  pub claimed_once :
      is_queued r.status ≡ false
      → (is_queued s.status ≡ false) × (s.worker_id ≡ r.worker_id) × (s.started_at ≡ r.started_at)
  pub finished_once : is_unfinished r.status ≡ false → s ≡ r

-- The updates are those that keep what `Follows` says; a run is added to a source that has none
-- unfinished.
pub data RunChange (rs : List SyncRun) : List SyncRun → Type 0 where
  kept : RunChange rs rs
  added :
      (r : SyncRun)
      → count_where (is_unfinished_of r.source_id) rs ≡ 0
      → RunChange rs (rs ++ r ∷ [])
  moved :
      (p : SyncRun → Bool) (f : SyncRun → SyncRun)
      → ((r : SyncRun) → p r ≡ true → Follows r (f r))
      → RunChange rs (update_where p f rs)

update_file-runs :
    (now id : ℕ) (changes : List FileChange) (columns : File → File) (expected : File → Bool)
    (t : Tables)
    → (update_file now id changes columns expected t).0.runs ≡ t.runs
unfolding update_file
update_file-runs now id changes columns expected t = ground arith

complete_file-runs :
    (now id source : ℕ) (account : Option ℕ) (x : Extracted) (t : Tables)
    → (complete_file now id source account x t).0.runs ≡ t.runs
unfolding complete_file update_file
complete_file-runs now id source account x t = ground arith

pub fail_each-runs : (now : ℕ) (fs : List File) (t : Tables) → (fail_each now fs t).runs ≡ t.runs
unfolding fail_each fail_in_flight
fail_each-runs now [] t = refl
fail_each-runs now (f ∷ fs) t = rw (fail_each-runs now fs _) (update_file-runs now f.id _ _ _ t)

-- A run that ends is unfinished no more.
ending_status-finished :
    (e : Ending) → (is_unfinished (ending_status e) ≡ false) × (is_queued (ending_status e) ≡ false)
unfolding ending_status
ending_status-finished completed_run = (refl, refl)
ending_status-finished partial_run = (refl, refl)
ending_status-finished failed_run = (refl, refl)

upsert_file-runs :
    (now run source : ℕ) (drive item : Text) (remote : Remote) (reset_attempts : Bool) (t : Tables)
    → (upsert_file now run source drive item remote reset_attempts t).0.runs ≡ t.runs
unfolding upsert_file update_file
upsert_file-runs now run source drive item remote reset_attempts t = ground arith

soft_delete_source-runs :
    (now id : ℕ) (by : Option ℕ) (t : Tables) → (soft_delete_source now id by t).0.runs ≡ t.runs
unfolding soft_delete_source
soft_delete_source-runs now id by t = ground arith

claim_due_source-runs :
    (id now next : ℕ) (t : Tables) → (claim_due_source id now next t).0.runs ≡ t.runs
unfolding claim_due_source
claim_due_source-runs id now next t = ground arith

same-RunChange : (rs ss : List SyncRun) → ss ≡ rs → RunChange rs ss
same-RunChange rs ss e = subst (RunChange rs) (sym e) kept

module _ (now : ℕ) where
  claim_run-RunChange :
      (worker : Text) (id : ℕ) (t : Tables) → RunChange t.runs (claim_run now worker id t).0.runs
  unfolding claim_run
  claim_run-RunChange worker id t = moved (is_queued_run id) _ (λ r h. record {
    same_id = refl;
    same_source = refl;
    same_trigger = refl;
    same_asker = refl;
    same_creation = refl;
    not_revived = λ u. ground (arith, h);
    claimed_once = λ q. absurd (ground (arith, h, q));
    finished_once = λ u. absurd (ground (arith, h, u));
  })

  -- An update of a run in progress that keeps its status.
  beats-Follows :
      (id : ℕ) (worker : Text) (r s : SyncRun)
      → is_run_of id worker r ≡ true
      → s ≡ record r { counts = s.counts; run_details = s.run_details; updated_at = s.updated_at }
      → Follows r s
  beats-Follows id worker r s h e = record {
    same_id = ap (λ x. x.id) e;
    same_source = ap (λ x. x.source_id) e;
    same_trigger = ap (λ x. x.trigger_type) e;
    same_asker = ap (λ x. x.triggered_by) e;
    same_creation = ap (λ x. x.created_at) e;
    not_revived = λ u. ground (arith, h);
    claimed_once = λ q.
        (ap (λ x. is_queued x.status) e ∙ q, ap (λ x. x.worker_id) e, ap (λ x. x.started_at) e);
    finished_once = λ u. absurd (ground (arith, h, u));
  }

  touch_run-RunChange :
      (id : ℕ) (worker : Text) (t : Tables) → RunChange t.runs (touch_run now id worker t).runs
  unfolding touch_run
  touch_run-RunChange id worker t =
      moved (is_run_of id worker) _ (λ r h. beats-Follows id worker r _ h refl)

  set_run_progress-RunChange :
      (id : ℕ) (worker : Text) (counts : Counts) (details : Option (Map Value)) (t : Tables)
      → RunChange t.runs (set_run_progress now id worker counts details t).0.runs
  unfolding set_run_progress
  set_run_progress-RunChange id worker counts details t =
      moved (is_run_of id worker) _ (λ r h. beats-Follows id worker r _ h refl)

  finish_run-RunChange :
      (id : ℕ) (worker : Text) (ending : Ending) (error : Option Text) (counts : Counts)
      (details : Map Value) (source : ℕ) (planned : Option Planned) (t : Tables)
      → RunChange t.runs
          (finish_run now id worker ending error counts details source planned t).0.runs
  unfolding finish_run record_on_source finished
  finish_run-RunChange id worker ending error counts details source planned t =
      subst (RunChange t.runs) (ground arith) (
        moved (is_run_of id worker) (finished now ending error counts details) (λ r h. record {
          same_id = refl;
          same_source = refl;
          same_trigger = refl;
          same_asker = refl;
          same_creation = refl;
          not_revived = λ u. ground (arith, h);
          claimed_once = λ q. ((ending_status-finished ending).1, refl, refl);
          finished_once = λ u. absurd (ground (arith, h, u));
        }))

  fail_interrupted_run-RunChange :
      (id source : ℕ) (reason : Text) (i : Interrupted) (t : Tables)
      → RunChange t.runs (fail_interrupted_run now id source reason i t).0.runs
  unfolding fail_interrupted_run record_on_source interrupted is_interrupted
  fail_interrupted_run-RunChange id source reason i t =
      let after : Tables = record t {
        runs = update_where (is_interrupted id i) (interrupted now reason) t.runs;
      } in
      subst (RunChange t.runs)
        (ground (arith, fail_each-runs now (keep_if (is_in_flight id) t.files) after))
        (moved (is_interrupted id i) (interrupted now reason) (λ r h. record {
          same_id = refl;
          same_source = refl;
          same_trigger = refl;
          same_asker = refl;
          same_creation = refl;
          not_revived = λ u. ground (arith, h);
          claimed_once = λ q. (refl, refl, refl);
          finished_once = λ u. absurd (ground (arith, h, u));
        }))

  create_run-RunChange :
      (fault : Bool) (source : ℕ) (trigger : Trigger) (by : Option ℕ) (t : Tables)
      → RunChange t.runs (create_run fault now source trigger by t).0.runs
  unfolding create_run new_run
  create_run-RunChange true source trigger by t = kept
  create_run-RunChange false source trigger by t =
      elim (Bool-cases (count_where (is_source source) t.sources == 0)) [
        | inl y ↦ rw (create_run, y) kept
        | inr n ↦ elim (Bool-cases (count_where (is_unfinished_of source) t.runs == 0)) [
          | inl z ↦
              rw (create_run, n, z)
                (added (new_run now t.next_run_id source trigger by) ((==_iff _ 0).0 z))
          | inr m ↦ rw (create_run, n, m) kept
        ]
      ]

  pub step-RunChange : (op : Op) (t : Tables) → RunChange t.runs (step now op t).runs
  unfolding step insert_source update_source restore_next_sync refresh_file_metadata mark_chunk_seen
      mark_chunk_deleted begin_file set_file_stage fail_file reset_file_for_retry
      withdraw_file_entities
  step-RunChange (adding_source on days hour next secret by) t = kept
  step-RunChange (editing_source id by c) t = kept
  step-RunChange (deleting_source id by) t =
      same-RunChange _ _ (soft_delete_source-runs now id by t)
  step-RunChange (claiming_schedule id next) t =
      same-RunChange _ _ (claim_due_source-runs id now next t)
  step-RunChange (restoring_schedule id expected value) t = kept
  step-RunChange (creating_run fault source trigger by) t =
      create_run-RunChange fault source trigger by t
  step-RunChange (claiming_run worker id) t = claim_run-RunChange worker id t
  step-RunChange (touching_run id worker) t = touch_run-RunChange id worker t
  step-RunChange (progressing id worker counts details) t =
      set_run_progress-RunChange id worker counts details t
  step-RunChange (finishing id worker ending error counts details source planned) t =
      finish_run-RunChange id worker ending error counts details source planned t
  step-RunChange (interrupting id source reason i) t =
      fail_interrupted_run-RunChange id source reason i t
  step-RunChange (upserting run source drive item remote reset_attempts) t =
      same-RunChange _ _ (upsert_file-runs now run source drive item remote reset_attempts t)
  step-RunChange (refreshing id remote) t = kept
  step-RunChange (seeing ids) t = kept
  step-RunChange (marking_deleted ids) t = kept
  step-RunChange (beginning id run) t = same-RunChange _ _ (update_file-runs now id _ _ _ t)
  step-RunChange (staging id c) t = same-RunChange _ _ (update_file-runs now id _ _ _ t)
  step-RunChange (failing_file id stage reason completed pending metrics) t =
      same-RunChange _ _ (update_file-runs now id _ _ _ t)
  step-RunChange (completing id source account x) t =
      same-RunChange _ _ (complete_file-runs now id source account x t)
  step-RunChange (retrying id) t = same-RunChange _ _ (update_file-runs now id _ _ _ t)
  step-RunChange (withdrawing id) t = kept
