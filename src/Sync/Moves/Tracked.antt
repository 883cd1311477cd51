-- ===== src/Sync/Moves/Tracked.antt =====
-- The live entities belong to files that are tracked.
use aiva_v.Prelude.{
  ℕ, ◌≡◌, refl, sym, ap, ◌∙◌, inl, inr, Bool, true, false, ◌&&◌, Option, some, List, [], ◌∷◌, map,
  take, ◌==◌, leb, if◌then◌else◌, arith, Bool-cases, Text, All, All-append, Option-cases,
}
use mathlib.Core.Path.{subst}
use aiva_v.Sync.Rows.{
  as_date, File, Entity, EntityRow, FileChange, is_tracked, is_live, Remote, is_deleted,
}
use aiva_v.Sync.Tables.{
  Tables, active_runs, count_where, is_unfinished_of, update_where, fetch_where,
}
use aiva_v.Sync.Sources.{
  soft_delete_source, insert_source, update_source, restore_next_sync, claim_due_source,
}
use aiva_v.Sync.Runs.{
  create_run, claim_run, touch_run, set_run_progress, finish_run, record_on_source,
  fail_interrupted_run, fail_each, fail_in_flight, Interrupted, is_interrupted, is_run_of,
  is_source, is_kept_source,
}
use aiva_v.Sync.Moves.{
  Op, step, steps, adding_source, editing_source, deleting_source, claiming_schedule,
  restoring_schedule, creating_run, claiming_run, touching_run, progressing, finishing,
  interrupting, upserting, refreshing, seeing, marking_deleted, beginning, staging, failing_file,
  completing, retrying, withdrawing,
}
use aiva_v.Sync.Files.{
  update_file, is_file, write_stages, mark_gone, complete_file, Extracted, replace_file_entities,
  is_completable, completed_columns, max_entities_per_file, upsert_file, rearmed, is_item,
  failed_columns, refresh_file_metadata, mark_chunk_seen, mark_chunk_deleted, begin_file,
  set_file_stage, fail_file, reset_file_for_retry, withdraw_file_entities, withdraw, is_one_of,
  new_entity,
}
use aiva_v.Sync.Moves.Known.{
  is_known, Belongs, OnlyTracked, update_where-known, append-known, more-known, withdraw-Belongs,
}

module _ (now id : ℕ) where
  write_stages-keeps :
      (changes : List FileChange) (f : File)
      → ((write_stages now changes f).id ≡ f.id) × ((write_stages now changes f).state ≡ f.state)
  unfolding write_stages
  write_stages-keeps [] f = (refl, refl)
  write_stages-keeps (c ∷ cs) f = write_stages-keeps cs _

  -- `columns` keeps the id and untracks nothing.
  update_file-known :
      (changes : List FileChange) (columns : File → File) (expected : File → Bool) (t : Tables)
      → ((f : File)
          → ((columns f).id ≡ f.id)
            × (is_tracked f.state ≡ true → is_tracked (columns f).state ≡ true))
      → (i : ℕ) → is_known i t.files ≡ true
      → is_known i (update_file now id changes columns expected t).0.files ≡ true
  unfolding update_file
  update_file-known changes columns expected t keep i h =
      let after =
        update_where-known (is_file id)
          (λ g. record (columns (write_stages now changes g)) { updated_at = as_date now }) i
          (λ r. (keep (write_stages now changes r)).0 ∙ (write_stages-keeps changes r).0)
          (λ r q l.
            (keep (write_stages now changes r)).1
              (subst (λ s. is_tracked s ≡ true) (sym (write_stages-keeps changes r).1) l))
          t.files h in
      elim (Option-cases (fetch_where (is_file id) t.files)) [
        | inl e ↦ rw (update_file, e) h
        | inr (f, e) ↦ elim (Bool-cases (expected f)) [
          | inl y ↦ rw (update_file, e, y) after
          | inr n ↦ rw (update_file, e, n) h
        ]
      ]

  update_file-entities :
      (changes : List FileChange) (columns : File → File) (expected : File → Bool) (t : Tables)
      → (update_file now id changes columns expected t).0.entities ≡ t.entities
  unfolding update_file
  update_file-entities changes columns expected t = ground arith

  update_file-OnlyTracked :
      (changes : List FileChange) (columns : File → File) (expected : File → Bool) (t : Tables)
      → ((f : File)
          → ((columns f).id ≡ f.id)
            × (is_tracked f.state ≡ true → is_tracked (columns f).state ≡ true))
      → OnlyTracked t
      → OnlyTracked (update_file now id changes columns expected t).0
  update_file-OnlyTracked changes columns expected t keep h =
      subst (All (Belongs (update_file now id changes columns expected t).0.files))
        (sym (update_file-entities changes columns expected t))
        (more-known t.files _ (update_file-known changes columns expected t keep) t.entities h)

eq-one_of : (ids : List ℕ) (i j : ℕ) → i ≡ j → is_one_of ids i ≡ is_one_of ids j
eq-one_of ids i j e = ap (is_one_of ids) e

-- Marking files as gone keeps what is known of the others.
marked-known :
    (now : ℕ) (ids : List ℕ) (id : ℕ) (fs : List File)
    → is_one_of ids id ≡ false
    → is_known id fs ≡ true
    → is_known id (update_where (λ f. is_one_of ids f.id && is_tracked f.state) (mark_gone now) fs)
      ≡ true
unfolding is_known update_where mark_gone
marked-known now ids id [] n h = h
marked-known now ids id (f ∷ fs) n h =
    ground (arith, eq-one_of ids f.id id, marked-known now ids id fs n)

marked-Belongs :
    (now : ℕ) (ids : List ℕ) (fs : List File) (es : List Entity)
    → All (Belongs fs) es
    → All
        (Belongs (update_where (λ f. is_one_of ids f.id && is_tracked f.state) (mark_gone now) fs))
        (withdraw now (λ e. is_one_of ids e.source_file_id) es)
unfolding withdraw update_where
marked-Belongs now ids fs [] h = tt
marked-Belongs now ids fs (e ∷ es) h = (
  elim (Bool-cases (is_one_of ids e.source_file_id && is_live e.status)) [
    | inl y ↦ rw y (λ l. absurd (cc))
    | inr n ↦ rw n (λ l. marked-known now ids e.source_file_id fs (ground (arith, n, l)) (h.0 l))
  ],
  marked-Belongs now ids fs es h.1,
)

fetch-known :
    (id : ℕ) (f : File) (fs : List File)
    → fetch_where (is_file id) fs ≡ some f
    → is_tracked f.state ≡ true
    → is_known id fs ≡ true
unfolding is_known fetch_where
fetch-known id f [] e h = absurd (cc)
fetch-known id f (g ∷ fs) e h = ground (arith, fetch-known id f fs)

new-Belongs :
    (now source id : ℕ) (account : Option ℕ) (fs : List File) (rows : List EntityRow)
    → is_known id fs ≡ true
    → All (Belongs fs) (map (new_entity now source id account) rows)
unfolding new_entity
new-Belongs now source id account fs [] h = tt
new-Belongs now source id account fs (r ∷ rows) h =
    (λ l. h, new-Belongs now source id account fs rows h)

either :
    {B : Type 0} (b : Bool) (x y : Tables × B)
    → OnlyTracked x.0
    → OnlyTracked y.0
    → OnlyTracked (if b then x else y).0
either true x y hx hy = hx
either false x y hx hy = hy

module _ (now : ℕ) where
  complete_file-OnlyTracked :
      (id source : ℕ) (account : Option ℕ) (x : Extracted) (t : Tables)
      → OnlyTracked t
      → OnlyTracked (complete_file now id source account x t).0
  unfolding complete_file replace_file_entities is_completable completed_columns
  complete_file-OnlyTracked id source account x t h =
      elim (Option-cases (fetch_where (is_file id) t.files)) [
        | inl e ↦ rw (complete_file, e) h
        | inr (f, e) ↦ elim (Bool-cases (is_completable f)) [
          | inl y ↦
              rw (complete_file, e, y)
                (update_file-OnlyTracked now id _ _ _ _ (λ g. (refl, λ l. l))
                  (All-append (Belongs t.files) _ _
                    (withdraw-Belongs now (λ e. e.source_file_id == id) t.files t.entities h)
                    (new-Belongs now source id account t.files (take max_entities_per_file x.rows)
                      (fetch-known id f t.files e (ground (arith, y))))))
          | inr n ↦ rw (complete_file, e, n) h
        ]
      ]

  upsert_file-OnlyTracked :
      (run source : ℕ) (drive item : Text) (remote : Remote) (reset_attempts : Bool) (t : Tables)
      → OnlyTracked t
      → OnlyTracked (upsert_file now run source drive item remote reset_attempts t).0
  unfolding upsert_file rearmed
  upsert_file-OnlyTracked run source drive item remote reset_attempts t h =
      elim (Option-cases (fetch_where (is_item source drive item) t.files)) [
        | inl e ↦
            rw (upsert_file, e)
              (more-known t.files _ (λ i k. append-known i t.files _ k) t.entities h)
        | inr (f, e) ↦
            rw (upsert_file, e)
              (update_file-OnlyTracked now f.id _ _ _ t (λ g. (refl, λ l. refl)) h)
      ]

  soft_delete_source-OnlyTracked :
      (id : ℕ) (by : Option ℕ) (t : Tables)
      → OnlyTracked t
      → OnlyTracked (soft_delete_source now id by t).0
  unfolding soft_delete_source
  soft_delete_source-OnlyTracked id by t h =
      elim (Option-cases (fetch_where (is_source id) t.sources)) [
        | inl e ↦ rw (soft_delete_source, e) h
        | inr (s, e) ↦
            rw (soft_delete_source, e)
              (either (is_deleted s.status) _ _ h (
                either (active_runs id t == 0) _ _
                  (either (count_where (is_kept_source id) t.sources == 1) _ _
                    (withdraw-Belongs now (λ e. e.source_id == id) t.files t.entities h) h)
                  h))
      ]

  fail_each-OnlyTracked :
      (fs : List File) (t : Tables) → OnlyTracked t → OnlyTracked (fail_each now fs t)
  unfolding fail_each fail_in_flight failed_columns
  fail_each-OnlyTracked [] t h = h
  fail_each-OnlyTracked (f ∷ fs) t h =
      fail_each-OnlyTracked fs _ (update_file-OnlyTracked now f.id _ _ _ t (λ g. (refl, λ l. l)) h)

  fail_interrupted_run-OnlyTracked :
      (id source : ℕ) (reason : Text) (i : Interrupted) (t : Tables)
      → OnlyTracked t
      → OnlyTracked (fail_interrupted_run now id source reason i t).0
  unfolding fail_interrupted_run record_on_source
  fail_interrupted_run-OnlyTracked id source reason i t h =
      either (count_where (is_interrupted id i) t.runs == 1) _ _ (fail_each-OnlyTracked _ _ h) h

  step-OnlyTracked : (op : Op) (t : Tables) → OnlyTracked t → OnlyTracked (step now op t)
  unfolding step insert_source update_source restore_next_sync claim_due_source create_run claim_run
      touch_run set_run_progress finish_run record_on_source refresh_file_metadata mark_chunk_seen
      mark_chunk_deleted begin_file set_file_stage fail_file failed_columns reset_file_for_retry
      withdraw_file_entities
  step-OnlyTracked (adding_source on days hour next secret by) t h = h
  step-OnlyTracked (editing_source id by c) t h = h
  step-OnlyTracked (deleting_source id by) t h = soft_delete_source-OnlyTracked id by t h
  step-OnlyTracked (claiming_schedule id next) t h = either (leb next now) _ _ h h
  step-OnlyTracked (restoring_schedule id expected value) t h = h
  step-OnlyTracked (creating_run fault source trigger by) t h = either fault _ _ h (
      either (count_where (is_source source) t.sources == 0) _ _ h
        (either (count_where (is_unfinished_of source) t.runs == 0) _ _ h h))
  step-OnlyTracked (claiming_run worker id) t h = h
  step-OnlyTracked (touching_run id worker) t h = h
  step-OnlyTracked (progressing id worker counts details) t h = h
  step-OnlyTracked (finishing id worker ending error counts details source planned) t h =
      either (count_where (is_run_of id worker) t.runs == 1) _ _ h h
  step-OnlyTracked (interrupting id source reason i) t h =
      fail_interrupted_run-OnlyTracked id source reason i t h
  step-OnlyTracked (upserting run source drive item remote reset_attempts) t h =
      upsert_file-OnlyTracked run source drive item remote reset_attempts t h
  step-OnlyTracked (refreshing id remote) t h =
      more-known t.files _ (λ i k. update_where-known _ _ i (λ r. refl) (λ r q l. l) t.files k)
        t.entities h
  step-OnlyTracked (seeing ids) t h =
      more-known t.files _ (λ i k. update_where-known _ _ i (λ r. refl) (λ r q l. l) t.files k)
        t.entities h
  step-OnlyTracked (marking_deleted ids) t h = marked-Belongs now ids t.files t.entities h
  step-OnlyTracked (beginning id run) t h =
      update_file-OnlyTracked now id _ _ _ t (λ g. (refl, λ l. l)) h
  step-OnlyTracked (staging id c) t h =
      update_file-OnlyTracked now id _ _ _ t (λ g. (refl, λ l. l)) h
  step-OnlyTracked (failing_file id stage reason completed pending metrics) t h =
      update_file-OnlyTracked now id _ _ _ t (λ g. (refl, λ l. l)) h
  step-OnlyTracked (completing id source account x) t h =
      complete_file-OnlyTracked id source account x t h
  step-OnlyTracked (retrying id) t h =
      update_file-OnlyTracked now id _ _ _ t (λ g. (refl, λ l. l)) h
  step-OnlyTracked (withdrawing id) t h =
      withdraw-Belongs now (λ e. e.source_file_id == id) t.files t.entities h

-- Whatever transactions the sessions interleave, every entity that is not withdrawn belongs to a file
-- that is tracked, if this is so at the start.
pub steps-OnlyTracked :
    (ops : List (ℕ × Op)) (t : Tables) → OnlyTracked t → OnlyTracked (steps ops t)
unfolding steps
steps-OnlyTracked [] t h = h
steps-OnlyTracked ((now, op) ∷ ops) t h =
    steps-OnlyTracked ops (step now op t) (step-OnlyTracked now op t h)
