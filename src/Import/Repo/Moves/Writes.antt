-- ===== src/Import/Repo/Moves/Writes.antt =====
-- Each write of the registry, on the row that it changes.
use aiva_v.Prelude.{
  ℕ, ◌+◌, ◌≡◌, refl, sym, ap, ◌∙◌, ◌⊎◌, inl, inr, Option, none, some, List, [], ◌∷◌, Text, Map, All,
  arith,
}
use mathlib.Core.Path.{subst}
use aiva_v.Queues.Catalog.{Value}
use aiva_v.Import.Rows.{
  Stage, upload, extraction, chunking, embedding, publishing, StageStatus, stage_completed,
  stage_failed, stage_pending, stage_running, stage_skipped, DocStatus, doc_queued, doc_processing,
  doc_published, doc_failed, doc_unpublished, PerStage, at, put_at, StageChange, change, Row,
  Column, page_count_column, chunk_count_column, tokens_used_column, cost_usd_column,
  warnings_column, queue_keys_column, status_column, failed_stage_column, error_message_column,
  finished_at_column, published_at_column, started_at_column, at_now, write_column, write_columns,
  write_stages, written,
}
use aiva_v.Import.Repo.{
  worker_name, stage_columns, given, Results, result_columns, Counts, count_columns,
  failure_columns, queued_columns,
}
use aiva_v.Import.Repo.Moves.{◌⟶◌, begin, succeed, fail, retry, republish, withdraw, discard}
use aiva_v.Import.Repo.Moves.Rows.{Shape, IsRow, Move, IsMinor}

as-Shape :
    (s : DocStatus) (r : Row)
    → r.status ≡ s
    → IsRow r
    → Shape s r.failed_stage r.error_message r.started_at r.finished_at r.published_at r.worker_id
        r.attempts r.stages
as-Shape s r e h =
    subst
      (λ t.
        Shape t r.failed_stage r.error_message r.started_at r.finished_at r.published_at r.worker_id
          r.attempts r.stages)
      e h

follow :
    (a : DocStatus) (r s : Row)
    → r.status ≡ a
    → a ⟶ s.status
    → s.id ≡ r.id
    → (IsRow r → IsRow s)
    → Move r s
follow a r s e step i keeps = record {
  same_id = i;
  edge = inr (subst (λ t. t ⟶ s.status) (sym e) step);
  keeps = keeps;
}

abbrev pub Minor : Row → Row → Type 0
Minor r s = (s.id ≡ r.id) × (s.status ≡ r.status) × (IsRow r → IsRow s)

write-Minor : (now : ℕ) (c : Column) (r : Row) → IsMinor c → Minor r (write_column now c r)
unfolding IsMinor write_column
write-Minor now (page_count_column v) r h = (refl, refl, λ k. k)
write-Minor now (chunk_count_column v) r h = (refl, refl, λ k. k)
write-Minor now (tokens_used_column v) r h = (refl, refl, λ k. k)
write-Minor now (cost_usd_column v) r h = (refl, refl, λ k. k)
write-Minor now (warnings_column v) r h = (refl, refl, λ k. k)
write-Minor now (queue_keys_column v) r h = (refl, refl, λ k. k)
write-Minor now (status_column v) r h = absurd h
write-Minor now (failed_stage_column v) r h = absurd h
write-Minor now (error_message_column v) r h = absurd h
write-Minor now (started_at_column v) r h = absurd h
write-Minor now (finished_at_column v) r h = absurd h
write-Minor now (published_at_column v) r h = absurd h

pub write_columns-Minor :
    (now : ℕ) (cs : List Column) (r : Row) → All IsMinor cs → Minor r (write_columns now cs r)
unfolding write_columns
write_columns-Minor now [] r h = (refl, refl, λ k. k)
write_columns-Minor now (c ∷ cs) r h =
    let one = write-Minor now c r h.0 in
    let rest = write_columns-Minor now cs (write_column now c r) h.1 in
    (rest.0 ∙ one.0, rest.1 ∙ one.1, λ k. rest.2 (one.2 k))

given-IsMinor {ℓ} :
    {A : Type ℓ} (column : A → Column) (o : Option A) (cs : List Column)
    → ((a : A) → IsMinor (column a))
    → All IsMinor cs
    → All IsMinor (given column o cs)
unfolding given
given-IsMinor column none cs h hs = hs
given-IsMinor column (some a) cs h hs = (h a, hs)

pub count_columns-IsMinor : (n : Counts) → All IsMinor (count_columns n)
unfolding count_columns IsMinor
count_columns-IsMinor n =
    given-IsMinor _ n.page_count _ (λ a. tt)
      (given-IsMinor _ n.chunk_count _ (λ a. tt)
        (given-IsMinor _ n.tokens_used _ (λ a. tt) (given-IsMinor _ n.cost_usd [] (λ a. tt) tt)))

pub result_columns-IsMinor : (n : Results) → All IsMinor (result_columns n)
unfolding result_columns IsMinor
result_columns-IsMinor n =
    given-IsMinor _ n.page_count _ (λ a. tt)
      (given-IsMinor _ n.chunk_count _ (λ a. tt)
        (given-IsMinor _ n.tokens_used _ (λ a. tt)
          (given-IsMinor _ n.cost_usd _ (λ a. tt) (given-IsMinor _ n.warnings [] (λ a. tt) tt))))

pub written_minor :
    (now : ℕ) (cs : List Column) (r : Row) → All IsMinor cs → Move r (written now [] cs r)
unfolding written write_stages
written_minor now cs r h =
    let m = write_columns-Minor now cs r h in record { same_id = m.0; edge = inl m.1; keeps = m.2 }

pub written_results :
    (now : ℕ) (n : Results) (r : Row) → Move r (written now [] (result_columns n) r)
written_results now n r = written_minor now (result_columns n) r (result_columns-IsMinor n)

pub written_keys :
    (now : ℕ) (keys : List Text) (r : Row) → Move r (written now [] (queue_keys_column keys ∷ []) r)
unfolding IsMinor
written_keys now keys r = written_minor now (queue_keys_column keys ∷ []) r (tt, tt)

pub written_touch : (now : ℕ) (r : Row) → Move r (record r { updated_at = now })
written_touch now r = record { same_id = refl; edge = inl refl; keeps = λ h. h }

pub written_claim :
    (now : ℕ) (worker : Text) (r : Row)
    → r.status ≡ doc_queued
    → Move r (record r {
      status = doc_processing;
      attempts = r.attempts + 1;
      worker_id = some (worker_name worker);
      started_at = some now;
      finished_at = none;
      updated_at = now;
    })
unfolding Shape
written_claim now worker r e =
    follow doc_queued r _ e begin refl
      (λ h. (omega arith, refl, now, refl, worker_name worker, refl))

-- A processed row whose stage and failure columns are written.
processing :
    (r : Row) (stages : PerStage StageStatus) (s : Row)
    → r.status ≡ doc_processing
    → s ≡ record r {
      stages = stages;
      failed_stage = s.failed_stage;
      error_message = s.error_message;
      stage_details = s.stage_details;
      updated_at = s.updated_at;
    }
    → Move r s
unfolding Shape
processing r stages s e h = record {
  same_id = ap (λ x. x.id) h;
  edge = inl (ap (λ x. x.status) h);
  keeps = λ k. subst IsRow (sym h) (
      subst
        (λ t.
          Shape t s.failed_stage s.error_message r.started_at r.finished_at r.published_at
            r.worker_id r.attempts stages)
        (sym e) (as-Shape doc_processing r e k));
}

pub written_stage :
    (now : ℕ) (c : StageChange) (r : Row)
    → r.status ≡ doc_processing
    → Move r (written now (c ∷ []) (stage_columns c.stage c.status c.error) r)
unfolding written write_stages write_columns write_column stage_columns
written_stage now c r e = go c.status
  where
    go :
        (status : StageStatus)
        → Move r (written now (c ∷ []) (stage_columns c.stage status c.error) r)
    go stage_failed = processing r (put_at c.stage c.status r.stages) _ e refl
    go stage_pending = processing r (put_at c.stage c.status r.stages) _ e refl
    go stage_running = processing r (put_at c.stage c.status r.stages) _ e refl
    go stage_completed = processing r (put_at c.stage c.status r.stages) _ e refl
    go stage_skipped = processing r (put_at c.stage c.status r.stages) _ e refl

at-put_at {ℓ} : {A : Type ℓ} (s : Stage) (a : A) (p : PerStage A) → at s (put_at s a p) ≡ a
unfolding at put_at
at-put_at upload a p = refl
at-put_at extraction a p = refl
at-put_at chunking a p = refl
at-put_at embedding a p = refl
at-put_at publishing a p = refl

pub written_failure :
    (now : ℕ) (stage : Stage) (reason : Text) (r : Row)
    → r.status ≡ doc_processing
    → Move r (
        written now
          (record (change stage stage_failed) { error = some reason } ∷ [])
          (failure_columns stage reason)
          r)
unfolding written write_stages write_columns write_column failure_columns Shape
written_failure now stage reason r e =
    follow doc_processing r _ e fail refl
      (λ h. (stage, refl, at-put_at stage stage_failed r.stages, reason, refl, now, refl))

pub written_success :
    (now : ℕ) (metrics : Map Value) (n : Counts) (r : Row)
    → r.status ≡ doc_processing
    → Move r (
        written now
          (record (change publishing stage_completed) { metrics = metrics } ∷ [])
          (status_column doc_published
            ∷ finished_at_column at_now
            ∷ published_at_column at_now
            ∷ failed_stage_column none
            ∷ error_message_column none
            ∷ count_columns n)
          r)
unfolding written write_stages write_columns write_column Shape
written_success now metrics n r e =
    let m = write_columns-Minor now (count_columns n) _ (count_columns-IsMinor n) in
    follow doc_processing r _ e (subst (λ t. doc_processing ⟶ t) (sym m.1) succeed) m.0
      (λ h. m.2 (refl, refl, at-put_at publishing stage_completed r.stages, now, refl, refl))

pub written_unpublished :
    (now : ℕ) (r : Row)
    → (r.status ≡ doc_published) ⊎ (r.status ≡ doc_failed)
    → Move r (written now [] (status_column doc_unpublished ∷ []) r)
unfolding written write_stages write_columns write_column Shape
written_unpublished now r (inl e) =
    follow doc_published r _ e withdraw refl
      (λ h. let k = as-Shape doc_published r e h in (k.3, k.4))
written_unpublished now r (inr e) =
    follow doc_failed r _ e discard refl (λ h. let k = as-Shape doc_failed r e h in (k.5, k.6))

requeued :
    (now : ℕ) (r : Row)
    → (r.status ≡ doc_published) ⊎ (r.status ≡ doc_failed)
    → (changes : List StageChange) → (write_stages now changes r).id ≡ r.id
    → Move r (written now changes queued_columns r)
unfolding written write_columns write_column queued_columns Shape
requeued now r (inl e) changes i = follow doc_published r _ e republish i (λ h. (refl, refl, refl))
requeued now r (inr e) changes i = follow doc_failed r _ e retry i (λ h. (refl, refl, refl))

pub write_stages-id :
    (now : ℕ) (changes : List StageChange) (r : Row) → (write_stages now changes r).id ≡ r.id
unfolding write_stages
write_stages-id now [] r = refl
write_stages-id now (c ∷ cs) r = write_stages-id now cs _

pub written_requeued :
    (now : ℕ) (changes : List StageChange) (r : Row)
    → (r.status ≡ doc_published) ⊎ (r.status ≡ doc_failed)
    → Move r (written now changes queued_columns r)
written_requeued now changes r h = requeued now r h changes (write_stages-id now changes r)
