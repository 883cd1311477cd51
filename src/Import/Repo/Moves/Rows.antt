-- ===== src/Import/Repo/Moves/Rows.antt =====
-- The invariant of a row, and what one write does to it.
use aiva_v.Prelude.{
  ℕ, ◌<◌, ◌≡◌, refl, sym, ap, ◌∙◌, ◌⊎◌, inl, true, Option, none, some, if◌then◌else◌, Text, ◌==◌,
  ==_iff,
}
use aiva_v.Import.Rows.{
  Stage, publishing, StageStatus, stage_completed, stage_failed, DocStatus, doc_queued,
  doc_processing, doc_published, doc_failed, doc_unpublished, PerStage, at, Row, Column,
  page_count_column, chunk_count_column, tokens_used_column, cost_usd_column, warnings_column,
  queue_keys_column,
}
use aiva_v.Import.Repo.{status_code, has_status}
use aiva_v.Import.Repo.Moves.{◌⟶◌}

decode : ℕ → DocStatus
decode n =
    if n == 0
    then doc_queued
    else if n == 1
    then doc_processing
    else if n == 2
    then doc_published
    else if n == 3
    then doc_failed
    else doc_unpublished

decode-status_code : (s : DocStatus) → decode (status_code s) ≡ s
unfolding decode status_code
decode-status_code doc_queued = refl
decode-status_code doc_processing = refl
decode-status_code doc_published = refl
decode-status_code doc_failed = refl
decode-status_code doc_unpublished = refl

pub status_of : (s : DocStatus) (r : Row) → has_status s r ≡ true → r.status ≡ s
unfolding has_status
status_of s r h =
    sym (decode-status_code r.status)
    ∙ ap decode ((==_iff (status_code r.status) (status_code s)).0 h)
    ∙ decode-status_code s

-- What a row of each status holds, of its columns.
unfoldable pub Shape :
    DocStatus
    → Option Stage
    → Option Text
    → Option ℕ
    → Option ℕ
    → Option ℕ
    → Option Text
    → ℕ
    → PerStage StageStatus
    → Type 0
Shape doc_queued failed error started finished published worker attempts stages =
    (failed ≡ none) × (error ≡ none) × (finished ≡ none)
Shape doc_processing failed error started finished published worker attempts stages =
    (0 < attempts)
    × (finished ≡ none)
    × (t : ℕ) × (started ≡ some t)
    × (w : Text) × (worker ≡ some w)
Shape doc_published failed error started finished published worker attempts stages =
    (failed ≡ none)
    × (error ≡ none)
    × (at publishing stages ≡ stage_completed)
    × (t : ℕ) × (finished ≡ some t)
    × (published ≡ some t)
Shape doc_failed failed error started finished published worker attempts stages =
    (s : Stage) × (failed ≡ some s)
    × (at s stages ≡ stage_failed)
    × (reason : Text) × (error ≡ some reason)
    × (t : ℕ) × (finished ≡ some t)
Shape doc_unpublished failed error started finished published worker attempts stages =
    (t : ℕ) × (finished ≡ some t)

-- A document waits without a failure on it, is processed by a worker that claimed it, is published with
-- its last stage complete, or has failed at a stage that is marked so, for a reason that is given.
abbrev pub IsRow : Row → Type 0
IsRow r =
    Shape r.status r.failed_stage r.error_message r.started_at r.finished_at r.published_at
      r.worker_id r.attempts r.stages

-- A write follows the diagram, if it changes the status at all, and keeps the invariant.
pub record Move (r s : Row) : Type 0 where
  pub same_id : s.id ≡ r.id
  pub edge : (s.status ≡ r.status) ⊎ (r.status ⟶ s.status)
  pub keeps : IsRow r → IsRow s

-- The columns that the invariant does not read.
unfoldable pub IsMinor : Column → Type 0
IsMinor (page_count_column v) = Unit
IsMinor (chunk_count_column v) = Unit
IsMinor (tokens_used_column v) = Unit
IsMinor (cost_usd_column v) = Unit
IsMinor (warnings_column v) = Unit
IsMinor (queue_keys_column v) = Unit
IsMinor _ = ⊥

still : (r s : Row) → s.id ≡ r.id → s.status ≡ r.status → (IsRow r → IsRow s) → Move r s
still r s i e k = record { same_id = i; edge = inl e; keeps = k }
