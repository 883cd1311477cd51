-- ===== src/Import/Pipeline/Calls.antt =====
-- The calls of the registry on a document that is being processed: they are made, and what they leave.
use aiva_v.Prelude.{
  ℕ, ◌≡◌, refl, ◌∙◌, inl, inr, Bool, true, false, Option, none, some, List, [], ◌∷◌, Text, Map,
  is_nil, arith, Bool-cases, Option-cases, ◌⊎◌,
}
use aiva_v.Queues.Catalog.{Value}
use aiva_v.Import.Rows.{
  Stage, StageStatus, stage_pending, stage_running, stage_completed, stage_failed, stage_skipped,
  DocStatus, doc_processing, doc_published, doc_failed, doc_unpublished, StageChange, change, Row,
  Column, written, write_stages, write_columns, write_column, or_failed, max_error_bytes,
}
use aiva_v.Import.Textutil.{truncated}
use aiva_v.Import.Repo.{
  Docs, status_code, has_status, fetch, Guard, expecting, is_expected, matches, write_if, update,
  stage_columns, set_stage, Results, result_columns, set_results, Counts, count_columns,
  finish_published, finish_failed, failure_columns, mark_unpublished,
}
use aiva_v.Import.Repo.Queue.Laws.{fetch-store_self}
use aiva_v.Import.Repo.Moves.Steps.{matches-processing}
use aiva_v.Import.Repo.Moves.Writes.{
  written_stage, written_results, written_failure, written_success, count_columns-IsMinor,
  result_columns-IsMinor, write_columns-Minor,
}

-- The document is there with a status.
pub record HasRow (id : ℕ) (status : DocStatus) (d : Docs) : Type 0 where
  pub row : Row
  pub here : fetch id d.rows ≡ some row
  pub is_status : row.status ≡ status

-- The document has failed at a stage, for a reason.
pub record HasFailed (id : ℕ) (d : Docs) : Type 0 where
  pub row : Row
  pub here : fetch id d.rows ≡ some row
  pub is_failed : row.status ≡ doc_failed
  pub stage : Stage
  pub at_stage : row.failed_stage ≡ some stage
  pub reason : Text
  pub with_reason : row.error_message ≡ some reason

matches-of_processing :
    (r : Row) → r.status ≡ doc_processing → matches (expecting (doc_processing ∷ [])) r ≡ true
unfolding matches is_expected has_status status_code
matches-of_processing r e = rw e refl

update-made :
    (now id : ℕ) (stages : List StageChange) (columns : List Column) (g : Guard) (d : Docs)
    (r : Row)
    → fetch id d.rows ≡ some r
    → matches g r ≡ true
    → (written now stages columns r).id ≡ r.id
    → ((update now id stages columns g d).1 ≡ true)
      × (fetch id (update now id stages columns g d).0.rows ≡ some (written now stages columns r))
unfolding update write_if
update-made now id stages columns g d r h m i = (
  rw (update, write_if, h, m) refl,
  rw (update, write_if, h, m) (fetch-store_self id (written now stages columns) d.rows r h i),
)

-- An update that was made found its row.
update-found :
    (now id : ℕ) (stages : List StageChange) (columns : List Column) (g : Guard) (d : Docs)
    → (update now id stages columns g d).1 ≡ true
    → (r : Row) × (fetch id d.rows ≡ some r) × (matches g r ≡ true)
unfolding update write_if
update-found now id stages columns g d t = elim (Option-cases (fetch id d.rows)) [
  | inl n ↦ let c : false ≡ true = rw (update, write_if, n) at t in absurd (ground (arith, c))
  | inr (r, h) ↦ elim (Bool-cases (matches g r)) [
    | inl m ↦ (r, h, m)
    | inr m ↦ let c : false ≡ true = rw (update, write_if, h, m) at t in absurd (ground (arith, c))
  ]
]

module _ (id : ℕ) (d : Docs) (p : HasRow id doc_processing d) where
  matched : matches (expecting (doc_processing ∷ [])) p.row ≡ true
  matched = matches-of_processing p.row p.is_status

  stage_status :
      (now : ℕ) (s : Stage) (status : StageStatus) (r : Row)
      → (written now (change s status ∷ []) (stage_columns s status none) r).status ≡ r.status
  unfolding written write_stages write_columns write_column stage_columns
  stage_status now s stage_pending r = refl
  stage_status now s stage_running r = refl
  stage_status now s stage_completed r = refl
  stage_status now s stage_failed r = refl
  stage_status now s stage_skipped r = refl

  -- A stage of a processed document is always written, and the document stays processed.
  pub set_stage-made :
      (now : ℕ) (s : Stage) (status : StageStatus)
      → ((set_stage now id (change s status) d).1 ≡ true)
        × HasRow id doc_processing (set_stage now id (change s status) d).0
  unfolding set_stage
  set_stage-made now s status =
      let m = written_stage now (change s status) p.row p.is_status in
      let u =
        update-made now id _ _ (expecting (doc_processing ∷ [])) d p.row p.here matched m.same_id in
      (
        u.0,
        record { row = _; here = u.1; is_status = stage_status now s status p.row ∙ p.is_status },
      )

  result_status :
      (now : ℕ) (n : Results) (r : Row) → (written now [] (result_columns n) r).status ≡ r.status
  unfolding written write_stages
  result_status now n r =
      (write_columns-Minor now (result_columns n) r (result_columns-IsMinor n)).1

  pub set_results-made :
      (now : ℕ) (r : Results)
      → ((set_results now id r d).1 ≡ true) × HasRow id doc_processing (set_results now id r d).0
  unfolding set_results
  set_results-made now r = elim (Bool-cases (is_nil (result_columns r))) [
    | inl e ↦ rw (set_results, e) (refl, p)
    | inr e ↦
        let m = written_results now r p.row in
        let u =
          update-made now id [] (result_columns r) (expecting (doc_processing ∷ [])) d p.row p.here
            matched m.same_id in
        rw (set_results, e)
          (u.0, record { row = _; here = u.1; is_status = result_status now r p.row ∙ p.is_status })
  ]

  pub finish_failed-made :
      (now : ℕ) (s : Stage) (error : Option Text) → (finish_failed now id s error d).1 ≡ true
  unfolding finish_failed
  finish_failed-made now s error =
      let reason = truncated (or_failed error) max_error_bytes in
      let m = written_failure now s reason p.row p.is_status in
      (update-made now id _ _ (expecting (doc_processing ∷ [])) d p.row p.here matched m.same_id).0

  pub finish_published-made :
      (now : ℕ) (metrics : Map Value) (n : Counts) → (finish_published now id metrics n d).1 ≡ true
  unfolding finish_published
  finish_published-made now metrics n =
      let m = written_success now metrics n p.row p.is_status in
      (update-made now id _ _ (expecting (doc_processing ∷ [])) d p.row p.here matched m.same_id).0

-- A failure that was recorded can be read in the row.
pub finish_failed-HasFailed :
    (now id : ℕ) (s : Stage) (error : Option Text) (d : Docs)
    → (finish_failed now id s error d).1 ≡ true
    → HasFailed id (finish_failed now id s error d).0
unfolding finish_failed written write_stages write_columns write_column failure_columns
finish_failed-HasFailed now id s error d t =
    let (r, h, m) = update-found now id _ _ (expecting (doc_processing ∷ [])) d t in
    let reason = truncated (or_failed error) max_error_bytes in
    let i = (written_failure now s reason r (matches-processing none none r m)).same_id in
    let u = update-made now id _ _ (expecting (doc_processing ∷ [])) d r h m i in
    record {
      row = _;
      here = u.1;
      is_failed = refl;
      stage = s;
      at_stage = refl;
      reason = reason;
      with_reason = refl;
    }

pub finish_published-HasRow :
    (now id : ℕ) (metrics : Map Value) (n : Counts) (d : Docs)
    → (finish_published now id metrics n d).1 ≡ true
    → HasRow id doc_published (finish_published now id metrics n d).0
unfolding finish_published written write_stages write_columns write_column
finish_published-HasRow now id metrics n d t =
    let (r, h, m) = update-found now id _ _ (expecting (doc_processing ∷ [])) d t in
    let i = (written_success now metrics n r (matches-processing none none r m)).same_id in
    let u = update-made now id _ _ (expecting (doc_processing ∷ [])) d r h m i in
    record {
      row = _;
      here = u.1;
      is_status = (write_columns-Minor now (count_columns n) _ (count_columns-IsMinor n)).1;
    }

pub mark_unpublished-HasRow :
    (now id : ℕ) (d : Docs)
    → (mark_unpublished now id d).1 ≡ true
    → HasRow id doc_unpublished (mark_unpublished now id d).0
unfolding mark_unpublished written write_stages write_columns write_column
mark_unpublished-HasRow now id d t =
    let (r, h, m) = update-found now id [] _ (expecting (doc_published ∷ doc_failed ∷ [])) d t in
    let u = update-made now id [] _ (expecting (doc_published ∷ doc_failed ∷ [])) d r h m refl in
    record { row = _; here = u.1; is_status = refl }

write_if-unmade :
    (id : ℕ) (p : Row → Bool) (f : Row → Row) (d : Docs)
    → (write_if id p f d).1 ≡ false
    → (write_if id p f d).0 ≡ d
unfolding write_if
write_if-unmade id p f d h = elim (Option-cases (fetch id d.rows)) [
  | inl n ↦ rw (write_if, n) refl
  | inr (r, e) ↦ elim (Bool-cases (p r)) [
    | inl k ↦ let c : true ≡ false = rw (write_if, e, k) at h in absurd (ground (arith, c))
    | inr k ↦ rw (write_if, e, k) refl
  ]
]

pub mark_unpublished-unmade :
    (now id : ℕ) (d : Docs)
    → (mark_unpublished now id d).1 ≡ false
    → (mark_unpublished now id d).0 ≡ d
unfolding mark_unpublished update
mark_unpublished-unmade now id d h = write_if-unmade id _ _ d h

matches-of_ended :
    (r : Row)
    → (r.status ≡ doc_published) ⊎ (r.status ≡ doc_failed)
    → matches (expecting (doc_published ∷ doc_failed ∷ [])) r ≡ true
unfolding matches is_expected has_status status_code
matches-of_ended r (inl e) = rw e refl
matches-of_ended r (inr e) = rw e refl

-- A row that is published or has failed is always marked.
pub mark_unpublished-made :
    (now id : ℕ) (d : Docs)
    → HasRow id doc_published d ⊎ HasRow id doc_failed d
    → (mark_unpublished now id d).1 ≡ true
unfolding mark_unpublished written write_stages write_columns write_column
mark_unpublished-made now id d (inl h) =
    (update-made now id [] _ (expecting (doc_published ∷ doc_failed ∷ [])) d h.row h.here
      (matches-of_ended h.row (inl h.is_status)) refl).0
mark_unpublished-made now id d (inr h) =
    (update-made now id [] _ (expecting (doc_published ∷ doc_failed ∷ [])) d h.row h.here
      (matches-of_ended h.row (inr h.is_status)) refl).0
