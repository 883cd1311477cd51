-- ===== src/Import/Repo/Moves/Statuses.antt =====
-- The registry against the machine that each document's status is.
use aiva_v.Prelude.{
  ℕ, ◌≡◌, refl, sym, ap, ◌∙◌, ◌⊎◌, inl, inr, Bool, true, false, ◌&&◌, Option, none, some, List, [],
  ◌∷◌, map, drop, any_of, if◌then◌else◌, Text, is_nil, arith, Bool-cases, Option-cases, ◌==◌,
}
use aiva_v.Import.Rows.{
  Stage, StageStatus, stage_pending, stage_running, stage_completed, stage_failed, stage_skipped,
  DocStatus, doc_queued, doc_processing, doc_published, doc_failed, doc_unpublished, StageChange,
  kb_stages, chunking, embedding, publishing, Row, written, write_stages, write_columns,
  write_column,
}
use aiva_v.Import.Repo.{
  Docs, get_document, status_code, has_status, fetch, expecting, is_expected, matches, write_if,
  update, new_row, insert_document, set_stage, stage_columns, set_results, result_columns,
  count_columns, finish_published, finish_failed, failure_columns, touch, fail_interrupted,
  reset_for_retry, reset_for_republish, mark_unpublished, update_queue_keys, queued_columns,
  pending, stage_index,
}
use aiva_v.Import.Repo.Queue.{claim}
use aiva_v.Import.Repo.Moves.{
  Op, inserting, claiming, staging, recording, publishing_done, failing, touching, interrupting,
  retrying, republishing, unpublishing, requeueing, run, run_all,
}
use aiva_v.Import.Repo.Moves.Writes.{
  write_columns-Minor, write_stages-id, count_columns-IsMinor, result_columns-IsMinor,
}
use aiva_v.Import.Repo.Moves.Steps.{fetch-store, same_row, fetch-append, matches-processing}

is_one_of : DocStatus → List DocStatus → Bool
is_one_of s ss = any_of (λ x. status_code s == status_code x) ss

-- A transaction on document `i` gives document `id` a new status, if that is the document and its status
-- is one of these; and otherwise leaves its status.
Sets : ℕ → ℕ → List DocStatus → DocStatus → DocStatus → DocStatus → Type 0
Sets id i sources target s t = t ≡ (if id == i && is_one_of s sources then target else s)

-- What each transaction does to the status of document `id`. Only a worker or the recovery that gives up
-- a document has further conditions, on the row's time and worker.
pub Acts : ℕ → Op → DocStatus → DocStatus → Type 0
Acts id (inserting n) s t = t ≡ s
Acts id (claiming worker i) s t = Sets id i (doc_queued ∷ []) doc_processing s t
Acts id (staging i c) s t = t ≡ s
Acts id (recording i results) s t = t ≡ s
Acts id (publishing_done i metrics counts) s t = Sets id i (doc_processing ∷ []) doc_published s t
Acts id (failing i stage error) s t = Sets id i (doc_processing ∷ []) doc_failed s t
Acts id (touching i worker) s t = t ≡ s
Acts id (interrupting i stage stale worker) s t =
    (t ≡ s) ⊎ Sets id i (doc_processing ∷ []) doc_failed s t
Acts id (retrying i stage) s t = Sets id i (doc_failed ∷ []) doc_queued s t
Acts id (republishing i) s t = Sets id i (doc_published ∷ doc_failed ∷ []) doc_queued s t
Acts id (unpublishing i) s t = Sets id i (doc_published ∷ doc_failed ∷ []) doc_unpublished s t
Acts id (requeueing i keys statuses) s t = t ≡ s

-- The statuses that a document goes through while these transactions commit.
pub data Trace (id : ℕ) : List (ℕ × Op) → DocStatus → DocStatus → Type 0 where
  over : {s : DocStatus} → Trace id [] s s
  acted :
      {now : ℕ} {op : Op} {ops : List (ℕ × Op)} {s t u : DocStatus}
      → Acts id op s t
      → Trace id ops t u
      → Trace id ((now, op) ∷ ops) s u

-- The document after a conditional write to document `i`.
abbrev after : ℕ → ℕ → (Row → Bool) → (Row → Row) → Row → Row
after id i p f r = if id == i && p r then f r else r

write_if-fetch :
    (id i : ℕ) (p : Row → Bool) (f : Row → Row) (d : Docs) (r : Row)
    → fetch id d.rows ≡ some r
    → ((q : Row) → p q ≡ true → (f q).id ≡ q.id)
    → fetch id (write_if i p f d).0.rows ≡ some (after id i p f r)
unfolding write_if
write_if-fetch id i p f d r h ids = elim (Option-cases (fetch i d.rows)) [
  | inl n ↦ elim (Bool-cases (id == i)) [
    | inl m ↦
        let same : id ≡ i = ground (arith, m) in
        let c : some r ≡ none = sym h ∙ ap (λ j. fetch j d.rows) same ∙ n in cc
    | inr m ↦ rw (write_if, n, m) h
  ]
  | inr (q, e) ↦ elim (Bool-cases (id == i)) [
    | inl m ↦
        let same = same_row id i r q d.rows m h e in
        elim (Bool-cases (p q)) [
          | inl k ↦
              let k' : p r ≡ true = ap p (sym same) ∙ k in
              rw (write_if, e, k, m, k')
                (fetch-store i id f d.rows (λ x l. ids x (ap p (row_eq (sym l ∙ e)) ∙ k))
                  ∙ rw (m, h) refl)
          | inr k ↦ let k' : p r ≡ false = ap p (sym same) ∙ k in rw (write_if, e, k, m, k') h
        ]
    | inr m ↦ elim (Bool-cases (p q)) [
      | inl k ↦
          rw (write_if, e, k, m)
            (fetch-store i id f d.rows (λ x l. ids x (ap p (row_eq (sym l ∙ e)) ∙ k)) ∙ rw m h)
      | inr k ↦ rw (write_if, e, k, m) h
    ]
  ]
]
  where
    row_eq : {x y : Row} → some x ≡ some y → x ≡ y
    row_eq l = cc

-- A document that is found, with what becomes of its status.
abbrev Found : ℕ → Docs → (DocStatus → Type 0) → Type 0
Found id e P = (s : Row) × (fetch id e.rows ≡ some s) × P s.status

is_expected-one_of : (ss : List DocStatus) (r : Row) → is_expected ss r ≡ is_one_of r.status ss
unfolding is_expected is_one_of has_status
is_expected-one_of [] r = refl
is_expected-one_of (s ∷ ss) r = ground (arith, is_expected-one_of ss r)

sets :
    (id i : ℕ) (ss : List DocStatus) (target : DocStatus) (p : Row → Bool) (f : Row → Row)
    (d : Docs) (r : Row)
    → fetch id d.rows ≡ some r
    → ((q : Row) → p q ≡ is_one_of q.status ss)
    → ((q : Row) → (f q).id ≡ q.id)
    → ((q : Row) → (f q).status ≡ target)
    → Found id (write_if i p f d).0 (Sets id i ss target r.status)
unfolding Sets
sets id i ss target p f d r h guard ids status = (
  after id i p f r,
  write_if-fetch id i p f d r h (λ q k. ids q),
  elim (Bool-cases (id == i && p r)) [
    | inl k ↦
        let k' : (id == i && is_one_of r.status ss) ≡ true =
          ap (λ b. id == i && b) (sym (guard r)) ∙ k in
        rw (k, k') (status r)
    | inr k ↦
        let k' : (id == i && is_one_of r.status ss) ≡ false =
          ap (λ b. id == i && b) (sym (guard r)) ∙ k in
        rw (k, k') refl
  ],
)

keeps :
    (id i : ℕ) (p : Row → Bool) (f : Row → Row) (d : Docs) (r : Row)
    → fetch id d.rows ≡ some r
    → ((q : Row) → (f q).id ≡ q.id)
    → ((q : Row) → (f q).status ≡ q.status)
    → Found id (write_if i p f d).0 (λ t. t ≡ r.status)
keeps id i p f d r h ids status = (
  after id i p f r,
  write_if-fetch id i p f d r h (λ q k. ids q),
  elim (Bool-cases (id == i && p r)) [ inl k ↦ rw k (status r) | inr k ↦ rw k refl ],
)

expects :
    (ss : List DocStatus) (q : Row)
    → is_nil ss ≡ false
    → matches (expecting ss) q ≡ is_one_of q.status ss
unfolding matches
expects ss q h = ground (arith, h, is_expected-one_of ss q)

-- A write under further conditions.
may_set :
    (id i : ℕ) (ss : List DocStatus) (target : DocStatus) (p : Row → Bool) (f : Row → Row)
    (d : Docs) (r : Row)
    → fetch id d.rows ≡ some r
    → ((q : Row) → p q ≡ true → is_one_of q.status ss ≡ true)
    → ((q : Row) → (f q).id ≡ q.id)
    → ((q : Row) → (f q).status ≡ target)
    → Found id (write_if i p f d).0 (λ t. (t ≡ r.status) ⊎ Sets id i ss target r.status t)
unfolding Sets
may_set id i ss target p f d r h guard ids status = (
  after id i p f r,
  write_if-fetch id i p f d r h (λ q k. ids q),
  elim (Bool-cases (id == i)) [
    | inr m ↦ rw m (inl refl)
    | inl m ↦ elim (Bool-cases (p r)) [
      | inr k ↦ rw (m, k) (inl refl)
      | inl k ↦ let k' = guard r k in rw (m, k, k') (inr (status r))
    ]
  ],
)

stage_keeps :
    (now : ℕ) (c : StageChange) (stage : Stage) (status : StageStatus) (error : Option Text)
    (q : Row)
    → ((written now (c ∷ []) (stage_columns stage status error) q).id ≡ q.id)
      × ((written now (c ∷ []) (stage_columns stage status error) q).status ≡ q.status)
unfolding written write_stages write_columns write_column stage_columns
stage_keeps now c stage stage_pending error q = (refl, refl)
stage_keeps now c stage stage_running error q = (refl, refl)
stage_keeps now c stage stage_completed error q = (refl, refl)
stage_keeps now c stage stage_failed error q = (refl, refl)
stage_keeps now c stage stage_skipped error q = (refl, refl)

requeued-status :
    (now : ℕ) (changes : List StageChange) (q : Row)
    → (written now changes queued_columns q).status ≡ doc_queued
unfolding written write_columns write_column queued_columns
requeued-status now changes q = refl

requeued-id :
    (now : ℕ) (changes : List StageChange) (q : Row)
    → (written now changes queued_columns q).id ≡ q.id
unfolding written write_columns write_column queued_columns
requeued-id now changes q = write_stages-id now changes q

-- One transaction on a document that is there.
run-Acts :
    (now : ℕ) (op : Op) (d : Docs) (id : ℕ) (r : Row)
    → fetch id d.rows ≡ some r
    → Found id (run now op d) (Acts id op r.status)
unfolding run claim update set_stage set_results finish_published finish_failed touch
    fail_interrupted reset_for_retry reset_for_republish mark_unpublished update_queue_keys
    insert_document written write_stages write_columns write_column failure_columns Acts
run-Acts now (inserting n) d id r h =
    (r, fetch-append id d.rows (new_row now d.next_id n) ∙ rw h refl, refl)
run-Acts now (claiming worker i) d id r h =
    sets id i (doc_queued ∷ []) doc_processing _ _ d r h
      (λ q. unfold has_status is_one_of in ground arith) (λ q. refl) (λ q. refl)
run-Acts now (staging i c) d id r h =
    keeps id i _ _ d r h (λ q. (stage_keeps now c c.stage c.status c.error q).0)
      (λ q. (stage_keeps now c c.stage c.status c.error q).1)
run-Acts now (recording i results) d id r h = elim (Bool-cases (is_nil (result_columns results))) [
  | inl e ↦ rw (run, set_results, e) (r, h, refl)
  | inr e ↦
      rw (run, set_results, e)
        (keeps id i _ _ d r h
          (λ q.
            (write_columns-Minor now (result_columns results) q (result_columns-IsMinor results)).0)
          (λ q.
            (write_columns-Minor now (result_columns results) q
              (result_columns-IsMinor results)).1))
]
run-Acts now (publishing_done i metrics counts) d id r h =
    sets id i (doc_processing ∷ []) doc_published _ _ d r h
      (λ q. expects (doc_processing ∷ []) q refl)
      (λ q. (write_columns-Minor now (count_columns counts) _ (count_columns-IsMinor counts)).0)
      (λ q. (write_columns-Minor now (count_columns counts) _ (count_columns-IsMinor counts)).1)
run-Acts now (failing i stage error) d id r h =
    sets id i (doc_processing ∷ []) doc_failed _ _ d r h (λ q. expects (doc_processing ∷ []) q refl)
      (λ q. refl) (λ q. refl)
run-Acts now (touching i worker) d id r h = keeps id i _ _ d r h (λ q. refl) (λ q. refl)
run-Acts now (interrupting i stage stale worker) d id r h =
    may_set id i (doc_processing ∷ []) doc_failed _ _ d r h
      (λ q k. rw (matches-processing stale worker q k) (unfold is_one_of status_code in refl))
      (λ q. refl) (λ q. refl)
run-Acts now (retrying i stage) d id r h =
    let changes = map pending (drop (stage_index stage) kb_stages) in
    sets id i (doc_failed ∷ []) doc_queued _ (written now changes queued_columns) d r h
      (λ q. expects (doc_failed ∷ []) q refl) (requeued-id now changes)
      (requeued-status now changes)
run-Acts now (republishing i) d id r h =
    let changes = map pending (chunking ∷ embedding ∷ publishing ∷ []) in
    sets id i (doc_published ∷ doc_failed ∷ []) doc_queued _ (written now changes queued_columns) d
      r h (λ q. expects (doc_published ∷ doc_failed ∷ []) q refl) (requeued-id now changes)
      (requeued-status now changes)
run-Acts now (unpublishing i) d id r h =
    sets id i (doc_published ∷ doc_failed ∷ []) doc_unpublished _ _ d r h
      (λ q. expects (doc_published ∷ doc_failed ∷ []) q refl) (λ q. refl) (λ q. refl)
run-Acts now (requeueing i keys statuses) d id r h = keeps id i _ _ d r h (λ q. refl) (λ q. refl)

-- Whatever transactions the sessions interleave, a document in the registry stays there, and its status is
-- what the transactions make of it one after another: claimed only from QUEUED, published or failed
-- only from PROCESSING, queued again only from FAILED or, for a republication, PUBLISHED, and
-- unpublished only from these two. A transaction that fits the status takes effect, but that the
-- recovery may also find that a run is not to be given up; every other one, and every one on another
-- document, leaves the status as it is.
pub run_all_refines :
    (ops : List (ℕ × Op)) (d : Docs) (id : ℕ) (r : Row)
    → get_document id d ≡ some r
    → (s : Row) × (get_document id (run_all ops d) ≡ some s) × Trace id ops r.status s.status
unfolding run_all get_document
run_all_refines [] d id r h = (r, h, over)
run_all_refines ((now, op) ∷ ops) d id r h =
    let m = run-Acts now op d id r h in
    let rest = run_all_refines ops (run now op d) id m.0 m.1 in (rest.0, rest.1, acted m.2 rest.2)
