-- ===== src/Import/Repo/Moves/Steps.antt =====
-- The transactions of the registry keep the invariant of the rows.
use aiva_v.Prelude.{
  ℕ, ◌≡◌, refl, sym, ap, ◌∙◌, ◌⊎◌, inl, inr, Bool, true, ◌&&◌, Option, none, some, List, [], ◌∷◌,
  ◌++◌, if◌then◌else◌, Text, All, is_nil, arith, Bool-cases, Option-cases, ◌==◌,
}
use mathlib.Core.Path.{subst}
use aiva_v.Import.Rows.{doc_queued, doc_processing, doc_published, doc_failed, Row}
use aiva_v.Import.Repo.{
  Docs, get_document, has_status, fetch, store, expecting, is_expected, matches, write_if, update,
  NewDocument, new_row, insert_document, set_stage, set_results, result_columns, finish_published,
  finish_failed, touch, fail_interrupted, reset_for_retry, reset_for_republish, mark_unpublished,
  update_queue_keys, interrupted_reason,
}
use aiva_v.Import.Repo.Queue.{claim}
use aiva_v.Import.Repo.Moves.{
  Op, inserting, claiming, staging, recording, publishing_done, failing, touching, interrupting,
  retrying, republishing, unpublishing, requeueing, run, run_all,
}
use aiva_v.Import.Repo.Moves.Rows.{IsRow, Move, status_of}
use aiva_v.Import.Repo.Moves.Writes.{
  written_results, written_keys, written_touch, written_claim, written_stage, written_failure,
  written_success, written_unpublished, written_requeued,
}

-- A row after a conditional write to the row with this id.
abbrev rewritten : ℕ → (Row → Bool) → (Row → Row) → ℕ → Row → Row
rewritten id p f j r = if j == id && p r then f r else r

abbrev pub fetched : (Row → Row) → Option Row → Option Row
fetched g none = none
fetched g (some r) = some (g r)

pub fetch-id : (j : ℕ) (rs : List Row) (r : Row) → fetch j rs ≡ some r → r.id ≡ j
unfolding fetch
fetch-id j [] r h = cc
fetch-id j (q ∷ rs) r h = ground (arith, fetch-id j rs r, h)

pub fetch-store :
    (id j : ℕ) (f : Row → Row) (rs : List Row)
    → ((r : Row) → fetch id rs ≡ some r → (f r).id ≡ r.id)
    → fetch j (store id f rs) ≡ (if j == id then fetched f (fetch j rs) else fetch j rs)
unfolding fetch store
fetch-store id j f [] h = ground arith
fetch-store id j f (r ∷ rs) h = elim (Bool-cases (r.id == id)) [
  | inl e ↦ ground (arith, e, h r (simp e))
  | inr e ↦ let rest = fetch-store id j f rs (λ q k. h q (simp e k)) in ground (arith, e, rest)
]

-- What a transaction does to the rows that are there.
abbrev Moves : Docs → Docs → Type 0
Moves d e =
    (g : ℕ → Row → Row) × ((j : ℕ) (r : Row) → fetch j d.rows ≡ some r → Move r (g j r))
    × ((j : ℕ) → fetch j e.rows ≡ fetched (g j) (fetch j d.rows))

stays : (r : Row) → Move r r
stays r = record { same_id = refl; edge = inl refl; keeps = λ h. h }

fetched_self : (o : Option Row) → o ≡ fetched (λ r. r) o
fetched_self none = refl
fetched_self (some r) = refl

unmoved : (d : Docs) → Moves d d
unmoved d = (λ j r. r, λ j r h. stays r, λ j. fetched_self (fetch j d.rows))

some_eq {ℓ} : {A : Type ℓ} {a b : A} → some a ≡ some b → a ≡ b
some_eq h = cc

pub same_row :
    (j id : ℕ) (q r : Row) (rs : List Row)
    → (j == id) ≡ true
    → fetch j rs ≡ some q
    → fetch id rs ≡ some r
    → r ≡ q
same_row j id q r rs m l e =
    let same : j ≡ id = ground (arith, m) in some_eq (sym e ∙ ap (λ i. fetch i rs) (sym same) ∙ l)

write_if-Moves :
    (id : ℕ) (p : Row → Bool) (f : Row → Row) (d : Docs)
    → ((r : Row) → p r ≡ true → Move r (f r))
    → Moves d (write_if id p f d).0
unfolding write_if fetch
write_if-Moves id p f d h = elim (Option-cases (fetch id d.rows)) [
  | inl n ↦ rw (write_if, n) (unmoved d)
  | inr (r, e) ↦ elim (Bool-cases (p r)) [
    | inr k ↦ rw (write_if, e, k) (unmoved d)
    | inl k ↦
        rw (write_if, e, k)
          (
            λ j q. if j == id then f q else q,
            λ j q l. elim (Bool-cases (j == id)) [
              | inl m ↦ rw m (h q (ap p (sym (same_row j id q r d.rows m l e)) ∙ k))
              | inr m ↦ rw m (stays q)
            ],
            λ j. elim (Bool-cases (j == id)) [
              | inl m ↦ fetch-store id j f d.rows (ids r e k) ∙ rw m refl
              | inr m ↦ fetch-store id j f d.rows (ids r e k) ∙ rw m (fetched_self (fetch j d.rows))
            ],
          )
  ]
]
  where
    ids :
        (r : Row)
        → fetch id d.rows ≡ some r
        → p r ≡ true
        → (q : Row) → fetch id d.rows ≡ some q
        → (f q).id ≡ q.id
    ids r e k q l = (h q (ap p (some_eq (sym l ∙ e)) ∙ k)).same_id

pub matches-processing :
    (stale : Option ℕ) (worker : Option Text) (r : Row)
    → matches
        (record { expect_status = doc_processing ∷ []; stale_before = stale; worker_id = worker })
        r
      ≡ true
    → r.status ≡ doc_processing
unfolding matches is_expected
matches-processing stale worker r h = status_of doc_processing r (ground (arith, h))

matches-ended :
    (r : Row)
    → matches (expecting (doc_published ∷ doc_failed ∷ [])) r ≡ true
    → (r.status ≡ doc_published) ⊎ (r.status ≡ doc_failed)
unfolding matches is_expected
matches-ended r h = elim (Bool-cases (has_status doc_published r)) [
  | inl e ↦ inl (status_of doc_published r e)
  | inr e ↦ inr (status_of doc_failed r (ground (arith, h, e)))
]

matches-failed : (r : Row) → matches (expecting (doc_failed ∷ [])) r ≡ true → r.status ≡ doc_failed
unfolding matches is_expected
matches-failed r h = status_of doc_failed r (ground (arith, h))

-- Whether a transaction inserts a row.
unfoldable pub IsInsert : Op → Type 0
IsInsert (inserting n) = Unit
IsInsert _ = ⊥

-- A transaction that inserts no row moves the rows that are there.
run-Moves : (now : ℕ) (op : Op) (d : Docs) → (IsInsert op → ⊥) → Moves d (run now op d)
unfolding run claim update set_stage set_results finish_published finish_failed touch
    fail_interrupted reset_for_retry reset_for_republish mark_unpublished update_queue_keys IsInsert
run-Moves now (inserting n) d h = absurd (h tt)
run-Moves now (claiming worker id) d h =
    write_if-Moves id _ _ d (λ r k. written_claim now worker r (status_of doc_queued r k))
run-Moves now (staging id c) d h =
    write_if-Moves id _ _ d (λ r k. written_stage now c r (matches-processing none none r k))
run-Moves now (recording id results) d h = elim (Bool-cases (is_nil (result_columns results))) [
  | inl e ↦ rw (run, set_results, e) (unmoved d)
  | inr e ↦
      rw (run, set_results, e) (write_if-Moves id _ _ d (λ r k. written_results now results r))
]
run-Moves now (publishing_done id metrics counts) d h =
    write_if-Moves id _ _ d
      (λ r k. written_success now metrics counts r (matches-processing none none r k))
run-Moves now (failing id stage error) d h =
    write_if-Moves id _ _ d
      (λ r k. written_failure now stage _ r (matches-processing none none r k))
run-Moves now (touching id worker) d h = write_if-Moves id _ _ d (λ r k. written_touch now r)
run-Moves now (interrupting id stage stale worker) d h =
    write_if-Moves id _ _ d
      (λ r k. written_failure now stage interrupted_reason r (matches-processing stale worker r k))
run-Moves now (retrying id stage) d h =
    write_if-Moves id _ _ d (λ r k. written_requeued now _ r (inr (matches-failed r k)))
run-Moves now (republishing id) d h =
    write_if-Moves id _ _ d (λ r k. written_requeued now _ r (matches-ended r k))
run-Moves now (unpublishing id) d h =
    write_if-Moves id _ _ d (λ r k. written_unpublished now r (matches-ended r k))
run-Moves now (requeueing id keys statuses) d h =
    write_if-Moves id _ _ d (λ r k. written_keys now keys r)

pub fetch-append :
    (j : ℕ) (rs : List Row) (x : Row)
    → fetch j (rs ++ x ∷ [])
      ≡ elim (fetch j rs) [ some r ↦ some r | none ↦ if x.id == j then some x else none ]
unfolding fetch
fetch-append j [] x = refl
fetch-append j (r ∷ rs) x = ground (arith, fetch-append j rs x)

IsInsert-cases : (op : Op) → (IsInsert op → ⊥) ⊎ ((n : NewDocument) × (op ≡ inserting n))
unfolding IsInsert
IsInsert-cases (inserting n) = inr (n, refl)
IsInsert-cases (claiming worker id) = inl (λ h. h)
IsInsert-cases (staging id c) = inl (λ h. h)
IsInsert-cases (recording id results) = inl (λ h. h)
IsInsert-cases (publishing_done id metrics counts) = inl (λ h. h)
IsInsert-cases (failing id stage error) = inl (λ h. h)
IsInsert-cases (touching id worker) = inl (λ h. h)
IsInsert-cases (interrupting id stage stale worker) = inl (λ h. h)
IsInsert-cases (retrying id stage) = inl (λ h. h)
IsInsert-cases (republishing id) = inl (λ h. h)
IsInsert-cases (unpublishing id) = inl (λ h. h)
IsInsert-cases (requeueing id keys statuses) = inl (λ h. h)

-- What the sessions insert satisfies the invariant.
unfoldable pub IsSound : Op → Type 0
IsSound (inserting n) = (now id : ℕ) → IsRow (new_row now id n)
IsSound _ = Unit

abbrev pub IsDocs : Docs → Type 0
IsDocs d = (id : ℕ) (r : Row) → get_document id d ≡ some r → IsRow r

fetched-some :
    (g : Row → Row) (o : Option Row) (s : Row)
    → fetched g o ≡ some s
    → (r : Row) × (o ≡ some r) × (g r ≡ s)
fetched-some g none s h = cc
fetched-some g (some r) s h = (r, refl, some_eq h)

inserted-IsRow :
    (o : Option Row) (x r : Row) (j : ℕ)
    → IsRow x
    → ((s : Row) → o ≡ some s → IsRow s)
    → elim o [ some s ↦ some s | none ↦ if x.id == j then some x else none ] ≡ some r
    → IsRow r
inserted-IsRow (some s) x r j hx ho e = ho r e
inserted-IsRow none x r j hx ho e = elim (Bool-cases (x.id == j)) [
  | inl m ↦ subst IsRow (some_eq (simp m at e)) hx
  | inr m ↦ let c : none ≡ some r = simp m at e in cc
]

run-IsDocs : (now : ℕ) (op : Op) (d : Docs) → IsSound op → IsDocs d → IsDocs (run now op d)
unfolding run insert_document get_document IsSound
run-IsDocs now op d sound docs id s h = elim (IsInsert-cases op) [
  | inl other ↦
      let m = run-Moves now op d other in
      let f = fetched-some (m.0 id) (fetch id d.rows) s (sym (m.2 id) ∙ h) in
      subst IsRow f.2 ((m.1 id f.0 f.1).keeps (docs id f.0 f.1))
  | inr (n, e) ↦
      inserted-IsRow (fetch id d.rows) (new_row now d.next_id n) s id
        (subst IsSound e sound now d.next_id) (docs id)
        (sym (fetch-append id d.rows (new_row now d.next_id n))
          ∙ subst (λ o. fetch id (run now o d).rows ≡ some s) e h)
]

-- Whatever transactions the sessions interleave, if the documents in the registry and the inserted ones
-- satisfy the invariant, all documents do afterwards: a queued document carries no failure, a
-- processed one was claimed by a worker, a published one has completed its last stage at a recorded
-- moment, and a failed one names the stage, marked so, and the reason.
pub run_all-IsDocs :
    (ops : List (ℕ × Op)) (d : Docs)
    → All (λ e. IsSound e.1) ops
    → IsDocs d
    → IsDocs (run_all ops d)
unfolding run_all
run_all-IsDocs [] d sound docs = docs
run_all-IsDocs ((now, op) ∷ ops) d sound docs =
    run_all-IsDocs ops (run now op d) sound.1 (run-IsDocs now op d sound.0 docs)
