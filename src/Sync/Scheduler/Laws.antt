-- ===== src/Sync/Scheduler/Laws.antt =====
-- What a tick does for a source that is due.
use aiva_v.Prelude.{
  ℕ, suc, ◌≤◌, ◌<◌, ◌≡◌, refl, ap, ◌⊎◌, inl, inr, Bool, true, false, some, none, List, [], ◌∷◌,
  ◌++◌, map, leb, ◌==◌, arith, Bool-cases, Option-cases, All,
}
use aiva_v.DocIntel.Schedule.{Zone}
use aiva_v.Sync.Rows.{as_date, Source, scheduled, SyncRun, source_active, is_active}
use aiva_v.Sync.Tables.{Tables, update_where, count_where, active_runs, is_unfinished_of}
use aiva_v.Sync.Runs.{created, already_active, insert_failed, create_run, new_run, is_source}
use aiva_v.Sync.Sources.{is_past, is_due, is_due_source, claim_due_source, restore_next_sync}
use aiva_v.Sync.Sources.Laws.{undone_due, as_date-le, due-le, moved_to, update_where_none}
use aiva_v.Sync.Moves.{steps}
use aiva_v.Sync.Scheduler.{
  Around, Outcome, queued, lost, covered, failed, unscheduled, next_time, undo, after_create,
  after_claim, queue_one, queue_each,
}

-- No source of this id is active with its schedule on and due.
pub NotDue : ℕ → ℕ → List Source → Type 0
NotDue now id = All (λ s.
    s.id ≡ id
    → s.status ≡ source_active
    → s.sync_enabled ≡ true
    → (at : ℕ) → s.next_sync_at ≡ some at
    → as_date now < at)

NotDue-count :
    (now id : ℕ) (ss : List Source) → count_where (is_due_source now id) ss ≡ 0 → NotDue now id ss
unfolding NotDue is_due is_past is_active
NotDue-count now id [] h = tt
NotDue-count now id (s ∷ ss) h =
    (λ i e on at n. ground (arith, h, i, e, on, n), NotDue-count now id ss (ground (arith, h)))

-- How a source that was due stands after its turn, against the tables at its claim: a run of it is queued
-- or in progress; or it was no longer due and nothing is written; or its claim failed, for the
-- database or since the next time is past, and nothing is written; or it is due again.
pub Settled : Zone → Around → ℕ → Source → Tables → Tables → Outcome → Type 0
Settled tz a now row before after queued = 0 < active_runs row.id after
Settled tz a now row before after covered = 0 < active_runs row.id after
Settled tz a now row before after lost = (after ≡ before) × NotDue now row.id before.sources
Settled tz a now row before after failed =
    ((after ≡ before) × ((a.claim_fails row.id ≡ true) ⊎ (next_time tz now row ≤ now)))
    ⊎ (0 < count_where (is_due_source now row.id) after.sources)
Settled tz a now row before after unscheduled = ⊥

append_active :
    (source : ℕ) (rs : List SyncRun) (r : SyncRun)
    → is_unfinished_of source r ≡ true
    → 0 < count_where (is_unfinished_of source) (rs ++ r ∷ [])
append_active source [] r h = ground (arith, h)
append_active source (s ∷ rs) r h = ground (arith, append_active source rs r h)

-- The three ways in which `create_run` ends.
create_run-cases :
    (fault : Bool) (now source : ℕ) (t : Tables)
    → (create_run fault now source scheduled none t ≡ (t, insert_failed))
      ⊎ ((create_run fault now source scheduled none t ≡ (t, already_active))
          × (0 < active_runs source t))
      ⊎ ((u : Tables) × (id : ℕ) × (create_run fault now source scheduled none t ≡ (u, created id))
          × (0 < active_runs source u))
unfolding create_run new_run
create_run-cases true now source t = inl refl
create_run-cases false now source t =
    elim (Bool-cases (count_where (is_source source) t.sources == 0)) [
      | inl y ↦ inl (rw (create_run, y) refl)
      | inr n ↦ elim (Bool-cases (active_runs source t == 0)) [
        | inl z ↦ inr (
            inr (
              record t {
                runs = t.runs ++ new_run now t.next_run_id source scheduled none ∷ [];
                next_run_id = suc t.next_run_id;
              },
              t.next_run_id,
              rw (create_run, n, z) refl,
              append_active source t.runs (new_run now t.next_run_id source scheduled none)
                  (ground arith),
            ))
        | inr m ↦ inr (inl (rw (create_run, n, m) refl, ground (arith, m)))
      ]
    ]

module _ (tz : Zone) (a : Around) (now : ℕ) (row : Source) where
  -- The sessions between the claim and its undoing leave the sources alone, and the undoing succeeds.
  pub record Undisturbed : Type 0 where
    pub creating_apart : (t : Tables) → (steps (a.before_create row.id) t).sources ≡ t.sources
    pub restoring_apart : (t : Tables) → (steps (a.before_restore row.id) t).sources ≡ t.sources
    pub restored : a.restore_fails row.id ≡ false

  undo-due :
      (old : ℕ) (t u : Tables)
      → Undisturbed
      → old ≤ as_date now
      → 0 < count_where (is_due_source now row.id) t.sources
      → u.sources
        ≡ update_where
            (is_due_source now row.id)
            (λ s. record s { next_sync_at = some (as_date (next_time tz now row)) })
            t.sources
      → 0 < count_where (is_due_source now row.id) (undo tz a now row old u).sources
  unfolding undo restore_next_sync
  undo-due old t u h past due e =
      rw (undo, h.restored, h.restoring_apart u, e)
        (omega (
          arith,
          due,
          past,
          as_date-le old,
          undone_due now row.id (next_time tz now row) old t.sources,
        ))

  after_create-Settled :
      (old : ℕ) (t u : Tables)
      → Undisturbed
      → old ≤ as_date now
      → 0 < count_where (is_due_source now row.id) t.sources
      → u.sources
        ≡ update_where
            (is_due_source now row.id)
            (λ s. record s { next_sync_at = some (as_date (next_time tz now row)) })
            t.sources
      → let o =
          after_create tz a now row old
            (create_run (a.create_fails row.id) now row.id scheduled none u) in
        Settled tz a now row t o.0 o.1
  unfolding after_create Settled
  after_create-Settled old t u h past due e =
      elim (create_run-cases (a.create_fails row.id) now row.id u) [
        | inl x ↦ rw x (inr (undo-due old t u h past due e))
        | inr (inl (x, active)) ↦ rw x active
        | inr (inr (v, id, x, active)) ↦ rw x active
      ]

  after_claim-Settled :
      (old : ℕ) (t : Tables)
      → Undisturbed
      → old ≤ as_date now
      → count_where (is_source row.id) t.sources ≤ 1
      → let o =
          after_claim tz a now row old (claim_due_source row.id now (next_time tz now row) t) in
        Settled tz a now row t o.0 o.1
  unfolding after_claim claim_due_source
  after_claim-Settled old t h past keyed =
      let next = next_time tz now row in
      elim (Bool-cases (leb next now)) [
        | inl y ↦ rw (claim_due_source, y) (unfold Settled in (inl (refl, inr (ground (arith, y)))))
        | inr n ↦ elim (Bool-cases (count_where (is_due_source now row.id) t.sources == 1)) [
          | inl one ↦
              let u : Tables = record t {
                sources = update_where (is_due_source now row.id) (moved_to next) t.sources;
              } in
              rw (claim_due_source, n, one)
                (after_create-Settled old t (steps (a.before_create row.id) u) h past
                  (ground (arith, one)) (h.creating_apart u))
          | inr m ↦
              let zero : count_where (is_due_source now row.id) t.sources ≡ 0 =
                ground (arith, m, keyed, due-le now row.id t.sources) in
              rw (claim_due_source, n, m)
                (unfold Settled in
                  (
                    ap (λ l. record t { sources = l })
                        (update_where_none (is_due_source now row.id) (moved_to next) t.sources
                          zero),
                    NotDue-count now row.id t.sources zero,
                  ))
        ]
      ]

  -- A source that is due when a tick gets to it is not passed over. Afterwards a run of it is queued or
  -- in progress, by this tick or another session; or at the moment of the claim no active source of this
  -- id had its schedule on and due any more, and the tables are as the other sessions left them; or
  -- the database failed the claim or the next time was already past, and the tables are so too; or
  -- the run could not be queued and the source is due again. The last needs that the claim is undone
  -- and that meanwhile no other session writes the sources. Ids are unique.
  pub queue_one-Settled :
      (t : Tables)
      → is_due now row ≡ true
      → Undisturbed
      → count_where (is_source row.id) (steps (a.before_claim row.id) t).sources ≤ 1
      → Settled tz a now row
          (steps (a.before_claim row.id) t)
          (queue_one tz a now row t).0
          (queue_one tz a now row t).1
  unfolding queue_one Settled next_time
  queue_one-Settled t due h keyed = elim (Option-cases row.next_sync_at) [
    | inl e ↦ absurd (unfold is_due is_past in (ground (arith, due, e)))
    | inr (old, e) ↦
        rw (queue_one, e)
          (elim (Bool-cases (a.claim_fails row.id)) [
            | inl y ↦ rw y (unfold Settled in (inl (refl, inl y)))
            | inr n ↦ rw n (
                after_claim-Settled old (steps (a.before_claim row.id) t) h
                  (unfold is_due is_past in (ground (arith, due, e))) keyed)
          ])
  ]

-- A tick gives each source that was due when it began one outcome, in the order of their due times.
queue_each-ids :
    (tz : Zone) (a : Around) (now : ℕ) (rows : List Source) (t : Tables)
    → map (λ o. o.0) (queue_each tz a now rows t).1 ≡ map (λ r. r.id) rows
unfolding queue_each
queue_each-ids tz a now [] t = refl
queue_each-ids tz a now (r ∷ rs) t = ap (λ l. r.id ∷ l) (queue_each-ids tz a now rs _)
