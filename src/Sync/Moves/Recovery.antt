-- ===== src/Sync/Moves/Recovery.antt =====
-- The recovery of runs without a heartbeat, and of the files that they were processing.
use aiva_v.Prelude.{
  ℕ, ◌≤◌, ◌≡◌, refl, sym, inl, inr, Bool, true, false, some, none, List, [], ◌∷◌, map, keep_if,
  ◌==◌, arith, Bool-cases, Option-cases, All, Text,
}
use mathlib.Core.Path.{subst}
use aiva_v.Sync.Rows.{as_date, running_file_stage, SyncRun, File, FileChange, is_processing}
use aiva_v.Sync.Tables.{Tables, update_where, count_where, fetch_where}
use aiva_v.Sync.Files.{update_file, is_file, write_stages, failing, failed_columns}
use aiva_v.Sync.Runs.{
  interrupted_file_reason, interrupted, is_interrupted, Interrupted, interrupted_run_reason,
  fail_in_flight, fail_each, fail_interrupted_run, record_on_source, is_in_flight, is_stale,
  recover_each, recover_stale_runs,
}
use aiva_v.Sync.Moves.RunChange.{fail_each-runs}
use aiva_v.Sync.Moves.OneActive.{count_where-update_where}
use aiva_v.Sync.Moves.Within.{Within, none-Within, own-Within, narrower-Within}

abbrev stale_interrupted : ℕ → Interrupted
stale_interrupted limit = record { stale_before = some limit; worker = none }

-- The files of no run share an id.
abbrev pub IsKeyed : List File → Type 0
IsKeyed fs = (id : ℕ) → count_where (is_file id) fs ≤ 1

module _ (now : ℕ) where
  fail_interrupted_run-runs :
      (id source : ℕ) (reason : Text) (i : Interrupted) (t : Tables)
      → (fail_interrupted_run now id source reason i t).0.runs
        ≡ update_where (is_interrupted id i) (interrupted now reason) t.runs
  unfolding fail_interrupted_run record_on_source
  fail_interrupted_run-runs id source reason i t =
      let after : Tables = record t {
        runs = update_where (is_interrupted id i) (interrupted now reason) t.runs;
      } in
      ground (arith, fail_each-runs now (keep_if (is_in_flight id) t.files) after)

  recover_each-fresh :
      (limit : ℕ) (rs : List SyncRun) (t : Tables)
      → Within (is_stale limit) (λ r. r.id) (map (λ r. r.id) rs) t.runs
      → count_where (is_stale limit) (recover_each now limit rs t).0.runs ≡ 0
  unfolding recover_each
  recover_each-fresh limit [] t h = none-Within (is_stale limit) (λ r. r.id) t.runs h
  recover_each-fresh limit (r ∷ rs) t h =
      let one =
        fail_interrupted_run now r.id r.source_id interrupted_run_reason (stale_interrupted limit)
          t in
      recover_each-fresh limit rs one.0 (
        subst (Within (is_stale limit) (λ s. s.id) (map (λ s. s.id) rs))
          (sym (
            fail_interrupted_run-runs r.id r.source_id interrupted_run_reason
              (stale_interrupted limit) t))
          (narrower-Within (is_stale limit) (λ s. s.id)
            (is_interrupted r.id (stale_interrupted limit)) (interrupted now interrupted_run_reason)
            r.id (map (λ s. s.id) rs) (unfold interrupted in (λ s. refl))
            (unfold interrupted in (λ s y. refl))
            (unfold is_interrupted in (λ s n z. ground (arith, n, z))) t.runs h))

-- Failing a file in flight.
module _ (now run : ℕ) where
  others-Within :
      (i : ℕ) (ids : List ℕ) (fs : List File)
      → count_where (is_file i) fs ≡ 0
      → Within (is_in_flight run) (λ f. f.id) (i ∷ ids) fs
      → Within (is_in_flight run) (λ f. f.id) ids fs
  others-Within i ids [] k h = tt
  others-Within i ids (f ∷ fs) k h =
      (λ z. ground (arith, h.0 z, k), others-Within i ids fs (ground (arith, k)) h.1)

  -- The only file of an id is not in flight.
  idle-Within :
      (i : ℕ) (ids : List ℕ) (g : File) (fs : List File)
      → fetch_where (is_file i) fs ≡ some g
      → count_where (is_file i) fs ≤ 1
      → is_processing g.status ≡ false
      → Within (is_in_flight run) (λ f. f.id) (i ∷ ids) fs
      → Within (is_in_flight run) (λ f. f.id) ids fs
  unfolding fetch_where
  idle-Within i ids g [] e k idle h = tt
  idle-Within i ids g (f ∷ fs) e k idle h = elim (Bool-cases (f.id == i)) [
    | inl y ↦ (
      λ z. absurd (ground (arith, e, y, idle, z)),
      others-Within i ids fs (ground (arith, k, y)) h.1,
    )
    | inr n ↦ (
      λ z. ground (arith, h.0 z, n),
      idle-Within i ids g fs (ground (arith, e, n)) (ground (arith, k, n)) idle h.1,
    )
  ]

  absent-Within :
      (i : ℕ) (ids : List ℕ) (fs : List File)
      → fetch_where (is_file i) fs ≡ none
      → Within (is_in_flight run) (λ f. f.id) (i ∷ ids) fs
      → Within (is_in_flight run) (λ f. f.id) ids fs
  unfolding fetch_where
  absent-Within i ids [] e h = tt
  absent-Within i ids (f ∷ fs) e h =
      (λ z. ground (arith, h.0 z, e), absent-Within i ids fs (ground (arith, e)) h.1)

  write_stages-id : (changes : List FileChange) (f : File) → (write_stages now changes f).id ≡ f.id
  unfolding write_stages
  write_stages-id [] f = refl
  write_stages-id (c ∷ cs) f = write_stages-id cs _

  fail_in_flight-Within :
      (f : File) (ids : List ℕ) (t : Tables)
      → count_where (is_file f.id) t.files ≤ 1
      → Within (is_in_flight run) (λ g. g.id) (f.id ∷ ids) t.files
      → Within (is_in_flight run) (λ g. g.id) ids (fail_in_flight now f t).files
  unfolding fail_in_flight update_file failed_columns
  fail_in_flight-Within f ids t keyed h = elim (Option-cases (fetch_where (is_file f.id) t.files)) [
    | inl e ↦ rw (fail_in_flight, update_file, e) (absent-Within f.id ids t.files e h)
    | inr (g, e) ↦ elim (Bool-cases (is_processing g.status)) [
      | inl y ↦
          rw (fail_in_flight, update_file, e, y)
            (narrower-Within (is_in_flight run) (λ g. g.id) (is_file f.id) _ f.id ids
              (λ r. write_stages-id _ r) (λ r q. ground arith) (λ r n z. ground (arith, n)) t.files
              h)
      | inr n ↦ rw (fail_in_flight, update_file, e, n) (idle-Within f.id ids g t.files e keyed n h)
    ]
  ]

  update_file-IsKeyed :
      (i : ℕ) (changes : List FileChange) (columns : File → File) (expected : File → Bool)
      (t : Tables)
      → ((f : File) → (columns f).id ≡ f.id)
      → IsKeyed t.files
      → IsKeyed (update_file now i changes columns expected t).0.files
  unfolding update_file
  update_file-IsKeyed i changes columns expected t same h id =
      let fewer =
        count_where-update_where (is_file i) (is_file id)
          (λ g. record (columns (write_stages now changes g)) { updated_at = as_date now })
          (λ r y z. ground (arith, same (write_stages now changes r), write_stages-id changes r, z))
          t.files in
      ground (arith, fewer, h id)

  fail_each-Within :
      (fs : List File) (t : Tables)
      → IsKeyed t.files
      → Within (is_in_flight run) (λ g. g.id) (map (λ g. g.id) fs) t.files
      → IsKeyed (fail_each now fs t).files
        × (count_where (is_in_flight run) (fail_each now fs t).files ≡ 0)
  unfolding fail_each
  fail_each-Within [] t k h = (k, none-Within (is_in_flight run) (λ g. g.id) t.files h)
  fail_each-Within (f ∷ fs) t k h =
      fail_each-Within fs (fail_in_flight now f t)
        (unfold fail_in_flight failed_columns in (update_file-IsKeyed f.id _ _ _ t (λ g. refl) k))
        (fail_in_flight-Within f (map (λ g. g.id) fs) t (k f.id) h)

-- No file of a run is being processed.
abbrev pub Idle : ℕ → Tables → Type 0
Idle run t = count_where (is_in_flight run) t.files ≡ 0

module _ (now : ℕ) where
  -- A run that is failed as interrupted has no file in flight.
  fail_interrupted_run-Idle :
      (id source : ℕ) (reason : Text) (i : Interrupted) (t : Tables)
      → IsKeyed t.files
      → IsKeyed (fail_interrupted_run now id source reason i t).0.files
        × ((fail_interrupted_run now id source reason i t).1 ≡ true
            → Idle id (fail_interrupted_run now id source reason i t).0)
  unfolding fail_interrupted_run record_on_source
  fail_interrupted_run-Idle id source reason i t k =
      let after : Tables = record t {
        runs = update_where (is_interrupted id i) (interrupted now reason) t.runs;
      } in
      let failed =
        fail_each-Within now id (keep_if (is_in_flight id) t.files) after k
          (own-Within (is_in_flight id) (λ g. g.id) t.files) in
      elim (Bool-cases (count_where (is_interrupted id i) t.runs == 1)) [
        | inl y ↦ rw (fail_interrupted_run, y) (failed.0, λ z. failed.1)
        | inr n ↦ rw (fail_interrupted_run, n) (k, λ z. absurd (cc))
      ]

  fail_each-Idle :
      (run : ℕ) (fs : List File) (t : Tables) → Idle run t → Idle run (fail_each now fs t)
  unfolding fail_each fail_in_flight update_file failed_columns
  fail_each-Idle run [] t h = h
  fail_each-Idle run (f ∷ fs) t h =
      let stage = running_file_stage f.stages in
      let fewer =
        count_where-update_where (is_file f.id) (is_in_flight run)
          (λ g.
            record (failed_columns now stage interrupted_file_reason
              (write_stages now (failing stage interrupted_file_reason [] ∷ []) g)) {
                updated_at = as_date now;
              })
          (λ r y z. absurd (ground (arith, z))) t.files in
      fail_each-Idle run fs (fail_in_flight now f t) (ground (arith, fewer, h))

  stays-Idle :
      (run id source : ℕ) (reason : Text) (i : Interrupted) (t : Tables)
      → Idle run t
      → Idle run (fail_interrupted_run now id source reason i t).0
  unfolding fail_interrupted_run record_on_source
  stays-Idle run id source reason i t h =
      let failed =
        fail_each-Idle run (keep_if (is_in_flight id) t.files)
          (record t { runs = update_where (is_interrupted id i) (interrupted now reason) t.runs })
          h in
      ground (arith, failed, h)

  recover_each-stays :
      (run limit : ℕ) (rs : List SyncRun) (t : Tables)
      → Idle run t
      → Idle run (recover_each now limit rs t).0
  unfolding recover_each
  recover_each-stays run limit [] t h = h
  recover_each-stays run limit (r ∷ rs) t h =
      recover_each-stays run limit rs _
        (stays-Idle run r.id r.source_id interrupted_run_reason (stale_interrupted limit) t h)

  recover_each-Idle :
      (limit : ℕ) (rs : List SyncRun) (t : Tables)
      → IsKeyed t.files
      → All (λ id. Idle id (recover_each now limit rs t).0) (recover_each now limit rs t).1
  unfolding recover_each
  recover_each-Idle limit [] t k = tt
  recover_each-Idle limit (r ∷ rs) t k =
      let one =
        fail_interrupted_run now r.id r.source_id interrupted_run_reason (stale_interrupted limit)
          t in
      let first =
        fail_interrupted_run-Idle r.id r.source_id interrupted_run_reason (stale_interrupted limit)
          t k in
      let more = recover_each-Idle limit rs one.0 first.0 in
      elim (Bool-cases (one.1)) [
        | inl y ↦ rw y (recover_each-stays r.id limit rs one.0 (first.1 y), more)
        | inr n ↦ rw n more
      ]

-- The recovery leaves no run in progress whose heartbeat is older than the limit, and no file of a run
-- that it reports is still being processed. Ids of files are unique.
pub recover_stale_runs-Recovered :
    (now limit : ℕ) (t : Tables)
    → IsKeyed t.files
    → (count_where (is_stale limit) (recover_stale_runs now limit t).0.runs ≡ 0)
      × All
          (λ id. count_where (is_in_flight id) (recover_stale_runs now limit t).0.files ≡ 0)
          (recover_stale_runs now limit t).1
unfolding recover_stale_runs
recover_stale_runs-Recovered now limit t k = (
  recover_each-fresh now limit (keep_if (is_stale limit) t.runs) t
      (own-Within (is_stale limit) (λ r. r.id) t.runs),
  recover_each-Idle now limit (keep_if (is_stale limit) t.runs) t k,
)
