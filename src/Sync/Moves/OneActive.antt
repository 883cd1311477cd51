-- ===== src/Sync/Moves/OneActive.antt =====
-- A source has one run at most that is queued or running.
use aiva_v.Prelude.{ℕ, ◌+◌, ◌≤◌, ◌≡◌, Bool, true, List, [], ◌∷◌, ◌++◌, if◌then◌else◌, arith}
use aiva_v.Sync.Rows.{SyncRun}
use aiva_v.Sync.Tables.{Tables, update_where, count_where, is_unfinished_of, active_runs}
use aiva_v.Sync.Moves.{Op, step, steps}
use aiva_v.Sync.Moves.RunChange.{RunChange, kept, added, moved, step-RunChange}

abbrev pub OneActive : Tables → Type 0
OneActive t = (source : ℕ) → active_runs source t ≤ 1

module _ {A : Type 0} (p q : A → Bool) (f : A → A) where
  -- An update that makes no row fit makes no more rows fit.
  pub count_where-update_where :
      ((r : A) → p r ≡ true → q (f r) ≡ true → q r ≡ true)
      → (rs : List A) → count_where q (update_where p f rs) ≤ count_where q rs
  unfolding update_where
  count_where-update_where h [] = omega arith
  count_where-update_where h (r ∷ rs) = ground (arith, h r, count_where-update_where h rs)

count_where-append :
    {A : Type 0} (p : A → Bool) (xs : List A) (y : A)
    → count_where p (xs ++ y ∷ []) ≤ count_where p xs + (if p y then 1 else 0)
count_where-append p [] y = ground arith
count_where-append p (x ∷ xs) y = ground (arith, count_where-append p xs y)

RunChange-active :
    (rs ss : List SyncRun)
    → RunChange rs ss
    → ((source : ℕ) → count_where (is_unfinished_of source) rs ≤ 1)
    → (source : ℕ) → count_where (is_unfinished_of source) ss ≤ 1
RunChange-active rs ss kept h source = h source
RunChange-active rs ss (added r free) h source =
    let more = count_where-append (is_unfinished_of source) rs r in
    ground (arith, more, h source, h r.source_id, free)
RunChange-active rs ss (moved p f ok) h source =
    let fewer =
      count_where-update_where p (is_unfinished_of source) f
        (λ r y u. ground (arith, (ok r y).same_source, (ok r y).not_revived, u)) rs in
    omega (arith, fewer, h source)

-- Whatever transactions the sessions interleave, no source has two runs that are queued or running, if
-- none has at the start.
pub steps-OneActive : (ops : List (ℕ × Op)) (t : Tables) → OneActive t → OneActive (steps ops t)
unfolding steps
steps-OneActive [] t h = h
steps-OneActive ((now, op) ∷ ops) t h =
    steps-OneActive ops (step now op t)
      (RunChange-active t.runs (step now op t).runs (step-RunChange now op t) h)
