-- ===== src/Sync/Moves/History.antt =====
-- What becomes of a run whatever the sessions interleave.
use aiva_v.Prelude.{
  ℕ, ◌≡◌, refl, sym, ◌∙◌, Bool, true, false, some, List, [], ◌∷◌, ◌++◌, ◌==◌, if◌then◌else◌, arith,
  Bool-cases, inl, inr,
}
use mathlib.Core.Path.{subst}
use mathlib.Core.Option.{some-injective}
use aiva_v.Sync.Rows.{SyncRun, is_unfinished}
use aiva_v.Sync.Tables.{Tables, update_where, fetch_where}
use aiva_v.Sync.Moves.{Op, step, steps}
use aiva_v.Sync.Moves.RunChange.{Follows, RunChange, kept, added, moved, step-RunChange}

-- The run of this id.
abbrev pub is_run : ℕ → SyncRun → Bool
is_run id r = r.id == id

itself : (r : SyncRun) → Follows r r
itself r = record {
  same_id = refl;
  same_source = refl;
  same_trigger = refl;
  same_asker = refl;
  same_creation = refl;
  not_revived = λ u. u;
  claimed_once = λ q. (q, refl, refl);
  finished_once = λ u. refl;
}

Follows-trans : (r s u : SyncRun) → Follows r s → Follows s u → Follows r u
Follows-trans r s u a b = record {
  same_id = b.same_id ∙ a.same_id;
  same_source = b.same_source ∙ a.same_source;
  same_trigger = b.same_trigger ∙ a.same_trigger;
  same_asker = b.same_asker ∙ a.same_asker;
  same_creation = b.same_creation ∙ a.same_creation;
  not_revived = λ v. a.not_revived (b.not_revived v);
  claimed_once =
      λ q. let x = a.claimed_once q in let y = b.claimed_once x.0 in (y.0, y.1 ∙ x.1, y.2 ∙ x.2);
  finished_once = λ f.
      let x = a.finished_once f in
      b.finished_once (subst (λ v. is_unfinished v.status ≡ false) (sym x) f) ∙ x;
}

-- The run of an id goes on in another list of runs.
abbrev Continues : ℕ → SyncRun → List SyncRun → Type 0
Continues id r rs = (s : SyncRun) × (fetch_where (is_run id) rs ≡ some s) × Follows r s

-- The row that an update puts in the place of another.
abbrev row_after : (SyncRun → Bool) → (SyncRun → SyncRun) → SyncRun → SyncRun
row_after p f s = if p s then f s else s

row_after-Follows :
    (p : SyncRun → Bool) (f : SyncRun → SyncRun) (s : SyncRun)
    → (p s ≡ true → Follows s (f s))
    → Follows s (row_after p f s)
row_after-Follows p f s ok = elim (Bool-cases (p s)) [
  | inl y ↦ rw y (ok y)
  | inr n ↦ rw n (itself s)
]

module _ (id : ℕ) where
  fetch_here :
      (s : SyncRun) (rs : List SyncRun)
      → (s.id == id) ≡ true
      → fetch_where (is_run id) (s ∷ rs) ≡ some s
  unfolding fetch_where
  fetch_here s rs y = rw y refl

  fetch_later :
      (s : SyncRun) (rs : List SyncRun)
      → (s.id == id) ≡ false
      → fetch_where (is_run id) (s ∷ rs) ≡ fetch_where (is_run id) rs
  unfolding fetch_where
  fetch_later s rs n = rw n refl

module _ (id : ℕ) (r : SyncRun) where
  Continues-update :
      (p : SyncRun → Bool) (f : SyncRun → SyncRun)
      → ((s : SyncRun) → p s ≡ true → Follows s (f s))
      → (rs : List SyncRun) → fetch_where (is_run id) rs ≡ some r
      → Continues id r (update_where p f rs)
  unfolding update_where
  Continues-update p f ok [] e = absurd (unfold fetch_where in (cc))
  Continues-update p f ok (s ∷ rs) e =
      let u = row_after p f s in
      let follows : Follows s u = row_after-Follows p f s (ok s) in
      elim (Bool-cases (s.id == id)) [
        | inl y ↦
            let is_r : s ≡ r = some-injective s r (sym (fetch_here id s rs y) ∙ e) in
            (
              u,
              fetch_here id u _ (subst (λ i. (i == id) ≡ true) (sym follows.same_id) y),
              subst (λ v. Follows v u) is_r follows,
            )
        | inr n ↦
            let (t, found, goes_on) =
              Continues-update p f ok rs (sym (fetch_later id s rs n) ∙ e) in
            (
              t,
              fetch_later id u _ (subst (λ i. (i == id) ≡ false) (sym follows.same_id) n) ∙ found,
              goes_on,
            )
      ]

  Continues-append :
      (rs ss : List SyncRun)
      → fetch_where (is_run id) rs ≡ some r
      → fetch_where (is_run id) (rs ++ ss) ≡ some r
  unfolding fetch_where
  Continues-append [] ss e = absurd (cc)
  Continues-append (s ∷ rs) ss e = ground (arith, Continues-append rs ss)

  RunChange-Continues :
      (rs ss : List SyncRun)
      → RunChange rs ss
      → fetch_where (is_run id) rs ≡ some r
      → Continues id r ss
  RunChange-Continues rs ss kept e = (r, e, itself r)
  RunChange-Continues rs ss (added s free) e = (r, Continues-append rs (s ∷ []) e, itself r)
  RunChange-Continues rs ss (moved p f ok) e = Continues-update p f ok rs e

-- A run that is registered stays so whatever transactions the sessions interleave: its source, its
-- trigger and when and by whom it was asked for never change; once it is claimed, neither do its worker
-- and the moment it started, and it is not queued again; once it is finished, nothing of it changes.
pub steps-Follows :
    (ops : List (ℕ × Op)) (t : Tables) (id : ℕ) (r : SyncRun)
    → fetch_where (is_run id) t.runs ≡ some r
    → (s : SyncRun) × (fetch_where (is_run id) (steps ops t).runs ≡ some s) × Follows r s
unfolding steps
steps-Follows [] t id r e = (r, e, itself r)
steps-Follows ((now, op) ∷ ops) t id r e =
    let (s, found, a) =
      RunChange-Continues id r t.runs (step now op t).runs (step-RunChange now op t) e in
    let (u, still, b) = steps-Follows ops (step now op t) id s found in
    (u, still, Follows-trans r s u a b)
