-- ===== src/Import/Pipeline/Posts.antt =====
-- What holds before, between and after the stages of the pipeline, and that each small step keeps it.
use aiva_v.Prelude.{
  ℕ, ◌≡◌, refl, sym, ◌∙◌, ◌⊎◌, inl, inr, Bool, true, false, some, List, [], ◌∷◌, if◌then◌else◌,
  Text, arith, Bool-cases, Option, none, All,
}
use mathlib.Core.Path.{subst}
use aiva_v.Import.Rows.{
  Stage, StageStatus, doc_queued, doc_processing, doc_published, doc_failed, doc_unpublished,
  change,
}
use aiva_v.Import.Repo.{Docs, set_stage, Results, set_results, finish_failed}
use aiva_v.Import.Repo.Moves.{run_all}
use aiva_v.Import.Store.{Kb}
use aiva_v.Import.Pipeline.Runs.{
  World, Turn, Run, Step, on, out, Exit, go, exit, ended, abandoned, crashed, ◌>>=◌, take_turn,
  fault_of, call_under, call,
}
use aiva_v.Import.Pipeline.Given.{stage, results, fail}
use aiva_v.Import.Pipeline.Calls.{
  HasRow, HasFailed, set_stage-made, set_results-made, finish_failed-made, finish_failed-HasFailed,
}

-- In none of these turns another session writes; and none of the calls raises an exception.
abbrev pub NoWrites : List Turn → Type 0
NoWrites = All (λ t. t.ops ≡ [])

abbrev pub NoFaults : List Turn → Type 0
NoFaults = All (λ t. t.fault ≡ none)

pub fault_of-none : (ts : List Turn) → NoFaults ts → fault_of ts ≡ none
unfolding fault_of
fault_of-none [] q = refl
fault_of-none (t ∷ ts) q = q.0

-- The document, the world in which the run starts, and what a publication leaves in the knowledge base.
module _ (id : ℕ) (start : World) (Delivered : Kb → Type 0) where
  -- No other session writes the registry during the run, and no call of it raises an exception.
  abbrev Alone : Type 0
  Alone = NoWrites start.turns

  abbrev Answered : Type 0
  Answered = NoFaults start.turns

  -- The knowledge base is as this says, and nobody but another session takes the document away.
  pub record Open (K : Kb → Type 0) (w : World) : Type 0 where
    pub kb_is : K w.kb
    pub ours : Alone → NoWrites w.turns × HasRow id doc_processing w.docs
    pub calm : Answered → NoFaults w.turns

  abbrev pub Untouched : Kb → Type 0
  Untouched kb = kb ≡ start.kb

  -- The knowledge base is as it was, or the publication is in it and a call of the registry raised.
  abbrev pub Interrupted : Kb → Type 0
  Interrupted kb = Untouched kb ⊎ (Delivered kb × (Answered → ⊥))

  -- What holds where the run ends early: a failure is in the row and the knowledge base is as it was; a
  -- run is abandoned only if another session writes the registry.
  unfoldable pub Ends : Exit → World → Type 0
  Ends (ended doc_failed) w = HasFailed id w.docs × Untouched w.kb
  Ends (ended doc_queued) w = ⊥
  Ends (ended doc_processing) w = ⊥
  Ends (ended doc_published) w = ⊥
  Ends (ended doc_unpublished) w = ⊥
  Ends abandoned w = (Alone → ⊥) × (Untouched w.kb ⊎ Delivered w.kb)
  Ends (crashed error) w = Open Interrupted w

  unfoldable pub Post : {A : Type 0} → (A → World → Type 0) → World → Step A → Type 0
  Post Q w (on a) = Q a w
  Post Q w (out e) = Ends e w

  abbrev pub After : {A : Type 0} → (A → World → Type 0) → World × Step A → Type 0
  After Q o = Post Q o.0 o.1

  pub After-bind :
      {A B : Type 0} (Q : A → World → Type 0) (R : B → World → Type 0) (m : Run A) (f : A → Run B)
      (w : World)
      → After Q (m w)
      → ((a : A) (v : World) → Q a v → After R (f a v))
      → After R ((m >>= f) w)
  unfolding Post
  After-bind {A} {B} Q R m f w h k = cont (m w).0 (m w).1 h
    where
      cont :
          (v : World) (s : Step A)
          → Post Q v s
          → After R (elim s [ on a ↦ f a v | out e ↦ (v, out e) ])
      cont v (on a) q = k a v q
      cont v (out e) q = q

  take_turn-kb : (ts : List Turn) (w : World) → (take_turn ts w).kb ≡ w.kb
  unfolding take_turn
  take_turn-kb [] w = refl
  take_turn-kb (t ∷ ts) w = refl

  take_turn-ours :
      (ts : List Turn) (w : World)
      → w.turns ≡ ts
      → NoWrites ts × HasRow id doc_processing w.docs
      → NoWrites (take_turn ts w).turns × HasRow id doc_processing (take_turn ts w).docs
  unfolding take_turn run_all
  take_turn-ours [] w e (q, h) = (rw e tt, h)
  take_turn-ours (t ∷ ts) w e (q, h) =
      (q.1, subst (λ ops. HasRow id doc_processing (run_all ops w.docs)) (sym q.0) h)

  take_turn-calm :
      (ts : List Turn) (w : World) → w.turns ≡ ts → NoFaults ts → NoFaults (take_turn ts w).turns
  unfolding take_turn
  take_turn-calm [] w e q = rw e tt
  take_turn-calm (t ∷ ts) w e q = q.1

  pub take_turn-Open : {K : Kb → Type 0} (w : World) → Open K w → Open K (take_turn w.turns w)
  take_turn-Open {K} w o = record {
    kb_is = subst K (sym (take_turn-kb w.turns w)) o.kb_is;
    ours = λ a. take_turn-ours w.turns w refl (o.ours a);
    calm = λ a. take_turn-calm w.turns w refl (o.calm a);
  }

  -- A call that raises where it is said which exception.
  pub faulty :
      (w : World) (error : Text)
      → fault_of w.turns ≡ some error
      → (Answered → NoFaults w.turns)
      → Answered
      → ⊥
  faulty w error e calm a =
      let c : none ≡ some error = sym (fault_of-none w.turns (calm a)) ∙ e in cc

  raised_late : {kb : Kb} → Untouched kb ⊎ Delivered kb → (Answered → ⊥) → Interrupted kb
  raised_late (inl same) f = inl same
  raised_late (inr sent) f = inr (sent, f)

  under-After :
      {B : Type 0} {K : Kb → Type 0} (R : B → World → Type 0) (f : ℕ → Docs → Docs × Bool)
      (k : Run B) (fault : Option Text) (v : World)
      → ((error : Text) → fault ≡ some error → Answered → ⊥)
      → ((kb : Kb) → K kb → Untouched kb ⊎ Delivered kb)
      → ((now : ℕ) (d : Docs) → HasRow id doc_processing d → (f now d).1 ≡ true)
      → Open K v
      → ((now : ℕ) (v : World)
          → Open K v
          → (f now v.docs).1 ≡ true
          → After R (k (record v { docs = (f now v.docs).0 })))
      → After R ((call_under fault f >>= λ ok. if ok then k else exit abandoned) v)
  unfolding call_under Post Ends
  under-After R f k (some error) v raising known made p follow = record {
    kb_is = raised_late (known v.kb p.kb_is) (raising error refl);
    ours = p.ours;
    calm = p.calm;
  }
  under-After R f k none v raising known made p follow = elim (Bool-cases (f v.now v.docs).1) [
    | inl e ↦ rw e (follow v.now v p e)
    | inr e ↦ rw e (
      λ a.
          (let c : false ≡ true = sym e ∙ made v.now v.docs (p.ours a).1 in
            absurd (ground (arith, c))),
      known v.kb p.kb_is,
    )
  ]

  -- A call that is made whenever the document is being processed, and what follows if it was made.
  pub call-After :
      {B : Type 0} {K : Kb → Type 0} (R : B → World → Type 0) (f : ℕ → Docs → Docs × Bool)
      (k : Run B) (w : World)
      → ((kb : Kb) → K kb → Untouched kb ⊎ Delivered kb)
      → ((now : ℕ) (d : Docs) → HasRow id doc_processing d → (f now d).1 ≡ true)
      → Open K w
      → ((now : ℕ) (v : World)
          → Open K v
          → (f now v.docs).1 ≡ true
          → After R (k (record v { docs = (f now v.docs).0 })))
      → After R ((call f >>= λ ok. if ok then k else exit abandoned) w)
  unfolding call
  call-After R f k w known made o follow =
      under-After R f k (fault_of w.turns) (take_turn w.turns w)
        (λ error e. faulty w error e o.calm) known made (take_turn-Open w o) follow

  abbrev in_time : (kb : Kb) → Untouched kb → Untouched kb ⊎ Delivered kb
  in_time kb e = inl e

  -- A call that keeps the document processed.
  keep-After :
      (f : ℕ → Docs → Docs × Bool) (w : World)
      → ((now : ℕ) (d : Docs)
          → HasRow id doc_processing d
          → ((f now d).1 ≡ true) × HasRow id doc_processing (f now d).0)
      → Open Untouched w
      → After (λ a. Open Untouched) ((call f >>= λ ok. if ok then go tt else exit abandoned) w)
  unfolding Post
  keep-After f w made o =
      call-After {K = Untouched} (λ a. Open Untouched) f (go tt) w in_time
        (λ now d p. (made now d p).0) o
        (λ now v p e. record {
          kb_is = p.kb_is;
          ours = λ a. ((p.ours a).0, (made now v.docs (p.ours a).1).1);
          calm = p.calm;
        })

  pub stage-After :
      (s : Stage) (status : StageStatus) (w : World)
      → Open Untouched w
      → After (λ a. Open Untouched) (stage id s status w)
  unfolding stage
  stage-After s status w o =
      keep-After (λ now d. set_stage now id (change s status) d) w
        (λ now d p. set_stage-made id d p now s status) o

  pub results-After :
      (r : Results) (w : World) → Open Untouched w → After (λ a. Open Untouched) (results id r w)
  unfolding results
  results-After r w o =
      keep-After (λ now d. set_results now id r d) w (λ now d p. set_results-made id d p now r) o

  pub fail-After :
      {A : Type 0} (Q : A → World → Type 0) (s : Stage) (reason : Text) (w : World)
      → Open Untouched w
      → After Q (fail id s reason w)
  unfolding fail Post Ends
  fail-After {A} Q s reason w o =
      call-After {K = Untouched} Q (λ now d. finish_failed now id s (some reason) d)
        (exit (ended doc_failed)) w in_time
        (λ now d p. finish_failed-made id d p now s (some reason)) o
        (λ now v p e. (finish_failed-HasFailed now id s (some reason) v.docs e, p.kb_is))
