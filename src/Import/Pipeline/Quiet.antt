-- ===== src/Import/Pipeline/Quiet.antt =====
-- Runs of the pipeline that no other session and no failure interrupts.
use aiva_v.Prelude.{
  ℕ, ◌≡◌, refl, sym, none, some, Option, Text, Bool, true, List, [], ◌∷◌, if◌then◌else◌,
}
use mathlib.Core.Path.{subst}
use aiva_v.Import.Rows.{Stage, StageStatus, doc_processing, change}
use aiva_v.Import.Repo.{Docs, Results, set_stage, set_results}
use aiva_v.Import.Store.{Kb}
use aiva_v.Import.Embedding.{Log}
use aiva_v.Import.Pipeline.Runs.{
  World, Turn, Run, Step, on, out, go, exit, abandoned, ◌>>=◌, ◌>>◌, take_turn, fault_of,
  call_under, call,
}
use aiva_v.Import.Repo.Moves.{run_all}
use aiva_v.Import.Pipeline.Posts.{NoWrites, NoFaults, fault_of-none}
use aiva_v.Import.Pipeline.Given.{stage, results}
use aiva_v.Import.Pipeline.Calls.{HasRow, set_stage-made, set_results-made}

-- A world in which no other session writes the registry and no call of it raises, the document is processed, and these are the knowledge
-- base and the log.
pub record Quiet (id : ℕ) (kb : Kb) (log : Log) (w : World) : Type 0 where
  pub alone : NoWrites w.turns
  pub answered : NoFaults w.turns
  pub still : HasRow id doc_processing w.docs
  pub kb_is : w.kb ≡ kb
  pub log_is : w.log ≡ log

made_under :
    {B : Type 0} (f : ℕ → Docs → Docs × Bool) (k : Run B) (fault : Option Text) (v : World)
    → fault ≡ none
    → (f v.now v.docs).1 ≡ true
    → (call_under fault f >>= λ ok. if ok then k else exit abandoned) v
      ≡ k (record v { docs = (f v.now v.docs).0 })
unfolding call_under
made_under f k none v e m = rw m refl
made_under f k (some error) v e m = cc

-- What follows a call that does not raise and is made.
pub made_call :
    {B : Type 0} (f : ℕ → Docs → Docs × Bool) (k : Run B) (w : World)
    → fault_of w.turns ≡ none
    → (f (take_turn w.turns w).now (take_turn w.turns w).docs).1 ≡ true
    → (call f >>= λ ok. if ok then k else exit abandoned) w
      ≡ k (record (take_turn w.turns w) {
        docs = (f (take_turn w.turns w).now (take_turn w.turns w).docs).0;
      })
unfolding call
made_call f k w e m = made_under f k (fault_of w.turns) (take_turn w.turns w) e m

-- A run goes on with a value, into such a world.
pub record Gets {A : Type 0} (id : ℕ) (kb : Kb) (log : Log) (a : A) (o : World × Step A)
    : Type 0 where
  pub after : World
  pub gets : o ≡ (after, on a)
  pub quiet : Quiet id kb log after

module _ (id : ℕ) where
  pub Gets-bind :
      {A B : Type 0} {a : A} {b : B} {kb kb' : Kb} {log log' : Log} (m : Run A) (f : A → Run B)
      (w : World)
      → Gets id kb log a (m w)
      → ((v : World) → Quiet id kb log v → Gets id kb' log' b (f a v))
      → Gets id kb' log' b ((m >>= f) w)
  Gets-bind {A} {B} {a} {b} {kb} {kb'} {log} {log'} m f w h k =
      subst (λ o. Gets id kb' log' b (elim (o.1) [ on c ↦ f c o.0 | out e ↦ (o.0, out e) ]))
        (sym h.gets) (k h.after h.quiet)

  module _ {kb : Kb} {log : Log} where
    -- The world at the moment of the next call.
    pub turned-Quiet :
        (ts : List Turn) (w : World)
        → w.turns ≡ ts
        → Quiet id kb log w
        → Quiet id kb log (take_turn ts w)
    unfolding take_turn run_all
    turned-Quiet [] w e q = q
    turned-Quiet (t ∷ ts) w e q =
        let writes : NoWrites (t ∷ ts) = subst NoWrites e q.alone in
        let faults : NoFaults (t ∷ ts) = subst NoFaults e q.answered in
        record {
          alone = writes.1;
          answered = faults.1;
          still =
              subst (λ ops. HasRow id doc_processing (run_all ops w.docs)) (sym writes.0) q.still;
          kb_is = q.kb_is;
          log_is = q.log_is;
        }

    pub unfailing : (w : World) → Quiet id kb log w → fault_of w.turns ≡ none
    unfailing w q = fault_of-none w.turns q.answered

    pub goes : {A : Type 0} (a : A) (w : World) → Quiet id kb log w → Gets id kb log a (go a w)
    goes a w q = record { after = w; gets = refl; quiet = q }

    pub stage-Gets :
        (s : Stage) (status : StageStatus) (w : World)
        → Quiet id kb log w
        → Gets id kb log tt (stage id s status w)
    unfolding stage
    stage-Gets s status w q =
        let v = take_turn w.turns w in
        let p = turned-Quiet w.turns w refl q in
        let h = set_stage-made id v.docs p.still v.now s status in
        record {
          after = record v { docs = (set_stage v.now id (change s status) v.docs).0 };
          gets =
              made_call (λ now d. set_stage now id (change s status) d) (go tt) w (unfailing w q)
                h.0;
          quiet = record {
            alone = p.alone;
            answered = p.answered;
            still = h.1;
            kb_is = p.kb_is;
            log_is = p.log_is;
          };
        }

    pub results-Gets :
        (r : Results) (w : World) → Quiet id kb log w → Gets id kb log tt (results id r w)
    unfolding results
    results-Gets r w q =
        let v = take_turn w.turns w in
        let p = turned-Quiet w.turns w refl q in
        let h = set_results-made id v.docs p.still v.now r in
        record {
          after = record v { docs = (set_results v.now id r v.docs).0 };
          gets = made_call (λ now d. set_results now id r d) (go tt) w (unfailing w q) h.0;
          quiet = record {
            alone = p.alone;
            answered = p.answered;
            still = h.1;
            kb_is = p.kb_is;
            log_is = p.log_is;
          };
        }

    pub recorded :
        {B : Type 0} (s : Stage) (status : StageStatus) (r : Results) (b : B) (w : World)
        → Quiet id kb log w
        → Gets id kb log b ((stage id s status >> (results id r >> go b)) w)
    recorded s status r b w q =
        Gets-bind (stage id s status) (λ a. results id r >> go b) w (stage-Gets s status w q)
          (λ v p. Gets-bind (results id r) (λ a. go b) v (results-Gets r v p) (λ u k. goes b u k))
