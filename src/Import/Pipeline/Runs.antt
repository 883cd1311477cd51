-- ===== src/Import/Pipeline/Runs.antt =====
-- The world of the pipeline: the registry, the knowledge base and the extracted texts, with what other
-- sessions do meanwhile and the exceptions that calls of the registry raise; and runs in it that may end early.
use aiva_v.Prelude.{ℕ, Option, none, some, List, [], ◌∷◌, Text, Map}
use aiva_v.DocIntel.Chunking.Build.{Document}
use aiva_v.Import.Rows.{Stage, DocStatus}
use aiva_v.Import.Repo.{Docs}
use aiva_v.Import.Repo.Moves.{Op, run_all}
use aiva_v.Import.Store.{Kb}
use aiva_v.Import.Embedding.{Log}

-- A call of the registry: the transactions that other sessions commit before it, its moment, and the
-- exception that it raises instead of writing, if it does.
pub record Turn : Type 0 where
  pub ops : List (ℕ × Op)
  pub moment : ℕ
  pub fault : Option Text

-- `normalized` holds what `normalized.json` says for each directory, none where it cannot be read;
-- `stage` is the entry of `state`, and `log` the calls of the embedding provider.
pub record World : Type 0 where
  pub docs : Docs
  pub kb : Kb
  pub normalized : Map (Option Document)
  pub stage : Stage
  pub log : Log
  pub turns : List Turn
  pub now : ℕ

-- How a run ends before its last step: with the status that is returned, with `_Abandoned`, or with
-- another exception.
pub data Exit : Type 0 where
  ended : DocStatus → Exit
  abandoned : Exit
  crashed : Text → Exit

pub data Step (A : Type 0) : Type 0 where
  on : A → Step A
  out : Exit → Step A

abbrev pub Run : Type 0 → Type 0
Run A = World → World × Step A

infixl 5 ◌>>=◌ ◌>>◌
abbrev pub ◌>>=◌ : {A B : Type 0} → Run A → (A → Run B) → Run B
◌>>=◌ m f w = elim ((m w).1) [ on a ↦ f a (m w).0 | out e ↦ ((m w).0, out e) ]

abbrev pub ◌>>◌ : {B : Type 0} → Run (Unit {0}) → Run B → Run B
m >> k = m >>= λ _. k

abbrev pub go : {A : Type 0} → A → Run A
go a w = (w, on a)

abbrev pub exit : {A : Type 0} → Exit → Run A
exit e w = (w, out e)

unfoldable pub take_turn : List Turn → World → World
take_turn [] w = w
take_turn (t ∷ ts) w = record w { docs = run_all t.ops w.docs; turns = ts; now = t.moment }

unfoldable pub fault_of : List Turn → Option Text
fault_of [] = none
fault_of (t ∷ ts) = t.fault

-- A call under the exception that it raises, if it does.
unfoldable pub call_under : {A : Type 0} → Option Text → (ℕ → Docs → Docs × A) → Run A
call_under (some error) f w = (w, out (crashed error))
call_under none f w = let done = f w.now w.docs in (record w { docs = done.0 }, on done.1)

-- A call of the registry.
unfoldable pub call : {A : Type 0} → (ℕ → Docs → Docs × A) → Run A
call f w = call_under (fault_of w.turns) f (take_turn w.turns w)

abbrev pub entering : Stage → Run (Unit {0})
entering s w = (record w { stage = s }, on tt)
