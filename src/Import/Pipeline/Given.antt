-- ===== src/Import/Pipeline/Given.antt =====
-- backend/doc_intel/kb_import.py: what the import service is given, and the small steps that each stage takes.
use aiva_v.Prelude.{ℕ, Bool, Option, none, some, List, ◌==◌, if◌then◌else◌, Text}
use aiva_v.DocIntel.Chunking.Build.{Document}
use aiva_v.Queues.Catalog.{Config, Value}
use aiva_v.Import.Rows.{Stage, StageStatus, doc_failed, change, Row}
use aiva_v.Import.Repo.{set_stage, Results, set_results, finish_failed}
use aiva_v.Import.Store.{Faults}
use aiva_v.Import.Embedding.{Embedder, EmbeddingFailed}
use aiva_v.Import.Pipeline.Runs.{Run, go, exit, ended, abandoned, ◌>>=◌, call}

-- What the extraction of a stored file ends in: a document with its warnings, `ExtractionFailed`, or
-- another exception.
pub data Extraction : Type 0 where
  extracted : Document → List Value → Extraction
  extraction_failed : Text → Extraction
  extraction_crashed : Text → Extraction

-- What the pipeline reads of a validated corpus configuration. The price is in millionths of a dollar
-- for a million tokens.
pub record CorpusConfig : Type 0 where
  pub chunk_max_chars : ℕ
  pub chunk_overlap : ℕ
  pub embedder_model : Text
  pub embedder_dimension : ℕ
  pub price : Option ℕ

-- A value, or the first line of the exception that was raised instead.
pub data Made {ℓ} (A : Type ℓ) : Type ℓ where
  made : A → Made A
  raised : Text → Made A

-- What the service is given: the file system, the extraction, pydantic's validation of a corpus
-- configuration, the factory of embedders, the hash, the texts of embedding failures, the errors of
-- the knowledge base, and the settings.
pub record Services : Type 0 where
  pub lower : Text → Text
  pub is_file : Text → Bool
  pub extract : Text → Row → Extraction
  pub parse_corpus_config : Config → Made CorpusConfig
  pub embedder_factory : Config → Made Embedder
  pub sha256 : Text → Text
  pub failure_text : EmbeddingFailed → Text
  pub config_error : Option Text
  pub publish_faults : Faults
  pub max_chunks : ℕ
  pub embed_batch_size : ℕ
  pub embed_max_retries : ℕ
  pub default_price : Option ℕ

-- `_stage`
unfoldable pub stage : ℕ → Stage → StageStatus → Run (Unit {0})
stage id s status = do
  ok ← call (λ now d. set_stage now id (change s status) d)
  if ok then go tt else exit abandoned

-- `_results`
unfoldable pub results : ℕ → Results → Run (Unit {0})
results id r = do ok ← call (λ now d. set_results now id r d); if ok then go tt else exit abandoned

-- `_fail`
unfoldable pub fail : {A : Type 0} → ℕ → Stage → Text → Run A
fail id s reason = do
  ok ← call (λ now d. finish_failed now id s (some reason) d)
  if ok then exit (ended doc_failed) else exit abandoned

abbrev pub nothing_set : Results
nothing_set = record {
  page_count = none;
  chunk_count = none;
  tokens_used = none;
  cost_usd = none;
  warnings = none;
}

-- `n or None`
abbrev pub or_none : ℕ → Option ℕ
or_none n = if n == 0 then none else some n
