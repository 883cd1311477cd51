-- ===== src/Import/Pipeline.antt =====
-- backend/doc_intel/kb_import.py: the stages that the worker runs on a document that it has claimed, and
-- what becomes of their failures. Between two calls of the registry other sessions may commit
-- transactions there; they are part of the world that the pipeline runs in. The metrics of the stages,
-- which are only shown, are left out.
pub mod Files
pub mod Runs
pub mod Given
pub mod Extract
pub mod Chunk
pub mod Embed
pub mod Publish
pub mod Calls
pub mod Posts
pub mod Laws
pub mod Settling
pub mod Quiet
pub mod Succeeds
use aiva_v.Prelude.{
  ℕ, suc, ◌+◌, zero, ◌%◌, ◌*◌, ◌/◌, Bool, true, false, not, ◌&&◌, Option, none, some, List, [], ◌∷◌,
  ◌++◌, length, map, keep_if, take, ltb, ◌==◌, if◌then◌else◌, Text, codes, text_eq, Map, find, put,
  is_nil,
}
use aiva_v.DocIntel.Chunking.Build.{
  Document, PreparedChunk, Request, Outcome, Failure, chunks, failed, max_chars_too_small,
  no_text_chunks, too_many_chunks, build_chunks, kb_vertical_for,
}
use aiva_v.DocIntel.Chunking.Header.{decimal}
use aiva_v.Queues.Catalog.{Config, Value, is_named}
use aiva_v.Import.Textutil.{truncated}
use aiva_v.Import.Rows.{
  Stage, extraction, chunking, embedding, publishing, StageStatus, stage_running, stage_completed,
  DocStatus, doc_published, doc_failed, change, Row, max_error_bytes, at,
}
use aiva_v.Import.Repo.{set_stage, Results, set_results, Counts, finish_published, finish_failed}
use aiva_v.Import.Store.{
  Kb, PublishFailed, Written, done, publish_failed, Faults, Publication, publish, get_corpus_config,
}
use aiva_v.Import.Embedding.{
  Embedder, EmbeddingFailed, EmbeddingOutcome, embedded, embedding_failed, embed_texts, tokens,
}
use aiva_v.Import.Pipeline.Files.{is_completed, original_path}
use aiva_v.Import.Pipeline.Runs.{
  World, Run, Step, on, out, go, exit, ended, abandoned, crashed, ◌>>=◌, ◌>>◌, call, entering,
}
use aiva_v.Import.Pipeline.Given.{
  Extraction, CorpusConfig, Made, Services, stage, results, fail, nothing_set, or_none, extracted,
  extraction_failed, extraction_crashed, made, raised,
}
use aiva_v.Import.Pipeline.Extract.{extraction_stage}
use aiva_v.Import.Pipeline.Chunk.{chunk_document, corpus_config, parsed}
use aiva_v.Import.Pipeline.Embed.{embedding_stage}
use aiva_v.Import.Pipeline.Publish.{queue_keys_of, publishing_stage}

-- `_pipeline` from the embedding on.
unfoldable pub embed_and_publish :
    Services → Row → Document → Config → CorpusConfig → List PreparedChunk → Run DocStatus
embed_and_publish s row doc config cfg cs = do
  entering embedding
  outcome ← embedding_stage s row config cfg cs
  entering publishing
  publishing_stage s row (queue_keys_of row) doc cfg cs outcome

unfoldable pub chunk_and_on : Services → Row → Document → Config → CorpusConfig → Run DocStatus
chunk_and_on s row doc config cfg = do
  cs ← chunk_document s row (queue_keys_of row) cfg doc
  embed_and_publish s row doc config cfg cs

unfoldable pub parse_and_on : Services → Row → Document → Config → Run DocStatus
parse_and_on s row doc config = do cfg ← parsed s row config; chunk_and_on s row doc config cfg

unfoldable pub configure_and_on : Services → Row → Document → Run DocStatus
configure_and_on s row doc = do config ← corpus_config s row; parse_and_on s row doc config

-- `_pipeline` from the chunking on.
unfoldable pub with_document : Services → Row → Document → Run DocStatus
with_document s row doc = do
  entering chunking
  stage row.id chunking stage_running
  configure_and_on s row doc

-- `_pipeline`
unfoldable pub pipeline : Services → Row → Run DocStatus
pipeline s row = do entering extraction; doc ← extraction_stage s row; with_document s row doc

-- What `process_document` returns.
pub data Processed : Type 0 where
  ended_as : DocStatus → Processed
  was_abandoned : Processed

-- The handlers of `process_document`.
unfoldable pub settled : ℕ → World × Step DocStatus → World × Processed
settled id (w, on status) = (w, ended_as status)
settled id (w, out (ended status)) = (w, ended_as status)
settled id (w, out abandoned) = (w, was_abandoned)
settled id (w, out (crashed error)) = (
  (call
      (λ now d.
        finish_failed now id w.stage
          (some (truncated (codes "Unexpected error: " ++ error) max_error_bytes)) d)
      w).0,
  ended_as doc_failed,
)

-- `process_document`
unfoldable pub process_document : Services → Row → World → World × Processed
process_document s row w = settled row.id (pipeline s row w)
