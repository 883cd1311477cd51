-- ===== src/Import/Pipeline/Publish.antt =====
-- backend/doc_intel/kb_import.py: stage 4 of `_pipeline`, the publishing.
use aiva_v.Prelude.{some, List, [], ◌∷◌, length, keep_if, if◌then◌else◌, Text, codes, is_nil}
use aiva_v.DocIntel.Chunking.Build.{Document, PreparedChunk, kb_vertical_for}
use aiva_v.Queues.Catalog.{is_named}
use aiva_v.Import.Rows.{publishing, stage_running, DocStatus, doc_published, Row}
use aiva_v.Import.Repo.{finish_published}
use aiva_v.Import.Store.{Written, Kb, Summary, done, publish_failed, Publication, publish}
use aiva_v.Import.Embedding.{EmbeddingOutcome, tokens}
use aiva_v.Import.Pipeline.Runs.{World, Run, go, exit, abandoned, ◌>>=◌, ◌>>◌, call}
use aiva_v.Import.Pipeline.Given.{CorpusConfig, Services, stage, fail, or_none}
use aiva_v.Import.Pipeline.Embed.{embedding_cost}

-- `_vertical`
unfoldable pub vertical_of : Row → Text
vertical_of row = if is_nil row.vertical then kb_vertical_for row.id else row.vertical

-- `parse_queue_keys`
unfoldable pub queue_keys_of : Row → List Text
queue_keys_of row = keep_if is_named row.queue_keys

unfoldable pub publication :
    Row → List Text → CorpusConfig → List PreparedChunk → EmbeddingOutcome → Publication
publication row queue_keys cfg cs outcome = record {
  corpus_id_hex = row.corpus_id;
  vertical = vertical_of row;
  queue_keys = queue_keys;
  chunks = cs;
  vectors = outcome.vectors;
  embedding_model = cfg.embedder_model;
  dimension = cfg.embedder_dimension;
}

unfoldable pub publish_end : Row → Written Summary → Run (Unit {0})
publish_end row (publish_failed f) = fail row.id publishing f.reason
publish_end row (done summary) = go tt

abbrev pub with_kb : Kb → World → World
with_kb kb w = record w { kb = kb }

-- The transaction in the knowledge base.
unfoldable pub publish_to_kb : Services → Row → Publication → Run (Unit {0})
publish_to_kb s row p w =
    let written = publish s.publish_faults p w.kb in publish_end row written.1 (with_kb written.0 w)

-- The end of stage 4: the row follows the knowledge base.
unfoldable pub finish_document :
    Services → Row → Document → CorpusConfig → List PreparedChunk → EmbeddingOutcome → Run DocStatus
finish_document s row doc cfg cs outcome = do
  finished ← call (λ now d.
      finish_published now row.id []
        (record {
          page_count = or_none doc.page_count;
          chunk_count = some (length cs);
          tokens_used = some (tokens outcome);
          cost_usd = embedding_cost s cfg (tokens outcome);
        })
        d)
  if finished then go doc_published else exit abandoned

unfoldable pub need_queues : Row → List Text → Run (Unit {0})
need_queues row [] =
    fail row.id publishing
      (codes "No queue is selected for this document — use Change queues, then Retry")
need_queues row (k ∷ ks) = go tt

unfoldable pub publish_and_finish :
    Services
    → Row
    → List Text
    → Document
    → CorpusConfig
    → List PreparedChunk
    → EmbeddingOutcome
    → Run DocStatus
publish_and_finish s row queue_keys doc cfg cs outcome = do
  publish_to_kb s row (publication row queue_keys cfg cs outcome)
  finish_document s row doc cfg cs outcome

-- Stage 4 of `_pipeline`.
unfoldable pub publishing_stage :
    Services
    → Row
    → List Text
    → Document
    → CorpusConfig
    → List PreparedChunk
    → EmbeddingOutcome
    → Run DocStatus
publishing_stage s row queue_keys doc cfg cs outcome = do
  stage row.id publishing stage_running
  need_queues row queue_keys
  publish_and_finish s row queue_keys doc cfg cs outcome
