-- ===== src/Import/Pipeline/Settling.antt =====
-- What the pipeline returns agrees with the row and with the knowledge base.
use aiva_v.Prelude.{◌≡◌, ◌⊎◌, true, List}
use aiva_v.DocIntel.Chunking.Build.{Document, PreparedChunk, chunks, build_chunks}
use aiva_v.Queues.Catalog.{is_named}
use aiva_v.Import.Rows.{
  DocStatus, doc_queued, doc_processing, doc_published, doc_failed, doc_unpublished, Row,
}
use aiva_v.Import.Store.{Publication}
use aiva_v.Import.Embedding.{EmbeddingOutcome}
use aiva_v.Import.Pipeline.{Processed, ended_as, was_abandoned}
use aiva_v.Import.Pipeline.Runs.{World}
use aiva_v.Import.Pipeline.Given.{CorpusConfig, Services}
use aiva_v.Import.Pipeline.Chunk.{request}
use aiva_v.Import.Pipeline.Publish.{vertical_of, queue_keys_of, publication}
use aiva_v.Import.Pipeline.Calls.{HasRow, HasFailed}
use aiva_v.Import.Pipeline.Posts.{NoWrites, NoFaults, Open}
use aiva_v.Import.Pipeline.Laws.{Delivered}

module _ (s : Services) (row : Row) (start : World)
    (named : is_named (vertical_of row) ≡ true) where
  -- The knowledge base holds the document, which is still processed.
  abbrev Sent : {A : Type 0} → A → World → Type 0
  Sent a = Open row.id start (Delivered s row start) (Delivered s row start)

  -- The document is published, in the row and in the knowledge base.
  abbrev IsPublished : DocStatus → World → Type 0
  IsPublished status w =
      (status ≡ doc_published) × HasRow row.id doc_published w.docs × Delivered s row start w.kb

  module _ (doc : Document) (cfg : CorpusConfig) (cs : List PreparedChunk)
      (outcome : EmbeddingOutcome)
      (cut : build_chunks (request s row (queue_keys_of row) cfg) doc ≡ chunks cs) where
    abbrev p : Publication
    p = publication row (queue_keys_of row) cfg cs outcome

  -- What `process_document` returns, against the row and the knowledge base that it leaves.
  unfoldable pub Settled : Processed → World → Type 0
  Settled (ended_as doc_published) w =
      HasRow row.id doc_published w.docs × Delivered s row start w.kb
  Settled (ended_as doc_failed) w =
      (HasFailed row.id w.docs ⊎ (NoWrites start.turns × NoFaults start.turns → ⊥))
      × ((w.kb ≡ start.kb) ⊎ (Delivered s row start w.kb × (NoFaults start.turns → ⊥)))
  Settled (ended_as doc_queued) w = ⊥
  Settled (ended_as doc_processing) w = ⊥
  Settled (ended_as doc_unpublished) w = ⊥
  Settled was_abandoned w =
      (NoWrites start.turns → ⊥) × ((w.kb ≡ start.kb) ⊎ Delivered s row start w.kb)
