-- ===== src/Import/Pipeline/Embed.antt =====
-- backend/doc_intel/kb_import.py: stage 3 of `_pipeline`, the embedding.
use aiva_v.Prelude.{ℕ, ◌+◌, ◌*◌, ◌/◌, true, Option, none, some, List, ◌++◌, map, codes}
use aiva_v.DocIntel.Chunking.Build.{PreparedChunk}
use aiva_v.Queues.Catalog.{Config}
use aiva_v.Import.Rows.{embedding, stage_running, stage_completed, Row}
use aiva_v.Import.Embedding.{
  Log, Embedded, Embedder, EmbeddingOutcome, embedded, embedding_failed, embed_texts, tokens,
}
use aiva_v.Import.Pipeline.Runs.{World, Run, go, ◌>>=◌, ◌>>◌}
use aiva_v.Import.Pipeline.Given.{
  Made, CorpusConfig, Services, stage, results, fail, nothing_set, made, raised,
}

unfoldable pub embedding_end : Services → Row → Embedded EmbeddingOutcome → Run EmbeddingOutcome
embedding_end s row (embedding_failed f) = fail row.id embedding (s.failure_text f)
embedding_end s row (embedded outcome) = go outcome

abbrev pub with_log : Log → World → World
with_log log w = record w { log = log }

-- The call of `embed_texts`.
unfoldable pub embed_chunks : Services → Row → Embedder → List PreparedChunk → Run EmbeddingOutcome
embed_chunks s row embedder cs w =
    let reply =
      embed_texts (map (λ c. c.text) cs) embedder s.embed_batch_size s.embed_max_retries true
        w.log in
    embedding_end s row reply.1 (with_log reply.0 w)

-- The cost of so many tokens, in millionths of a dollar.
unfoldable pub embedding_cost : Services → CorpusConfig → ℕ → Option ℕ
embedding_cost s cfg n =
    let at_price : ℕ → ℕ = λ price. (2 * n * price + 1000000) / 2000000 in
    elim (cfg.price) [
      | some price ↦ some (at_price price)
      | none ↦ elim (s.default_price) [ some price ↦ some (at_price price) | none ↦ none ]
    ]

unfoldable pub embedder_made : Row → Made Embedder → Run Embedder
embedder_made row (raised error) =
    fail row.id embedding (codes "The corpus embedder is not configured correctly: " ++ error)
embedder_made row (made embedder) = go embedder

-- What the embedding leaves in the row.
unfoldable pub record_embedding :
    Services → Row → CorpusConfig → EmbeddingOutcome → Run EmbeddingOutcome
record_embedding s row cfg outcome = do
  stage row.id embedding stage_completed
  results row.id (record nothing_set {
    tokens_used = some (some (tokens outcome));
    cost_usd = some (embedding_cost s cfg (tokens outcome));
  })
  go outcome

unfoldable pub embed_with :
    Services → Row → CorpusConfig → List PreparedChunk → Embedder → Run EmbeddingOutcome
embed_with s row cfg cs embedder = do
  outcome ← embed_chunks s row embedder cs
  record_embedding s row cfg outcome

-- Stage 3 of `_pipeline`.
unfoldable pub embedding_stage :
    Services → Row → Config → CorpusConfig → List PreparedChunk → Run EmbeddingOutcome
embedding_stage s row config cfg cs = do
  stage row.id embedding stage_running
  embedder ← embedder_made row (s.embedder_factory config)
  embed_with s row cfg cs embedder
