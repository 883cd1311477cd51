-- ===== src/Import/Pipeline/Succeeds.antt =====
-- A document is published when nothing that the pipeline calls fails.
use aiva_v.Prelude.{◌≡◌, ◌⊎◌, true, none, some, List, ◌∷◌, Text, map}
use aiva_v.DocIntel.Chunking.Build.{Document, PreparedChunk, chunks, build_chunks}
use aiva_v.Queues.Catalog.{Config, Value}
use aiva_v.Import.Rows.{DocStatus, doc_processing, doc_published, Row}
use aiva_v.Import.Store.{done, publish, get_corpus_config, Summary}
use aiva_v.Import.Embedding.{Embedder, EmbeddingOutcome, embedded, embed_texts, Log}
use aiva_v.Import.Pipeline.Runs.{World, Run, Step, on, out}
use aiva_v.Import.Pipeline.Given.{extracted, CorpusConfig, made, Services}
use aiva_v.Import.Pipeline.Files.{original_path}
use aiva_v.Import.Pipeline.Extract.{stored_text}
use aiva_v.Import.Pipeline.Chunk.{request}
use aiva_v.Import.Pipeline.Publish.{queue_keys_of, publication}
use aiva_v.Import.Pipeline.Calls.{HasRow}
use aiva_v.Import.Pipeline.Posts.{NoWrites, NoFaults}
use aiva_v.Import.Pipeline.Quiet.{Quiet, Gets}

-- Nothing fails: the text is there or is extracted, the corpus, its configuration and its embedder are
-- found, the document is cut and embedded, it has a queue, and its publication commits.
pub record Smooth (s : Services) (row : Row) (start : World) : Type 0 where
  pub alone : NoWrites start.turns
  pub answered : NoFaults start.turns
  pub claimed : HasRow row.id doc_processing start.docs
  pub doc : Document
  pub text :
      (stored_text row start ≡ some doc)
      ⊎ ((stored_text row start ≡ none)
          × (dir : Text) × (row.storage_dir ≡ some dir)
          × (path : Text) × (original_path s.lower s.is_file row ≡ some path)
          × (warnings : List Value) × (s.extract path row ≡ extracted doc warnings))
  pub no_error : s.config_error ≡ none
  pub config : Config
  pub has_config : get_corpus_config row.corpus_id start.kb ≡ done (some config)
  pub cfg : CorpusConfig
  pub is_parsed : s.parse_corpus_config config ≡ made cfg
  pub cs : List PreparedChunk
  pub is_cut : build_chunks (request s row (queue_keys_of row) cfg) doc ≡ chunks cs
  pub embedder : Embedder
  pub has_embedder : s.embedder_factory config ≡ made embedder
  pub outcome : EmbeddingOutcome
  pub is_embedded :
      (embed_texts
        (map (λ c. c.text) cs)
        embedder
        s.embed_batch_size
        s.embed_max_retries
        true
        start.log).1
      ≡ embedded outcome
  pub key : Text
  pub keys : List Text
  pub has_queue : queue_keys_of row ≡ key ∷ keys
  pub summary : Summary
  pub commits :
      (publish s.publish_faults (publication row (queue_keys_of row) cfg cs outcome) start.kb).1
      ≡ done summary

module _ (s : Services) (row : Row) (start : World) (h : Smooth s row start) where
  open h use {doc, config, cfg, cs, embedder, outcome}

  abbrev Still : World → Type 0
  Still = Quiet row.id start.kb start.log

  abbrev Reaches : {A : Type 0} → A → World × Step A → Type 0
  Reaches a = Gets row.id start.kb start.log a

  -- The document is published, whatever else the world is then.
  abbrev Ends : World × Step DocStatus → Type 0
  Ends o = o.1 ≡ on doc_published

  abbrev bound : {A : Type 0} → (A → Run DocStatus) → World × Step A → World × Step DocStatus
  bound f o = elim (o.1) [ on c ↦ f c o.0 | out e ↦ (o.0, out e) ]

  -- The log after the calls of the provider.
  abbrev spent : Log
  spent =
      (embed_texts (map (λ c. c.text) cs) embedder s.embed_batch_size s.embed_max_retries true
        start.log).0

  abbrev Sent : {A : Type 0} → A → World × Step A → Type 0
  Sent a = Gets row.id start.kb spent a
