-- ===== src/Import/Pipeline/Laws.antt =====
-- The stages of the pipeline up to the publication leave the knowledge base alone.
use aiva_v.Prelude.{◌≡◌, refl, inl, Option, none, some, List, Text}
use aiva_v.DocIntel.Chunking.Build.{
  Document, PreparedChunk, Outcome, chunks, failed, max_chars_too_small, no_text_chunks,
  too_many_chunks, build_chunks,
}
use aiva_v.Queues.Catalog.{Config}
use aiva_v.Import.Rows.{Stage, extraction, chunking, embedding, StageStatus, stage_running, Row}
use aiva_v.Import.Repo.{Results}
use aiva_v.Import.Store.{Kb, done, publish_failed, Written, get_corpus_config}
use aiva_v.Import.Store.Laws.{Replaced}
use aiva_v.Import.Embedding.{Embedder, Embedded, EmbeddingOutcome, embedded, embedding_failed}
use aiva_v.Import.Pipeline.Runs.{World, Run, Step, go, ◌>>=◌, ◌>>◌}
use aiva_v.Import.Pipeline.Given.{
  Extraction, extracted, extraction_failed, extraction_crashed, CorpusConfig, Made, made, raised,
  Services, stage, results, fail,
}
use aiva_v.Import.Pipeline.Files.{original_path}
use aiva_v.Import.Pipeline.Extract.{
  extraction_end, missing_reason, extract_original, extract_in, text_or_extract, keep_text,
}
use aiva_v.Import.Pipeline.Chunk.{
  request, chunked, config_found, config_or, config_parsed, chunk_document,
}
use aiva_v.Import.Pipeline.Embed.{
  embed_chunks, record_embedding, embed_with, embedder_made, embedding_end, embedding_stage,
}
use aiva_v.Import.Pipeline.Publish.{queue_keys_of, publication}
use aiva_v.Import.Pipeline.Posts.{
  Open, Untouched, Ends, Post, After, After-bind, stage-After, results-After, fail-After,
}

module _ (s : Services) (row : Row) (start : World) where
  -- The knowledge base holds the document: chunks that `build_chunks` cut, with their vectors, in exactly
  -- the document's queues, and nothing else has changed since the start.
  pub record Delivered (kb : Kb) : Type 0 where
    pub doc : Document
    pub cfg : CorpusConfig
    pub cs : List PreparedChunk
    pub outcome : EmbeddingOutcome
    pub cut : build_chunks (request s row (queue_keys_of row) cfg) doc ≡ chunks cs
    pub replaced : Replaced (publication row (queue_keys_of row) cfg cs outcome) start.kb kb

  abbrev pub Ready : World → Type 0
  Ready = Open row.id start Delivered (Untouched row.id start Delivered)

  abbrev pub Goes : {A : Type 0} → (A → World → Type 0) → World × Step A → Type 0
  Goes Q o = After row.id start Delivered Q o

  abbrev pub OnlyReady : {A : Type 0} → A → World → Type 0
  OnlyReady a = Ready

  pub then_ready :
      {A B : Type 0} (R : B → World → Type 0) (m : Run A) (f : A → Run B) (w : World)
      → Goes OnlyReady (m w)
      → ((a : A) (v : World) → Ready v → Goes R (f a v))
      → Goes R ((m >>= f) w)
  then_ready R m f w = After-bind row.id start Delivered OnlyReady R m f w

  pub failing :
      {A : Type 0} (Q : A → World → Type 0) (st : Stage) (reason : Text) (w : World)
      → Ready w
      → Goes Q (fail row.id st reason w)
  failing Q st reason w o = fail-After row.id start Delivered Q st reason w o

  -- A stage is set, some results are written, and a value is returned.
  record_stage :
      {B : Type 0} (R : B → World → Type 0) (st : Stage) (status : StageStatus) (r : Results)
      (b : B)
      → ((v : World) → Ready v → R b v)
      → (w : World) → Ready w
      → Goes R ((stage row.id st status >> (results row.id r >> go b)) w)
  unfolding Post
  record_stage R st status r b h w o =
      then_ready R (stage row.id st status) (λ a. results row.id r >> go b) w
        (stage-After row.id start Delivered st status w o)
        (λ a v p.
          then_ready R (results row.id r) (λ a. go b) v (results-After row.id start Delivered r v p)
            (λ c u q. h u q))

  extraction_end-Goes :
      (dir : Text) (e : Extraction) (w : World)
      → Ready w
      → Goes OnlyReady (extraction_end row dir e w)
  unfolding extraction_end keep_text Post Ends
  extraction_end-Goes dir (extraction_failed reason) w o = failing OnlyReady extraction reason w o
  extraction_end-Goes dir (extraction_crashed error) w o = record {
    kb_is = inl o.kb_is;
    ours = o.ours;
    calm = o.calm;
  }
  extraction_end-Goes dir (extracted doc warnings) w o =
      record_stage OnlyReady extraction _ _ doc (λ v p. p) (keep_text dir doc w).0
        (record { kb_is = o.kb_is; ours = o.ours; calm = o.calm })

  extract_in-Goes :
      (dir : Option Text) (w : World) → Ready w → Goes OnlyReady (extract_in s row dir w)
  unfolding extract_in
  extract_in-Goes none w o = failing OnlyReady extraction missing_reason w o
  extract_in-Goes (some dir) w o = original (original_path s.lower s.is_file row)
    where
      original : (path : Option Text) → Goes OnlyReady (extract_original s row dir path w)
      original none = unfold extract_original in failing OnlyReady extraction missing_reason w o
      original (some path) =
          unfold extract_original in extraction_end-Goes dir (s.extract path row) w o

  pub text_or_extract-Goes :
      (doc : Option Document) (w : World) → Ready w → Goes OnlyReady (text_or_extract s row doc w)
  unfolding text_or_extract Post
  text_or_extract-Goes (some doc) w o = o
  text_or_extract-Goes none w o =
      then_ready OnlyReady (stage row.id extraction stage_running)
        (λ a. extract_in s row row.storage_dir) w
        (stage-After row.id start Delivered extraction stage_running w o)
        (λ a v p. extract_in-Goes row.storage_dir v p)

  pub config_or-Goes :
      (error : Option Text) (w : World) → Ready w → Goes OnlyReady (config_or row error w)
  unfolding config_or
  config_or-Goes (some error) w o = failing OnlyReady chunking _ w o
  config_or-Goes none w o = found (get_corpus_config row.corpus_id w.kb)
    where
      found : (c : Written (Option Config)) → Goes OnlyReady (config_found row c w)
      found (publish_failed f) = unfold config_found in failing OnlyReady chunking _ w o
      found (done none) = unfold config_found in failing OnlyReady chunking _ w o
      found (done (some config)) = unfold config_found Post in o

  pub config_parsed-Goes :
      (m : Made CorpusConfig) (w : World) → Ready w → Goes OnlyReady (config_parsed row m w)
  unfolding config_parsed Post
  config_parsed-Goes (raised error) w o = failing OnlyReady chunking _ w o
  config_parsed-Goes (made cfg) w o = o

  -- The chunks are those that `build_chunks` cut.
  abbrev pub IsCut : CorpusConfig → Document → List PreparedChunk → World → Type 0
  IsCut cfg doc cs w =
      (build_chunks (request s row (queue_keys_of row) cfg) doc ≡ chunks cs) × Ready w

  pub chunk_document-Goes :
      (cfg : CorpusConfig) (doc : Document) (w : World)
      → Ready w
      → Goes (IsCut cfg doc) (chunk_document s row (queue_keys_of row) cfg doc w)
  unfolding chunk_document
  chunk_document-Goes cfg doc w o =
      cut (build_chunks (request s row (queue_keys_of row) cfg) doc) refl
    where
      cut :
          (outcome : Outcome)
          → build_chunks (request s row (queue_keys_of row) cfg) doc ≡ outcome
          → Goes (IsCut cfg doc) (chunked row outcome w)
      cut (chunks cs) e =
          unfold chunked in record_stage (IsCut cfg doc) chunking _ _ cs (λ v p. (e, p)) w o
      cut (failed max_chars_too_small) e =
          unfold chunked Post Ends in record { kb_is = inl o.kb_is; ours = o.ours; calm = o.calm }
      cut (failed no_text_chunks) e = unfold chunked in failing (IsCut cfg doc) chunking _ w o
      cut (failed (too_many_chunks n limit)) e =
          unfold chunked in failing (IsCut cfg doc) chunking _ w o

  embedder_made-Goes :
      (m : Made Embedder) (w : World) → Ready w → Goes OnlyReady (embedder_made row m w)
  unfolding embedder_made Post
  embedder_made-Goes (raised error) w o = failing OnlyReady embedding _ w o
  embedder_made-Goes (made embedder) w o = o

  embedding_end-Goes :
      (r : Embedded EmbeddingOutcome) (w : World)
      → Ready w
      → Goes OnlyReady (embedding_end s row r w)
  unfolding embedding_end Post
  embedding_end-Goes (embedding_failed f) w o = failing OnlyReady embedding _ w o
  embedding_end-Goes (embedded outcome) w o = o

  embed_with-Goes :
      (cfg : CorpusConfig) (cs : List PreparedChunk) (embedder : Embedder) (w : World)
      → Ready w
      → Goes OnlyReady (embed_with s row cfg cs embedder w)
  unfolding embed_with embed_chunks record_embedding
  embed_with-Goes cfg cs embedder w o =
      then_ready OnlyReady (embed_chunks s row embedder cs) (record_embedding s row cfg) w
        (embedding_end-Goes _ _ (record { kb_is = o.kb_is; ours = o.ours; calm = o.calm }))
        (λ outcome v p. record_stage OnlyReady embedding _ _ outcome (λ u q. q) v p)

  pub embedding_stage-Goes :
      (config : Config) (cfg : CorpusConfig) (cs : List PreparedChunk) (w : World)
      → Ready w
      → Goes OnlyReady (embedding_stage s row config cfg cs w)
  unfolding embedding_stage
  embedding_stage-Goes config cfg cs w o =
      let made_it = embedder_made row (s.embedder_factory config) in
      then_ready OnlyReady (stage row.id embedding stage_running)
        (λ a. made_it >>= embed_with s row cfg cs) w
        (stage-After row.id start Delivered embedding stage_running w o)
        (λ a v p.
          then_ready OnlyReady made_it (embed_with s row cfg cs) v
            (embedder_made-Goes (s.embedder_factory config) v p)
            (λ embedder u q. embed_with-Goes cfg cs embedder u q))
