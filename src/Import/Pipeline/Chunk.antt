-- ===== src/Import/Pipeline/Chunk.antt =====
-- backend/doc_intel/kb_import.py: stage 2 of `_pipeline`, the chunking.
use aiva_v.Prelude.{
  Option, ℕ, suc, zero, ◌%◌, ◌/◌, none, some, List, ◌++◌, length, take, ltb, if◌then◌else◌, Text,
  codes,
}
use aiva_v.DocIntel.Chunking.Build.{
  Document, PreparedChunk, Request, Outcome, chunks, failed, max_chars_too_small, no_text_chunks,
  too_many_chunks, build_chunks,
}
use aiva_v.DocIntel.Chunking.Header.{decimal}
use aiva_v.Queues.Catalog.{Config}
use aiva_v.Import.Rows.{chunking, stage_completed, Row}
use aiva_v.Import.Store.{Written, done, publish_failed, get_corpus_config}
use aiva_v.Import.Pipeline.Runs.{Run, go, exit, crashed, ◌>>◌}
use aiva_v.Import.Pipeline.Given.{
  Made, CorpusConfig, Services, stage, results, fail, nothing_set, made, raised,
}

-- A number with a comma after every three digits, as `:,` shows it.
with_commas : ℕ → ℕ → Text
with_commas zero n = decimal n
with_commas (suc fuel) n =
    let high = with_commas fuel (n / 1000) in
    let low = n % 1000 in
    if ltb n 1000
    then decimal n
    else high
      ++ codes ","
      ++ codes (if ltb low 100 then "0" else "")
      ++ codes (if ltb low 10 then "0" else "")
      ++ decimal low

-- The request that the pipeline makes of `build_chunks`.
unfoldable pub request : Services → Row → List Text → CorpusConfig → Request
request s row queue_keys cfg = record {
  document_id = row.id;
  filename = row.filename;
  queue_keys = queue_keys;
  max_chars = cfg.chunk_max_chars;
  overlap = cfg.chunk_overlap;
  max_chunks = s.max_chunks;
  min_chars = 200;
  sha256 = s.sha256;
}

-- What follows `build_chunks`: its `ValueError` is no `ChunkingFailed`.
unfoldable pub chunked : Row → Outcome → Run (List PreparedChunk)
unfolding with_commas
chunked row (chunks cs) = do
  stage row.id chunking stage_completed
  results row.id (record nothing_set { chunk_count = some (some (length cs)) })
  go cs
chunked row (failed max_chars_too_small) = exit (crashed (codes "ValueError"))
chunked row (failed no_text_chunks) =
    fail row.id chunking (codes "Document produced no text chunks")
chunked row (failed (too_many_chunks n limit)) = fail row.id chunking (
    codes "Document produces "
    ++ with_commas n n
    ++ codes " chunks; limit is "
    ++ with_commas limit limit)

unfoldable pub config_found : Row → Written (Option Config) → Run Config
config_found row (publish_failed f) =
    fail row.id chunking (codes "Knowledge base database unavailable: " ++ take 300 f.reason)
config_found row (done none) = fail row.id chunking (codes "Knowledge base corpus not found")
config_found row (done (some config)) = go config

-- The configuration of the corpus, under the error that reading it may meet.
unfoldable pub config_or : Row → Option Text → Run Config
config_or row (some error) w =
    fail row.id chunking (codes "Knowledge base database unavailable: " ++ error) w
config_or row none w = config_found row (get_corpus_config row.corpus_id w.kb) w

unfoldable pub corpus_config : Services → Row → Run Config
corpus_config s row = config_or row s.config_error

unfoldable pub config_parsed : Row → Made CorpusConfig → Run CorpusConfig
config_parsed row (raised error) =
    fail row.id chunking (codes "The knowledge base configuration is invalid: " ++ error)
config_parsed row (made cfg) = go cfg

unfoldable pub parsed : Services → Row → Config → Run CorpusConfig
parsed s row config = config_parsed row (s.parse_corpus_config config)

-- Stage 2 of `_pipeline`, once the configuration is read.
unfoldable pub chunk_document :
    Services → Row → List Text → CorpusConfig → Document → Run (List PreparedChunk)
chunk_document s row queue_keys cfg doc =
    chunked row (build_chunks (request s row queue_keys cfg) doc)
