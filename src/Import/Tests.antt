-- ===== src/Import/Tests.antt =====
-- The theorems on the import at concrete inputs, and a run of the pipeline.
mod Run
use aiva_v.Prelude.{
  ℕ, ◌≡◌, refl, ◌⊎◌, true, false, none, some, List, [], ◌∷◌, Text, codes, strip, lstrip, rstrip,
  rstrip_onto, is_space, arith, All, keep_if,
}
use aiva_v.DocIntel.Chunking.Build.{Document}
use aiva_v.DocIntel.Chunking.Header.{decimal, decimal_loop}
use aiva_v.Queues.Catalog.{no_groups, is_named}
use aiva_v.Import.Rows.{
  upload, embedding, chunking, stage_pending, stage_completed, DocStatus, doc_queued,
  doc_processing, doc_published, each_stage, put_at, Row,
}
use aiva_v.Import.Repo.{fetch, Docs, get_document, insert_document, NewDocument}
use aiva_v.Import.Repo.Queue.{queued, comes_before, claim_next}
use aiva_v.Import.Repo.Queue.Laws.{alone, claimed, other_than, claim_next-queued, IsKeyed}
use aiva_v.Import.Repo.Moves.{Op, inserting, claiming, failing, retrying, run_all}
use aiva_v.Import.Repo.Moves.Steps.{IsDocs, IsSound, run_all-IsDocs}
use aiva_v.Import.Repo.Moves.Statuses.{Trace, run_all_refines}
use aiva_v.Import.Store.{Kb, Faults, Publication, publish, unpublish}
use aiva_v.Import.Store.Laws.{Published, publish-Published}
use aiva_v.Import.Store.Withdrawn.{IsCustom, Withdrawal, unpublish-Withdrawal}
use aiva_v.Import.Embedding.{
  handled, backoff, slept, Embedder, result, timeout_exception, Log, embed_texts, embed_with_retry,
}
use aiva_v.Import.Embedding.Laws.{
  Patient, embed_with_retry-Patient, IsComplete, embed_texts-IsComplete,
}
use aiva_v.Import.Pipeline.Runs.{World}
use aiva_v.Import.Pipeline.Given.{CorpusConfig, Services, extracted, made}
use aiva_v.Import.Pipeline.Publish.{vertical_of}
use aiva_v.Import.Service.{Batch, Stored, saved, store_one, accepted, unpublish_row}
use aiva_v.Import.Service.Laws.{
  accepted-IsSound, IsUpload, store_one-IsUpload, IsUnpublished, unpublish_row-IsUnpublished,
  kb_vertical_for-IsCustom,
}

abbrev corpus_hex : Text
corpus_hex = codes "00ff"

abbrev bytes_00ff : Text
bytes_00ff = 0 ∷ 255 ∷ []

abbrev row_at : ℕ → DocStatus → Row
row_at id status = record {
  id = id;
  batch_id = codes "b1";
  account_id = 4;
  corpus_id = corpus_hex;
  queue_keys = codes "HALAN" ∷ [];
  vertical = codes "kbdoc-7";
  filename = codes "Card FAQ.pdf";
  content_type = some (codes "application/pdf");
  size_bytes = some 1000;
  sha256 = some (codes "aa");
  storage_dir = some (codes "/d/7");
  status = status;
  stages = put_at upload stage_completed (each_stage stage_pending);
  failed_stage = none;
  error_message = none;
  stage_details = each_stage none;
  warnings = [];
  page_count = none;
  chunk_count = none;
  tokens_used = none;
  cost_usd = none;
  attempts = 1;
  worker_id = some (codes "host:1");
  uploaded_by = some 2;
  created_at = 100;
  updated_at = 120;
  started_at = some 120;
  finished_at = none;
  published_at = none;
}

abbrev queued_docs : Docs
queued_docs = record {
  rows = row_at 7 doc_queued ∷ record (row_at 3 doc_queued) { created_at = 90 } ∷ [];
  next_id = 8;
}

abbrev processed_docs : Docs
processed_docs = record { rows = row_at 7 doc_processing ∷ []; next_id = 8 }

abbrev no_faults : Faults
no_faults = record { at_lock = none; at_write = none }

abbrev kb : Kb
kb = record {
  corpora = (bytes_00ff, some (record { queue_groups = no_groups none; rest = [] })) ∷ [];
  chunks = [];
}

abbrev faq : Document
faq = record {
  blocks = [];
  pages = record { number = 1; text = codes "Lost cards are blocked at once." } ∷ [];
  page_count = 1;
}

abbrev vector : List Text
vector = codes "0.5" ∷ codes "0.25" ∷ []

abbrev embedder : Embedder
embedder = record {
  dimension = 2;
  needs_connection = false;
  embed = λ call texts.
      result (record { vectors = vector ∷ []; estimated_tokens = 8; api_total_tokens = some 9 });
}

abbrev slow : Embedder
slow = record embedder { embed = λ call texts. timeout_exception }

abbrev parsed_config : CorpusConfig
parsed_config = record {
  chunk_max_chars = 200;
  chunk_overlap = 20;
  embedder_model = codes "small";
  embedder_dimension = 2;
  price = some 20000;
}

abbrev services : Services
services = record {
  lower = λ t. t;
  is_file = λ path. true;
  extract = λ path row. extracted faq [];
  parse_corpus_config = λ config. made parsed_config;
  embedder_factory = λ config. made embedder;
  sha256 = λ t. codes "h";
  failure_text = λ f. codes "failed";
  config_error = none;
  publish_faults = no_faults;
  max_chunks = 10;
  embed_batch_size = 16;
  embed_max_retries = 2;
  default_price = none;
}

abbrev start : World
start = record {
  docs = processed_docs;
  kb = kb;
  normalized = [];
  stage = upload;
  log = record { calls = 0; sleeps = [] };
  turns = record { ops = (130, claiming (codes "host:2") 7) ∷ []; moment = 131; fault = none } ∷ [];
  now = 131;
}

abbrev row : Row
row = row_at 7 doc_processing

pub row_named : is_named (vertical_of row) ≡ true
unfolding vertical_of is_named strip lstrip rstrip rstrip_onto is_space
row_named = refl

abbrev batch : Batch
batch = record {
  batch_id = codes "b2";
  account_id = 4;
  corpus_id = corpus_hex;
  queue_keys = codes "HALAN" ∷ [];
  user_id = 2;
}

abbrev file : Stored
file = record {
  filename = codes "Card FAQ.pdf";
  content_type = codes "application/pdf";
  size_bytes = 1000;
  sha256 = codes "bb";
  doc_dir = codes "/d/8";
}

-- An upload, a claim, a failure and a retry.
abbrev ops : List (ℕ × Op)
ops =
    (200, inserting (accepted 200 199 batch file))
    ∷ (210, claiming (codes "host:1") 7)
    ∷ (220, failing 7 embedding none)
    ∷ (230, retrying 7 chunking)
    ∷ []

abbrev waiting : Docs
waiting = record { rows = row_at 7 doc_queued ∷ []; next_id = 8 }

waiting_found : get_document 7 waiting ≡ some (row_at 7 doc_queued)
unfolding get_document fetch
waiting_found = refl

run_all_refines_example :
    (r : Row) × (get_document 7 (run_all ops waiting) ≡ some r) × Trace 7 ops doc_queued r.status
run_all_refines_example = run_all_refines ops waiting 7 (row_at 7 doc_queued) waiting_found

abbrev empty : Docs
empty = record { rows = []; next_id = 7 }

empty-IsDocs : IsDocs empty
unfolding get_document fetch
empty-IsDocs id r h = absurd (ground (arith, h))

ops-IsSound : All (λ e. IsSound e.1) ops
unfolding IsSound
ops-IsSound = (accepted-IsSound 200 199 batch file, (tt, (tt, (tt, tt))))

run_all-IsDocs_example : IsDocs (run_all ops empty)
run_all-IsDocs_example = run_all-IsDocs ops empty ops-IsSound empty-IsDocs

queued_docs-IsKeyed : IsKeyed queued_docs.rows
unfolding IsKeyed fetch
queued_docs-IsKeyed = (refl, (refl, tt))

claim_next-queued_example :
    ((queued queued_docs ≡ [])
      × (claim_next 200 (codes "host:1") alone queued_docs ≡ (queued_docs, none)))
    ⊎ ((r : Row) × (rest : List Row) × (queued queued_docs ≡ r ∷ rest)
        × ((claim_next 200 (codes "host:1") alone queued_docs).1
            ≡ some (claimed 200 (codes "host:1") r))
        × All (λ q. comes_before q r ≡ false) rest
        × (queued (claim_next 200 (codes "host:1") alone queued_docs).0
            ≡ keep_if (other_than r.id) (queued queued_docs)))
claim_next-queued_example = claim_next-queued 200 (codes "host:1") queued_docs queued_docs-IsKeyed

abbrev publication_7 : Publication
publication_7 = record {
  corpus_id_hex = corpus_hex;
  vertical = codes "kbdoc-7";
  queue_keys = codes "HALAN" ∷ [];
  chunks = [];
  vectors = [];
  embedding_model = codes "small";
  dimension = 2;
}

row-IsCustom : IsCustom (codes "kbdoc-7")
unfolding decimal decimal_loop
row-IsCustom = kb_vertical_for-IsCustom 7

publish-Published_example : Published publication_7 kb (publish no_faults publication_7 kb)
publish-Published_example = publish-Published no_faults publication_7 kb row-IsCustom.0

unpublish-Withdrawal_example :
    Withdrawal corpus_hex (codes "kbdoc-7") kb (unpublish no_faults corpus_hex (codes "kbdoc-7") kb)
unpublish-Withdrawal_example =
    unpublish-Withdrawal no_faults corpus_hex (codes "kbdoc-7") kb row-IsCustom

abbrev published_docs : Docs
published_docs = record { rows = row_at 7 doc_published ∷ []; next_id = 8 }

vertical-IsCustom : IsCustom (vertical_of (row_at 7 doc_published))
unfolding vertical_of
vertical-IsCustom = row-IsCustom

unpublish_row-IsUnpublished_example :
    IsUnpublished false
      (λ d. d)
      (row_at 7 doc_published)
      published_docs
      kb
      (unpublish_row 300 false no_faults (λ d. d) (row_at 7 doc_published) published_docs kb).0
      (unpublish_row 300 false no_faults (λ d. d) (row_at 7 doc_published) published_docs kb).1
unpublish_row-IsUnpublished_example =
    unpublish_row-IsUnpublished 300 false no_faults (λ d. d) (row_at 7 doc_published) published_docs
      kb vertical-IsCustom

store_one-IsUpload_example :
    (n : NewDocument) × ((store_one 200 199 batch
        (λ d. d)
        (codes "Card FAQ.pdf")
        (saved file)
        empty).0
      ≡ (insert_document 200 n empty).0)
    × ((store_one 200 199 batch (λ d. d) (codes "Card FAQ.pdf") (saved file) empty).1.0 ≡ 7)
    × IsSound (inserting n)
    × IsUpload batch
        (saved file)
        empty
        (store_one 200 199 batch (λ d. d) (codes "Card FAQ.pdf") (saved file) empty).1.1
        n
store_one-IsUpload_example =
    store_one-IsUpload 200 199 batch (λ d. d) (codes "Card FAQ.pdf") (saved file) empty

abbrev first_log : Log
first_log = record { calls = 0; sleeps = [] }

embed_with_retry-Patient_example :
    Patient 2 first_log (embed_with_retry slow (codes "a" ∷ []) 2 0 first_log).0
embed_with_retry-Patient_example = embed_with_retry-Patient slow (codes "a" ∷ []) 2 0 first_log

slow_sleeps : (embed_with_retry slow (codes "a" ∷ []) 2 0 first_log).0.sleeps ≡ 1000 ∷ 2000 ∷ []
unfolding embed_with_retry handled backoff slept
slow_sleeps = refl

embed_texts-IsComplete_example :
    IsComplete 2 1 (embed_texts (codes "a" ∷ []) embedder 16 2 true first_log).1
embed_texts-IsComplete_example =
    embed_texts-IsComplete (codes "a" ∷ []) embedder 16 2 true first_log
