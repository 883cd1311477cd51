-- ===== src/Import/Tests/Run.antt =====
-- The pipeline on a document of one page, with no failure.
use aiva_v.Prelude.{some, none, List, [], ◌∷◌, ◌++◌, codes}
use aiva_v.DocIntel.Chunking.Build.{PreparedChunk}
use aiva_v.Queues.Catalog.{Config, no_groups}
use aiva_v.Import.Embedding.{EmbeddingOutcome}
use aiva_v.Import.Pipeline.Runs.{World}
use aiva_v.Import.Tests.{vector, start}

-- No other session writes, and the first call of the registry takes a while.
abbrev undisturbed : World
undisturbed = record start { turns = record { ops = []; moment = 190; fault = none } ∷ [] }

abbrev faq_chunks : List PreparedChunk
faq_chunks =
    record {
      index = 0;
      text =
          codes "[Document: Card FAQ.pdf "
          ++ (183 ∷ codes " Page 1]")
          ++ (10 ∷ codes "Lost cards are blocked at once.");
      content_hash = codes "h";
      pages = 1 ∷ [];
      section = none;
      payload = record {
        vertical = codes "kbdoc-7";
        source = codes "document_import_v1";
        doc_id = 7;
        filename = codes "Card FAQ.pdf";
        section = none;
        pages = 1 ∷ [];
        queues = codes "HALAN" ∷ [];
        chunk_index = 0;
      };
    }
    ∷ []

abbrev stored_config : Config
stored_config = record { queue_groups = no_groups none; rest = [] }

abbrev outcome : EmbeddingOutcome
outcome = record { vectors = vector ∷ []; api_tokens = some 9; estimated_tokens = 8; batches = 1 }
