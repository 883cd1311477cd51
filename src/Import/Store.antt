-- ===== src/Import/Store.antt =====
-- backend/doc_intel/kb_store.py: the knowledge base, whose every write is one transaction. A component
-- of a vector is the text that `format(float(x), ".9g")` makes of it. The identifier of a chunk is left
-- out: it is computed from columns that stand here. An error of the database is its text, if one is
-- raised while the transaction runs.
pub mod Laws
pub mod Withdrawn
use aiva_v.Prelude.{
  ℕ, ◌+◌, ◌*◌, ◌-◌, Bool, true, false, not, ◌&&◌, ◌||◌, Option, none, some, List, [], ◌∷◌, ◌++◌,
  length, map, take, keep_if, any_of, leb, ltb, ◌==◌, if◌then◌else◌, Text, codes, strip, text_eq,
  Map, find, put,
}
use aiva_v.DocIntel.Chunking.Build.{PreparedChunk, Payload}
use aiva_v.DocIntel.Chunking.Header.{decimal, join_texts}
use aiva_v.Queues.Catalog.{Config}
use aiva_v.Queues.Assign.{
  set_vertical_queues, assigned, unknown_queue_error, remove_vertical, queues_with_vertical,
}

-- A row of `kb_chunk`.
pub record ChunkRow : Type 0 where
  pub corpus_id : Text
  pub external_parent_id : Text
  pub chunk_index : ℕ
  pub content_hash : Text
  pub chunk_text : Text
  pub payload : Payload
  pub embedding : Text
  pub embedding_model : Text

-- `kb_corpus` as its `config_json`, none where that is no JSON object, and `kb_chunk`.
pub record Kb : Type 0 where
  pub corpora : Map (Option Config)
  pub chunks : List ChunkRow

-- The codes of `PublishFailed`.
pub data Code : Type 0 where
  corpus_not_found unknown_queue invalid_config internal database locked : Code

pub record PublishFailed : Type 0 where
  pub reason : Text
  pub code : Code

-- What a write returns, or raises.
pub data Written {ℓ} (A : Type ℓ) : Type ℓ where
  done : A → Written A
  publish_failed : PublishFailed → Written A

unfoldable pub is_database_error : PublishFailed → Bool
is_database_error f = elim (f.code) [ database ↦ true | locked ↦ true | _ ↦ false ]

-- The value of a hexadecimal digit.
hex_digit : ℕ → Option ℕ
hex_digit c =
    if leb 48 c && leb c 57
    then some (c - 48)
    else if leb 97 c && leb c 102
    then some (c - 87)
    else if leb 65 c && leb c 70
    then some (c - 55)
    else none

is_ascii_space : ℕ → Bool
is_ascii_space c = c == 32 || (leb 9 c && leb c 13)

hex_pair : Option ℕ → Option ℕ → Option Text → Option Text
hex_pair (some a) (some b) (some bytes) = some ((a * 16 + b) ∷ bytes)
hex_pair _ _ _ = none

-- `bytes.fromhex`
unfoldable pub from_hex : Text → Option Text
unfolding hex_digit is_ascii_space hex_pair
from_hex [] = some []
from_hex (c ∷ []) = if is_ascii_space c then some [] else none
from_hex (c ∷ d ∷ s) = elim (is_ascii_space c) [
  | true ↦ from_hex (d ∷ s)
  | false ↦ hex_pair (hex_digit c) (hex_digit d) (from_hex s)
]

non_nil : Text → Option Text
non_nil [] = none
non_nil (c ∷ s) = some (c ∷ s)

-- `_corpus_bytes`
unfoldable pub corpus_bytes : Text → Option Text
unfolding non_nil
corpus_bytes hex = elim (from_hex (strip (keep_if (λ c. not (c == 45)) hex))) [
  | none ↦ none
  | some bytes ↦ non_nil bytes
]

-- `vector_text`
unfoldable pub vector_text : List Text → Text
vector_text vector = codes "[" ++ join_texts (codes ",") vector ++ codes "]"

starts_with : Text → Text → Bool
starts_with [] s = true
starts_with (c ∷ t) [] = false
starts_with (c ∷ t) (d ∷ s) = c == d && starts_with t s

contains : Text → Text → Bool
unfolding starts_with
contains t [] = starts_with t []
contains t (c ∷ s) = starts_with t (c ∷ s) || contains t s

locked_reason : Text
locked_reason =
    codes "The knowledge base configuration is locked by another operation — try again in a minute"

-- `_db_failure`, of the first line of the error.
unfoldable pub db_failure : Text → PublishFailed
unfolding contains locked_reason
db_failure first =
    if contains (codes "ORA-30006") first || contains (codes "ORA-00054") first
    then record { reason = locked_reason; code = locked }
    else if contains (codes "ORA-00257") first
    then record {
      reason =
          codes
            "Knowledge base database error: the database host disk is full (ORA-00257 archiver error)";
      code = database;
    }
    else record {
      reason = codes "Knowledge base database error: " ++ take 300 first;
      code = database;
    }

abbrev pub corpus_not_found_failure : PublishFailed
corpus_not_found_failure = record {
  reason = codes "Knowledge base corpus not found";
  code = corpus_not_found;
}

-- The errors that the transaction meets: at the lock on the corpus, and at a later statement or the
-- commit.
pub record Faults : Type 0 where
  pub at_lock : Option Text
  pub at_write : Option Text

-- `_lock_config`: the configuration under the lock, if the corpus is there.
unfoldable pub lock_config : Faults → Text → Kb → Written (Option Config)
lock_config faults cid kb = elim (faults.at_lock) [
  | some error ↦ publish_failed (db_failure error)
  | none ↦ elim (find cid kb.corpora) [
    | none ↦ done none
    | some none ↦ publish_failed (record {
      reason = codes "Knowledge base configuration is not a JSON object";
      code = invalid_config;
    })
    | some (some config) ↦ done (some config)
  ]
]

-- `_with_queues`
unfoldable pub with_queues : Config → Text → List Text → Written Config
with_queues config vertical keys = elim (set_vertical_queues (some config) vertical keys) [
  | assigned after ↦ done after
  | unknown_queue_error key ↦ publish_failed (record {
    reason = codes "Queue '" ++ key ++ codes "' no longer exists in this knowledge base";
    code = unknown_queue;
  })
]

unfoldable pub is_of : Text → Text → ChunkRow → Bool
is_of cid vertical r = text_eq r.corpus_id cid && text_eq r.external_parent_id vertical

-- The rows of a document, and the others.
unfoldable pub chunks_of : Text → Text → Kb → List ChunkRow
chunks_of cid vertical kb = keep_if (is_of cid vertical) kb.chunks

unfoldable pub other_chunks : Text → Text → Kb → List ChunkRow
other_chunks cid vertical kb = keep_if (λ r. not (is_of cid vertical r)) kb.chunks

-- The keyword arguments of `publish`.
pub record Publication : Type 0 where
  pub corpus_id_hex : Text
  pub vertical : Text
  pub queue_keys : List Text
  pub chunks : List PreparedChunk
  pub vectors : List (List Text)
  pub embedding_model : Text
  pub dimension : ℕ

unfoldable pub chunk_rows :
    Publication → Text → List PreparedChunk → List (List Text) → List ChunkRow
chunk_rows p cid [] vectors = []
chunk_rows p cid (c ∷ cs) [] = []
chunk_rows p cid (c ∷ cs) (v ∷ vs) =
    record {
      corpus_id = cid;
      external_parent_id = p.vertical;
      chunk_index = c.index;
      content_hash = c.content_hash;
      chunk_text = c.text;
      payload = c.payload;
      embedding = vector_text v;
      embedding_model = p.embedding_model;
    }
    ∷ chunk_rows p cid cs vs

abbrev pub max_text_bind_bytes : ℕ
max_text_bind_bytes = 32767

unfoldable pub too_long : ChunkRow → Bool
too_long r = ltb max_text_bind_bytes (length r.embedding)

-- The counts of the summary; the queues before and after that it also lists are left out.
pub record Summary : Type 0 where
  pub chunks_written : ℕ
  pub chunks_replaced : ℕ

unfoldable pub commit : {A : Type 0} → Option Text → Kb → Kb × A → Kb × Written A
commit (some error) kb after = (kb, publish_failed (db_failure error))
commit none kb after = (after.0, done after.1)

-- The transaction of `publish`.
unfoldable pub publish_in : Faults → Publication → Text → List ChunkRow → Kb → Kb × Written Summary
unfolding commit
publish_in faults p cid rows kb = elim (lock_config faults cid kb) [
  | publish_failed f ↦ (kb, publish_failed f)
  | done none ↦ (kb, publish_failed corpus_not_found_failure)
  | done (some before) ↦ elim (with_queues before p.vertical p.queue_keys) [
    | publish_failed f ↦ (kb, publish_failed f)
    | done after ↦ commit faults.at_write kb (
      record {
        corpora = put cid (some after) kb.corpora;
        chunks = other_chunks cid p.vertical kb ++ rows;
      },
      record {
        chunks_written = length rows;
        chunks_replaced = length (chunks_of cid p.vertical kb);
      },
    )
  ]
]

unfoldable pub publish : Faults → Publication → Kb → Kb × Written Summary
unfolding publish_in
publish faults p kb =
    if not (length p.chunks == length p.vectors)
    then (
      kb,
      publish_failed (record {
        reason =
            codes "Internal error: "
            ++ decimal (length p.chunks)
            ++ codes " chunks but "
            ++ decimal (length p.vectors)
            ++ codes " vectors";
        code = internal;
      }),
    )
    else if ltb p.dimension 1 || ltb 65535 p.dimension
    then (
      kb,
      publish_failed (record {
        reason = codes "Invalid vector dimension: " ++ decimal p.dimension;
        code = invalid_config;
      }),
    )
    else elim (corpus_bytes p.corpus_id_hex) [
      | none ↦ (kb, publish_failed corpus_not_found_failure)
      | some cid ↦
          if any_of too_long (chunk_rows p cid p.chunks p.vectors)
          then (
            kb,
            publish_failed (record {
              reason =
                  codes "Vectors of "
                  ++ decimal p.dimension
                  ++ codes
                      " dimensions are too large to write as text (at most about 2,000 dimensions)";
              code = invalid_config;
            }),
          )
          else publish_in faults p cid (chunk_rows p cid p.chunks p.vectors) kb
    ]

pub record Unpublished : Type 0 where
  pub corpus_found : Bool
  pub removed_from_queues : List Text
  pub chunks_deleted : ℕ

-- The transaction of `unpublish`, after the configuration is locked, if the corpus is there.
unfoldable pub unpublish_in : Faults → Text → Text → Option Config → Kb → Kb × Written Unpublished
unfolding commit
unpublish_in faults cid vertical none kb = commit faults.at_write kb (
  record kb { chunks = other_chunks cid vertical kb },
  record {
    corpus_found = false;
    removed_from_queues = [];
    chunks_deleted = length (chunks_of cid vertical kb);
  },
)
unpublish_in faults cid vertical (some before) kb = commit faults.at_write kb (
  record {
    corpora = put cid (some (remove_vertical (some before) vertical)) kb.corpora;
    chunks = other_chunks cid vertical kb;
  },
  record {
    corpus_found = true;
    removed_from_queues = queues_with_vertical (some before) vertical;
    chunks_deleted = length (chunks_of cid vertical kb);
  },
)

unfoldable pub unpublish : Faults → Text → Text → Kb → Kb × Written Unpublished
unfolding unpublish_in
unpublish faults hex vertical kb = elim (corpus_bytes hex) [
  | none ↦
      (kb, done (record { corpus_found = false; removed_from_queues = []; chunks_deleted = 0 }))
  | some cid ↦ elim (lock_config faults cid kb) [
    | publish_failed f ↦ (kb, publish_failed f)
    | done before ↦ unpublish_in faults cid vertical before kb
  ]
]

-- The transaction of `set_queues`.
unfoldable pub set_queues : Faults → Text → Text → List Text → Kb → Kb × Written Config
unfolding commit
set_queues faults hex vertical keys kb = elim (corpus_bytes hex) [
  | none ↦ (kb, publish_failed corpus_not_found_failure)
  | some cid ↦ elim (lock_config faults cid kb) [
    | publish_failed f ↦ (kb, publish_failed f)
    | done none ↦ (kb, publish_failed corpus_not_found_failure)
    | done (some before) ↦ elim (with_queues before vertical keys) [
      | publish_failed f ↦ (kb, publish_failed f)
      | done after ↦
          commit faults.at_write kb (record kb { corpora = put cid (some after) kb.corpora }, after)
    ]
  ]
]

-- `get_corpus_config`: no corpus, or a configuration that is no object, or the configuration.
unfoldable pub get_corpus_config : Text → Kb → Written (Option Config)
get_corpus_config hex kb = elim (corpus_bytes hex) [
  | none ↦ done none
  | some cid ↦ elim (find cid kb.corpora) [
    | none ↦ done none
    | some none ↦ publish_failed (record {
      reason = codes "Knowledge base configuration is not a JSON object";
      code = invalid_config;
    })
    | some (some config) ↦ done (some config)
  ]
]
