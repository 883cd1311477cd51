-- ===== src/Import/Embedding.antt =====
-- backend/doc_intel/embedding.py: the texts of a document are embedded in batches, with retries. The
-- provider is a parameter: what it answers to its n-th call. A component of a vector is the text that
-- the knowledge base stores of it. Delays are in milliseconds. A failure is its kind, with the values
-- that its text shows; the text itself, which hides the keys in it, is not modelled.
pub mod Laws
use aiva_v.Prelude.{
  ℕ, zero, suc, ◌+◌, ◌*◌, ◌^◌, min, max, Bool, true, false, not, ◌&&◌, ◌||◌, Option, none, some,
  List, [], ◌∷◌, ◌++◌, length, take, drop, any_of, leb, ltb, ◌==◌, if◌then◌else◌, Text,
}

pub record Result : Type 0 where
  pub vectors : List (List Text)
  pub estimated_tokens : ℕ
  pub api_total_tokens : Option ℕ

-- What a call of the provider returns or raises. An HTTP status comes with the `Retry-After` header,
-- where it is a number, and the provider's message.
pub data Reply : Type 0 where
  result : Result → Reply
  http_status_error : ℕ → Option ℕ → Text → Reply
  timeout_exception : Reply
  transport_error : Text → Reply
  database_error : Text → Reply
  unexpected_response : Text → Reply
  no_api_key : Reply
  value_error : Text → Reply

pub record Embedder : Type 0 where
  pub dimension : ℕ
  pub needs_connection : Bool
  pub embed : ℕ → List Text → Reply

-- `EmbeddingFailed`, with the number of retries where its text tells it.
pub data EmbeddingFailed : Type 0 where
  no_connection no_key : EmbeddingFailed
  rejected : ℕ → ℕ → Text → EmbeddingFailed
  timed_out : ℕ → EmbeddingFailed
  unreachable : Text → ℕ → EmbeddingFailed
  in_database : Text → EmbeddingFailed
  malformed : Text → EmbeddingFailed
  refused : Text → EmbeddingFailed
  wrong_count : ℕ → ℕ → EmbeddingFailed
  wrong_size : ℕ → ℕ → EmbeddingFailed

-- The calls made so far, and the delays slept.
pub record Log : Type 0 where
  pub calls : ℕ
  pub sleeps : List ℕ

pub data Embedded {ℓ} (A : Type ℓ) : Type ℓ where
  embedded : A → Embedded A
  embedding_failed : EmbeddingFailed → Embedded A

abbrev pub max_backoff : ℕ
max_backoff = 30000

abbrev pub max_retry_after : ℕ
max_retry_after = 60000

-- `_backoff`
unfoldable pub backoff : ℕ → Option ℕ → ℕ
backoff attempt none = min max_backoff (1000 * 2 ^ attempt)
backoff attempt (some retry_after) =
    min max_retry_after (max (min max_backoff (1000 * 2 ^ attempt)) retry_after)

-- A reply as `_embed_with_retry` takes it: a result, a failure at once, or one that is retried after a
-- delay while retries are left.
pub data Handled : Type 0 where
  returns : Result → Handled
  fails : EmbeddingFailed → Handled
  retries : ℕ → EmbeddingFailed → Handled

unfoldable pub handled : ℕ → Reply → Handled
unfolding backoff
handled attempt (result r) = returns r
handled attempt (http_status_error code retry_after detail) =
    if code == 429 || leb 500 code
    then retries (backoff attempt retry_after) (rejected code attempt detail)
    else fails (rejected code attempt detail)
handled attempt timeout_exception = retries (backoff attempt none) (timed_out attempt)
handled attempt (transport_error detail) =
    retries (backoff attempt none) (unreachable detail attempt)
handled attempt (database_error text) = fails (in_database text)
handled attempt (unexpected_response text) = fails (malformed text)
handled attempt no_api_key = fails no_key
handled attempt (value_error text) = fails (refused text)

abbrev pub called : Log → Log
called log = record log { calls = log.calls + 1 }

unfoldable pub slept : ℕ → Log → Log
slept delay log = record { calls = log.calls + 1; sleeps = log.sleeps ++ delay ∷ [] }

-- `_embed_with_retry`, with so many retries left after so many attempts.
unfoldable pub embed_with_retry : Embedder → List Text → ℕ → ℕ → Log → Log × Embedded Result
unfolding handled slept
embed_with_retry e batch zero attempt log = elim (handled attempt (e.embed log.calls batch)) [
  | returns r ↦ (called log, embedded r)
  | fails f ↦ (called log, embedding_failed f)
  | retries delay f ↦ (called log, embedding_failed f)
]
embed_with_retry e batch (suc left) attempt log = elim (handled attempt (e.embed log.calls batch)) [
  | returns r ↦ (called log, embedded r)
  | fails f ↦ (called log, embedding_failed f)
  | retries delay f ↦ embed_with_retry e batch left (attempt + 1) (slept delay log)
]

pub record EmbeddingOutcome : Type 0 where
  pub vectors : List (List Text)
  pub api_tokens : Option ℕ
  pub estimated_tokens : ℕ
  pub batches : ℕ

-- `EmbeddingOutcome.tokens`
unfoldable pub tokens : EmbeddingOutcome → ℕ
tokens o = elim (o.api_tokens) [ none ↦ o.estimated_tokens | some n ↦ n ]

-- The first vector that has another dimension than the configured one, if one is.
unfoldable pub odd_vector : ℕ → List (List Text) → Option ℕ
odd_vector dimension [] = none
odd_vector dimension (v ∷ vs) =
    if not (dimension == 0) && not (length v == dimension)
    then some (length v)
    else odd_vector dimension vs

-- The checks on the vectors of a batch.
unfoldable pub checked_vectors : ℕ → List Text → Result → Option EmbeddingFailed
checked_vectors dimension batch r =
    if not (length r.vectors == length batch)
    then some (wrong_count (length r.vectors) (length batch))
    else elim (odd_vector dimension r.vectors) [
      | none ↦ none
      | some n ↦ some (wrong_size n dimension)
    ]

add_tokens : Option ℕ → Option ℕ → Option ℕ
add_tokens total none = total
add_tokens none (some n) = some n
add_tokens (some m) (some n) = some (m + n)

unfoldable pub with_batch : Result → EmbeddingOutcome → EmbeddingOutcome
unfolding add_tokens
with_batch r o = record {
  vectors = o.vectors ++ r.vectors;
  api_tokens = add_tokens o.api_tokens r.api_total_tokens;
  estimated_tokens = o.estimated_tokens + r.estimated_tokens;
  batches = o.batches + 1;
}

-- The loop over the batches, on fuel: as many steps as there are texts are enough.
unfoldable pub embed_batches :
    Embedder → ℕ → ℕ → ℕ → List Text → EmbeddingOutcome → Log → Log × Embedded EmbeddingOutcome
unfolding with_batch
embed_batches e size max_retries fuel [] o log = (log, embedded o)
embed_batches e size max_retries zero (t ∷ ts) o log = (log, embedded o)
embed_batches e size max_retries (suc fuel) (t ∷ ts) o log =
    let batch = take size (t ∷ ts) in
    let reply = embed_with_retry e batch max_retries 0 log in
    elim (reply.1) [
      | embedding_failed f ↦ (reply.0, embedding_failed f)
      | embedded r ↦ elim (checked_vectors e.dimension batch r) [
        | some f ↦ (reply.0, embedding_failed f)
        | none ↦ embed_batches e size max_retries fuel (drop size (t ∷ ts)) (with_batch r o) reply.0
      ]
    ]

abbrev pub no_vectors : EmbeddingOutcome
no_vectors = record { vectors = []; api_tokens = none; estimated_tokens = 0; batches = 0 }

-- `embed_texts`, with whether there is a connection to the knowledge base to be had.
unfoldable pub embed_texts :
    List Text → Embedder → ℕ → ℕ → Bool → Log → Log × Embedded EmbeddingOutcome
embed_texts [] e batch_size max_retries has_connection log = (log, embedded no_vectors)
embed_texts (t ∷ ts) e batch_size max_retries has_connection log =
    if e.needs_connection && not has_connection
    then (log, embedding_failed no_connection)
    else embed_batches e (max 1 batch_size) max_retries (length (t ∷ ts)) (t ∷ ts) no_vectors log
