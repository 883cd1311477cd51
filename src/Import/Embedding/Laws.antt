-- ===== src/Import/Embedding/Laws.antt =====
-- Retries are bounded, and every text gets a vector of the configured dimension.
use aiva_v.Prelude.{
  ℕ, zero, suc, ◌+◌, ◌≤◌, max, ◌≡◌, refl, sym, ◌∙◌, ◌⊎◌, inl, inr, Bool, not, ◌&&◌, Option, none,
  some, List, [], ◌∷◌, ◌++◌, length, length-append, length-take, length-drop, take, drop, All,
  All-append, ◌==◌, Text, arith, Bool-cases, Option-cases,
}
use mathlib.Core.Path.{subst}
use aiva_v.Import.Embedding.{
  Reply, Result, Embedder, Log, Embedded, embedded, embedding_failed, EmbeddingFailed,
  max_retry_after, backoff, Handled, returns, fails, retries, handled, slept, embed_with_retry,
  EmbeddingOutcome, odd_vector, checked_vectors, with_batch, embed_batches, embed_texts, no_vectors,
}

backoff-le : (attempt : ℕ) (o : Option ℕ) → backoff attempt o ≤ max_retry_after
unfolding backoff
backoff-le attempt none = omega arith
backoff-le attempt (some r) = omega arith

handled-delay :
    (attempt : ℕ) (reply : Reply) (delay : ℕ) (f : EmbeddingFailed)
    → handled attempt reply ≡ retries delay f
    → delay ≤ max_retry_after
unfolding handled
handled-delay attempt reply delay f h =
    ground (arith, h, backoff-le attempt none, λ (r : Option ℕ). backoff-le attempt r)

append_assoc {ℓ} :
    {A : Type ℓ} (xs : List A) (y : A) (ys : List A) → (xs ++ y ∷ []) ++ ys ≡ xs ++ y ∷ ys
append_assoc [] y ys = refl
append_assoc (x ∷ xs) y ys = rw (append_assoc xs y ys) refl

append_nil {ℓ} : {A : Type ℓ} (xs : List A) → xs ++ [] ≡ xs
append_nil [] = refl
append_nil (x ∷ xs) = rw (append_nil xs) refl

Handled-cases :
    (h : Handled)
    → ((r : Result) × (h ≡ returns r))
      ⊎ ((f : EmbeddingFailed) × (h ≡ fails f))
      ⊎ ((d : ℕ) × (f : EmbeddingFailed) × (h ≡ retries d f))
Handled-cases (returns r) = inl (r, refl)
Handled-cases (fails f) = inr (inl (f, refl))
Handled-cases (retries d f) = inr (inr (d, f, refl))

-- The log after some attempts: a call for each, with a delay of at most a minute before each but the
-- first.
pub record Patient (retries_left : ℕ) (before after : Log) : Type 0 where
  pub delays : List ℕ
  pub slept_them : after.sleeps ≡ before.sleeps ++ delays
  pub short : All (λ d. d ≤ max_retry_after) delays
  pub few : length delays ≤ retries_left
  pub one_call_more : after.calls ≡ before.calls + length delays + 1

once : (left : ℕ) (log : Log) → Patient left log (record log { calls = log.calls + 1 })
once left log = record {
  delays = [];
  slept_them = sym (append_nil log.sleeps);
  short = tt;
  few = omega arith;
  one_call_more = omega arith;
}

-- A batch is asked for at most once more than there are retries left, with a delay of at most a minute
-- before every attempt but the first, whatever the provider answers or asks the client to wait.
pub embed_with_retry-Patient :
    (e : Embedder) (batch : List Text) (left attempt : ℕ) (log : Log)
    → Patient left log (embed_with_retry e batch left attempt log).0
unfolding embed_with_retry slept
embed_with_retry-Patient e batch zero attempt log =
    elim (Handled-cases (handled attempt (e.embed log.calls batch))) [
      | inl (r, h) ↦ rw (embed_with_retry, h) (once 0 log)
      | inr (inl (f, h)) ↦ rw (embed_with_retry, h) (once 0 log)
      | inr (inr (d, f, h)) ↦ rw (embed_with_retry, h) (once 0 log)
    ]
embed_with_retry-Patient e batch (suc left) attempt log =
    elim (Handled-cases (handled attempt (e.embed log.calls batch))) [
      | inl (r, h) ↦ rw (embed_with_retry, h) (once (suc left) log)
      | inr (inl (f, h)) ↦ rw (embed_with_retry, h) (once (suc left) log)
      | inr (inr (d, f, h)) ↦
          rw (embed_with_retry, h)
            (let p = embed_with_retry-Patient e batch left (attempt + 1) (slept d log) in
              record {
                delays = d ∷ p.delays;
                slept_them = p.slept_them ∙ append_assoc log.sleeps d p.delays;
                short = (handled-delay attempt (e.embed log.calls batch) d f h, p.short);
                few = omega (arith, p.few);
                one_call_more = p.one_call_more ∙ omega arith;
              })
    ]

odd_vector-none :
    (dimension : ℕ) (vs : List (List Text))
    → odd_vector dimension vs ≡ none
    → All (λ v. (dimension ≡ 0) ⊎ (length v ≡ dimension)) vs
unfolding odd_vector
odd_vector-none dimension [] h = tt
odd_vector-none dimension (v ∷ vs) h = elim (Bool-cases (dimension == 0)) [
  | inl z ↦ (inl (ground (arith, z)), odd_vector-none dimension vs (ground (arith, z, h)))
  | inr n ↦ elim (Bool-cases (length v == dimension)) [
    | inl k ↦ (inr (ground (arith, k)), odd_vector-none dimension vs (ground (arith, n, k, h)))
    | inr k ↦ absurd (ground (arith, n, k, h))
  ]
]

-- One vector for each text, of the configured dimension unless none is configured.
pub record Complete (dimension n : ℕ) (o : EmbeddingOutcome) : Type 0 where
  pub one_each : length o.vectors ≡ n
  pub sized : All (λ v. (dimension ≡ 0) ⊎ (length v ≡ dimension)) o.vectors

unfoldable pub IsComplete : ℕ → ℕ → Embedded EmbeddingOutcome → Type 0
IsComplete dimension n (embedded o) = Complete dimension n o
IsComplete dimension n (embedding_failed f) = Unit

Embedded-cases :
    {A : Type 0} (o : Embedded A)
    → ((a : A) × (o ≡ embedded a)) ⊎ ((f : EmbeddingFailed) × (o ≡ embedding_failed f))
Embedded-cases (embedded a) = inl (a, refl)
Embedded-cases (embedding_failed f) = inr (f, refl)

checked_vectors-none :
    (dimension : ℕ) (batch : List Text) (r : Result)
    → checked_vectors dimension batch r ≡ none
    → (length r.vectors ≡ length batch) × (odd_vector dimension r.vectors ≡ none)
unfolding checked_vectors
checked_vectors-none dimension batch r h = elim (Option-cases (odd_vector dimension r.vectors)) [
  | inl o ↦ (ground (arith, o, h), o)
  | inr (n, o) ↦ absurd (ground (arith, o, h))
]

embed_batches-IsComplete :
    (e : Embedder) (size retries_max fuel : ℕ) (ts : List Text) (o : EmbeddingOutcome) (log : Log)
    → (n : ℕ) → 1 ≤ size
    → length ts ≤ fuel
    → Complete e.dimension n o
    → IsComplete e.dimension (n + length ts) (embed_batches e size retries_max fuel ts o log).1
unfolding embed_batches IsComplete with_batch
embed_batches-IsComplete e size m fuel [] o log n s f c = record {
  one_each = omega (arith, c.one_each);
  sized = c.sized;
}
embed_batches-IsComplete e size m zero (t ∷ ts) o log n s f c = absurd (omega (arith, f))
embed_batches-IsComplete e size m (suc fuel) (t ∷ ts) o log n s f c =
    let batch = take size (t ∷ ts) in
    elim (Embedded-cases (embed_with_retry e batch m 0 log).1) [
      | inr (x, h) ↦ rw (embed_batches, h) tt
      | inl (r, h) ↦ elim (Option-cases (checked_vectors e.dimension batch r)) [
        | inr (x, k) ↦ rw (embed_batches, h, k) tt
        | inl k ↦
            rw (embed_batches, h, k)
              (let c2 = checked_vectors-none e.dimension batch r k in
                let one : length (o.vectors ++ r.vectors) ≡ n + length batch =
                  omega (arith, length-append o.vectors r.vectors, c.one_each, c2.0) in
                let cut = length-take size (t ∷ ts) in
                let left = length-drop size (t ∷ ts) in
                let rest =
                  embed_batches-IsComplete e size m fuel (drop size (t ∷ ts)) (with_batch r o)
                    (embed_with_retry e batch m 0 log).0 (n + length batch) s
                    (omega (arith, left, f, s))
                    (record {
                      one_each = one;
                      sized =
                          All-append _ o.vectors r.vectors c.sized
                            (odd_vector-none e.dimension r.vectors c2.1);
                    }) in
                subst
                  (λ k.
                    IsComplete e.dimension k
                      (embed_batches e size m fuel (drop size (t ∷ ts)) (with_batch r o)
                        (embed_with_retry e batch m 0 log).0).1)
                  (omega (arith, cut, left)) rest)
      ]
    ]

-- If the embedding of a document's texts succeeds, there is one vector for each text, each of the
-- configured dimension unless none is configured, whatever the size of the batches is set to.
pub embed_texts-IsComplete :
    (texts : List Text) (e : Embedder) (batch_size max_retries : ℕ) (has_connection : Bool)
    → (log : Log)
    → IsComplete e.dimension
        (length texts)
        (embed_texts texts e batch_size max_retries has_connection log).1
unfolding embed_texts IsComplete
embed_texts-IsComplete [] e batch_size m has_connection log = record { one_each = refl; sized = tt }
embed_texts-IsComplete (t ∷ ts) e batch_size m has_connection log =
    elim (Bool-cases (e.needs_connection && not has_connection)) [
      | inl k ↦ rw k tt
      | inr k ↦ rw k (
          subst
            (λ k.
              IsComplete e.dimension k
                (embed_batches e (max 1 batch_size) m (length (t ∷ ts)) (t ∷ ts) no_vectors log).1)
            (omega arith)
            (embed_batches-IsComplete e (max 1 batch_size) m (length (t ∷ ts)) (t ∷ ts) no_vectors
              log 0 (omega arith) (omega arith) (record { one_each = refl; sized = tt })))
    ]
