-- ===== src/Import/Store/Laws.antt =====
-- What a write of the knowledge base leaves behind, whether it succeeds or fails.
use aiva_v.Prelude.{
  ◌≡◌, refl, ap, ◌∙◌, inl, inr, Bool, true, false, not, ◌||◌, none, some, List, [], ◌∷◌, ◌++◌,
  length, keep_if, any_of, ltb, ◌==◌, Text, strip, text_eq, text_eq_refl, Map, find, put, find-put,
  member, ◌⊎◌, arith, Bool-cases, Option-cases, ==_iff,
}
use aiva_v.DocIntel.Chunking.Build.{PreparedChunk}
use aiva_v.Queues.Catalog.{Config, is_named}
use aiva_v.Queues.Assign.{
  Assigned, set_vertical_queues, assigned, unknown_queue_error, queues_with_vertical,
}
use aiva_v.Queues.Assign.Listed.{queues_with_vertical-set_vertical_queues}
use aiva_v.Import.Store.{
  ChunkRow, Kb, PublishFailed, Written, done, publish_failed, corpus_bytes, Faults, lock_config,
  with_queues, is_of, chunks_of, other_chunks, Publication, chunk_rows, too_long, Summary, commit,
  publish_in, publish,
}

module _ (p : ChunkRow → Bool) where
  pub keep_if-append : (xs ys : List ChunkRow) → keep_if p (xs ++ ys) ≡ keep_if p xs ++ keep_if p ys
  keep_if-append [] ys = refl
  keep_if-append (x ∷ xs) ys = ground (arith, keep_if-append xs ys)

  pub keep_if-others : (xs : List ChunkRow) → keep_if p (keep_if (λ r. not (p r)) xs) ≡ []
  keep_if-others [] = refl
  keep_if-others (x ∷ xs) = ground (arith, keep_if-others xs)

  pub keep_if-twice : (xs : List ChunkRow) → keep_if p (keep_if p xs) ≡ keep_if p xs
  keep_if-twice [] = refl
  keep_if-twice (x ∷ xs) = ground (arith, keep_if-twice xs)

append_nil : (xs : List ChunkRow) → xs ++ [] ≡ xs
append_nil [] = refl
append_nil (x ∷ xs) = rw (append_nil xs) refl

module _ (cid : Text) (p : Publication) where
  kept-chunk_rows :
      (cs : List PreparedChunk) (vs : List (List Text))
      → keep_if (is_of cid p.vertical) (chunk_rows p cid cs vs) ≡ chunk_rows p cid cs vs
  unfolding chunk_rows is_of
  kept-chunk_rows [] vs = refl
  kept-chunk_rows (c ∷ cs) [] = refl
  kept-chunk_rows (c ∷ cs) (v ∷ vs) =
      ground (arith, kept-chunk_rows cs vs, text_eq_refl cid, text_eq_refl p.vertical)

  dropped-chunk_rows :
      (cs : List PreparedChunk) (vs : List (List Text))
      → keep_if (λ r. not (is_of cid p.vertical r)) (chunk_rows p cid cs vs) ≡ []
  unfolding chunk_rows is_of
  dropped-chunk_rows [] vs = refl
  dropped-chunk_rows (c ∷ cs) [] = refl
  dropped-chunk_rows (c ∷ cs) (v ∷ vs) =
      ground (arith, dropped-chunk_rows cs vs, text_eq_refl cid, text_eq_refl p.vertical)

pub find-put_self {ℓ} : {V : Type ℓ} (k : Text) (v : V) (m : Map V) → find k (put k v m) ≡ some v
find-put_self k v m = find-put k k v m ∙ rw (text_eq_refl k) refl

pub find-put_other {ℓ} :
    {V : Type ℓ} (k j : Text) (v : V) (m : Map V)
    → text_eq k j ≡ false
    → find j (put k v m) ≡ find j m
find-put_other k j v m h = find-put k j v m ∙ rw h refl

-- A knowledge base in which a document has been published: the corpus is there and its configuration
-- was rewritten by the assignment, the document's chunks are the given ones in order, one for each
-- vector, and it is found by the selected queues alone; other documents and corpora are as before.
pub record Replaced (p : Publication) (kb kb' : Kb) : Type 0 where
  pub cid : Text
  pub is_cid : corpus_bytes p.corpus_id_hex ≡ some cid
  pub before : Config
  pub had : find cid kb.corpora ≡ some (some before)
  pub after : Config
  pub has : find cid kb'.corpora ≡ some (some after)
  pub assigns : set_vertical_queues (some before) p.vertical p.queue_keys ≡ assigned after
  pub finds :
      (name : Text)
      → member name (queues_with_vertical (some after) p.vertical)
        ≡ any_of (λ k. text_eq (strip k) name) p.queue_keys
  pub chunks : chunks_of cid p.vertical kb' ≡ chunk_rows p cid p.chunks p.vectors
  pub paired : length p.chunks ≡ length p.vectors
  pub others : other_chunks cid p.vertical kb' ≡ other_chunks cid p.vertical kb
  pub corpora : (c : Text) → text_eq cid c ≡ false → find c kb'.corpora ≡ find c kb.corpora

unfoldable pub IsPublication : Publication → Kb → Kb → Written Summary → Type 0
IsPublication p kb kb' (publish_failed f) = kb' ≡ kb
IsPublication p kb kb' (done s) = Replaced p kb kb'

abbrev pub Published : Publication → Kb → Kb × Written Summary → Type 0
Published p kb out = IsPublication p kb out.0 out.1

Assigned-cases :
    (a : Assigned)
    → ((c : Config) × (a ≡ assigned c)) ⊎ ((key : Text) × (a ≡ unknown_queue_error key))
Assigned-cases (assigned c) = inl (c, refl)
Assigned-cases (unknown_queue_error key) = inr (key, refl)

pub done_eq : {A : Type 0} {a b : A} → done a ≡ done b → a ≡ b
done_eq h = cc

pub failed_not_done : {A : Type 0} {a : A} {f : PublishFailed} → publish_failed f ≡ done a → ⊥
failed_not_done h = cc

pub Written-cases :
    {A : Type 0} (w : Written A)
    → ((a : A) × (w ≡ done a)) ⊎ ((f : PublishFailed) × (w ≡ publish_failed f))
Written-cases (done a) = inl (a, refl)
Written-cases (publish_failed f) = inr (f, refl)

with_queues-assigned :
    (before : Config) (vertical : Text) (keys : List Text) (after : Config)
    → with_queues before vertical keys ≡ done after
    → set_vertical_queues (some before) vertical keys ≡ assigned after
unfolding with_queues
with_queues-assigned before vertical keys after h =
    elim (Assigned-cases (set_vertical_queues (some before) vertical keys)) [
      | inl (c, e) ↦
          let same : done c ≡ done after = rw (with_queues, e) at h in
          e ∙ ap assigned (done_eq same)
      | inr (key, e) ↦ absurd (failed_not_done (rw (with_queues, e) at h))
    ]

pub lock_config-found :
    (faults : Faults) (cid : Text) (kb : Kb) (before : Config)
    → lock_config faults cid kb ≡ done (some before)
    → find cid kb.corpora ≡ some (some before)
unfolding lock_config
lock_config-found faults cid kb before h = ground (arith, h)

after_commit :
    (faults : Faults) (p : Publication) (cid : Text) (kb : Kb) (before after : Config)
    → is_named p.vertical ≡ true
    → corpus_bytes p.corpus_id_hex ≡ some cid
    → length p.chunks ≡ length p.vectors
    → find cid kb.corpora ≡ some (some before)
    → set_vertical_queues (some before) p.vertical p.queue_keys ≡ assigned after
    → Replaced p kb (record {
      corpora = put cid (some after) kb.corpora;
      chunks = other_chunks cid p.vertical kb ++ chunk_rows p cid p.chunks p.vectors;
    })
unfolding chunks_of other_chunks
after_commit faults p cid kb before after named is paired had assigns =
    let mine = is_of cid p.vertical in
    let rows = chunk_rows p cid p.chunks p.vectors in
    let others = keep_if (λ r. not (mine r)) kb.chunks in
    record {
      cid = cid;
      is_cid = is;
      before = before;
      had = had;
      after = after;
      has = find-put_self cid (some after) kb.corpora;
      assigns = assigns;
      finds =
          queues_with_vertical-set_vertical_queues (some before) p.vertical p.queue_keys after named
            assigns;
      chunks =
          keep_if-append mine others rows
          ∙ rw (keep_if-others mine kb.chunks) (kept-chunk_rows cid p p.chunks p.vectors);
      paired = paired;
      others =
          keep_if-append (λ r. not (mine r)) others rows
          ∙ rw (dropped-chunk_rows cid p p.chunks p.vectors)
              (append_nil _ ∙ keep_if-twice (λ r. not (mine r)) kb.chunks);
      corpora = λ c e. find-put_other cid c (some after) kb.corpora e;
    }

publish_in-Published :
    (faults : Faults) (p : Publication) (cid : Text) (kb : Kb)
    → is_named p.vertical ≡ true
    → corpus_bytes p.corpus_id_hex ≡ some cid
    → length p.chunks ≡ length p.vectors
    → Published p kb (publish_in faults p cid (chunk_rows p cid p.chunks p.vectors) kb)
unfolding IsPublication publish_in
publish_in-Published faults p cid kb named is paired =
    elim (Written-cases (lock_config faults cid kb)) [
      | inr (f, e) ↦ rw (publish_in, e) refl
      | inl (none, e) ↦ rw (publish_in, e) refl
      | inl (some before, e) ↦ elim (Written-cases (with_queues before p.vertical p.queue_keys)) [
        | inr (f, q) ↦ rw (publish_in, e, q) refl
        | inl (after, q) ↦ elim (Option-cases faults.at_write) [
          | inr (error, w) ↦ rw (publish_in, e, q, commit, w) refl
          | inl w ↦
              rw (publish_in, e, q, commit, w)
                (after_commit faults p cid kb before after named is paired
                  (lock_config-found faults cid kb before e)
                  (with_queues-assigned before p.vertical p.queue_keys after q))
        ]
      ]
    ]

-- A publication of a document whose vertical is not blank either fails, whatever the reason, and the
-- knowledge base is as it was; or it succeeds, and then the corpus holds exactly the document's
-- chunks, in order and one for each vector, exactly the selected queues find the document, and all
-- other documents' chunks and all other corpora are untouched.
pub publish-Published :
    (faults : Faults) (p : Publication) (kb : Kb)
    → is_named p.vertical ≡ true
    → Published p kb (publish faults p kb)
unfolding IsPublication publish
publish-Published faults p kb named = elim (Bool-cases (length p.chunks == length p.vectors)) [
  | inr e ↦ rw (publish, e) refl
  | inl e ↦ elim (Bool-cases (ltb p.dimension 1 || ltb 65535 p.dimension)) [
    | inl d ↦ rw (publish, e, d) refl
    | inr d ↦ elim (Option-cases (corpus_bytes p.corpus_id_hex)) [
      | inl c ↦ rw (publish, e, d, c) refl
      | inr (cid, c) ↦ elim (Bool-cases (any_of too_long (chunk_rows p cid p.chunks p.vectors))) [
        | inl l ↦ rw (publish, e, d, c, l) refl
        | inr l ↦
            rw (publish, e, d, c, l)
              (publish_in-Published faults p cid kb named c
                ((==_iff (length p.chunks) (length p.vectors)).0 e))
      ]
    ]
  ]
]
