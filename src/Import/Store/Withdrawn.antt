-- ===== src/Import/Store/Withdrawn.antt =====
-- What unpublishing leaves behind.
use aiva_v.Prelude.{
  ◌≡◌, refl, sym, ap, ◌∙◌, inl, inr, true, false, Option, none, some, [], Text, text_eq, find, put,
  member, arith, Option-cases,
}
use aiva_v.Queues.Catalog.{Config, is_named, verticals_of, default_queues}
use aiva_v.Queues.Assign.{remove_vertical, queues_with_vertical}
use aiva_v.Queues.Assign.Listed.{member-queues_with_vertical}
use aiva_v.Queues.Assign.Removed.{remove_vertical-finds}
use aiva_v.Import.Store.{
  Kb, Written, done, publish_failed, corpus_bytes, Faults, lock_config, is_of, chunks_of,
  other_chunks, commit, Unpublished, unpublish_in, unpublish,
}
use aiva_v.Import.Store.Laws.{
  keep_if-others, keep_if-twice, find-put_self, find-put_other, Written-cases, lock_config-found,
}

-- A vertical that no default queue has.
abbrev pub IsCustom : Text → Type 0
IsCustom vertical =
    (is_named vertical ≡ true)
    × ((name : Text) → member vertical (verticals_of (find name default_queues)) ≡ false)

-- A knowledge base without a document: the corpus holds none of its chunks, no queue finds it, and other
-- documents' chunks and other corpora are as before.
pub record Withdrawn (hex vertical : Text) (kb kb' : Kb) : Type 0 where
  pub chunks : (cid : Text) → corpus_bytes hex ≡ some cid → chunks_of cid vertical kb' ≡ []
  pub finds :
      (cid : Text)
      → corpus_bytes hex ≡ some cid
      → (before : Config) → find cid kb.corpora ≡ some (some before)
      → (after : Config) × (find cid kb'.corpora ≡ some (some after))
        × ((name : Text) → member name (queues_with_vertical (some after) vertical) ≡ false)
  pub others :
      (cid : Text)
      → corpus_bytes hex ≡ some cid
      → other_chunks cid vertical kb' ≡ other_chunks cid vertical kb
  pub corpora :
      (cid c : Text)
      → corpus_bytes hex ≡ some cid
      → text_eq cid c ≡ false
      → find c kb'.corpora ≡ find c kb.corpora

some_eq {ℓ} : {A : Type ℓ} {a b : A} → some a ≡ some b → a ≡ b
some_eq h = cc

lock_config-absent :
    (faults : Faults) (cid : Text) (kb : Kb)
    → lock_config faults cid kb ≡ done none
    → find cid kb.corpora ≡ none
unfolding lock_config
lock_config-absent faults cid kb h = ground (arith, h)

unfoldable pub IsWithdrawal : Text → Text → Kb → Kb → Written Unpublished → Type 0
IsWithdrawal hex vertical kb kb' (publish_failed f) = kb' ≡ kb
IsWithdrawal hex vertical kb kb' (done u) = Withdrawn hex vertical kb kb'

abbrev pub Withdrawal : Text → Text → Kb → Kb × Written Unpublished → Type 0
Withdrawal hex vertical kb out = IsWithdrawal hex vertical kb out.0 out.1

module _ (hex vertical cid : Text) (kb : Kb) (is : corpus_bytes hex ≡ some cid) where
  same_cid : (c : Text) → corpus_bytes hex ≡ some c → cid ≡ c
  same_cid c e = some_eq (sym is ∙ e)

  absent :
      find cid kb.corpora ≡ none
      → Withdrawn hex vertical kb (record kb { chunks = other_chunks cid vertical kb })
  unfolding chunks_of other_chunks
  absent gone = record {
    chunks = λ c e. rw (sym (same_cid c e)) (keep_if-others (is_of cid vertical) kb.chunks);
    finds = λ c e before had.
        let clash : none ≡ some (some before) =
          sym gone ∙ ap (λ x. find x kb.corpora) (same_cid c e) ∙ had in
        absurd (ground (arith, clash));
    others = λ c e. rw (sym (same_cid c e)) (keep_if-twice _ kb.chunks);
    corpora = λ c d e n. refl;
  }

  removed :
      (before : Config)
      → IsCustom vertical
      → find cid kb.corpora ≡ some (some before)
      → Withdrawn hex vertical kb (record {
        corpora = put cid (some (remove_vertical (some before) vertical)) kb.corpora;
        chunks = other_chunks cid vertical kb;
      })
  unfolding chunks_of other_chunks
  removed before custom had = record {
    chunks = λ c e. rw (sym (same_cid c e)) (keep_if-others (is_of cid vertical) kb.chunks);
    finds = λ c e b h. (
      remove_vertical (some before) vertical,
      rw (sym (same_cid c e)) (find-put_self cid _ kb.corpora),
      λ name.
          member-queues_with_vertical (some (remove_vertical (some before) vertical)) vertical name
          ∙ remove_vertical-finds (some before) vertical custom.0 custom.1 name,
    );
    others = λ c e. rw (sym (same_cid c e)) (keep_if-twice _ kb.chunks);
    corpora = λ c d e n. find-put_other cid d _ kb.corpora (rw (same_cid c e) n);
  }

  unpublish_in-Withdrawal :
      (faults : Faults) (before : Option Config)
      → IsCustom vertical
      → lock_config faults cid kb ≡ done before
      → Withdrawal hex vertical kb (unpublish_in faults cid vertical before kb)
  unfolding IsWithdrawal unpublish_in
  unpublish_in-Withdrawal faults none custom e = elim (Option-cases faults.at_write) [
    | inr (error, w) ↦ rw (commit, w) refl
    | inl w ↦ rw (commit, w) (absent (lock_config-absent faults cid kb e))
  ]
  unpublish_in-Withdrawal faults (some before) custom e = elim (Option-cases faults.at_write) [
    | inr (error, w) ↦ rw (commit, w) refl
    | inl w ↦ rw (commit, w) (removed before custom (lock_config-found faults cid kb before e))
  ]

-- Unpublishing a document whose vertical is not blank and belongs to no default queue either fails, and
-- the knowledge base is as it was; or, whatever was published before, the corpus then holds none of
-- its chunks, no queue finds it, and other documents' chunks and other corpora are untouched.
pub unpublish-Withdrawal :
    (faults : Faults) (hex vertical : Text) (kb : Kb)
    → IsCustom vertical
    → Withdrawal hex vertical kb (unpublish faults hex vertical kb)
unfolding IsWithdrawal unpublish
unpublish-Withdrawal faults hex vertical kb custom = elim (Option-cases (corpus_bytes hex)) [
  | inl c ↦
      rw (unpublish, c)
        (record {
          chunks = λ cid e. absurd (ground (arith, sym c ∙ e));
          finds = λ cid e before had. absurd (ground (arith, sym c ∙ e));
          others = λ cid e. refl;
          corpora = λ cid d e n. refl;
        })
  | inr (cid, c) ↦ elim (Written-cases (lock_config faults cid kb)) [
    | inr (f, e) ↦ rw (unpublish, c, e) refl
    | inl (before, e) ↦
        rw (unpublish, c, e) (unpublish_in-Withdrawal hex vertical cid kb c faults before custom e)
  ]
]
