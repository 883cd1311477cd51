-- ===== src/Import/Service/Laws.antt =====
-- What the administrator's actions leave in the registry and in the knowledge base.
use aiva_v.Prelude.{
  ℕ, ◌≡◌, refl, sym, ◌∙◌, ◌⊎◌, inl, inr, Bool, true, false, ◌||◌, Option, none, some, List, [], ◌∷◌,
  ◌++◌, Text, text_eq, arith, Bool-cases, Option-cases, keep_if, All, Map, find, member, is_space,
  codes,
}
use mathlib.Core.Path.{subst}
use aiva_v.DocIntel.Chunking.Build.{kb_vertical_for}
use aiva_v.DocIntel.Chunking.Header.{decimal}
use aiva_v.Queues.Catalog.{Queue, default_queues, verticals_of}
use aiva_v.Queues.Catalog.Laws.{is_named_starting}
use aiva_v.Import.Rows.{
  upload, stage_failed, stage_completed, stage_pending, stage_skipped, doc_queued, doc_processing,
  doc_failed, doc_unpublished, doc_published, Row, at, put_at, each_stage, max_error_bytes,
}
use aiva_v.Import.Textutil.{truncated, truncate_utf8}
use aiva_v.Import.Repo.{
  Docs, NewDocument, new_row, insert_document, is_duplicate, least_id, find_active_duplicate,
  has_status, mark_unpublished,
}
use aiva_v.Import.Repo.Moves.{inserting}
use aiva_v.Import.Repo.Moves.Rows.{Shape, status_of}
use aiva_v.Import.Repo.Moves.Steps.{IsSound}
use aiva_v.Import.Store.{Kb, Written, done, publish_failed, Faults, Unpublished}
use aiva_v.Import.Store.Withdrawn.{IsCustom, Withdrawn, IsWithdrawal, unpublish-Withdrawal}
use aiva_v.Import.Pipeline.Publish.{vertical_of}
use aiva_v.Import.Pipeline.Calls.{
  HasRow, mark_unpublished-HasRow, mark_unpublished-unmade, mark_unpublished-made,
}
use aiva_v.Import.Service.{
  Reply, ok, error, Stored, SavedUpload, saved, upload_rejected, not_stored, Batch, rejected,
  accepted, insert_rejected, store_one, unpublish_end, marked, unpublish_row,
}

rejected-IsSound :
    (now started : ℕ) (b : Batch) (filename : Text) (stored : Option Stored) (reason : Text)
    → IsSound (inserting (rejected now started b filename stored reason))
unfolding IsSound Shape rejected new_row at put_at truncate_utf8
rejected-IsSound now started b filename stored reason moment id =
    (upload, refl, refl, truncated reason max_error_bytes, refl, moment, refl)

pub accepted-IsSound :
    (now started : ℕ) (b : Batch) (f : Stored) → IsSound (inserting (accepted now started b f))
unfolding IsSound Shape accepted new_row truncate_utf8
accepted-IsSound now started b f moment id = (refl, refl, refl)

-- No document of the corpus with this content is queued, processed or published.
abbrev IsNew : Text → Text → Docs → Type 0
IsNew corpus_id sha256 d = All (λ r. is_duplicate corpus_id sha256 r ≡ false) d.rows

least_id-some : (r : Row) (rs : List Row) → least_id (r ∷ rs) ≡ none → ⊥
unfolding least_id
least_id-some r rs h = elim (Option-cases (least_id rs)) [
  | inl e ↦ absurd (ground (arith, e, h))
  | inr (i, e) ↦ absurd (ground (arith, e, h))
]

find_active_duplicate-none :
    (corpus_id sha256 : Text) (d : Docs)
    → find_active_duplicate corpus_id sha256 d ≡ none
    → IsNew corpus_id sha256 d
unfolding find_active_duplicate
find_active_duplicate-none corpus_id sha256 d h = go d.rows h
  where
    go :
        (rs : List Row)
        → least_id (keep_if (is_duplicate corpus_id sha256) rs) ≡ none
        → All (λ r. is_duplicate corpus_id sha256 r ≡ false) rs
    go [] e = tt
    go (r ∷ rs) e = elim (Bool-cases (is_duplicate corpus_id sha256 r)) [
      | inr k ↦ (k, go rs (rw k at e))
      | inl k ↦ absurd (least_id-some r (keep_if (is_duplicate corpus_id sha256) rs) (rw k at e))
    ]

none-duplicate :
    (p : Row → Bool) (rs : List Row) → All (λ r. p r ≡ false) rs → least_id (keep_if p rs) ≡ none
unfolding least_id
none-duplicate p [] h = refl
none-duplicate p (r ∷ rs) h = rw h.0 (none-duplicate p rs h.1)

find_active_duplicate-some :
    (corpus_id sha256 : Text) (d : Docs) (i : ℕ)
    → find_active_duplicate corpus_id sha256 d ≡ some i
    → IsNew corpus_id sha256 d
    → ⊥
unfolding find_active_duplicate
find_active_duplicate-some corpus_id sha256 d i e new =
    let c : none ≡ some i = sym (none-duplicate (is_duplicate corpus_id sha256) d.rows new) ∙ e in
    cc

-- The row that an upload inserts: queued, with the hash of the file, if the file was stored and no active
-- document of the corpus has its content; failed at the upload otherwise, and only otherwise. It is
-- for the corpus and the queues of the batch.
unfoldable pub IsUpload : Batch → SavedUpload → Docs → Bool → NewDocument → Type 0
IsUpload b outcome d true n =
    (f : Stored) × (outcome ≡ saved f)
    × IsNew b.corpus_id f.sha256 d
    × (n.status ≡ doc_queued)
    × (n.stages ≡ put_at upload stage_completed (each_stage stage_pending))
    × (n.sha256 ≡ some f.sha256)
    × (n.corpus_id ≡ b.corpus_id)
    × (n.queue_keys ≡ b.queue_keys)
IsUpload b outcome d false n =
    ((f : Stored) → outcome ≡ saved f → IsNew b.corpus_id f.sha256 d → ⊥)
    × (n.status ≡ doc_failed)
    × (n.failed_stage ≡ some upload)
    × (n.stages ≡ put_at upload stage_failed (each_stage stage_skipped))
    × (n.corpus_id ≡ b.corpus_id)
    × (n.queue_keys ≡ b.queue_keys)

saved_eq : {f g : Stored} → saved f ≡ saved g → f ≡ g
saved_eq h = cc

-- Each file of an upload inserts exactly one row, whose id is returned, and which satisfies the invariant
-- of the registry. It is queued and counted as accepted if the file was stored and, when that was
-- looked up, no queued, processed or published document of the corpus had its content; it is
-- rejected and has failed at the upload only if the file was not stored or such a document was there.
pub store_one-IsUpload :
    (now started : ℕ) (b : Batch) (others : Docs → Docs) (filename : Text) (outcome : SavedUpload)
    (d : Docs)
    → (n : NewDocument) × ((store_one now started b others filename outcome d).0
        ≡ (insert_document now n (others d)).0)
      × ((store_one now started b others filename outcome d).1.0 ≡ (others d).next_id)
      × IsSound (inserting n)
      × IsUpload b outcome d (store_one now started b others filename outcome d).1.1 n
unfolding store_one insert_rejected insert_document IsUpload accepted rejected
store_one-IsUpload now started b others filename (upload_rejected reason) d = (
  rejected now started b filename none reason,
  refl,
  refl,
  rejected-IsSound now started b filename none reason,
  (λ f e. cc, refl, refl, refl, refl, refl),
)
store_one-IsUpload now started b others filename (not_stored reason) d = (
  rejected now started b filename none reason,
  refl,
  refl,
  rejected-IsSound now started b filename none reason,
  (λ f e. cc, refl, refl, refl, refl, refl),
)
store_one-IsUpload now started b others filename (saved f) d =
    elim (Option-cases (find_active_duplicate b.corpus_id f.sha256 d)) [
      | inl e ↦
          rw (store_one, e)
            (
              accepted now started b f,
              refl,
              refl,
              accepted-IsSound now started b f,
              (
                f,
                refl,
                find_active_duplicate-none b.corpus_id f.sha256 d e,
                refl,
                refl,
                refl,
                refl,
                refl,
              ),
            )
      | inr (duplicate, e) ↦
          rw (store_one, e)
            (
              rejected now started b f.filename (some f) _,
              refl,
              refl,
              rejected-IsSound now started b f.filename (some f) _,
              (
                λ g same. find_active_duplicate-some b.corpus_id g.sha256 d duplicate (
                    subst (λ x. find_active_duplicate b.corpus_id x.sha256 d ≡ some duplicate)
                      (saved_eq same) e),
                refl,
                refl,
                refl,
                refl,
                refl,
              ),
            )
    ]

-- What unpublishing a document returns, against what it leaves. `others` is what other sessions did to the
-- registry between the reading of the row and its update, and `raises` whether that update raises.
unfoldable pub IsUnpublished :
    Bool → (Docs → Docs) → Row → Docs → Kb → Docs × Kb → Reply (Unit {0}) → Type 0
IsUnpublished raises others row d kb after (ok u) =
    ((row.status ≡ doc_unpublished) × (after ≡ (d, kb)))
    ⊎ ((raises ≡ false)
        × HasRow row.id doc_unpublished after.0
        × Withdrawn row.corpus_id (vertical_of row) kb after.1)
IsUnpublished raises others row d kb after (error e) =
    (after ≡ (d, kb))
    ⊎ ((after.0 ≡ others d)
        × Withdrawn row.corpus_id (vertical_of row) kb after.1
        × ((raises ≡ true)
            ⊎ (HasRow row.id doc_published (others d) ⊎ HasRow row.id doc_failed (others d) → ⊥)))

module _ (others : Docs → Docs) (row : Row) (d : Docs) (kb : Kb) where
  marked-IsUnpublished :
      (raises : Bool) (now : ℕ) (kb' : Kb)
      → Withdrawn row.corpus_id (vertical_of row) kb kb'
      → IsUnpublished raises others row d kb
          (marked raises kb' (others d) (mark_unpublished now row.id (others d))).0
          (marked raises kb' (others d) (mark_unpublished now row.id (others d))).1
  unfolding IsUnpublished marked
  marked-IsUnpublished true now kb' w = inr (refl, w, inl refl)
  marked-IsUnpublished false now kb' w =
      elim (Bool-cases (mark_unpublished now row.id (others d)).1) [
        | inl e ↦ rw (marked, e) (inr (refl, mark_unpublished-HasRow now row.id (others d) e, w))
        | inr e ↦
            rw (marked, e)
              (inr (
                mark_unpublished-unmade now row.id (others d) e,
                w,
                inr (λ h.
                    let c : false ≡ true = sym e ∙ mark_unpublished-made now row.id (others d) h in
                    absurd (ground (arith, c))),
              ))
      ]

  unpublish_end-IsUnpublished :
      (raises : Bool) (now : ℕ) (kb' : Kb) (r : Written Unpublished)
      → IsWithdrawal row.corpus_id (vertical_of row) kb kb' r
      → IsUnpublished raises others row d kb
          (unpublish_end now raises others row d (kb', r)).0
          (unpublish_end now raises others row d (kb', r)).1
  unfolding IsUnpublished IsWithdrawal unpublish_end
  unpublish_end-IsUnpublished raises now kb' (publish_failed f) h = inl (rw h refl)
  unpublish_end-IsUnpublished raises now kb' (done u) h = marked-IsUnpublished raises now kb' h

-- Unpublishing a document of the registry whose vertical is its own: if it succeeds, the document had
-- been unpublished before and nothing changes, or its row is unpublished now and the knowledge base
-- holds and finds nothing of it, other documents untouched. If it ends in an error, registry and
-- knowledge base are as they were; or the knowledge base has let go of the document and the registry
-- is as the other sessions left it, which happens only if the update of the registry raised an
-- exception or the document is there neither published nor failed any more.
pub unpublish_row-IsUnpublished :
    (now : ℕ) (raises : Bool) (faults : Faults) (others : Docs → Docs) (row : Row) (d : Docs)
    (kb : Kb)
    → IsCustom (vertical_of row)
    → IsUnpublished raises others row d kb
        (unpublish_row now raises faults others row d kb).0
        (unpublish_row now raises faults others row d kb).1
unfolding IsUnpublished unpublish_row
unpublish_row-IsUnpublished now raises faults others row d kb custom =
    elim (Bool-cases (has_status doc_queued row || has_status doc_processing row)) [
      | inl e ↦ rw (unpublish_row, e) (inl refl)
      | inr e ↦ elim (Bool-cases (has_status doc_unpublished row)) [
        | inl u ↦ rw (unpublish_row, e, u) (inl (status_of doc_unpublished row u, refl))
        | inr u ↦
            rw (unpublish_row, e, u)
              (unpublish_end-IsUnpublished others row d kb raises now _ _
                (unpublish-Withdrawal faults row.corpus_id (vertical_of row) kb custom))
      ]
    ]

found_nowhere :
    (vertical name : Text) (m : Map Queue)
    → All (λ e. member vertical e.1.verticals ≡ false) m
    → member vertical (verticals_of (find name m)) ≡ false
unfolding find verticals_of
found_nowhere vertical name [] h = refl
found_nowhere vertical name ((key, q) ∷ m) h =
    ground (arith, h.0, found_nowhere vertical name m h.1)

-- The vertical of an imported document is not blank, and no default queue has it.
pub kb_vertical_for-IsCustom : (id : ℕ) → IsCustom (kb_vertical_for id)
unfolding is_space text_eq
kb_vertical_for-IsCustom id = (
  is_named_starting 107 (codes "bdoc-" ++ decimal id) refl,
  λ name. found_nowhere (kb_vertical_for id) name default_queues (refl, (refl, (refl, tt))),
)
