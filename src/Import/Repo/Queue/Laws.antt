-- ===== src/Import/Repo/Queue/Laws.antt =====
-- The queued documents form a queue: a claim takes its first, and leaves the others in their order.
use aiva_v.Prelude.{
  ℕ, ◌+◌, ◌≡◌, refl, sym, ap, ◌∙◌, ◌⊎◌, inl, inr, Bool, true, false, not, none, some, List, [], ◌∷◌,
  keep_if, ◌==◌, if◌then◌else◌, Text, All, arith, Bool-cases,
}
use mathlib.Core.Path.{subst}
use aiva_v.Import.Rows.{doc_queued, doc_processing, Row}
use aiva_v.Import.Repo.{
  Docs, worker_name, status_code, has_status, fetch, store, get_document, write_if,
}
use aiva_v.Import.Repo.Queue.{
  comes_before, insert_row, in_order, queued, first, claim, claim_from, claim_next,
}

-- The `id` column is the primary key.
unfoldable pub IsKeyed : List Row → Type 0
IsKeyed [] = Unit
IsKeyed (r ∷ rs) = (fetch r.id rs ≡ none) × IsKeyed rs

-- No element stands before an earlier one.
IsOrdered : List Row → Type 0
IsOrdered [] = Unit
IsOrdered (r ∷ rs) = All (λ s. comes_before s r ≡ false) rs × IsOrdered rs

after_transitive :
    (r s t : Row) → comes_before s r ≡ false → comes_before t s ≡ false → comes_before t r ≡ false
unfolding comes_before
after_transitive r s t h k = ground (arith, h, k)

after_asymmetric : (r s : Row) → comes_before s r ≡ true → comes_before r s ≡ false
unfolding comes_before
after_asymmetric r s h = ground (arith, h)

module _ {ℓ κ} {P : Row → Type ℓ} {Q : Row → Type κ} where
  All-map : (rs : List Row) → ((r : Row) → P r → Q r) → All P rs → All Q rs
  All-map [] f h = tt
  All-map (r ∷ rs) f h = (f r h.0, All-map rs f h.1)

module _ {ℓ} (P : Row → Type ℓ) where
  All-insert_row : (r : Row) (rs : List Row) → P r → All P rs → All P (insert_row r rs)
  unfolding insert_row
  All-insert_row r [] h hs = (h, tt)
  All-insert_row r (s ∷ ss) h hs = elim (Bool-cases (comes_before s r)) [
    | inl e ↦ rw (insert_row, e) (hs.0, All-insert_row r ss h hs.1)
    | inr e ↦ rw (insert_row, e) (h, hs)
  ]

  All-in_order : (rs : List Row) → All P rs → All P (in_order rs)
  unfolding in_order
  All-in_order [] h = tt
  All-in_order (r ∷ rs) h = All-insert_row r (in_order rs) h.0 (All-in_order rs h.1)

  All-keep_if : (p : Row → Bool) (rs : List Row) → All P rs → All P (keep_if p rs)
  All-keep_if p [] h = tt
  All-keep_if p (r ∷ rs) h = elim (Bool-cases (p r)) [
    | inl e ↦ rw e (h.0, All-keep_if p rs h.1)
    | inr e ↦ rw e (All-keep_if p rs h.1)
  ]

insert_row-IsOrdered : (r : Row) (rs : List Row) → IsOrdered rs → IsOrdered (insert_row r rs)
unfolding IsOrdered insert_row
insert_row-IsOrdered r [] h = (tt, tt)
insert_row-IsOrdered r (s ∷ ss) h = elim (Bool-cases (comes_before s r)) [
  | inl e ↦
      rw (insert_row, e)
        (
          All-insert_row (λ t. comes_before t s ≡ false) r ss (after_asymmetric r s e) h.0,
          insert_row-IsOrdered r ss h.1,
        )
  | inr e ↦ rw (insert_row, e) ((e, All-map ss (λ t. after_transitive r s t e) h.0), h)
]

in_order-IsOrdered : (rs : List Row) → IsOrdered (in_order rs)
unfolding in_order IsOrdered
in_order-IsOrdered [] = tt
in_order-IsOrdered (r ∷ rs) = insert_row-IsOrdered r (in_order rs) (in_order-IsOrdered rs)

insert_row-first :
    (r : Row) (rs : List Row) → All (λ s. comes_before s r ≡ false) rs → insert_row r rs ≡ r ∷ rs
unfolding insert_row
insert_row-first r [] h = refl
insert_row-first r (s ∷ ss) h = simp h.0

keep_if-insert_row :
    (p : Row → Bool) (r : Row) (rs : List Row)
    → IsOrdered rs
    → keep_if p (insert_row r rs) ≡ (if p r then insert_row r (keep_if p rs) else keep_if p rs)
unfolding insert_row IsOrdered
keep_if-insert_row p r [] h = ground arith
keep_if-insert_row p r (s ∷ ss) h = elim (Bool-cases (comes_before s r)) [
  | inl e ↦ ground (arith, e, keep_if-insert_row p r ss h.1)
  | inr e ↦
      let later = All-keep_if _ p ss (All-map ss (λ t. after_transitive r s t e) h.0) in
      ground (arith, e, insert_row-first r (keep_if p ss) later)
]

keep_if-in_order :
    (p : Row → Bool) (rs : List Row) → keep_if p (in_order rs) ≡ in_order (keep_if p rs)
unfolding in_order
keep_if-in_order p [] = refl
keep_if-in_order p (r ∷ rs) =
    keep_if-insert_row p r (in_order rs) (in_order-IsOrdered rs) ∙ elim (Bool-cases (p r)) [
      | inl e ↦ ground (arith, e, keep_if-in_order p rs)
      | inr e ↦ ground (arith, e, keep_if-in_order p rs)
    ]

abbrev pub other_than : ℕ → Row → Bool
other_than id r = not (r.id == id)

keep_if-absent :
    (id : ℕ) (p : Row → Bool) (rs : List Row)
    → fetch id rs ≡ none
    → keep_if (other_than id) (keep_if p rs) ≡ keep_if p rs
unfolding fetch
keep_if-absent id p [] h = refl
keep_if-absent id p (r ∷ rs) h = ground (arith, h, keep_if-absent id p rs)

-- The rows of a status without the one that leaves it.
keep_if-store :
    (id : ℕ) (p : Row → Bool) (f : Row → Row) (rs : List Row)
    → IsKeyed rs
    → ((r : Row) → p (f r) ≡ false)
    → keep_if p (store id f rs) ≡ keep_if (other_than id) (keep_if p rs)
unfolding store IsKeyed
keep_if-store id p f [] keyed h = refl
keep_if-store id p f (r ∷ rs) keyed h = elim (Bool-cases (r.id == id)) [
  | inl e ↦
      let same : r.id ≡ id = ground (arith, e) in
      let absent = keep_if-absent id p rs (ap (λ i. fetch i rs) (sym same) ∙ keyed.0) in
      ground (arith, e, h r, absent)
  | inr e ↦ ground (arith, e, keep_if-store id p f rs keyed.1 h)
]

Found : List Row → Row → Type 0
Found rs q = (fetch q.id rs ≡ some q) × (has_status doc_queued q ≡ true)

Found-later :
    (r : Row) (rs : List Row) (q : Row) → fetch r.id rs ≡ none → Found rs q → Found (r ∷ rs) q
unfolding Found fetch
Found-later r rs q absent h = elim (Bool-cases (r.id == q.id)) [
  | inl e ↦
      let same : r.id ≡ q.id = ground (arith, e) in
      let c : none ≡ some q = sym absent ∙ ap (λ i. fetch i rs) same ∙ h.0 in
      absurd (ground (arith, c))
  | inr e ↦ (rw e h.0, h.1)
]

keep_if-Found : (rs : List Row) → IsKeyed rs → All (Found rs) (keep_if (has_status doc_queued) rs)
unfolding IsKeyed Found fetch
keep_if-Found [] keyed = tt
keep_if-Found (r ∷ rs) keyed =
    let rest =
      All-map (keep_if (has_status doc_queued) rs) (λ q. Found-later r rs q keyed.0)
        (keep_if-Found rs keyed.1) in
    elim (Bool-cases (has_status doc_queued r)) [
      | inl e ↦ rw e ((ground arith, e), rest)
      | inr e ↦ rw e rest
    ]

queued-Found : (d : Docs) → IsKeyed d.rows → All (Found d.rows) (queued d)
unfolding queued
queued-Found d keyed = All-in_order (Found d.rows) _ (keep_if-Found d.rows keyed)

-- No other session does anything between the selection and the update.
abbrev pub alone : ℕ → Docs → Docs
alone n d = d

-- The row as a claim leaves it.
abbrev pub claimed : ℕ → Text → Row → Row
claimed now worker r = record r {
  status = doc_processing;
  attempts = r.attempts + 1;
  worker_id = some (worker_name worker);
  started_at = some now;
  finished_at = none;
  updated_at = now;
}

claim-Found :
    (now : ℕ) (worker : Text) (d : Docs) (r : Row)
    → Found d.rows r
    → claim now worker r.id d ≡ (record d { rows = store r.id (claimed now worker) d.rows }, true)
unfolding claim write_if Found
claim-Found now worker d r h = rw (claim, write_if, h.0, h.1) refl

pub fetch-store_self :
    (id : ℕ) (f : Row → Row) (rs : List Row) (r : Row)
    → fetch id rs ≡ some r
    → (f r).id ≡ r.id
    → fetch id (store id f rs) ≡ some (f r)
unfolding fetch store
fetch-store_self id f [] r h e = cc
fetch-store_self id f (q ∷ rs) r h e = elim (Bool-cases (q.id == id)) [
  | inl m ↦ let same : some q ≡ some r = sym (simp m) ∙ h in ground (arith, m, same, e)
  | inr m ↦ ground (arith, m, h, fetch-store_self id f rs r, e)
]

claim_next-Found :
    (now : ℕ) (worker : Text) (d : Docs) (r : Row) (rest : List Row)
    → Found d.rows r
    → queued d ≡ r ∷ rest
    → claim_next now worker alone d
      ≡ (record d { rows = store r.id (claimed now worker) d.rows }, some (claimed now worker r))
unfolding claim_next claim_from first get_document Found
claim_next-Found now worker d r rest h e =
    let stored = fetch-store_self r.id (claimed now worker) d.rows r h.0 refl in
    let done = claim-Found now worker d r h in
    rw (claim_next, claim_from, e, done)
      (ap (λ c. (c.0, get_document r.id c.0)) done ∙ rw stored refl)

head_of : (P : Row → Type 0) (rs ss : List Row) (r : Row) → rs ≡ r ∷ ss → All P rs → P r
head_of P [] ss r e h = absurd (ground (arith, e))
head_of P (q ∷ rs) ss r e h = subst P (head_eq e) h.0
  where
    head_eq : {q r : Row} {rs ss : List Row} → q ∷ rs ≡ r ∷ ss → q ≡ r
    head_eq e = cc

queued-claimed :
    (now : ℕ) (worker : Text) (id : ℕ) (d : Docs)
    → IsKeyed d.rows
    → queued (record d { rows = store id (claimed now worker) d.rows })
      ≡ keep_if (other_than id) (queued d)
unfolding queued has_status status_code
queued-claimed now worker id d keyed =
    ap in_order
      (keep_if-store id (has_status doc_queued) (claimed now worker) d.rows keyed (λ r. refl))
    ∙ sym (keep_if-in_order (other_than id) (keep_if (has_status doc_queued) d.rows))

-- With `id` as the primary key, and no other session at work: where no document is queued, nothing is
-- claimed or changed; otherwise the claim takes the document at the first position of the queue,
-- which no queued document precedes in the order of creation, and the queue it leaves is the queue
-- without that document, in the same order.
pub claim_next-queued :
    (now : ℕ) (worker : Text) (d : Docs)
    → IsKeyed d.rows
    → ((queued d ≡ []) × (claim_next now worker alone d ≡ (d, none)))
      ⊎ ((r : Row) × (rest : List Row) × (queued d ≡ r ∷ rest)
          × ((claim_next now worker alone d).1 ≡ some (claimed now worker r))
          × All (λ q. comes_before q r ≡ false) rest
          × (queued (claim_next now worker alone d).0 ≡ keep_if (other_than r.id) (queued d)))
unfolding claim_next claim_from first queued IsOrdered
claim_next-queued now worker d keyed = go (queued d) refl
  where
    go :
        (rs : List Row)
        → queued d ≡ rs
        → ((queued d ≡ []) × (claim_next now worker alone d ≡ (d, none)))
          ⊎ ((r : Row) × (rest : List Row) × (queued d ≡ r ∷ rest)
              × ((claim_next now worker alone d).1 ≡ some (claimed now worker r))
              × All (λ q. comes_before q r ≡ false) rest
              × (queued (claim_next now worker alone d).0 ≡ keep_if (other_than r.id) (queued d)))
    go [] e = inl (e, rw (claim_next, claim_from, e) refl)
    go (r ∷ rest) e =
        let found = head_of (Found d.rows) (queued d) rest r e (queued-Found d keyed) in
        let done = claim_next-Found now worker d r rest found e in
        let first_of : IsOrdered (r ∷ rest) = subst IsOrdered e (in_order-IsOrdered _) in
        inr (
          r,
          rest,
          e,
          ap (λ x. x.1) done,
          first_of.0,
          ap (λ x. queued x.0) done ∙ queued-claimed now worker r.id d keyed,
        )
