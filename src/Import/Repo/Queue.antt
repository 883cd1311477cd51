-- ===== src/Import/Repo/Queue.antt =====
-- backend/doc_intel/kb_repo.py: the order in which queued documents are claimed.
pub mod Laws
use aiva_v.Prelude.{
  ℕ, zero, suc, ◌+◌, Bool, true, false, ◌&&◌, ◌||◌, Option, none, some, List, [], ◌∷◌, keep_if, ltb,
  ◌==◌, if◌then◌else◌, Text,
}
use aiva_v.Import.Rows.{doc_queued, doc_processing, Row}
use aiva_v.Import.Repo.{Docs, worker_name, has_status, get_document, write_if}

abbrev pub claim_attempts : ℕ
claim_attempts = 3

-- `ORDER BY created_at, id`
unfoldable pub comes_before : Row → Row → Bool
comes_before r s = ltb r.created_at s.created_at || (r.created_at == s.created_at && ltb r.id s.id)

unfoldable pub insert_row : Row → List Row → List Row
insert_row r [] = r ∷ []
insert_row r (s ∷ ss) =
    let rest = insert_row r ss in if comes_before s r then s ∷ rest else r ∷ s ∷ ss

unfoldable pub in_order : List Row → List Row
in_order [] = []
in_order (r ∷ rs) = insert_row r (in_order rs)

-- The queued documents in the order of their claims.
unfoldable pub queued : Docs → List Row
queued d = in_order (keep_if (has_status doc_queued) d.rows)

number_from : ℕ → List Row → List (ℕ × ℕ)
number_from n [] = []
number_from n (r ∷ rs) = (r.id, n) ∷ number_from (suc n) rs

-- `queue_positions`
unfoldable pub queue_positions : Docs → List (ℕ × ℕ)
unfolding number_from
queue_positions d = number_from 1 (queued d)

unfoldable pub position : ℕ → List (ℕ × ℕ) → Option ℕ
position id [] = none
position id ((i, n) ∷ ps) = if i == id then some n else position id ps

unfoldable pub first : List Row → Option ℕ
first [] = none
first (r ∷ rs) = some r.id

-- The conditional update of `claim_next`.
unfoldable pub claim : ℕ → Text → ℕ → Docs → Docs × Bool
claim now worker id = write_if id (has_status doc_queued) (λ r. record r {
  status = doc_processing;
  attempts = r.attempts + 1;
  worker_id = some (worker_name worker);
  started_at = some now;
  finished_at = none;
  updated_at = now;
})

-- `claim_next`: what the other sessions do between the selection and the update of each attempt is a
-- parameter.
unfoldable pub claim_from : ℕ → ℕ → Text → (ℕ → Docs → Docs) → Docs → Docs × Option Row
claim_from zero now worker others d = (d, none)
claim_from (suc n) now worker others d = elim (first (queued d)) [
  | none ↦ (d, none)
  | some id ↦
      let done = claim now worker id (others n d) in
      let again = claim_from n now worker others done.0 in
      elim (done.1) [ true ↦ (done.0, get_document id done.0) | false ↦ again ]
]

unfoldable pub claim_next : ℕ → Text → (ℕ → Docs → Docs) → Docs → Docs × Option Row
claim_next = claim_from claim_attempts
