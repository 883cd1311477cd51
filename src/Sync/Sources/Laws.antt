-- ===== src/Sync/Sources/Laws.antt =====
-- The claim of a schedule that is due, and its undoing.
use aiva_v.Prelude.{
  ℕ, ◌%◌, ◌≤◌, ◌<◌, ◌≡◌, refl, ap, ◌∙◌, ◌⊎◌, inl, inr, Bool, true, false, some, List, [], ◌∷◌, leb,
  arith, Bool-cases,
}
use aiva_v.Sync.Rows.{as_date, Source}
use aiva_v.Sync.Tables.{Tables, update_where, count_where}
use aiva_v.Sync.Runs.{is_source}
use aiva_v.Sync.Sources.{
  is_past, is_due, is_due_source, claimed, refused, claim_due_source, is_at, is_claimed_source,
}

pub as_date-le : (t : ℕ) → as_date t ≤ t
unfolding as_date
as_date-le t = omega arith

as_date_whole : (t : ℕ) → t % 1000 ≡ 0 → as_date t ≡ t
unfolding as_date
as_date_whole t h = omega arith

abbrev pub moved_to : ℕ → Source → Source
moved_to next s = record s { next_sync_at = some (as_date next) }

-- Undoing a claim makes due again what the claim moved.
pub undone_due :
    (now id next old : ℕ) (ss : List Source)
    → as_date old ≤ as_date now
    → count_where (is_due_source now id) ss
      ≤ count_where (is_due_source now id) (
          update_where
            (is_claimed_source id next)
            (moved_to old)
            (update_where (is_due_source now id) (moved_to next) ss))
unfolding update_where is_due is_past is_at
undone_due now id next old [] h = omega arith
undone_due now id next old (s ∷ ss) h = ground (arith, undone_due now id next old ss h)

pub due-le :
    (now id : ℕ) (ss : List Source)
    → count_where (is_due_source now id) ss ≤ count_where (is_source id) ss
due-le now id [] = omega arith
due-le now id (s ∷ ss) = ground (arith, due-le now id ss)

-- No source of this id is due at `later` once the claim has moved it.
none_due :
    (now id next later : ℕ) (ss : List Source)
    → later < as_date next
    → count_where (is_source id) ss ≤ count_where (is_due_source now id) ss
    → count_where (is_due_source later id) (update_where (is_due_source now id) (moved_to next) ss)
      ≡ 0
unfolding update_where is_due is_past
none_due now id next later [] h k = refl
none_due now id next later (s ∷ ss) h k =
    ground (arith, none_due now id next later ss, due-le now id ss, as_date-le later)

-- An update that fits nothing changes nothing.
pub update_where_none :
    {A : Type 0} (p : A → Bool) (f : A → A) (rs : List A)
    → count_where p rs ≡ 0
    → update_where p f rs ≡ rs
unfolding update_where
update_where_none p f [] h = refl
update_where_none p f (r ∷ rs) h = elim (Bool-cases (p r)) [
  | inl y ↦ absurd (ground (arith, y, h))
  | inr n ↦ rw n (ap (λ l. r ∷ l) (update_where_none p f rs (ground (arith, n, h))))
]

-- Once a scheduler has claimed a source that is due, no claim at a moment before the time that it moved
-- the schedule to gets the source, whatever else happened, as long as the sources are as the claim left
-- them: it is refused or finds nothing, and changes nothing. Ids are unique, and the new time is a full
-- second.
pub claim_due_source-once :
    (id now next later next' : ℕ) (t u : Tables)
    → next % 1000 ≡ 0
    → later < next
    → count_where (is_source id) t.sources ≤ 1
    → (claim_due_source id now next t).1 ≡ claimed true
    → u.sources ≡ (claim_due_source id now next t).0.sources
    → (claim_due_source id later next' u ≡ (u, refused))
      ⊎ (claim_due_source id later next' u ≡ (u, claimed false))
unfolding claim_due_source
claim_due_source-once id now next later next' t u whole before keyed got same =
    elim (Bool-cases (leb next now)) [
      | inl y ↦ absurd (ground (arith, y, got))
      | inr n ↦ elim (Bool-cases (leb next' later)) [
        | inl y ↦ inl (rw (claim_due_source, y) refl)
        | inr m ↦
            let one : count_where (is_due_source now id) t.sources ≡ 1 = ground (arith, n, got) in
            let moved : (claim_due_source id now next t).0.sources
                ≡ update_where (is_due_source now id) (moved_to next) t.sources =
              rw (claim_due_source, n) refl in
            let zero : count_where (is_due_source later id) u.sources ≡ 0 = rw (same ∙ moved) (
              none_due now id next later t.sources (omega (arith, before, as_date_whole next whole))
                (omega (arith, one, keyed))) in
            let alike =
              update_where_none (is_due_source later id) (moved_to next') u.sources zero in
            inr (
              rw (claim_due_source, m, zero)
                (ap (λ l. (record u { sources = l }, claimed false)) alike))
      ]
    ]
