-- ===== src/Queues/Assign/Laws.antt =====
-- The index of the catalog, and what `ensure_queue_groups` and the assignment do to it.
use aiva_v.Prelude.{
  ◌≡◌, refl, ◌∙◌, inl, inr, true, not, Option, none, some, List, [], ◌∷◌, ◌++◌, keep_if, ◌&&◌, ◌||◌,
  if◌then◌else◌, Text, is_space, strip, text_eq, Map, find, put, has_key, is_nil, is_nil-put,
  find-put, arith, Bool-cases, Option-cases,
}
use aiva_v.Queues.Catalog.{
  group, not_dict, Entry, Queue, QueueGroups, queues_in, groups, no_groups, list_of, is_named,
  queue_of, merge, default_queues, or_defaults,
}
use aiva_v.Queues.Catalog.Laws.{
  is_taken, or_else, last_entry, any_taken, is_nil-merge, merge-append_skipped, any_taken-keep_if,
}
use aiva_v.Queues.Assign.{
  is_valid_entry, catalog_index, default_entries, merged_defaults, ensured_entries, change_list,
  assign_entry, assign,
}

unfoldable pub raw_of : Option (Text × Entry) → Option Text
raw_of none = none
raw_of (some r) = some r.0

pub find-catalog_index :
    (name : Text) (es : Map Entry) (index : Map Text)
    → find name (catalog_index es index) ≡ or_else (raw_of (last_entry name es)) (find name index)
unfolding catalog_index last_entry or_else raw_of is_valid_entry is_taken
find-catalog_index name [] index = refl
find-catalog_index name ((key, e) ∷ es) index = elim (Option-cases (last_entry name es)) [
  | inl n ↦ ground (
    arith,
    n,
    find-catalog_index name es index,
    find-catalog_index name es (put (strip key) key index),
    find-put (strip key) name key index,
  )
  | inr (r, s) ↦ ground (
    arith,
    s,
    find-catalog_index name es index,
    find-catalog_index name es (put (strip key) key index),
  )
]

pub is_nil-catalog_index :
    (es : Map Entry) (index : Map Text)
    → is_nil (catalog_index es index) ≡ (not (any_taken es) && is_nil index)
unfolding catalog_index any_taken is_valid_entry is_taken
is_nil-catalog_index [] index = refl
is_nil-catalog_index ((key, e) ∷ es) index = ground (
  arith,
  is_nil-catalog_index es index,
  is_nil-catalog_index es (put (strip key) key index),
  is_nil-put (strip key) key index,
)

default_entries-taken : any_taken default_entries ≡ true
unfolding any_taken is_taken is_named list_of default_entries strip is_space
default_entries-taken = refl

merge-default_entries : merge default_entries [] ≡ default_queues
unfolding merge queue_of put default_entries strip is_space list_of text_eq
merge-default_entries = refl

any_taken-append : (xs ys : Map Entry) → any_taken (xs ++ ys) ≡ (any_taken xs || any_taken ys)
unfolding any_taken
any_taken-append [] ys = refl
any_taken-append ((key, e) ∷ xs) ys = ground (arith, any_taken-append xs ys)

pub or_defaults-merge :
    (es : Map Entry)
    → or_defaults (merge es []) ≡ (if any_taken es then merge es [] else default_queues)
unfolding or_defaults
or_defaults-merge es = go (merge es []) (is_nil-merge es [])
  where
    go :
        (m : Map Queue)
        → is_nil m ≡ (not (any_taken es) && true)
        → or_defaults m ≡ (if any_taken es then m else default_queues)
    go [] h = ground (arith, h)
    go (q ∷ qs) h = ground (arith, h)

abbrev kept_entries : Map Entry → Map Entry
kept_entries es = keep_if (λ e. not (has_key e.0 default_queues)) es

pub ensured_entries-taken : (g : QueueGroups) → any_taken (ensured_entries g) ≡ true
unfolding ensured_entries merged_defaults
ensured_entries-taken (no_groups v) = default_entries-taken
ensured_entries-taken (groups []) = default_entries-taken
ensured_entries-taken (groups (e ∷ es)) = elim (Bool-cases (any_taken (e ∷ es))) [
  | inl t ↦ rw (is_nil-catalog_index (e ∷ es) []) (ground (arith, t))
  | inr n ↦
      rw (is_nil-catalog_index (e ∷ es) [], n)
        (any_taken-append (kept_entries (e ∷ es)) default_entries
          ∙ ground (arith, default_entries-taken))
]

-- The catalog of the ensured entries is the one that retrieval had.
pub ensured_entries-merge : (g : QueueGroups) → merge (ensured_entries g) [] ≡ queues_in g
unfolding ensured_entries merged_defaults queues_in
ensured_entries-merge (no_groups v) = merge-default_entries
ensured_entries-merge (groups []) = merge-default_entries ∙ (unfold merge or_defaults in refl)
ensured_entries-merge (groups (e ∷ es)) = elim (Bool-cases (any_taken (e ∷ es))) [
  | inl t ↦ rw (is_nil-catalog_index (e ∷ es) [], or_defaults-merge (e ∷ es)) (ground (arith, t))
  | inr n ↦
      rw (is_nil-catalog_index (e ∷ es) [], or_defaults-merge (e ∷ es), n)
        (merge-append_skipped (kept_entries (e ∷ es)) default_entries []
            (any_taken-keep_if (λ r. not (has_key r.0 default_queues)) (e ∷ es) n)
          ∙ merge-default_entries)
]

pub is_taken-assign_entry :
    (vertical : Text) (raws : List Text) (key raw : Text) (e : Entry)
    → is_taken key (assign_entry vertical raws raw e) ≡ is_taken key e
unfolding is_taken assign_entry change_list list_of
is_taken-assign_entry vertical raws key raw (not_dict v) = ground arith
is_taken-assign_entry vertical raws key raw (group g) = ground arith

pub any_taken-assign :
    (vertical : Text) (raws : List Text) (es : Map Entry)
    → any_taken (assign vertical raws es) ≡ any_taken es
unfolding any_taken assign
any_taken-assign vertical raws [] = refl
any_taken-assign vertical raws ((key, e) ∷ es) =
    ground (arith, any_taken-assign vertical raws es, is_taken-assign_entry vertical raws key key e)

unfoldable pub assigned_at : Text → List Text → Option (Text × Entry) → Option (Text × Entry)
assigned_at vertical raws none = none
assigned_at vertical raws (some r) = some (r.0, assign_entry vertical raws r.0 r.1)

pub last_entry-assign :
    (name vertical : Text) (raws : List Text) (es : Map Entry)
    → last_entry name (assign vertical raws es) ≡ assigned_at vertical raws (last_entry name es)
unfolding last_entry assign or_else assigned_at
last_entry-assign name vertical raws [] = refl
last_entry-assign name vertical raws ((key, e) ∷ es) = elim (Option-cases (last_entry name es)) [
  | inl n ↦ ground (
    arith,
    n,
    last_entry-assign name vertical raws es,
    is_taken-assign_entry vertical raws key key e,
  )
  | inr (r, s) ↦ ground (arith, s, last_entry-assign name vertical raws es)
]
