-- ===== src/Queues/Assign/Finds.antt =====
-- `set_vertical_queues` against the catalog that retrieval makes of its result.
use aiva_v.Prelude.{
  ◌≡◌, ◌↔◌, refl, sym, ◌∙◌, ap, inl, inr, ◌⊎◌, Bool, true, false, Option, none, some, List, [], ◌∷◌,
  ◌||◌, any_of, Text, strip, text_eq, Map, find, member, arith, All, Option-cases,
}
use aiva_v.Queues.Catalog.{
  Entry, Value, Config, Queue, groups, no_groups, is_named, merge, or_defaults, queues_in,
  get_queue_groups, verticals_of,
}
use aiva_v.Queues.Catalog.Laws.{
  last_entry, last_entry-taken, or_else, queue_at, find-merge, queue_of-taken, any_taken,
}
use aiva_v.Queues.Assign.{
  catalog_index, ensured_entries, ensure_queue_groups, entries_of, select, selected, unknown,
  Selection, assign, assigned, unknown_queue_error, set_vertical_queues,
}
use aiva_v.Queues.Assign.Laws.{
  raw_of, find-catalog_index, ensured_entries-taken, ensured_entries-merge, or_defaults-merge,
  any_taken-assign, assigned_at, last_entry-assign,
}
use aiva_v.Queues.Assign.Select.{
  is_some, IsIndex, select-total, select-known, select-absent, member-select,
}
use aiva_v.Queues.Assign.Shown.{verticals_of-assign_entry, rest_of, rest_of-assign_entry}

-- The entries that an assignment works on.
unfoldable entries : Option Config → Map Entry
entries none = ensured_entries (no_groups none)
entries (some config) = ensured_entries config.queue_groups

entries-taken : (config : Option Config) → any_taken (entries config) ≡ true
unfolding entries
entries-taken none = ensured_entries-taken (no_groups none)
entries-taken (some config) = ensured_entries-taken config.queue_groups

entries-merge : (config : Option Config) → merge (entries config) [] ≡ get_queue_groups config
unfolding entries get_queue_groups
entries-merge none = ensured_entries-merge (no_groups none) ∙ (unfold queues_in in refl)
entries-merge (some config) = ensured_entries-merge config.queue_groups

-- Making the default queues explicit changes nothing for retrieval: the catalog of the ensured
-- configuration is the catalog of the configuration, whatever is malformed in it.
pub ensure_queue_groups-get :
    (config : Option Config)
    → get_queue_groups (some (ensure_queue_groups config)) ≡ get_queue_groups config
ensure_queue_groups-get config =
    go config
    ∙ or_defaults-merge (entries config)
    ∙ rw (entries-taken config) (entries-merge config)
  where
    go :
        (c : Option Config)
        → get_queue_groups (some (ensure_queue_groups c)) ≡ or_defaults (merge (entries c) [])
    go none = (unfold get_queue_groups queues_in ensure_queue_groups entries in refl)
    go (some c) = (unfold get_queue_groups queues_in ensure_queue_groups entries in refl)

-- A name in the catalog, through the entry that it stands for.
find-catalog :
    (config : Option Config) (name : Text)
    → find name (get_queue_groups config)
      ≡ or_else (queue_at (last_entry name (entries config))) none
find-catalog config name =
    ap (find name) (sym (entries-merge config))
    ∙ find-merge name (entries config) []
    ∙ (unfold find in refl)

index : Option Config → Map Text
index config = catalog_index (entries config) []

find-index :
    (config : Option Config) (name : Text)
    → find name (index config) ≡ or_else (raw_of (last_entry name (entries config))) none
unfolding index find
find-index config name = find-catalog_index name (entries config) []

-- The index and the catalog have the same names.
same_names :
    (config : Option Config) (name : Text)
    → is_some (find name (index config)) ≡ is_some (find name (get_queue_groups config))
unfolding or_else raw_of queue_at
same_names config name = elim (Option-cases (last_entry name (entries config))) [
  | inl n ↦ ground (arith, n, find-index config name, find-catalog config name)
  | inr (r, s) ↦
      let (q, t) = queue_of-taken r.0 r.1 (last_entry-taken name (entries config) r s).0 in
      ground (arith, s, t, find-index config name, find-catalog config name)
]

index-IsIndex : (config : Option Config) → IsIndex (index config)
unfolding or_else raw_of
index-IsIndex config name raw h = elim (Option-cases (last_entry name (entries config))) [
  | inl n ↦ let c : none ≡ some raw = ground (arith, n, find-index config name, h) in cc
  | inr (r, s) ↦
      let (t, u) = last_entry-taken name (entries config) r s in
      let e : some r.0 ≡ some raw = ground (arith, s, find-index config name, h) in
      let e' : r.0 ≡ raw = cc in ap strip (sym e') ∙ u
]

Selection-cases :
    (s : Selection) → ((n : Text) × (s ≡ unknown n)) ⊎ ((rs : List Text) × (s ≡ selected rs))
Selection-cases (unknown n) = inl (n, refl)
Selection-cases (selected rs) = inr (rs, refl)

set_selected :
    (config : Option Config) (vertical : Text) (keys raws : List Text)
    → select (index config) keys [] ≡ selected raws
    → set_vertical_queues config vertical keys
      ≡ assigned (record (ensure_queue_groups config) {
        queue_groups = groups (assign vertical raws (entries config));
      })
unfolding set_vertical_queues index entries_of ensure_queue_groups entries
set_selected none vertical keys raws h = rw (h, set_vertical_queues) refl
set_selected (some config) vertical keys raws h = rw (h, set_vertical_queues) refl

set_unknown :
    (config : Option Config) (vertical name : Text) (keys : List Text)
    → select (index config) keys [] ≡ unknown name
    → set_vertical_queues config vertical keys ≡ unknown_queue_error name
unfolding set_vertical_queues index entries_of ensure_queue_groups entries
set_unknown none vertical name keys h = rw (h, set_vertical_queues) refl
set_unknown (some config) vertical name keys h = rw (h, set_vertical_queues) refl

-- A document can be assigned exactly to queues that retrieval knows: the call succeeds if and only
-- if every key, without the spaces around it, is a name of the catalog.
pub set_vertical_queues-assigned_iff :
    (config : Option Config) (vertical : Text) (keys : List Text)
    → ((cfg : Config) × (set_vertical_queues config vertical keys ≡ assigned cfg))
      ↔ All (λ k. is_some (find (strip k) (get_queue_groups config)) ≡ true) keys
set_vertical_queues-assigned_iff config vertical keys = (there, back)
  where
    to_catalog :
        (ks : List Text)
        → All (λ k. is_some (find (strip k) (index config)) ≡ true) ks
        → All (λ k. is_some (find (strip k) (get_queue_groups config)) ≡ true) ks
    to_catalog [] h = tt
    to_catalog (k ∷ ks) h = (sym (same_names config (strip k)) ∙ h.0, to_catalog ks h.1)

    to_index :
        (ks : List Text)
        → All (λ k. is_some (find (strip k) (get_queue_groups config)) ≡ true) ks
        → All (λ k. is_some (find (strip k) (index config)) ≡ true) ks
    to_index [] h = tt
    to_index (k ∷ ks) h = (same_names config (strip k) ∙ h.0, to_index ks h.1)

    there :
        ((cfg : Config) × (set_vertical_queues config vertical keys ≡ assigned cfg))
        → All (λ k. is_some (find (strip k) (get_queue_groups config)) ≡ true) keys
    there (cfg, e) = elim (Selection-cases (select (index config) keys [])) [
      | inl (n, u) ↦
          let c : unknown_queue_error n ≡ assigned cfg =
            sym (set_unknown config vertical n keys u) ∙ e in
          cc
      | inr (rs, s) ↦ to_catalog keys (select-known (index config) keys [] rs s)
    ]

    back :
        All (λ k. is_some (find (strip k) (get_queue_groups config)) ≡ true) keys
        → (cfg : Config) × (set_vertical_queues config vertical keys ≡ assigned cfg)
    back h =
        let (rs, s) = select-total (index config) keys [] (to_index keys h) in
        (
          record (ensure_queue_groups config) {
            queue_groups = groups (assign vertical rs (entries config));
          },
          set_selected config vertical keys rs s,
        )

-- The catalog after an assignment.
catalog_after :
    (config : Option Config) (vertical name : Text) (raws : List Text) (rest : List (Text × Value))
    → find name (
        get_queue_groups (
          some (record {
            queue_groups = groups (assign vertical raws (entries config));
            rest = rest;
          })))
      ≡ or_else (queue_at (assigned_at vertical raws (last_entry name (entries config)))) none
unfolding get_queue_groups queues_in find
catalog_after config vertical name raws rest =
    let es = assign vertical raws (entries config) in
    ap (find name) (or_defaults-merge es)
    ∙ rw (any_taken-assign vertical raws (entries config), entries-taken config)
        (find-merge name es [])
    ∙ ap (λ o. or_else (queue_at o) none) (last_entry-assign name vertical raws (entries config))

pub or_else-none : (o : Option Queue) → or_else o none ≡ o
unfolding or_else
or_else-none none = refl
or_else-none (some q) = refl

catalog_after_at :
    (config : Option Config) (vertical name : Text) (raws : List Text) (rest : List (Text × Value))
    → find name (
        get_queue_groups (
          some (record {
            queue_groups = groups (assign vertical raws (entries config));
            rest = rest;
          })))
      ≡ queue_at (assigned_at vertical raws (last_entry name (entries config)))
catalog_after_at config vertical name raws rest =
    catalog_after config vertical name raws rest ∙ or_else-none _

or_false : (b : Bool) → (b || false) ≡ b
or_false true = refl
or_false false = refl

assigned-inv :
    (config : Option Config) (vertical : Text) (keys : List Text) (cfg : Config)
    → set_vertical_queues config vertical keys ≡ assigned cfg
    → (raws : List Text) × (select (index config) keys [] ≡ selected raws)
      × (cfg ≡ record (ensure_queue_groups config) {
        queue_groups = groups (assign vertical raws (entries config));
      })
assigned-inv config vertical keys cfg e = elim (Selection-cases (select (index config) keys [])) [
  | inl (n, u) ↦
      let c : unknown_queue_error n ≡ assigned cfg =
        sym (set_unknown config vertical n keys u) ∙ e in
      cc
  | inr (rs, s) ↦
      let c : assigned cfg
          ≡ assigned (record (ensure_queue_groups config) {
            queue_groups = groups (assign vertical rs (entries config));
          }) =
        sym e ∙ set_selected config vertical keys rs s in
      (rs, s, cc)
]

-- After a document's vertical, which is not blank, is assigned to some queues, a queue of the catalog
-- finds it exactly if its name is one of them, up to spaces around the keys; the queues that had it
-- before and are not selected lose it.
pub set_vertical_queues-finds :
    (config : Option Config) (vertical : Text) (keys : List Text) (cfg : Config)
    → is_named vertical ≡ true
    → set_vertical_queues config vertical keys ≡ assigned cfg
    → (name : Text)
    → member vertical (verticals_of (find name (get_queue_groups (some cfg))))
      ≡ any_of (λ k. text_eq (strip k) name) keys
unfolding or_else raw_of queue_at assigned_at verticals_of
set_vertical_queues-finds config vertical keys cfg n e name =
    let (raws, s, c) = assigned-inv config vertical keys cfg e in
    let a =
      ap (λ x. member vertical (verticals_of (find name (get_queue_groups (some x))))) c
      ∙ ap (λ o. member vertical (verticals_of o))
          (catalog_after_at config vertical name raws (ensure_queue_groups config).rest) in
    a ∙ elim (Option-cases (last_entry name (entries config))) [
      | inl m ↦ rw m (
          sym (
            select-absent (index config) name keys
              (find-index config name ∙ ap (λ o. or_else (raw_of o) none) m)
              (select-known (index config) keys [] raws s)))
      | inr (r, t) ↦
          let i = find-index config name ∙ ap (λ o. or_else (raw_of o) none) t in
          rw t (
            verticals_of-assign_entry vertical raws r.0 r.1 n
              (last_entry-taken name (entries config) r t).0
            ∙ member-select (index config) name r.0 keys [] raws (index-IsIndex config) i s
            ∙ or_false (any_of (λ k. text_eq (strip k) name) keys))
    ]

-- The assignment changes nothing else that retrieval sees: every name of the catalog keeps its label
-- and its verticals other than the one assigned, in their order, and no name comes or goes.
pub set_vertical_queues-keeps :
    (config : Option Config) (vertical : Text) (keys : List Text) (cfg : Config)
    → set_vertical_queues config vertical keys ≡ assigned cfg
    → (name : Text)
    → rest_of vertical (find name (get_queue_groups (some cfg)))
      ≡ rest_of vertical (find name (get_queue_groups config))
unfolding queue_at assigned_at
set_vertical_queues-keeps config vertical keys cfg e name =
    let (raws, s, c) = assigned-inv config vertical keys cfg e in
    let before =
      find-catalog config name ∙ or_else-none (queue_at (last_entry name (entries config))) in
    ap (λ x. rest_of vertical (find name (get_queue_groups (some x)))) c
    ∙ ap (rest_of vertical)
        (catalog_after_at config vertical name raws (ensure_queue_groups config).rest)
    ∙ elim (Option-cases (last_entry name (entries config))) [
      | inl m ↦ rw m refl
      | inr (r, t) ↦ rw t (
          rest_of-assign_entry vertical raws r.0 r.1 (last_entry-taken name (entries config) r t).0)
    ]
    ∙ ap (rest_of vertical) (sym before)
