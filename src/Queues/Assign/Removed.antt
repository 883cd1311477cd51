-- ===== src/Queues/Assign/Removed.antt =====
-- `remove_vertical` against the catalog that retrieval makes of its result.
use aiva_v.Prelude.{
  ◌≡◌, refl, ◌∙◌, ap, inl, inr, true, false, Option, none, some, [], ◌∷◌, Text, Map, find, member,
  Bool-cases, Option-cases,
}
use aiva_v.Queues.Catalog.{
  Config, Entry, QueueGroups, groups, no_groups, is_named, merge, queues_in, get_queue_groups,
  default_queues, verticals_of, queue_of,
}
use aiva_v.Queues.Catalog.Laws.{
  last_entry, last_entry-taken, or_else, queue_at, find-merge, any_taken,
}
use aiva_v.Queues.Assign.{assign, assign_entry, drop_vertical, remove_vertical}
use aiva_v.Queues.Assign.Laws.{or_defaults-merge, assigned_at, last_entry-assign}
use aiva_v.Queues.Assign.Finds.{or_else-none}
use aiva_v.Queues.Assign.Shown.{verticals_of-assign_entry}

drop_vertical-assign :
    (vertical : Text) (es : Map Entry) → drop_vertical vertical es ≡ assign vertical [] es
unfolding drop_vertical assign assign_entry
drop_vertical-assign vertical [] = refl
drop_vertical-assign vertical ((key, e) ∷ es) = rw (drop_vertical-assign vertical es) refl

merge-removed :
    (vertical name : Text) (es : Map Entry)
    → is_named vertical ≡ true
    → member vertical (verticals_of (find name (merge (assign vertical [] es) []))) ≡ false
unfolding queue_at assigned_at verticals_of or_else find
merge-removed vertical name es n =
    ap (λ o. member vertical (verticals_of o))
      (find-merge name (assign vertical [] es) []
        ∙ ap (λ o. or_else (queue_at o) none) (last_entry-assign name vertical [] es))
    ∙ elim (Option-cases (last_entry name es)) [
      | inl m ↦ rw m refl
      | inr (r, t) ↦ rw t (
          ap (λ o. member vertical (verticals_of o))
            (or_else-none (queue_of r.0 (assign_entry vertical [] r.0 r.1)))
          ∙ verticals_of-assign_entry vertical [] r.0 r.1 n (last_entry-taken name es r t).0)
    ]

-- A vertical that is not blank and belongs to no default queue is found by no queue once it has been
-- removed, whatever the configuration held.
pub remove_vertical-finds :
    (config : Option Config) (vertical : Text)
    → is_named vertical ≡ true
    → ((name : Text) → member vertical (verticals_of (find name default_queues)) ≡ false)
    → (name : Text)
    → member vertical
        (verticals_of (find name (get_queue_groups (some (remove_vertical config vertical)))))
      ≡ false
unfolding remove_vertical get_queue_groups queues_in
remove_vertical-finds none vertical n h name = h name
remove_vertical-finds (some config) vertical n h name = go config.queue_groups
  where
    go :
        (g : QueueGroups)
        → member vertical (
            verticals_of (
              find name (
                get_queue_groups
                  (some (remove_vertical (some (record config { queue_groups = g })) vertical)))))
          ≡ false
    go (no_groups v) = h name
    go (groups es) =
        rw (drop_vertical-assign vertical es, or_defaults-merge (assign vertical [] es))
          (elim (Bool-cases (any_taken (assign vertical [] es))) [
            | inl e ↦ rw e (merge-removed vertical name es n)
            | inr e ↦ rw e (h name)
          ])
