-- ===== src/Queues/Assign/Listed.antt =====
-- `queues_with_vertical` lists exactly the queues that find the vertical.
use aiva_v.Prelude.{
  ◌≡◌, refl, ◌∙◌, ap, inl, inr, true, false, Option, some, List, [], ◌∷◌, ◌||◌, any_of, Text, strip,
  text_eq, eq_of_text_eq, Map, find, has_key, IsMap, member, arith, Bool-cases,
}
use aiva_v.Queues.Catalog.{Config, Queue, is_named, get_queue_groups, verticals_of}
use aiva_v.Queues.Catalog.Laws.{get_queue_groups-IsMap}
use aiva_v.Queues.Assign.{
  insert_text, sorted, keys_with, queues_with_vertical, set_vertical_queues, assigned,
}
use aiva_v.Queues.Assign.Finds.{set_vertical_queues-finds}

member-insert_text :
    (t x : Text) (ss : List Text) → member t (insert_text x ss) ≡ (text_eq x t || member t ss)
unfolding insert_text
member-insert_text t x [] = refl
member-insert_text t x (s ∷ ss) = ground (arith, member-insert_text t x ss)

pub member-sorted : (t : Text) (ts : List Text) → member t (sorted ts) ≡ member t ts
unfolding sorted
member-sorted t [] = refl
member-sorted t (x ∷ ts) =
    member-insert_text t x (sorted ts) ∙ ap (λ b. text_eq x t || b) (member-sorted t ts)

keys_with_absent :
    (vertical name : Text) (m : Map Queue)
    → has_key name m ≡ false
    → member name (keys_with vertical m) ≡ false
unfolding keys_with has_key
keys_with_absent vertical name [] h = refl
keys_with_absent vertical name ((key, q) ∷ m) h =
    ground (arith, h, keys_with_absent vertical name m)

member-keys_with :
    (vertical name : Text) (m : Map Queue)
    → IsMap m
    → member name (keys_with vertical m) ≡ member vertical (verticals_of (find name m))
unfolding keys_with IsMap find verticals_of
member-keys_with vertical name [] h = refl
member-keys_with vertical name ((key, q) ∷ m) h = elim (Bool-cases (text_eq key name)) [
  | inl e ↦
      let k = eq_of_text_eq key name e in
      ground (arith, e, k, keys_with_absent vertical name m (rw k at h.0))
  | inr n ↦ ground (arith, n, member-keys_with vertical name m h.1)
]

-- `queues_with_vertical` lists a name exactly if the queue that retrieval knows by it has the
-- vertical.
pub member-queues_with_vertical :
    (config : Option Config) (vertical name : Text)
    → member name (queues_with_vertical config vertical)
      ≡ member vertical (verticals_of (find name (get_queue_groups config)))
unfolding queues_with_vertical
member-queues_with_vertical config vertical name =
    member-sorted name (keys_with vertical (get_queue_groups config))
    ∙ member-keys_with vertical name (get_queue_groups config) (get_queue_groups-IsMap config)

-- Assigning a document's vertical, which is not blank, and reading back its queues gives the queues
-- that it was assigned to, up to order, repetitions and spaces around the keys, whatever the
-- configuration held before.
pub queues_with_vertical-set_vertical_queues :
    (config : Option Config) (vertical : Text) (keys : List Text) (cfg : Config)
    → is_named vertical ≡ true
    → set_vertical_queues config vertical keys ≡ assigned cfg
    → (name : Text)
    → member name (queues_with_vertical (some cfg) vertical)
      ≡ any_of (λ k. text_eq (strip k) name) keys
queues_with_vertical-set_vertical_queues config vertical keys cfg n e name =
    member-queues_with_vertical (some cfg) vertical name
    ∙ set_vertical_queues-finds config vertical keys cfg n e name
