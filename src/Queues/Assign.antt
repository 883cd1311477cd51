-- ===== src/Queues/Assign.antt =====
-- backend/doc_intel/queue_config.py: which queues find a document. Numbers in the configuration are
-- as `to_plain` leaves them.
pub mod Laws
pub mod Select
pub mod Shown
pub mod Finds
pub mod Listed
pub mod Removed
use aiva_v.Prelude.{
  ℕ, Bool, true, false, not, Option, none, some, List, [], ◌∷◌, ◌++◌, map, keep_if, ◌&&◌, ◌||◌,
  any_of, ltb, ◌==◌, if◌then◌else◌, Text, strip, text_eq, Map, find, put, has_key, member, is_nil,
}
use aiva_v.Queues.Catalog.{
  Value, text, Verticals, list, no_list, Group, Entry, group, not_dict, QueueGroups, groups,
  no_groups, Config, Queue, default_queues, str, is_named, list_of, get_queue_groups,
}

-- `_is_valid_entry`
unfoldable pub is_valid_entry : Text → Entry → Bool
is_valid_entry key e = is_named key && elim (list_of e) [ none ↦ false | some vs ↦ true ]

-- `_catalog_index`, given the index so far.
unfoldable pub catalog_index : Map Entry → Map Text → Map Text
catalog_index [] index = index
catalog_index ((key, e) ∷ es) index =
    let with_key = catalog_index es (put (strip key) key index) in
    let without = catalog_index es index in if is_valid_entry key e then with_key else without

-- `DEFAULT_QUEUE_GROUPS`, as entries of a configuration.
unfoldable pub default_entry : Text × Queue → Text × Entry
default_entry (key, q) = (
  key,
  group
      (record { label = some (text q.label); verticals = list (map text q.verticals); rest = [] }),
)

abbrev pub default_entries : Map Entry
unfolding default_entry
default_entries = map default_entry default_queues

unfoldable pub merged_defaults : Map Entry → Map Entry
merged_defaults es = keep_if (λ e. not (has_key e.0 default_queues)) es ++ default_entries

-- The entries that `ensure_queue_groups` leaves.
unfoldable pub ensured_entries : QueueGroups → Map Entry
unfolding merged_defaults
ensured_entries (no_groups v) = default_entries
ensured_entries (groups []) = default_entries
ensured_entries (groups (e ∷ es)) =
    if is_nil (catalog_index (e ∷ es) []) then merged_defaults (e ∷ es) else e ∷ es

-- `ensure_queue_groups`, as its entries and its other keys.
unfoldable pub ensure_queue_groups : Option Config → Config
unfolding ensured_entries
ensure_queue_groups none = record {
  queue_groups = groups (ensured_entries (no_groups none));
  rest = [];
}
ensure_queue_groups (some config) = record config {
  queue_groups = groups (ensured_entries config.queue_groups);
}

-- The raw keys of the selected queues, or the first name that is not in the catalog.
pub data Selection : Type 0 where
  selected : List Text → Selection
  unknown : Text → Selection

unfoldable pub select : Map Text → List Text → List Text → Selection
select index [] raws = selected raws
select index (key ∷ keys) raws = elim (find (strip key) index) [
  | none ↦ unknown (strip key)
  | some raw ↦ select index keys (raw ∷ raws)
]

abbrev pub is_vertical : Text → Value → Bool
is_vertical vertical v = text_eq (str v) vertical

-- The verticals of a selected queue, and of another.
unfoldable pub included : Text → List Value → List Value
included vertical vs = if any_of (is_vertical vertical) vs then vs else vs ++ text vertical ∷ []

unfoldable pub excluded : Text → List Value → List Value
excluded vertical vs =
    if any_of (is_vertical vertical) vs then keep_if (λ v. not (is_vertical vertical v)) vs else vs

unfoldable pub change_list : (List Value → List Value) → Entry → Entry
change_list f (not_dict v) = not_dict v
change_list f (group g) =
    group (record g {
      verticals = elim (g.verticals) [ list vs ↦ list (f vs) | no_list v ↦ no_list v ];
    })

unfoldable pub assign_entry : Text → List Text → Text → Entry → Entry
assign_entry vertical raws key e =
    if member key raws then change_list (included vertical) e else change_list (excluded vertical) e

unfoldable pub assign : Text → List Text → Map Entry → Map Entry
assign vertical raws [] = []
assign vertical raws ((key, e) ∷ es) =
    (key, assign_entry vertical raws key e) ∷ assign vertical raws es

entries_of : QueueGroups → Map Entry
entries_of (groups es) = es
entries_of (no_groups v) = []

-- `UnknownQueueError`, or the new configuration.
pub data Assigned : Type 0 where
  unknown_queue_error : Text → Assigned
  assigned : Config → Assigned

-- `set_vertical_queues`
unfoldable pub set_vertical_queues : Option Config → Text → List Text → Assigned
unfolding entries_of
set_vertical_queues config vertical keys =
    let cfg = ensure_queue_groups config in
    let es = entries_of cfg.queue_groups in
    elim (select (catalog_index es []) keys []) [
      | unknown name ↦ unknown_queue_error name
      | selected raws ↦ assigned (record cfg { queue_groups = groups (assign vertical raws es) })
    ]

unfoldable pub drop_vertical : Text → Map Entry → Map Entry
drop_vertical vertical [] = []
drop_vertical vertical ((key, e) ∷ es) =
    (key, change_list (excluded vertical) e) ∷ drop_vertical vertical es

-- `remove_vertical`
unfoldable pub remove_vertical : Option Config → Text → Config
unfolding drop_vertical
remove_vertical none vertical = record { queue_groups = no_groups none; rest = [] }
remove_vertical (some config) vertical = record config {
  queue_groups = elim (config.queue_groups) [
    | groups es ↦ groups (drop_vertical vertical es)
    | no_groups v ↦ no_groups v
  ];
}

-- The order of texts by their characters.
text_lt : Text → Text → Bool
text_lt [] [] = false
text_lt [] (d ∷ t) = true
text_lt (c ∷ s) [] = false
text_lt (c ∷ s) (d ∷ t) = ltb c d || (c == d && text_lt s t)

pub insert_text : Text → List Text → List Text
unfolding text_lt
insert_text t [] = t ∷ []
insert_text t (s ∷ ss) = let rest = insert_text t ss in if text_lt s t then s ∷ rest else t ∷ s ∷ ss

unfoldable pub sorted : List Text → List Text
unfolding insert_text
sorted [] = []
sorted (t ∷ ts) = insert_text t (sorted ts)

keys_with : Text → Map Queue → List Text
keys_with vertical [] = []
keys_with vertical ((key, q) ∷ qs) =
    let rest = keys_with vertical qs in if member vertical q.verticals then key ∷ rest else rest

-- `queues_with_vertical`
pub queues_with_vertical : Option Config → Text → List Text
unfolding sorted keys_with
queues_with_vertical config vertical = sorted (keys_with vertical (get_queue_groups config))

-- `queue_labels`
pub queue_labels : Option Config → List Text → List Text
queue_labels config [] = []
queue_labels config (k ∷ ks) =
    elim (find k (get_queue_groups config)) [ none ↦ k | some q ↦ q.label ] ∷ queue_labels config ks
