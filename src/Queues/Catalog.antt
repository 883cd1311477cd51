-- ===== src/Queues/Catalog.antt =====
-- backend/services/kb_queue_groups.py: the catalog of queues that a corpus configuration gives, and
-- what an agent's active queues let a search see.
pub mod Laws
pub mod Search
use aiva_v.Prelude.{
  Bool, true, false, not, Option, none, some, List, [], ◌∷◌, ◌++◌, map, keep_if, ◌&&◌, ◌||◌, any_of,
  if◌then◌else◌, Text, codes, strip, text_eq, Map, find, put, has_key, member,
}

-- A JSON value whose inside is not looked at: a string, or another value, given by what `str` shows
-- of it and whether it counts as true.
pub data Value : Type 0 where
  text : Text → Value
  other : Text → Bool → Value

unfoldable pub str : Value → Text
str (text t) = t
str (other t b) = t

is_empty : Text → Bool
is_empty [] = true
is_empty (c ∷ s) = false

-- A text with something in it but spaces.
unfoldable pub is_named : Text → Bool
unfolding is_empty
is_named t = not (is_empty (strip t))

truthy : Value → Bool
unfolding is_empty
truthy (text t) = not (is_empty t)
truthy (other t b) = b

-- The value at `verticals`, if there is one.
pub data Verticals : Type 0 where
  list : List Value → Verticals
  no_list : Option Value → Verticals

-- An entry of `queue_groups` that is a dictionary, with the keys that are not read in `rest`.
pub record Group : Type 0 where
  pub label : Option Value
  pub verticals : Verticals
  pub rest : List (Text × Value)

pub data Entry : Type 0 where
  group : Group → Entry
  not_dict : Value → Entry

-- The value at `queue_groups`, if there is one.
pub data QueueGroups : Type 0 where
  groups : Map Entry → QueueGroups
  no_groups : Option Value → QueueGroups

-- `config_json` when it is a dictionary.
pub record Config : Type 0 where
  pub queue_groups : QueueGroups
  pub rest : List (Text × Value)

-- A queue as retrieval sees it.
pub record Queue : Type 0 where
  pub label : Text
  pub verticals : List Text

-- `DEFAULT_QUEUE_GROUPS`
abbrev pub default_queues : Map Queue
default_queues =
    (
      codes "HALAN",
      record {
        label = codes "Halan";
        verticals =
            codes "CF"
            ∷ codes "Pay"
            ∷ codes "General"
            ∷ codes "Halan"
            ∷ codes "Saving"
            ∷ codes "Gold"
            ∷ codes "Commerce"
            ∷ codes "Salary lending"
            ∷ codes "Irrelevant Call"
            ∷ [];
      },
    )
    ∷ (codes "Gomla", record { label = codes "Gomla"; verticals = codes "Gomla" ∷ [] })
    ∷ (codes "Tasaheel", record { label = codes "Tasaheel"; verticals = codes "Tasaheel" ∷ [] })
    ∷ []

unfoldable pub or_defaults : Map Queue → Map Queue
or_defaults [] = default_queues
or_defaults (q ∷ qs) = q ∷ qs

label_or : Text → Option Value → Text
unfolding truthy str
label_or name none = name
label_or name (some v) = if truthy v then str v else name

-- The list of an entry that is a dictionary with a list of verticals.
unfoldable pub list_of : Entry → Option (List Value)
list_of (not_dict v) = none
list_of (group g) = elim (g.verticals) [ list vs ↦ some vs | no_list v ↦ none ]

unfoldable pub label_of : Text → Entry → Text
unfolding label_or
label_of name (not_dict v) = name
label_of name (group g) = label_or name g.label

-- What retrieval makes of an entry, none where it skips it.
unfoldable pub queue_of : Text → Entry → Option Queue
unfolding label_of is_named str
queue_of key e =
    if is_named key
    then elim (list_of e) [
      | none ↦ none
      | some vs ↦
          some
            (record { label = label_of (strip key) e; verticals = keep_if is_named (map str vs) })
    ]
    else none

-- The loop over the entries, given those merged so far.
unfoldable pub merge : Map Entry → Map Queue → Map Queue
merge [] merged = merged
merge ((key, e) ∷ es) merged = elim (queue_of key e) [
  | none ↦ merge es merged
  | some q ↦ merge es (put (strip key) q merged)
]

unfoldable pub queues_in : QueueGroups → Map Queue
unfolding or_defaults
queues_in (groups es) = or_defaults (merge es [])
queues_in (no_groups v) = default_queues

-- `get_queue_groups_from_config`
unfoldable pub get_queue_groups : Option Config → Map Queue
get_queue_groups none = default_queues
get_queue_groups (some config) = queues_in config.queue_groups

-- The inner loop of `resolve_verticals`, where `verticals` has been seen already.
add_new : List Text → List Text → List Text
add_new [] verticals = verticals
add_new (v ∷ vs) verticals =
    if member v verticals then add_new vs verticals else add_new vs (verticals ++ v ∷ [])

unfoldable pub verticals_of : Option Queue → List Text
verticals_of none = []
verticals_of (some q) = q.verticals

collect : Map Queue → List Text → List Text → List Text
unfolding verticals_of add_new
collect queues [] verticals = verticals
collect queues (key ∷ keys) verticals =
    collect queues keys (add_new (verticals_of (find key queues)) verticals)

unfoldable pub or_unrestricted : List Text → Option (List Text)
or_unrestricted [] = none
or_unrestricted (t ∷ ts) = some (t ∷ ts)

-- `resolve_verticals`; no list of keys and an empty one are the same.
pub resolve_verticals : Option Config → List Text → Option (List Text)
unfolding collect or_unrestricted
resolve_verticals config [] = none
resolve_verticals config (key ∷ keys) =
    or_unrestricted (collect (get_queue_groups config) (key ∷ keys) [])

-- `BadRequestError`, by its message, or the validated keys, where `none` is an unrestricted search.
pub data Validated : Type 0 where
  valid : Option (List Text) → Validated
  unknown_queue not_allowed : Text → Validated

unfoldable pub is_allowed : Option (List Text) → Text → Bool
is_allowed none key = true
is_allowed (some allowed) key = member key allowed

unfoldable pub validate_each : Map Queue → Option (List Text) → List Text → List Text → Validated
unfolding is_allowed or_unrestricted
validate_each queues allowed [] normalized = valid (or_unrestricted normalized)
validate_each queues allowed (raw ∷ raws) normalized =
    let key = strip raw in
    let skipped = validate_each queues allowed raws normalized in
    let added = validate_each queues allowed raws (normalized ++ key ∷ []) in
    if not (is_named raw) || member key normalized
    then skipped
    else if not (has_key key queues)
    then unknown_queue key
    else if not (is_allowed allowed key)
    then not_allowed key
    else added

-- `validate_active_queues`; no list of keys and an empty one are the same.
unfoldable pub validate_active_queues : Option Config → List Text → Option (List Text) → Validated
unfolding validate_each
validate_active_queues config keys allowed = validate_each (get_queue_groups config) allowed keys []
