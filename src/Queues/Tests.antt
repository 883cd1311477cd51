-- ===== src/Queues/Tests.antt =====
-- The theorems on queues at concrete inputs.
use aiva_v.Prelude.{
  ℕ, has_key, ◌≡◌, ◌↔◌, refl, true, false, Option, none, some, List, [], ◌∷◌, any_of, Text, codes,
  strip, is_space, text_eq, find, member, All, put,
}
use aiva_v.Queues.Catalog.{
  text, list, no_list, group, Config, groups, queues_in, or_defaults, merge, queue_of, list_of,
  is_named, get_queue_groups, resolve_verticals, validate_active_queues, verticals_of,
  validate_each, is_allowed, or_unrestricted,
}
use aiva_v.Queues.Catalog.Search.{
  limited_to, in_some_queue, resolve_verticals-member, resolve_verticals-unlimited, IsValidated,
  validate_active_queues-IsValidated,
}
use aiva_v.Queues.Assign.{
  sorted, ensure_queue_groups, set_vertical_queues, assigned, queues_with_vertical,
}
use aiva_v.Queues.Access.{
  UserContext, Access, supervisor, has_role, user_bypasses_queue_restrictions, replaced,
  all_queue_keys, save_validated, saved, set_assigned_queue_keys, granted, organization_of,
  require_can_manage_agent_queues, super_admin,
}
use aiva_v.Queues.Access.Laws.{ManagesOwn, require_can_manage_agent_queues-granted_iff}
use aiva_v.Queues.Assign.Select.{is_some}
use aiva_v.Queues.Assign.Shown.{rest_of}
use aiva_v.Queues.Assign.Finds.{
  set_vertical_queues-assigned_iff, set_vertical_queues-keeps, ensure_queue_groups-get,
}
use aiva_v.Queues.Assign.Listed.{queues_with_vertical-set_vertical_queues}

-- Two queues, of which one has had the document and is not selected, and an entry that is ignored.
abbrev corpus : Option Config
corpus = some (record {
  queue_groups = groups (
      (
        codes "HALAN",
        group (record {
          label = some (text (codes "Halan"));
          verticals = list (text (codes "CF") ∷ text (codes "kbdoc-7") ∷ []);
          rest = [];
        }),
      )
      ∷ (
        codes "Gomla ",
        group (record { label = none; verticals = list (text (codes "Gomla") ∷ []); rest = [] }),
      )
      ∷ (codes "broken", group (record { label = none; verticals = no_list none; rest = [] }))
      ∷ []);
  rest = [];
})

abbrev document : Text
document = codes "kbdoc-7"

abbrev chosen : List Text
chosen = codes " Gomla" ∷ []

chosen_known : All (λ k. is_some (find (strip k) (get_queue_groups corpus)) ≡ true) chosen
unfolding get_queue_groups queues_in or_defaults merge queue_of list_of find put strip is_named
    is_space text_eq
chosen_known = (refl, tt)

abbrev result : (cfg : Config) × (set_vertical_queues corpus document chosen ≡ assigned cfg)
result = (set_vertical_queues-assigned_iff corpus document chosen).1 chosen_known

document_named : is_named document ≡ true
unfolding is_named strip is_space
document_named = refl

queues_with_vertical-set_vertical_queues_example :
    member (codes "Gomla") (queues_with_vertical (some result.0) document)
    ≡ any_of (λ k. text_eq (strip k) (codes "Gomla")) chosen
queues_with_vertical-set_vertical_queues_example =
    queues_with_vertical-set_vertical_queues corpus document chosen result.0 document_named result.1
      (codes "Gomla")

set_vertical_queues-keeps_example :
    rest_of document (find (codes "HALAN") (get_queue_groups (some result.0)))
    ≡ rest_of document (find (codes "HALAN") (get_queue_groups corpus))
set_vertical_queues-keeps_example =
    set_vertical_queues-keeps corpus document chosen result.0 result.1 (codes "HALAN")

-- The only entry is malformed, so that retrieval falls back to the default queues.
abbrev malformed : Option Config
malformed = some (record {
  queue_groups =
      groups (
        (codes "HALAN", group (record { label = none; verticals = no_list none; rest = [] })) ∷ []);
  rest = [];
})

ensure_queue_groups-get_example :
    get_queue_groups (some (ensure_queue_groups malformed)) ≡ get_queue_groups malformed
ensure_queue_groups-get_example = ensure_queue_groups-get malformed

resolve_verticals-member_example :
    member (codes "CF") (limited_to (resolve_verticals corpus (codes "HALAN" ∷ [])))
    ≡ in_some_queue (get_queue_groups corpus) (codes "CF") (codes "HALAN" ∷ [])
resolve_verticals-member_example = resolve_verticals-member corpus (codes "HALAN" ∷ []) (codes "CF")

validate_active_queues-IsValidated_example :
    IsValidated
      (get_queue_groups corpus)
      (some (codes "HALAN" ∷ []))
      (codes " HALAN" ∷ codes "Gomla" ∷ [])
      []
      (validate_active_queues corpus
        (codes " HALAN" ∷ codes "Gomla" ∷ [])
        (some (codes "HALAN" ∷ [])))
validate_active_queues-IsValidated_example =
    validate_active_queues-IsValidated corpus (codes " HALAN" ∷ codes "Gomla" ∷ [])
      (some (codes "HALAN" ∷ []))

-- A queue without verticals.
abbrev bare : Option Config
bare = some (record {
  queue_groups =
      groups ((codes "New", group (record { label = none; verticals = list []; rest = [] })) ∷ []);
  rest = [];
})

nothing_in_bare : (v : Text) → in_some_queue (get_queue_groups bare) v (codes "New" ∷ []) ≡ false
unfolding in_some_queue verticals_of get_queue_groups queues_in or_defaults merge queue_of list_of
    find put strip is_named is_space text_eq
nothing_in_bare v = refl

resolve_verticals-unlimited_example : resolve_verticals bare (codes "New" ∷ []) ≡ none
resolve_verticals-unlimited_example =
    resolve_verticals-unlimited bare (codes "New" ∷ []) nothing_in_bare

abbrev agent : UserContext
agent = record { id = 4; organization_id = 1; roles = []; membership_account_ids = 9 ∷ [] }

abbrev manager : UserContext
manager = record {
  id = 5;
  organization_id = 1;
  roles = record { role_name = supervisor; account_id = some 9 } ∷ [];
  membership_account_ids = [];
}

abbrev rows : List Access
rows =
    record { account_id = 9; user_id = 4; queue_key = codes "Gomla"; assigned_by = 5 }
    ∷ record { account_id = 9; user_id = 6; queue_key = codes "Gomla"; assigned_by = 5 }
    ∷ []

abbrev halan : List Text
halan = codes "HALAN" ∷ []

agent_saved :
    set_assigned_queue_keys 9 4 halan none 5 rows ≡ saved halan (replaced 9 4 5 halan rows)
unfolding set_assigned_queue_keys save_validated validate_active_queues validate_each
    get_queue_groups is_named strip is_space has_key text_eq is_allowed all_queue_keys sorted
    or_unrestricted
agent_saved = refl

agent_is_plain : user_bypasses_queue_restrictions agent ≡ false
unfolding user_bypasses_queue_restrictions has_role
agent_is_plain = refl

manager_is_plain : has_role super_admin manager ≡ false
unfolding has_role text_eq
manager_is_plain = refl

require_can_manage_agent_queues-granted_iff_example :
    (require_can_manage_agent_queues manager 9 ((9, 1) ∷ []) ≡ granted) ↔ (
      (organization : ℕ) × (organization_of 9 ((9, 1) ∷ []) ≡ some organization)
      × ManagesOwn manager 9 organization)
require_can_manage_agent_queues-granted_iff_example =
    require_can_manage_agent_queues-granted_iff manager 9 ((9, 1) ∷ []) manager_is_plain
