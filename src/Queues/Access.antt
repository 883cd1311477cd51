-- ===== src/Queues/Access.antt =====
-- backend/services/agent_queue_access.py, with what it uses of backend/auth/deps.py: which queues an
-- agent may search in an account, and who may say so. Texts that the database sorts are sorted by
-- their characters.
pub mod Laws
use aiva_v.Prelude.{
  ℕ, Bool, true, false, not, Option, none, some, List, [], ◌∷◌, ◌++◌, map, keep_if, ◌&&◌, ◌||◌,
  any_of, ◌==◌, if◌then◌else◌, Text, codes, text_eq, member,
}
use aiva_v.Queues.Catalog.{
  Config, get_queue_groups, Validated, valid, unknown_queue, not_allowed, validate_active_queues,
}
use aiva_v.Queues.Assign.{sorted}

-- backend/auth/role_constants.py
abbrev pub super_admin : Text
super_admin = codes "SUPER_ADMIN"

abbrev pub org_admin : Text
org_admin = codes "ORGANIZATION_ADMIN"

abbrev pub account_manager : Text
account_manager = codes "ACCOUNT_MANAGER"

abbrev pub supervisor : Text
supervisor = codes "SUPERVISOR"

pub record RoleAssignment : Type 0 where
  pub role_name : Text
  pub account_id : Option ℕ

-- The part of a `UserContext` that permissions depend on.
pub record UserContext : Type 0 where
  pub id : ℕ
  pub organization_id : ℕ
  pub roles : List RoleAssignment
  pub membership_account_ids : List ℕ

-- `name in self.role_names`
unfoldable pub has_role : Text → UserContext → Bool
has_role name user = any_of (λ r. text_eq r.role_name name) user.roles

is_for_account : ℕ → Option ℕ → Bool
is_for_account account none = false
is_for_account account (some a) = a == account

-- `account_id in self.account_ids`
unfoldable pub has_account : ℕ → UserContext → Bool
unfolding is_for_account
has_account account user =
    any_of (λ a. a == account) user.membership_account_ids
    || any_of (λ r. is_for_account account r.account_id) user.roles

-- `can_access_account`, called with an organization.
pub can_access_account : ℕ → ℕ → UserContext → Bool
unfolding has_role has_account
can_access_account account organization user =
    if has_role super_admin user
    then true
    else if not (user.organization_id == organization)
    then false
    else if has_role org_admin user
    then true
    else has_account account user

unfoldable pub user_bypasses_queue_restrictions : UserContext → Bool
unfolding has_role
user_bypasses_queue_restrictions user =
    has_role super_admin user
    || has_role org_admin user
    || has_role account_manager user
    || has_role supervisor user

-- A row of `AIVA_agent_queue_access`.
pub record Access : Type 0 where
  pub account_id : ℕ
  pub user_id : ℕ
  pub queue_key : Text
  pub assigned_by : ℕ

unfoldable pub is_access : ℕ → ℕ → Access → Bool
is_access account user a = a.account_id == account && a.user_id == user

pub list_assigned_queue_keys : ℕ → ℕ → List Access → List Text
unfolding is_access
list_assigned_queue_keys account user table =
    sorted (map (λ a. a.queue_key) (keep_if (is_access account user) table))

-- backend/services/kb_queue_groups.py
unfoldable pub all_queue_keys : Option Config → List Text
all_queue_keys config = sorted (map (λ q. q.0) (get_queue_groups config))

or_catalog : List Text → List Text → List Text
or_catalog catalog [] = catalog
or_catalog catalog (k ∷ ks) = k ∷ ks

-- An agent with no assigned queue, or with none that is left in the catalog, has the whole catalog.
pub get_allowed_queue_keys : UserContext → ℕ → Option Config → List Access → List Text
unfolding or_catalog
get_allowed_queue_keys user account config table =
    let catalog = all_queue_keys config in
    if user_bypasses_queue_restrictions user
    then catalog
    else or_catalog catalog
        (keep_if (λ k. member k catalog) (list_assigned_queue_keys account user.id table))

abbrev pub new_access : ℕ → ℕ → ℕ → Text → Access
new_access account user assigned_by key = record {
  account_id = account;
  user_id = user;
  queue_key = key;
  assigned_by = assigned_by;
}

-- The old rows of the agent are deleted, and one is inserted for each key.
pub replaced : ℕ → ℕ → ℕ → List Text → List Access → List Access
unfolding is_access
replaced account user assigned_by keys table =
    keep_if (λ a. not (is_access account user a)) table
    ++ map (new_access account user assigned_by) keys

-- `ValueError`, `BadRequestError`, or the saved keys with the new table.
pub data Saved : Type 0 where
  none_required : Saved
  bad_request : Validated → Saved
  saved : List Text → List Access → Saved

unfoldable pub save_validated : ℕ → ℕ → ℕ → List Access → Validated → Saved
unfolding replaced
save_validated account user assigned_by table (valid none) = none_required
save_validated account user assigned_by table (valid (some keys)) =
    saved keys (replaced account user assigned_by keys table)
save_validated account user assigned_by table (unknown_queue key) = bad_request (unknown_queue key)
save_validated account user assigned_by table (not_allowed key) = bad_request (not_allowed key)

unfoldable pub set_assigned_queue_keys : ℕ → ℕ → List Text → Option Config → ℕ → List Access → Saved
unfolding save_validated
set_assigned_queue_keys account user keys config assigned_by table =
    save_validated account user assigned_by table
      (validate_active_queues config keys (some (all_queue_keys config)))

pub data Permission : Type 0 where
  granted forbidden : Permission

-- `AIVA_accounts`, as the organization of each account.
unfoldable pub organization_of : ℕ → List (ℕ × ℕ) → Option ℕ
organization_of account [] = none
organization_of account ((a, o) ∷ accounts) =
    if a == account then some o else organization_of account accounts

manage_in : UserContext → ℕ → Option ℕ → Permission
unfolding can_access_account has_role
manage_in user account none = forbidden
manage_in user account (some organization) =
    if not (can_access_account account organization user)
    then forbidden
    else if has_role supervisor user || has_role account_manager user
    then granted
    else if has_role org_admin user && organization == user.organization_id
    then granted
    else forbidden

pub require_can_manage_agent_queues : UserContext → ℕ → List (ℕ × ℕ) → Permission
unfolding manage_in organization_of
require_can_manage_agent_queues user account accounts =
    if has_role super_admin user
    then granted
    else manage_in user account (organization_of account accounts)
