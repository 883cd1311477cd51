-- ===== src/Queues/Access/Laws.antt =====
-- Who may manage the queues of an agent, and what the agent is then allowed.
use mathlib.Core.Path.{subst}
use aiva_v.Prelude.{
  ℕ, ◌≡◌, ◌↔◌, refl, sym, ◌∙◌, ap, Bool, true, false, Option, none, some, List, [], ◌∷◌, map,
  keep_if, ◌&&◌, ◌||◌, ◌==◌, Text, text_eq_refl, eq_of_text_eq, Map, has_key, member, arith,
}
use aiva_v.Queues.Catalog.{
  Config, Queue, get_queue_groups, Validated, valid, unknown_queue, not_allowed,
  validate_active_queues,
}
use aiva_v.Queues.Catalog.Search.{AreUsable, IsValidated, validate_active_queues-IsValidated}
use aiva_v.Queues.Assign.{sorted}
use aiva_v.Queues.Assign.Listed.{member-sorted}
use aiva_v.Queues.Access.{
  super_admin, org_admin, account_manager, supervisor, UserContext, has_role, has_account,
  can_access_account, user_bypasses_queue_restrictions, Access, is_access, list_assigned_queue_keys,
  all_queue_keys, or_catalog, get_allowed_queue_keys, new_access, replaced, saved, save_validated,
  set_assigned_queue_keys, granted, forbidden, organization_of, manage_in,
  require_can_manage_agent_queues,
}

-- Within the user's own organization: its administrator, or a supervisor or account manager of that
-- account.
abbrev pub ManagesOwn : UserContext → ℕ → ℕ → Type 0
ManagesOwn user account organization =
    (organization ≡ user.organization_id)
    × ((has_role org_admin user
          || (has_account account user
              && (has_role supervisor user || has_role account_manager user)))
        ≡ true)

manage_in-granted_iff :
    (user : UserContext) (account : ℕ) (o : Option ℕ)
    → has_role super_admin user ≡ false
    → (manage_in user account o ≡ granted)
      ↔ ((organization : ℕ) × (o ≡ some organization) × ManagesOwn user account organization)
unfolding manage_in can_access_account
manage_in-granted_iff user account none n =
    (λ h. let c : forbidden ≡ granted = h in cc, λ h. let c : none ≡ some h.0 = h.1 in cc)
manage_in-granted_iff user account (some organization) n = (
  λ h. (organization, refl, (ground (arith, h, n), ground (arith, h, n))),
  λ h.
      let e : some organization ≡ some h.0 = h.1 in
      let e' : organization ≡ h.0 = cc in ground (arith, e', h.2.0, h.2.1, n),
)

-- A user who is no super administrator can manage the agents' queues of an account exactly where the
-- account exists and is of the user's own organization, and the user is an administrator of that
-- organization, or a supervisor or account manager who has the account.
pub require_can_manage_agent_queues-granted_iff :
    (user : UserContext) (account : ℕ) (accounts : List (ℕ × ℕ))
    → has_role super_admin user ≡ false
    → (require_can_manage_agent_queues user account accounts ≡ granted) ↔ (
        (organization : ℕ) × (organization_of account accounts ≡ some organization)
        × ManagesOwn user account organization)
unfolding require_can_manage_agent_queues
require_can_manage_agent_queues-granted_iff user account accounts n =
    rw n (manage_in-granted_iff user account (organization_of account accounts) n)

keep_if-replaced_self :
    (account user by : ℕ) (keys : List Text) (table : List Access)
    → map
        (λ a. a.queue_key)
        (keep_if (is_access account user) (replaced account user by keys table))
      ≡ keys
unfolding replaced is_access
keep_if-replaced_self account user by keys [] = own keys
  where
    own :
        (ks : List Text)
        → map
            (λ a. a.queue_key)
            (keep_if (is_access account user) (map (new_access account user by) ks))
          ≡ ks
    own [] = refl
    own (k ∷ ks) = ground (arith, own ks)
keep_if-replaced_self account user by keys (a ∷ table) =
    ground (arith, keep_if-replaced_self account user by keys table)

keep_if-replaced_other :
    (account user by a u : ℕ) (keys : List Text) (table : List Access)
    → (a == account && u == user) ≡ false
    → keep_if (is_access a u) (replaced account user by keys table) ≡ keep_if (is_access a u) table
unfolding replaced is_access
keep_if-replaced_other account user by a u keys [] n = own keys
  where
    own : (ks : List Text) → keep_if (is_access a u) (map (new_access account user by) ks) ≡ []
    own [] = refl
    own (k ∷ ks) = ground (arith, own ks, n)
keep_if-replaced_other account user by a u keys (r ∷ table) n =
    ground (arith, keep_if-replaced_other account user by a u keys table n, n)

member-keys :
    (name : Text) (m : Map Queue) → has_key name m ≡ true → member name (map (λ q. q.0) m) ≡ true
unfolding has_key
member-keys name [] h = h
member-keys name ((key, q) ∷ m) h = ground (arith, h, member-keys name m)

keep_if-usable :
    (config : Option Config) (allowed : Option (List Text)) (ks : List Text)
    → AreUsable (get_queue_groups config) allowed ks
    → keep_if (λ k. member k (all_queue_keys config)) ks ≡ ks
keep_if-usable config allowed [] h = refl
keep_if-usable config allowed (k ∷ ks) h =
    let m : member k (all_queue_keys config) ≡ true =
      (unfold all_queue_keys in
        member-sorted k (map (λ q. q.0) (get_queue_groups config))
        ∙ member-keys k (get_queue_groups config) h.0) in
    rw m (ap (λ l. k ∷ l) (keep_if-usable config allowed ks h.1.1.1))

member-keep_if :
    (p : Text → Bool) (t : Text) (ts : List Text) → member t (keep_if p ts) ≡ (p t && member t ts)
member-keep_if p t [] = ground arith
member-keep_if p t (s ∷ ts) = ground (arith, member-keep_if p t ts, eq_of_text_eq s t)

or_catalog-member :
    (catalog ks : List Text) (k : Text) → member k ks ≡ true → or_catalog catalog ks ≡ ks
unfolding or_catalog
or_catalog-member catalog [] k h = cc
or_catalog-member catalog (j ∷ ks) k h = refl

list_assigned-replaced :
    (account user by : ℕ) (keys : List Text) (table : List Access)
    → list_assigned_queue_keys account user (replaced account user by keys table) ≡ sorted keys
unfolding list_assigned_queue_keys
list_assigned-replaced account user by keys table =
    ap sorted (keep_if-replaced_self account user by keys table)

-- The keys that are saved are usable, and not none.
saved_by :
    (account user by : ℕ) (config : Option Config) (asked : List Text) (table table' : List Access)
    (v : Validated) (ks : List Text)
    → IsValidated (get_queue_groups config) (some (all_queue_keys config)) asked [] v
    → save_validated account user by table v ≡ saved ks table'
    → AreUsable (get_queue_groups config) (some (all_queue_keys config)) ks
      × ((k : Text) × (member k ks ≡ true))
      × (table' ≡ replaced account user by ks table)
unfolding save_validated IsValidated
saved_by account user by config asked table table' (valid none) ks h e = cc
saved_by account user by config asked table table' (valid (some [])) ks h e =
    let c : true ≡ false = h.1 in cc
saved_by account user by config asked table table' (valid (some (k ∷ keys))) ks h e =
    let e1 : (k ∷ keys) ≡ ks = cc in
    let e2 : replaced account user by (k ∷ keys) table ≡ table' = cc in
    (
      subst (AreUsable (get_queue_groups config) (some (all_queue_keys config))) e1 h.0,
      (k, ap (member k) (sym e1) ∙ ground (arith, text_eq_refl k)),
      sym e2 ∙ ap (λ l. replaced account user by l table) e1,
    )
saved_by account user by config asked table table' (unknown_queue key) ks h e = cc
saved_by account user by config asked table table' (not_allowed key) ks h e = cc

-- An agent without an elevated role is allowed exactly the queues that were last saved for the agent
-- in that account, while the catalog stays as it was when they were saved.
pub get_allowed_queue_keys-set_assigned_queue_keys :
    (user : UserContext) (account by : ℕ) (keys : List Text) (config : Option Config)
    (table table' : List Access) (ks : List Text)
    → set_assigned_queue_keys account user.id keys config by table ≡ saved ks table'
    → user_bypasses_queue_restrictions user ≡ false
    → (name : Text)
    → member name (get_allowed_queue_keys user account config table') ≡ member name ks
unfolding get_allowed_queue_keys set_assigned_queue_keys
get_allowed_queue_keys-set_assigned_queue_keys user account by keys config table table' ks e n
      name =
    let allowed = some (all_queue_keys config) in
    let (u, (k, m), t) =
      saved_by account user.id by config keys table table'
        (validate_active_queues config keys allowed) ks
        (validate_active_queues-IsValidated config keys allowed) e in
    let in_catalog : Text → Bool = λ x. member x (all_queue_keys config) in
    let l =
      ap (list_assigned_queue_keys account user.id) t
      ∙ list_assigned-replaced account user.id by ks table in
    let kept : (x : Text) → member x (keep_if in_catalog (sorted ks)) ≡ member x ks = λ x.
      member-keep_if in_catalog x (sorted ks)
      ∙ ap (λ b. in_catalog x && b) (member-sorted x ks)
      ∙ sym (member-keep_if in_catalog x ks)
      ∙ ap (member x) (keep_if-usable config allowed ks u) in
    rw (n, l)
      (ap (member name) (
          or_catalog-member (all_queue_keys config) (keep_if in_catalog (sorted ks)) k (kept k ∙ m))
        ∙ kept name)

-- Saving the queues of one agent in one account leaves those of every other agent and account.
pub set_assigned_queue_keys-others :
    (account user by a u : ℕ) (keys : List Text) (config : Option Config)
    (table table' : List Access) (ks : List Text)
    → set_assigned_queue_keys account user keys config by table ≡ saved ks table'
    → (a == account && u == user) ≡ false
    → list_assigned_queue_keys a u table' ≡ list_assigned_queue_keys a u table
unfolding list_assigned_queue_keys set_assigned_queue_keys
set_assigned_queue_keys-others account user by a u keys config table table' ks e n =
    let allowed = some (all_queue_keys config) in
    let (_, _, t) =
      saved_by account user by config keys table table' (validate_active_queues config keys allowed)
        ks (validate_active_queues-IsValidated config keys allowed) e in
    rw t (
      ap (λ rows. sorted (map (λ r. r.queue_key) rows))
        (keep_if-replaced_other account user by a u ks table n))
