-- ===== src/Auth/Signup.antt =====
-- backend/services/otp_service.py: signup and the resending of its code.
pub mod Laws
use aiva_v.Prelude.{
  ℕ, zero, suc, ◌+◌, Bool, true, false, not, Option, none, some, List, [], ◌∷◌, ◌&&◌, ◌||◌, length,
  any_of, leb, ltb, ◌==◌, if◌then◌else◌, Text, codes, is_space, lstrip, strip, text_eq,
}
use aiva_v.Auth.Db.{
  Status, Purpose, User, Otp, Event, Organization, Role, Db, Services, Settings, AuthError, Result,
  ok, err, find_email, log_event, is_locked,
}
use aiva_v.Auth.Password.{validate_password}
use aiva_v.Auth.Codes.{World, latest, latest_unused, invalidate_unused_otps, create_and_send_otp}

-- The text up to its first space, and what follows it.
pub first_word : Text → Text × Text
first_word [] = ([], [])
first_word (c ∷ s) =
    let (word, rest) = first_word s in if is_space c then ([], lstrip (c ∷ s)) else (c ∷ word, rest)

or_user : Text × Text → Text × Text
or_user ([], rest) = (codes "User", [])
or_user (c ∷ word, rest) = (c ∷ word, rest)

-- `_split_name`
pub split_name : Text → Text × Text
unfolding first_word or_user strip
split_name name = or_user (first_word (strip name))

-- `SELECT id FROM AIVA_users WHERE id = :id`
unfoldable pub find_id : ℕ → List User → Option User
find_id i [] = none
find_id i (u ∷ us) = if u.id == i then some u else find_id i us

unfoldable pub organization_by_id : ℕ → List Organization → Option ℕ
organization_by_id i [] = none
organization_by_id i (o ∷ os) =
    if o.id == i && o.is_active then some o.id else organization_by_id i os

pub organization_by_code : Text → List Organization → Option ℕ
organization_by_code code [] = none
organization_by_code code (o ∷ os) =
    if text_eq o.code code && o.is_active then some o.id else organization_by_code code os

unfoldable pub role_by_name : Text → List Role → Option ℕ
role_by_name name [] = none
role_by_name name (r ∷ rs) = if text_eq r.name name then some r.id else role_by_name name rs

module _ (s : Settings) where
  organization_by : Option ℕ → Db → Option ℕ
  organization_by (some i) db = organization_by_id i db.organizations
  organization_by none db =
      organization_by_code s.bootstrap_superadmin_organization_code db.organizations

  -- `_resolve_signup_organization_id`
  unfoldable pub resolve_signup_organization_id : Db → Option ℕ
  unfolding organization_by
  resolve_signup_organization_id db = organization_by s.signup_default_organization_id db

  -- `_resolve_signup_role_id`; an empty role setting means the agent's role.
  unfoldable pub resolve_signup_role_id : Db → Option ℕ
  resolve_signup_role_id db =
      role_by_name (elim (s.signup_default_role) [ [] ↦ codes "AGENT" | c ∷ r ↦ c ∷ r ]) db.roles

  -- `elapsed < settings.otp_resend_cooldown_seconds`, with the subtraction moved across.
  unfoldable pub is_cooling : ℕ → Option Otp → Bool
  is_cooling now none = false
  is_cooling now (some o) = ltb now (o.last_sent_at + s.otp_resend_cooldown_seconds)

  unfoldable pub is_exhausted : Option Otp → Bool
  is_exhausted none = false
  is_exhausted (some o) = leb s.otp_max_resend_per_hour o.resend_count

  next_count : Option Otp → ℕ
  next_count none = 0
  next_count (some o) = o.resend_count + 1

  module _ (v : Services) where
    -- `_maybe_resend_signup_otp`
    pub maybe_resend_signup_otp : World → ℕ → Text → Db → Db
    unfolding is_cooling next_count
    maybe_resend_signup_otp w user_id email db =
        let last = latest_unused user_id Purpose.signup db.otps in
        if is_cooling w.now last
        then db
        else create_and_send_otp s v w user_id email Purpose.signup (next_count last)
            (invalidate_unused_otps w.now user_id Purpose.signup db)

    resend_pending : World → Text → User → Db → Db
    unfolding is_cooling is_exhausted
    resend_pending w email user db =
        let last = latest user.id Purpose.signup db.otps in
        if elim (find_id user.id db.users) [
          | none ↦ false
          | some u ↦ is_locked u.otp_locked_until w.now
        ]
        then db
        else if is_cooling w.now last || is_exhausted last
        then db
        else maybe_resend_signup_otp w user.id email db

    resend_found : World → Text → Option User → Db → Db
    unfolding resend_pending
    resend_found w email none db = db
    resend_found w email (some user) db = elim (user.status) [
      | Status.pending_email_verification ↦ resend_pending w email user db
      | _ ↦ db
    ]

    -- `resend_signup_otp`, which returns nothing whatever happens.
    pub resend_signup_otp : World → Text → Db → Db
    unfolding resend_found
    resend_signup_otp w email db =
        let email_norm = v.lower (strip email) in
        resend_found w email_norm (find_email v.lower email_norm db.users) db

    pub signup_existing : World → Text → User → Db → Db
    signup_existing w email user db = elim (user.status) [
      | Status.active ↦ log_event Event.signup_started user.id db
      | Status.pending_email_verification ↦ maybe_resend_signup_otp w user.id email db
      | _ ↦ db
    ]

    new_user : ℕ → Text → Text → Text → Db → User
    unfolding split_name
    new_user organization_id name email hash db = record {
      id = db.next_user_id;
      organization_id = organization_id;
      first_name = (split_name name).0;
      last_name = (split_name name).1;
      email = email;
      status = Status.pending_email_verification;
      password_hash = hash;
      failed_login_attempts = 0;
      locked_until = none;
      otp_failed_attempts = 0;
      otp_locked_until = none;
      email_verified_at = none;
      last_login = none;
    }

    -- The account is written, with its role; then its code is made and sent.
    pub write_user : World → ℕ → ℕ → Text → Text → Text → Db → Db
    unfolding new_user
    write_user w organization_id role_id name email hash db =
        let i = db.next_user_id in
        let db' = record db {
          users = new_user organization_id name email hash db ∷ db.users;
          user_roles = (i, role_id) ∷ db.user_roles;
          next_user_id = i + 1;
        } in
        log_event Event.signup_completed i (
          create_and_send_otp s v w i email Purpose.signup 0
            (invalidate_unused_otps w.now i Purpose.signup db'))

    -- The password is hashed before anything is written.
    pub register : World → ℕ → ℕ → Text → Text → Text → Db → Result (Unit {0}) × Db
    unfolding write_user
    register w organization_id role_id name email password db = elim (v.hash_password password) [
      | none ↦ (err AuthError.internal_error, db)
      | some hash ↦ (ok tt, write_user w organization_id role_id name email hash db)
    ]

    signup_new : World → Text → Text → Text → Option ℕ → Option ℕ → Db → Result (Unit {0}) × Db
    signup_new w name email password none role db = (err AuthError.no_organization, db)
    signup_new w name email password (some o) none db = (err AuthError.no_role, db)
    signup_new w name email password (some o) (some r) db = register w o r name email password db

    signup_by : World → Text → Text → Text → Option User → Db → Result (Unit {0}) × Db
    unfolding signup_new
    signup_by w name email password (some user) db = (ok tt, signup_existing w email user db)
    signup_by w name email password none db =
        signup_new w name email password (resolve_signup_organization_id db)
          (resolve_signup_role_id db) db

    signup_checked : World → Text → Text → Text → Option AuthError → Db → Result (Unit {0}) × Db
    unfolding signup_by
    signup_checked w name email password (some e) db = (err e, db)
    signup_checked w name email password none db =
        let email_norm = v.lower (strip email) in
        if not (any_of (λ c. c == b'@') email_norm)
        then (err AuthError.bad_email, db)
        else if ltb (length (strip name)) 2
        then (err AuthError.bad_name, db)
        else signup_by w name email_norm password (find_email v.lower email_norm db.users) db

    -- `signup_user`
    unfoldable pub signup_user : World → Text → Text → Text → Text → Db → Result (Unit {0}) × Db
    unfolding signup_checked
    signup_user w name email password confirm db =
        signup_checked w name email password (validate_password s v password (some confirm)) db
