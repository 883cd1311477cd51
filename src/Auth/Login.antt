-- ===== src/Auth/Login.antt =====
-- backend/routers/auth.py: the password login.
pub mod Laws
use aiva_v.Prelude.{
  ℕ, ◌+◌, ◌*◌, Bool, true, false, not, Option, none, some, List, [], ◌∷◌, leb, if◌then◌else◌, Text,
}
use aiva_v.Auth.Db.{
  Status, User, Db, Event, Attempt, Services, Settings, AuthError, Result, ok, err, find_email,
  update_user, log_event, is_locked,
}

-- `_record_login_attempt`, for a known user.
pub record_login_attempt : ℕ → Bool → Db → Db
record_login_attempt user_id success db = record db {
  login_history = record { user_id = user_id; success = success } ∷ db.login_history;
}

-- The claims of the pair of tokens that `create_token_pair` signs.
pub record TokenResponse : Type 0 where
  pub user_id : ℕ
  pub organization_id : ℕ
  pub email : Text

is_active : Status → Bool
is_active Status.active = true
is_active _ = false

-- `_issue_tokens_for_user`
pub issue_tokens_for_user : User → Db → Result TokenResponse × Db
unfolding is_active record_login_attempt
issue_tokens_for_user u db =
    if is_active u.status
    then (
      ok (record { user_id = u.id; organization_id = u.organization_id; email = u.email }),
      record_login_attempt u.id true db,
    )
    else (err AuthError.account_inactive, db)

module _ (s : Settings) where
  -- The wrong password's branch: the attempt is recorded, and the account locked at the limit.
  pub login_failed : ℕ → User → Db → Db
  unfolding record_login_attempt update_user log_event
  login_failed now user db =
      let db' = record_login_attempt user.id false db in
      let failed = user.failed_login_attempts + 1 in
      let counted =
        if leb s.login_max_failed_attempts failed
        then log_event Event.account_locked user.id (
            update_user user.id
              (λ u. record u {
                failed_login_attempts = failed;
                locked_until = some (now + s.login_lock_minutes * 60);
              })
              db')
        else update_user user.id (λ u. record u { failed_login_attempts = failed }) db' in
      log_event Event.login_failed user.id counted

  -- The right password's branch, by the account's status.
  pub login_by_status : Status → ℕ → User → Db → Result TokenResponse × Db
  unfolding issue_tokens_for_user update_user log_event
  login_by_status Status.pending_email_verification now user db =
      (err AuthError.verify_email_first, db)
  login_by_status Status.disabled now user db = (err AuthError.account_disabled, db)
  login_by_status Status.password_reset_required now user db = (err AuthError.reset_required, db)
  login_by_status (Status.other_status t) now user db = (err AuthError.invalid_credentials, db)
  login_by_status Status.active now user db = issue_tokens_for_user user (
      log_event Event.login_success user.id (
        update_user user.id
          (λ u. record u { failed_login_attempts = 0; locked_until = none; last_login = some now })
          db))

  module _ (v : Services) where
    pub login_found : ℕ → Text → Option User → Db → Result TokenResponse × Db
    unfolding login_failed login_by_status is_locked
    login_found now password none db = (err AuthError.invalid_credentials, db)
    login_found now password (some user) db =
        if is_locked user.locked_until now
        then (err AuthError.invalid_credentials, db)
        else if not (v.verify_password password user.password_hash)
        then (err AuthError.invalid_credentials, login_failed now user db)
        else login_by_status user.status now user db

    pub login : ℕ → Text → Text → Db → Result TokenResponse × Db
    unfolding login_found
    login now email password db = login_found now password (find_email v.lower email db.users) db
