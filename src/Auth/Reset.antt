-- ===== src/Auth/Reset.antt =====
-- backend/services/otp_service.py: the password reset by a code.
pub mod Laws
use aiva_v.Prelude.{
  ℕ, Bool, true, false, not, Option, none, some, ltb, if◌then◌else◌, Text, strip, text_eq,
}
use aiva_v.Auth.Db.{
  Status, Purpose, User, Otp, Event, Db, Services, Settings, AuthError, Result, ok, err, find_email,
  update_user, update_otp, log_event,
}
use aiva_v.Auth.Password.{validate_password}
use aiva_v.Auth.Codes.{World, latest_unused, invalidate_unused_otps, create_and_send_otp}
use aiva_v.Auth.Verify.{is_code}

module _ (s : Settings) (v : Services) where
  request_found : World → Text → Option User → Db → Db
  unfolding log_event
  request_found w email none db = db
  request_found w email (some user) db = elim (user.status) [
    | Status.active ↦ log_event Event.forgot_password_requested user.id (
        create_and_send_otp s v w user.id email Purpose.forgot_password 0
          (invalidate_unused_otps w.now user.id Purpose.forgot_password db))
    | _ ↦ db
  ]

  -- `request_password_reset`, which returns nothing whatever happens.
  pub request_password_reset : World → Text → Db → Db
  unfolding request_found
  request_password_reset w email db =
      let email_norm = v.lower (strip email) in
      request_found w email_norm (find_email v.lower email_norm db.users) db

  -- The writes of a reset: the code is used, and the hash of the new password is stored.
  pub with_password : ℕ → Text → User → Otp → Db → Db
  unfolding update_user update_otp log_event
  with_password now hash user row db = log_event Event.password_reset_success user.id (
      update_user user.id
        (λ u. record u { password_hash = hash; failed_login_attempts = 0; locked_until = none })
        (update_otp row.id (λ o. record o { used_at = some now }) db))

  -- The password is hashed between the two writes, so a code is used up where that raises.
  pub password_reset : ℕ → Text → User → Otp → Db → Result (Unit {0}) × Db
  unfolding with_password update_otp
  password_reset now password user row db = elim (v.hash_password password) [
    | none ↦
        (err AuthError.internal_error, update_otp row.id (λ o. record o { used_at = some now }) db)
    | some hash ↦ (ok tt, with_password now hash user row db)
  ]

  reset_row : ℕ → Text → Text → User → Option Otp → Db → Result (Unit {0}) × Db
  unfolding password_reset
  reset_row now otp password user none db = (err AuthError.invalid_reset_code, db)
  reset_row now otp password user (some row) db =
      if ltb row.expires_at now
      then (err AuthError.invalid_reset_code, db)
      else if not (text_eq row.otp_hash (v.sha256 otp))
      then (err AuthError.invalid_reset_code, db)
      else password_reset now password user row db

  reset_found : ℕ → Text → Text → Option User → Db → Result (Unit {0}) × Db
  unfolding reset_row
  reset_found now otp password none db = (err AuthError.invalid_reset_code, db)
  reset_found now otp password (some user) db =
      reset_row now otp password user (latest_unused user.id Purpose.forgot_password db.otps) db

  reset_checked : ℕ → Text → Text → Text → Option AuthError → Db → Result (Unit {0}) × Db
  unfolding reset_found
  reset_checked now email otp password (some e) db = (err e, db)
  reset_checked now email otp password none db =
      if not (is_code s v otp)
      then (err AuthError.invalid_reset_code, db)
      else reset_found now otp password (find_email v.lower (v.lower (strip email)) db.users) db

  -- `reset_password_with_otp`
  pub reset_password_with_otp : ℕ → Text → Text → Text → Text → Db → Result (Unit {0}) × Db
  unfolding reset_checked
  reset_password_with_otp now email otp password confirm db =
      reset_checked now email otp password (validate_password s v password (some confirm)) db
