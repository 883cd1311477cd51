-- ===== src/Auth/Verify.antt =====
-- backend/services/otp_service.py: the verification of a signup code.
pub mod Laws
use aiva_v.Prelude.{
  ℕ, ◌+◌, ◌*◌, Bool, true, false, not, Option, none, some, List, [], ◌∷◌, ◌&&◌, ◌||◌, length, leb,
  ltb, ◌==◌, if◌then◌else◌, Text, strip, text_eq,
}
use aiva_v.Auth.Db.{
  Status, Purpose, User, Otp, Event, Db, Services, Settings, AuthError, Result, ok, err, find_email,
  update_user, update_otp, log_event, is_locked,
}
use aiva_v.Auth.Codes.{latest_unused}

-- Every character is a digit.
all_digits : (ℕ → Bool) → Text → Bool
all_digits is_digit [] = true
all_digits is_digit (c ∷ s) = is_digit c && all_digits is_digit s

-- `otp.isdigit() and len(otp) == otp_length`; the empty text has no digits.
unfoldable pub is_code : Settings → Services → Text → Bool
unfolding all_digits
is_code s v [] = false
is_code s v (c ∷ otp) = all_digits v.is_digit (c ∷ otp) && length (c ∷ otp) == s.otp_length

-- The row's code is wrong: both counters grow, and the account is locked at the limit.
pub code_failed : Settings → ℕ → User → Otp → Db → Db
unfolding update_user update_otp log_event
code_failed s now user row db =
    let failed = row.failed_attempts + 1 in
    let db1 = update_otp row.id (λ o. record o { failed_attempts = failed }) db in
    let db2 =
      update_user user.id (λ u. record u { otp_failed_attempts = u.otp_failed_attempts + 1 }) db1 in
    let db3 =
      if leb s.otp_max_attempts failed
      then update_user user.id
          (λ u. record u { otp_locked_until = some (now + s.login_lock_minutes * 60) }) db2
      else db2 in
    log_event Event.otp_failed user.id db3

pub code_accepted : ℕ → User → Otp → Db → Db
unfolding update_user update_otp log_event
code_accepted now user row db = log_event Event.otp_verified user.id (
    update_user user.id
      (λ u. record u {
        status = Status.active;
        email_verified_at = some now;
        otp_failed_attempts = 0;
        otp_locked_until = none;
      })
      (update_otp row.id (λ o. record o { used_at = some now }) db))

module _ (s : Settings) (v : Services) where
  verify_row : ℕ → Text → User → Option Otp → Db → Result (Unit {0}) × Db
  verify_row now otp user none db = (err AuthError.invalid_code, db)
  verify_row now otp user (some row) db =
      if ltb row.expires_at now
      then (err AuthError.invalid_code, db)
      else if not (text_eq row.otp_hash (v.sha256 otp))
      then (err AuthError.invalid_code, code_failed s now user row db)
      else (ok tt, code_accepted now user row db)

  verify_found : ℕ → Text → Option User → Db → Result (Unit {0}) × Db
  unfolding verify_row is_locked
  verify_found now otp none db = (err AuthError.invalid_code, db)
  verify_found now otp (some user) db =
      if is_locked user.otp_locked_until now
      then (err AuthError.invalid_code, db)
      else verify_row now otp user (latest_unused user.id Purpose.signup db.otps) db

  -- `verify_signup_otp`
  pub verify_signup_otp : ℕ → Text → Text → Db → Result (Unit {0}) × Db
  unfolding is_code verify_found
  verify_signup_otp now email otp db =
      if not (is_code s v otp)
      then (err AuthError.invalid_code, db)
      else verify_found now otp (find_email v.lower (v.lower (strip email)) db.users) db
