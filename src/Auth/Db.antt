-- ===== src/Auth/Db.antt =====
-- The tables of the backend that the authentication handlers read and write, and the services that
-- they call. Rows that are chosen by `ORDER BY created_at DESC` are listed newest first.
use aiva_v.Prelude.{
  ℕ, Bool, false, Option, none, some, List, [], ◌∷◌, ◌==◌, ltb, if◌then◌else◌, Text, text_eq,
}

-- backend/auth/status.py
pub data Status : Type 0 where
  active pending_email_verification disabled password_reset_required : Status
  other_status : Text → Status

pub data Purpose : Type 0 where
  signup forgot_password : Purpose

pub record User : Type 0 where
  pub id : ℕ
  pub organization_id : ℕ
  pub first_name : Text
  pub last_name : Text
  pub email : Text
  pub status : Status
  pub password_hash : Text
  pub failed_login_attempts : ℕ
  pub locked_until : Option ℕ
  pub otp_failed_attempts : ℕ
  pub otp_locked_until : Option ℕ
  pub email_verified_at : Option ℕ
  pub last_login : Option ℕ

pub record Otp : Type 0 where
  pub id : ℕ
  pub user_id : ℕ
  pub purpose : Purpose
  pub otp_hash : Text
  pub expires_at : ℕ
  pub used_at : Option ℕ
  pub failed_attempts : ℕ
  pub resend_count : ℕ
  pub last_sent_at : ℕ

pub data Event : Type 0 where
  login_failed account_locked login_success : Event
  signup_started signup_completed otp_sent otp_resent otp_failed otp_verified : Event
  forgot_password_requested password_reset_success : Event

pub record Attempt : Type 0 where
  pub user_id : ℕ
  pub success : Bool

-- A mail that was sent: its reader, its purpose and the code in it.
pub record Mail : Type 0 where
  pub recipient : Text
  pub purpose : Purpose
  pub otp : Text

pub record Organization : Type 0 where
  pub id : ℕ
  pub code : Text
  pub is_active : Bool

pub record Role : Type 0 where
  pub id : ℕ
  pub name : Text

pub record Db : Type 0 where
  pub organizations : List Organization
  pub roles : List Role
  pub users : List User
  pub otps : List Otp
  pub user_roles : List (ℕ × ℕ)
  pub events : List (Event × ℕ)
  pub login_history : List Attempt
  pub outbox : List Mail
  pub next_user_id : ℕ
  pub next_otp_id : ℕ

-- What the handlers take from other code: `str.lower`, `str.isdigit` of a character, the digits of
-- `\d`, SHA-256, and the password hash, none where
-- bcrypt raises. Nothing is assumed of them here.
pub record Services : Type 0 where
  pub lower : Text → Text
  pub is_digit : ℕ → Bool
  pub is_decimal : ℕ → Bool
  pub sha256 : Text → Text
  pub hash_password : Text → Option Text
  pub verify_password : Text → Text → Bool

-- backend/config.py, the fields that the handlers read; times are in seconds.
pub record Settings : Type 0 where
  pub login_max_failed_attempts : ℕ
  pub login_lock_minutes : ℕ
  pub otp_length : ℕ
  pub otp_expiry_minutes : ℕ
  pub otp_max_attempts : ℕ
  pub otp_resend_cooldown_seconds : ℕ
  pub otp_max_resend_per_hour : ℕ
  pub signup_default_organization_id : Option ℕ
  pub bootstrap_superadmin_organization_code : Text
  pub signup_default_role : Text
  pub password_min_length : ℕ
  pub password_require_complexity : Bool

pub data AuthError : Type 0 where
  -- `BadRequestError`
  passwords_differ password_too_short no_uppercase no_lowercase no_number no_special : AuthError
  bad_email bad_name no_organization no_role invalid_reset_code : AuthError
  -- `UnauthorizedError`
  invalid_credentials verify_email_first account_disabled reset_required account_inactive :
      AuthError
  invalid_code : AuthError
  -- The exception of `hash_password`, which no handler turns into another answer.
  internal_error : AuthError

pub data Result {ℓ} (A : Type ℓ) : Type ℓ where
  ok : A → Result A
  err : AuthError → Result A

-- `SELECT … FROM AIVA_users WHERE LOWER(email) = LOWER(:email)`
unfoldable pub find_email : (Text → Text) → Text → List User → Option User
find_email lower email [] = none
find_email lower email (u ∷ us) =
    if text_eq (lower u.email) (lower email) then some u else find_email lower email us

-- `UPDATE AIVA_users SET … WHERE id = :id`
unfoldable pub update_users : ℕ → (User → User) → List User → List User
update_users i f [] = []
update_users i f (u ∷ us) = (if u.id == i then f u else u) ∷ update_users i f us

unfoldable pub update_user : ℕ → (User → User) → Db → Db
unfolding update_users
update_user i f db = record db { users = update_users i f db.users }

-- `UPDATE AIVA_email_otps SET … WHERE id = :id`
unfoldable pub update_otps : ℕ → (Otp → Otp) → List Otp → List Otp
update_otps i f [] = []
update_otps i f (o ∷ os) = (if o.id == i then f o else o) ∷ update_otps i f os

unfoldable pub update_otp : ℕ → (Otp → Otp) → Db → Db
unfolding update_otps
update_otp i f db = record db { otps = update_otps i f db.otps }

-- `log_auth_event`
unfoldable pub log_event : Event → ℕ → Db → Db
log_event e user_id db = record db { events = (e, user_id) ∷ db.events }

-- `locked_until and locked_until.timestamp() > now`
unfoldable pub is_locked : Option ℕ → ℕ → Bool
is_locked none now = false
is_locked (some until) now = ltb now until
