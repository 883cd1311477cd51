-- ===== src/Auth/Tests.antt =====
-- The theorems at concrete inputs, and runs of the code.
use aiva_v.Prelude.{
  ℕ, ◌+◌, ◌*◌, ◌≤◌, ◌<◌, ◌≡◌, refl, ◌↔◌, true, false, none, some, List, [], ◌∷◌, arith, length, leb,
  Text, codes, max, ◌-◌, text_eq, text_eq_refl, ◌≢◌, strip, is_space, ◌&&◌,
}
use aiva_v.Auth.Db.{
  Status, Purpose, User, Otp, Db, Services, Settings, AuthError, ok, err, find_email, is_locked,
}
use aiva_v.Auth.Login.{TokenResponse, login}
use aiva_v.Auth.Login.Laws.{login-ok_iff, login_all, login_all-bounded}
use aiva_v.Auth.Password.{validate_password}
use aiva_v.Auth.Password.Laws.{validate_password-none_iff}
use aiva_v.Auth.Codes.{World, latest_unused, generate_otp}
use aiva_v.Auth.Codes.Laws.{OneOpen, open_codes}
use aiva_v.Auth.Signup.{signup_user, is_cooling, is_exhausted}
use aiva_v.Auth.Signup.Laws.{signup_user-OneOpen, signup_user-ignores_limit}
use aiva_v.Auth.Verify
use aiva_v.Auth.Reset
use aiva_v.Auth.Verify.{is_code, verify_signup_otp}
use aiva_v.Auth.Reset.{reset_password_with_otp}

-- Texts are hashed to themselves; a password verifies against itself.
abbrev plain : Services
plain = record {
  lower = λ t. t;
  is_digit = λ c. leb 48 c && leb c 57;
  is_decimal = λ c. leb 48 c && leb c 57;
  sha256 = λ t. t;
  hash_password = λ t. some t;
  verify_password = λ p h. text_eq p h;
}

abbrev settings : Settings
settings = record {
  login_max_failed_attempts = 3;
  login_lock_minutes = 15;
  otp_length = 2;
  otp_expiry_minutes = 10;
  otp_max_attempts = 2;
  otp_resend_cooldown_seconds = 60;
  otp_max_resend_per_hour = 3;
  signup_default_organization_id = some 1;
  bootstrap_superadmin_organization_code = [];
  signup_default_role = [];
  password_min_length = 2;
  password_require_complexity = false;
}

abbrev email : Text
email = 97 ∷ b'@' ∷ 98 ∷ []

abbrev secret : Text
secret = 80 ∷ 113 ∷ []

abbrev user : Status → User
user status = record {
  id = 7;
  organization_id = 1;
  first_name = secret;
  last_name = [];
  email = email;
  status = status;
  password_hash = secret;
  failed_login_attempts = 0;
  locked_until = none;
  otp_failed_attempts = 0;
  otp_locked_until = none;
  email_verified_at = none;
  last_login = none;
}

abbrev code : Text
code = 49 ∷ 50 ∷ []

abbrev otp_row : Purpose → Otp
otp_row purpose = record {
  id = 4;
  user_id = 7;
  purpose = purpose;
  otp_hash = code;
  expires_at = 600;
  used_at = none;
  failed_attempts = 0;
  resend_count = 3;
  last_sent_at = 0;
}

abbrev db_of : User → List Otp → Db
db_of u otps = record {
  organizations = record { id = 1; code = []; is_active = true } ∷ [];
  roles = record { id = 2; name = codes "AGENT" } ∷ [];
  users = u ∷ [];
  otps = otps;
  user_roles = [];
  events = [];
  login_history = [];
  outbox = [];
  next_user_id = 8;
  next_otp_id = 5;
}

abbrev world : World
world = record { now = 100; random = λ i. i; sent = true }

abbrev active_db : Db
active_db = db_of (user Status.active) (otp_row Purpose.forgot_password ∷ [])

abbrev pending_db : Db
pending_db = db_of (user Status.pending_email_verification) (otp_row Purpose.signup ∷ [])

abbrev tokens : TokenResponse
tokens = record { user_id = 7; organization_id = 1; email = email }

login-ok_iff_example : ((login settings plain 5 email secret active_db).0 ≡ ok tokens) ↔ (
    (u : User) × (find_email (λ t. t) email active_db.users ≡ some u)
    × (is_locked u.locked_until 5 ≡ false)
    × (text_eq secret u.password_hash ≡ true)
    × (u.status ≡ Status.active)
    × (tokens ≡ record { user_id = u.id; organization_id = u.organization_id; email = u.email }))
login-ok_iff_example = login-ok_iff settings plain 5 email secret active_db tokens

login_runs : (login settings plain 5 email secret active_db).0 ≡ ok tokens
unfolding find_email is_locked text_eq
login_runs = login-ok_iff_example.1 (user Status.active, refl, refl, refl, refl, refl)

abbrev locked_user : User
locked_user = record (user Status.active) { locked_until = some 900 }

abbrev guesses : List (ℕ × Text)
guesses = (5, code) ∷ (6, code) ∷ (7, code) ∷ (8, code) ∷ []

inside : (t : ℕ) → 5 ≤ t → t < 905 → (5 ≤ t) × (t < 905) × (text_eq code secret ≡ false)
unfolding text_eq
inside t h k = (h, k, refl)

login_all-bounded_example :
    length (login_all settings plain email guesses active_db).login_history ≤ 0 + max 1 (3 - 0)
unfolding find_email text_eq is_locked
login_all-bounded_example =
    login_all-bounded settings plain email 5 guesses active_db (user Status.active) refl refl (
      inside 5 (omega arith) (omega arith),
      (
        inside 6 (omega arith) (omega arith),
        (inside 7 (omega arith) (omega arith), (inside 8 (omega arith) (omega arith), tt)),
      ),
    )

secret_valid : validate_password settings plain secret (some secret) ≡ none
secret_valid =
    (validate_password-none_iff settings plain secret secret).1 (refl, omega arith, λ c. cc)

pending-OneOpen : OneOpen pending_db.otps
unfolding open_codes
pending-OneOpen u p = ground arith

active-OneOpen : OneOpen active_db.otps
unfolding open_codes
active-OneOpen u p = ground arith

signup_user-OneOpen_example :
    OneOpen (signup_user settings plain world secret email secret secret pending_db).1.otps
signup_user-OneOpen_example =
    signup_user-OneOpen settings plain world secret email secret secret pending_db pending-OneOpen

pending_signup : (signup_user settings plain world secret email secret secret pending_db).0 ≡ ok tt
unfolding signup_user find_email text_eq strip is_space
pending_signup = ground (arith, secret_valid)

signup_user-ignores_limit_example :
    ((signup_user settings plain world secret email secret secret pending_db).1.outbox
      ≡ record { recipient = email; purpose = Purpose.signup; otp = generate_otp 2 0 world.random }
        ∷ pending_db.outbox)
    × (latest_unused 7 Purpose.signup
          (signup_user settings plain world secret email secret secret pending_db).1.otps
        ≡ some (record {
          id = pending_db.next_otp_id;
          user_id = 7;
          purpose = Purpose.signup;
          otp_hash = generate_otp 2 0 world.random;
          expires_at = world.now + 10 * 60;
          used_at = none;
          failed_attempts = 0;
          resend_count = (otp_row Purpose.signup).resend_count + 1;
          last_sent_at = world.now;
        }))
unfolding find_email text_eq strip is_space latest_unused is_cooling is_exhausted
signup_user-ignores_limit_example =
    signup_user-ignores_limit settings plain world secret email secret secret pending_db
      (user Status.pending_email_verification) (otp_row Purpose.signup) refl refl refl refl refl
      refl pending_signup

verify_signup_otp-ok_iff_example :
    ((verify_signup_otp settings plain 5 email code pending_db).0 ≡ ok tt) ↔ (
      (is_code settings plain code ≡ true)
      × ((u : User) × (row : Otp) × (Verify.Laws.account settings plain email pending_db ≡ some u)
          × (is_locked u.otp_locked_until 5 ≡ false)
          × (Verify.Laws.in_force settings plain u pending_db ≡ some row)
          × (5 ≤ row.expires_at)
          × (row.otp_hash ≡ code)))
verify_signup_otp-ok_iff_example =
    Verify.Laws.verify_signup_otp-ok_iff settings plain 5 email code pending_db

code_IsCode : is_code settings plain code ≡ true
unfolding is_code
code_IsCode = refl

code_verifies : (verify_signup_otp settings plain 5 email code pending_db).0 ≡ ok tt
unfolding find_email text_eq strip is_space is_locked latest_unused
code_verifies = verify_signup_otp-ok_iff_example.1 (
  code_IsCode,
  (
    user Status.pending_email_verification,
    otp_row Purpose.signup,
    refl,
    refl,
    refl,
    omega arith,
    refl,
  ),
)

verify_signup_otp-once_example :
    (verify_signup_otp settings plain 9 email code
      (verify_signup_otp settings plain 5 email code pending_db).1).0
    ≡ err AuthError.invalid_code
verify_signup_otp-once_example =
    Verify.Laws.verify_signup_otp-once settings plain 5 9 email code code pending_db pending-OneOpen
      code_verifies

abbrev wrong_code : Text
wrong_code = 49 ∷ 49 ∷ []

reset_password_with_otp-ok_iff_example :
    (((reset_password_with_otp settings plain 5 email code secret secret active_db).0 ≡ ok tt) ↔ (
      (validate_password settings plain secret (some secret) ≡ none)
      × (is_code settings plain code ≡ true)
      × ((hash : Text) × (plain.hash_password secret ≡ some hash))
      × ((u : User) × (row : Otp) × (Reset.Laws.account settings plain email active_db ≡ some u)
          × (Reset.Laws.in_force settings plain u active_db ≡ some row)
          × (5 ≤ row.expires_at)
          × (row.otp_hash ≡ code))))
    × ((u : User) (hash : Text)
        → Reset.Laws.account settings plain email active_db ≡ some u
        → plain.hash_password secret ≡ some hash
        → (reset_password_with_otp settings plain 5 email code secret secret active_db).0 ≡ ok tt
        → Reset.Laws.account settings plain email
            (reset_password_with_otp settings plain 5 email code secret secret active_db).1
          ≡ some
              (record u { password_hash = hash; failed_login_attempts = 0; locked_until = none }))
reset_password_with_otp-ok_iff_example =
    Reset.Laws.reset_password_with_otp-ok_iff settings plain 5 email code secret secret active_db

code_resets :
    (reset_password_with_otp settings plain 5 email code secret secret active_db).0 ≡ ok tt
unfolding find_email text_eq strip is_space latest_unused
code_resets =
    (Reset.Laws.reset_password_with_otp-ok_iff settings plain 5 email code secret secret
        active_db).0.1
      (
        secret_valid,
        code_IsCode,
        (secret, refl),
        (user Status.active, otp_row Purpose.forgot_password, refl, refl, omega arith, refl),
      )

some_eq : {a b : Text} → some a ≡ some b → a ≡ b
some_eq h = cc

self_verified : (hash : Text) → secret ≡ hash → plain.verify_password secret hash ≡ true
self_verified hash e = rw (← e) (text_eq_refl secret)

login-reset_password_with_otp_example :
    (login settings plain 6
      (strip email)
      secret
      (reset_password_with_otp settings plain 5 email code secret secret active_db).1).0
    ≡ ok tokens
unfolding find_email text_eq strip is_space
login-reset_password_with_otp_example =
    Reset.Laws.login-reset_password_with_otp settings plain 5 6 email code secret secret active_db
      (user Status.active) refl refl (λ hash h. self_verified hash (some_eq h)) code_resets

reset_password_with_otp-once_example :
    (reset_password_with_otp settings plain 6 email code secret secret
      (reset_password_with_otp settings plain 5 email code secret secret active_db).1).0
    ≢ ok tt
reset_password_with_otp-once_example =
    Reset.Laws.reset_password_with_otp-once settings plain 5 6 email code code secret secret
      active_db active-OneOpen code_resets
