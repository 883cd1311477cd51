-- ===== src/Auth/Reset/Laws.antt =====
-- Which codes reset a password, what a reset does, and that a code does so once.
use aiva_v.Prelude.{
  ◌≢◌, ℕ, ◌≤◌, ◌≡◌, refl, ◌↔◌, true, Option, none, some, Text, strip, text_eq_refl, eq_of_text_eq,
  arith, Option-cases, inl, inr,
}
use aiva_v.Auth.Db.{
  Status, Purpose, User, Otp, Db, Services, Settings, ok, find_email, update_otps, is_locked,
}
use aiva_v.Auth.Rows.{find_email-update_users}
use aiva_v.Auth.Password.{validate_password}
use aiva_v.Auth.Codes.{latest_unused}
use aiva_v.Auth.Codes.Laws.{OneOpen, open_codes-use_latest, latest_unused-none}
use aiva_v.Auth.Verify.{is_code}
use aiva_v.Auth.Login.{login}
use aiva_v.Auth.Login.Laws.{login-ok_iff}
use aiva_v.Auth.Reset.{with_password, reset_password_with_otp}

module _ (s : Settings) (v : Services) where
  abbrev pub account : Text → Db → Option User
  account email db = find_email v.lower (v.lower (strip email)) db.users

  abbrev pub in_force : User → Db → Option Otp
  in_force u db = latest_unused u.id Purpose.forgot_password db.otps

  reset_raises :
      (now : ℕ) (email otp password confirm : Text) (db : Db)
      → v.hash_password password ≡ none
      → (reset_password_with_otp s v now email otp password confirm db).0 ≢ ok tt
  unfolding reset_password_with_otp
  reset_raises now email otp password confirm db r h = elim (Option-cases (account email db)) [
    | inl nobody ↦ ground arith
    | inr (u, found) ↦ elim (Option-cases (in_force u db)) [
      | inl no_code ↦ ground arith
      | inr (row, code) ↦ ground arith
    ]
  ]

  reset_ok_iff :
      (now : ℕ) (email otp password confirm : Text) (db : Db)
      → ((reset_password_with_otp s v now email otp password confirm db).0 ≡ ok tt) ↔ (
          (validate_password s v password (some confirm) ≡ none)
          × (is_code s v otp ≡ true)
          × ((hash : Text) × (v.hash_password password ≡ some hash))
          × ((u : User) × (row : Otp) × (account email db ≡ some u)
              × (in_force u db ≡ some row)
              × (now ≤ row.expires_at)
              × (row.otp_hash ≡ v.sha256 otp)))
  unfolding reset_password_with_otp
  reset_ok_iff now email otp password confirm db = elim (Option-cases (v.hash_password password)) [
    | inl raising ↦ (
      (λ e. absurd (reset_raises now email otp password confirm db raising e)),
      (λ e. ground arith),
    )
    | inr (hash, hashed) ↦ elim (Option-cases (account email db)) [
      | inl nobody ↦ ((λ e. ground arith), (λ e. ground arith))
      | inr (u, found) ↦ elim (Option-cases (in_force u db)) [
        | inl no_code ↦ ((λ e. ground arith), (λ e. ground arith))
        | inr (row, code) ↦ (
          (λ e. (
            ground arith,
            ground arith,
            (hash, hashed),
            (
              u,
              row,
              found,
              code,
              ground arith,
              eq_of_text_eq row.otp_hash (v.sha256 otp) (ground arith),
            ),
          )),
          (λ e. ground (arith, text_eq_refl (v.sha256 otp))),
        )
      ]
    ]
  ]

  reset_state :
      (now : ℕ) (email otp password confirm : Text) (db : Db) (u : User) (row : Otp) (hash : Text)
      → account email db ≡ some u
      → in_force u db ≡ some row
      → v.hash_password password ≡ some hash
      → (reset_password_with_otp s v now email otp password confirm db).0 ≡ ok tt
      → (reset_password_with_otp s v now email otp password confirm db).1
        ≡ with_password s v now hash u row db
  unfolding reset_password_with_otp
  reset_state now email otp password confirm db u row hash f c k h = ground arith

  account-with_password :
      (now : ℕ) (email hash : Text) (db : Db) (u : User) (row : Otp)
      → account email db ≡ some u
      → account email (with_password s v now hash u row db)
        ≡ some (record u { password_hash = hash; failed_login_attempts = 0; locked_until = none })
  unfolding with_password
  account-with_password now email hash db u row f =
      find_email-update_users v.lower (v.lower (strip email))
        (λ x. record x { password_hash = hash; failed_login_attempts = 0; locked_until = none })
        db.users u (λ x. refl) f

  -- A password is reset exactly when it passes the policy and can be hashed, the code has the form of a
  -- code, the account exists, a reset code is in force that has not expired, and the hashes agree. No
  -- lock is asked for. After a reset the account has the hash of the new password, no failed login and
  -- no lock, and is otherwise as before.
  pub reset_password_with_otp-ok_iff :
      (now : ℕ) (email otp password confirm : Text) (db : Db)
      → (((reset_password_with_otp s v now email otp password confirm db).0 ≡ ok tt) ↔ (
          (validate_password s v password (some confirm) ≡ none)
          × (is_code s v otp ≡ true)
          × ((hash : Text) × (v.hash_password password ≡ some hash))
          × ((u : User) × (row : Otp) × (account email db ≡ some u)
              × (in_force u db ≡ some row)
              × (now ≤ row.expires_at)
              × (row.otp_hash ≡ v.sha256 otp))))
        × ((u : User) (hash : Text)
            → account email db ≡ some u
            → v.hash_password password ≡ some hash
            → (reset_password_with_otp s v now email otp password confirm db).0 ≡ ok tt
            → account email (reset_password_with_otp s v now email otp password confirm db).1
              ≡ some (record u {
                password_hash = hash;
                failed_login_attempts = 0;
                locked_until = none;
              }))
  reset_password_with_otp-ok_iff now email otp password confirm db = (
    reset_ok_iff now email otp password confirm db,
    λ u hash f k h.
        (let (valid, form, hashed, (u', row, f', c, fresh, same)) =
            (reset_ok_iff now email otp password confirm db).0 h in
          let u_is : u' ≡ u = ground arith in
          let c' : in_force u db ≡ some row = rw u_is at c in
          rw (reset_state now email otp password confirm db u row hash f c' k h)
            (account-with_password now email hash db u row f)),
  )

  -- After a successful reset of an active account the new password logs in at once, at any time,
  -- also if the account was locked by failed logins, provided that a password verifies against the
  -- hash that is made of it.
  pub login-reset_password_with_otp :
      (now later : ℕ) (email otp password confirm : Text) (db : Db) (u : User)
      → account email db ≡ some u
      → u.status ≡ Status.active
      → ((hash : Text)
          → v.hash_password password ≡ some hash
          → v.verify_password password hash ≡ true)
      → (reset_password_with_otp s v now email otp password confirm db).0 ≡ ok tt
      → (login s v later
          (v.lower (strip email))
          password
          (reset_password_with_otp s v now email otp password confirm db).1).0
        ≡ ok (record { user_id = u.id; organization_id = u.organization_id; email = u.email })
  unfolding is_locked
  login-reset_password_with_otp now later email otp password confirm db u f a p h =
      let r = reset_password_with_otp-ok_iff now email otp password confirm db in
      let (valid, form, (hash, k), rest) = r.0.0 h in
      let after = (reset_password_with_otp s v now email otp password confirm db).1 in
      (login-ok_iff s v later (v.lower (strip email)) password after
          (record { user_id = u.id; organization_id = u.organization_id; email = u.email })).1
        (
          record u { password_hash = hash; failed_login_attempts = 0; locked_until = none },
          r.1 u hash f k h,
          refl,
          p hash k,
          a,
          refl,
        )

  reset_refuses :
      (now later : ℕ) (email otp password confirm hash : Text) (db : Db) (u : User) (row : Otp)
      → account email db ≡ some u
      → in_force u db ≡ some row
      → OneOpen db.otps
      → (reset_password_with_otp s v later email otp password confirm
          (with_password s v now hash u row db)).0
        ≢ ok tt
  unfolding reset_password_with_otp with_password
  reset_refuses now later email otp password confirm hash db u row f c one h = ground (
    arith,
    find_email-update_users v.lower (v.lower (strip email))
        (λ x. record x { password_hash = hash; failed_login_attempts = 0; locked_until = none })
        db.users u (λ x. refl) f,
    open_codes-use_latest now u.id Purpose.forgot_password db.otps row c,
    one u.id Purpose.forgot_password,
    latest_unused-none u.id Purpose.forgot_password
        (update_otps row.id (λ o. record o { used_at = some now }) db.otps),
  )

  -- A reset code works once: where at most one code is open, after a successful reset no further
  -- reset of that account succeeds, with any code and password and at any time, until a new code is
  -- made.
  pub reset_password_with_otp-once :
      (now later : ℕ) (email otp otp' password password' : Text) (db : Db)
      → OneOpen db.otps
      → (reset_password_with_otp s v now email otp password password db).0 ≡ ok tt
      → (reset_password_with_otp s v later email otp' password' password'
          (reset_password_with_otp s v now email otp password password db).1).0
        ≢ ok tt
  reset_password_with_otp-once now later email otp otp' password password' db one h =
      let (valid, form, (hash, k), (u, row, f, c, fresh, same)) =
        (reset_ok_iff now email otp password password db).0 h in
      rw (reset_state now email otp password password db u row hash f c k h)
        (reset_refuses now later email otp' password' password' hash db u row f c one)
