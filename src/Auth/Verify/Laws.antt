-- ===== src/Auth/Verify/Laws.antt =====
-- Which codes verify an account, that a code works once, and the lock after wrong codes.
use aiva_v.Prelude.{
  ℕ, ◌+◌, ◌*◌, ◌≤◌, ◌<◌, ◌≡◌, refl, ◌↔◌, true, false, Option, none, some, List, [], ◌∷◌, leb,
  if◌then◌else◌, Text, strip, text_eq, text_eq_refl, eq_of_text_eq, arith, Option-cases, inl, inr,
}
use aiva_v.Auth.Db.{
  Status, Purpose, User, Otp, Db, Services, Settings, AuthError, ok, err, find_email, update_users,
  update_otps, is_locked,
}
use aiva_v.Auth.Rows.{find_email-update_users}
use aiva_v.Auth.Codes.{latest_unused}
use aiva_v.Auth.Codes.Laws.{OneOpen, open_codes-use_latest, latest_unused-none}
use aiva_v.Auth.Verify.{is_code, code_failed, code_accepted, verify_signup_otp}

module _ (s : Settings) (v : Services) where
  -- The account that an email names, and its code in force.
  abbrev pub account : Text → Db → Option User
  account email db = find_email v.lower (v.lower (strip email)) db.users

  abbrev pub in_force : User → Db → Option Otp
  in_force u db = latest_unused u.id Purpose.signup db.otps

  -- A code is accepted exactly when it has the form of a code, the account exists and is not locked
  -- now, a code is in force that has not expired, and the hashes agree.
  pub verify_signup_otp-ok_iff :
      (now : ℕ) (email otp : Text) (db : Db)
      → ((verify_signup_otp s v now email otp db).0 ≡ ok tt) ↔ (
          (is_code s v otp ≡ true)
          × ((u : User) × (row : Otp) × (account email db ≡ some u)
              × (is_locked u.otp_locked_until now ≡ false)
              × (in_force u db ≡ some row)
              × (now ≤ row.expires_at)
              × (row.otp_hash ≡ v.sha256 otp)))
  unfolding verify_signup_otp
  verify_signup_otp-ok_iff now email otp db = elim (Option-cases (account email db)) [
    | inl nobody ↦ ((λ e. ground arith), (λ e. ground arith))
    | inr (u, found) ↦ elim (Option-cases (in_force u db)) [
      | inl no_code ↦ ((λ e. ground arith), (λ e. ground arith))
      | inr (row, code) ↦ (
        (λ e. (
          ground arith,
          (
            u,
            row,
            found,
            ground arith,
            code,
            ground arith,
            eq_of_text_eq row.otp_hash (v.sha256 otp) (ground arith),
          ),
        )),
        (λ e. ground (arith, text_eq_refl (v.sha256 otp))),
      )
    ]
  ]

  -- What an accepted code writes.
  accepted_state :
      (now : ℕ) (email otp : Text) (db : Db) (u : User) (row : Otp)
      → account email db ≡ some u
      → in_force u db ≡ some row
      → (verify_signup_otp s v now email otp db).0 ≡ ok tt
      → (verify_signup_otp s v now email otp db).1 ≡ code_accepted now u row db
  unfolding verify_signup_otp
  accepted_state now email otp db u row f c h = ground arith

  accepted_refuses :
      (now later : ℕ) (email otp' : Text) (db : Db) (u : User) (row : Otp)
      → account email db ≡ some u
      → in_force u db ≡ some row
      → OneOpen db.otps
      → (verify_signup_otp s v later email otp' (code_accepted now u row db)).0
        ≡ err AuthError.invalid_code
  unfolding verify_signup_otp code_accepted
  accepted_refuses now later email otp' db u row f c one = ground (
    arith,
    find_email-update_users v.lower (v.lower (strip email))
        (λ x. record x {
          status = Status.active;
          email_verified_at = some now;
          otp_failed_attempts = 0;
          otp_locked_until = none;
        })
        db.users u (λ x. refl) f,
    open_codes-use_latest now u.id Purpose.signup db.otps row c,
    one u.id Purpose.signup,
    latest_unused-none u.id Purpose.signup
        (update_otps row.id (λ o. record o { used_at = some now }) db.otps),
  )

  -- A signup code works once: where at most one code is open, after a code was accepted no code,
  -- the same or another, is accepted for that email, at any time, until a new one is made.
  pub verify_signup_otp-once :
      (now later : ℕ) (email otp otp' : Text) (db : Db)
      → OneOpen db.otps
      → (verify_signup_otp s v now email otp db).0 ≡ ok tt
      → (verify_signup_otp s v later email otp' (verify_signup_otp s v now email otp db).1).0
        ≡ err AuthError.invalid_code
  verify_signup_otp-once now later email otp otp' db one h =
      let (form, (u, row, f, l, c, fresh, same)) =
        (verify_signup_otp-ok_iff now email otp db).0 h in
      rw (accepted_state now email otp db u row f c h)
        (accepted_refuses now later email otp' db u row f c one)

  -- An accepted code makes the account active, with its email verified now and no code lock; all
  -- else of the account is as before.
  pub verify_signup_otp-activates :
      (now : ℕ) (email otp : Text) (db : Db) (u : User)
      → account email db ≡ some u
      → (verify_signup_otp s v now email otp db).0 ≡ ok tt
      → account email (verify_signup_otp s v now email otp db).1
        ≡ some (record u {
          status = Status.active;
          email_verified_at = some now;
          otp_failed_attempts = 0;
          otp_locked_until = none;
        })
  unfolding verify_signup_otp code_accepted
  verify_signup_otp-activates now email otp db u f h = ground (
    arith,
    find_email-update_users v.lower (v.lower (strip email))
        (λ x. record x {
          status = Status.active;
          email_verified_at = some now;
          otp_failed_attempts = 0;
          otp_locked_until = none;
        })
        db.users u (λ x. refl) f,
  )

  latest_unused-update_otps :
      (i : ℕ) (p : Purpose) (n : ℕ) (os : List Otp) (row : Otp)
      → latest_unused i p os ≡ some row
      → latest_unused i p (update_otps row.id (λ o. record o { failed_attempts = n }) os)
        ≡ some (record row { failed_attempts = n })
  unfolding latest_unused update_otps
  latest_unused-update_otps i p n [] row h = cc
  latest_unused-update_otps i p n (o ∷ os) row h =
      ground (arith, latest_unused-update_otps i p n os row)

  -- A wrong code, well formed, for an unlocked account with an unexpired code in force is refused.
  -- The code in force then has one more failed attempt, the account one more failed code, and the
  -- account is locked for the lock time exactly if the code's failures reach the limit.
  pub verify_signup_otp-wrong :
      (now : ℕ) (email otp : Text) (db : Db) (u : User) (row : Otp)
      → is_code s v otp ≡ true
      → account email db ≡ some u
      → is_locked u.otp_locked_until now ≡ false
      → in_force u db ≡ some row
      → now ≤ row.expires_at
      → text_eq row.otp_hash (v.sha256 otp) ≡ false
      → let (r, db') = verify_signup_otp s v now email otp db in
        (r ≡ err AuthError.invalid_code)
        × (in_force u db' ≡ some (record row { failed_attempts = row.failed_attempts + 1 }))
        × (account email db'
            ≡ some (record u {
              otp_failed_attempts = u.otp_failed_attempts + 1;
              otp_locked_until =
                  if leb s.otp_max_attempts (row.failed_attempts + 1)
                  then some (now + s.login_lock_minutes * 60)
                  else u.otp_locked_until;
            }))
  unfolding verify_signup_otp code_failed
  verify_signup_otp-wrong now email otp db u row form f l c fresh differ =
      let bump =
        find_email-update_users v.lower (v.lower (strip email))
          (λ x. record x { otp_failed_attempts = x.otp_failed_attempts + 1 }) db.users u (λ x. refl)
          f in
      let lock =
        find_email-update_users v.lower (v.lower (strip email))
          (λ x. record x { otp_locked_until = some (now + s.login_lock_minutes * 60) })
          (update_users u.id (λ x. record x { otp_failed_attempts = x.otp_failed_attempts + 1 })
            db.users)
          (record u { otp_failed_attempts = u.otp_failed_attempts + 1 }) (λ x. refl) bump in
      let counted =
        latest_unused-update_otps u.id Purpose.signup (row.failed_attempts + 1) db.otps row c in
      ground (arith, bump, lock, counted)

  -- While the code lock of an account runs, no code is accepted and nothing is written.
  pub verify_signup_otp-locked :
      (now until : ℕ) (email otp : Text) (db : Db) (u : User)
      → account email db ≡ some u
      → u.otp_locked_until ≡ some until
      → now < until
      → verify_signup_otp s v now email otp db ≡ (err AuthError.invalid_code, db)
  unfolding verify_signup_otp
  verify_signup_otp-locked now until email otp db u f l h = ground arith
