-- ===== src/Auth/Login/Laws.antt =====
-- Who gets tokens, and the lockout.
use aiva_v.Prelude.{
  ℕ, length, max, ◌-◌, Bool-cases, ◌+◌, ◌*◌, ◌≤◌, ◌<◌, ◌≡◌, refl, ap, ◌↔◌, true, false, Option,
  none, some, List, [], ◌∷◌, leb, if◌then◌else◌, Text, arith, Option-cases, inl, inr, All,
}
use aiva_v.Auth.Db.{Status, User, Db, Services, Settings, AuthError, ok, err, find_email, is_locked}
use aiva_v.Auth.Rows.{find_email-update_users}
use aiva_v.Auth.Login.{TokenResponse, login}

module _ (s : Settings) (v : Services) where
  -- A login returns tokens exactly when the account exists, is not locked now, is active and the
  -- password verifies; the tokens are then for that account.
  pub login-ok_iff :
      (now : ℕ) (email password : Text) (db : Db) (t : TokenResponse)
      → ((login s v now email password db).0 ≡ ok t) ↔ (
          (u : User) × (find_email v.lower email db.users ≡ some u)
          × (is_locked u.locked_until now ≡ false)
          × (v.verify_password password u.password_hash ≡ true)
          × (u.status ≡ Status.active)
          × (t ≡ record { user_id = u.id; organization_id = u.organization_id; email = u.email }))
  unfolding login
  login-ok_iff now email password db t = elim (Option-cases (find_email v.lower email db.users)) [
    | inl nobody ↦ ((λ e. ground arith), (λ e. ground arith))
    | inr (u, found) ↦ (
      (λ e. (u, found, ground arith, ground arith, ground arith, ground arith)),
      (λ e. ground arith),
    )
  ]

  -- While the lock of an account runs, no password is accepted, the right one included, and the
  -- attempt leaves no trace: every table stays as it is.
  pub login-locked :
      (now : ℕ) (email password : Text) (db : Db) (u : User) (until : ℕ)
      → find_email v.lower email db.users ≡ some u
      → u.locked_until ≡ some until
      → now < until
      → login s v now email password db ≡ (err AuthError.invalid_credentials, db)
  unfolding login
  login-locked now email password db u until f l h = ground arith

  -- A wrong password on an unlocked account is refused, and afterwards the account has one more
  -- failed attempt and is locked for the lock time exactly if that reaches the limit; all else of
  -- the account is as before.
  pub login-wrong :
      (now : ℕ) (email password : Text) (db : Db) (u : User)
      → find_email v.lower email db.users ≡ some u
      → is_locked u.locked_until now ≡ false
      → v.verify_password password u.password_hash ≡ false
      → ((login s v now email password db).0 ≡ err AuthError.invalid_credentials)
        × (find_email v.lower email (login s v now email password db).1.users
            ≡ some (
                if leb s.login_max_failed_attempts (u.failed_login_attempts + 1)
                then record u {
                  failed_login_attempts = u.failed_login_attempts + 1;
                  locked_until = some (now + s.login_lock_minutes * 60);
                }
                else record u { failed_login_attempts = u.failed_login_attempts + 1 }))
  unfolding login
  login-wrong now email password db u f l p = ground (
    arith,
    find_email-update_users v.lower email
        (λ x. record x {
          failed_login_attempts = u.failed_login_attempts + 1;
          locked_until = some (now + s.login_lock_minutes * 60);
        })
        db.users u (λ x. refl) f,
    find_email-update_users v.lower email
        (λ x. record x { failed_login_attempts = u.failed_login_attempts + 1 }) db.users u
        (λ x. refl) f,
  )

  -- A series of logins of one account, each at its time with its password.
  pub login_all : Text → List (ℕ × Text) → Db → Db
  login_all email [] db = db
  login_all email ((now, password) ∷ rest) db =
      login_all email rest (login s v now email password db).1

  history-login_wrong :
      (now : ℕ) (email password : Text) (db : Db) (u : User)
      → find_email v.lower email db.users ≡ some u
      → is_locked u.locked_until now ≡ false
      → v.verify_password password u.password_hash ≡ false
      → length (login s v now email password db).1.login_history ≡ length db.login_history + 1
  unfolding login
  history-login_wrong now email password db u f l p = ground arith

  -- The wrong guesses of a series, all within one lock time from `start`.
  abbrev pub AreGuesses : ℕ → Text → List (ℕ × Text) → Type 0
  AreGuesses start hash = All (λ (a : ℕ × Text).
      (start ≤ a.0)
      × (a.0 < start + s.login_lock_minutes * 60)
      × (v.verify_password a.1 hash ≡ false))

  login_all-locked :
      (email : Text) (start until : ℕ) (guesses : List (ℕ × Text)) (db : Db) (u : User)
      → find_email v.lower email db.users ≡ some u
      → u.locked_until ≡ some until
      → start + s.login_lock_minutes * 60 ≤ until
      → AreGuesses start u.password_hash guesses
      → login_all email guesses db ≡ db
  unfolding login_all
  login_all-locked email start until [] db u f l h g = refl
  login_all-locked email start until ((now, password) ∷ rest) db u f l h g =
      let same : (login s v now email password db).1 ≡ db =
        ap (λ r. r.1) (login-locked now email password db u until f l (omega arith)) in
      rw same (login_all-locked email start until rest db u f l h g.1)

  still_unlocked :
      (locked_until : Option ℕ) (now later : ℕ)
      → is_locked locked_until now ≡ false
      → now ≤ later
      → is_locked locked_until later ≡ false
  unfolding is_locked
  still_unlocked none now later h l = refl
  still_unlocked (some until) now later h l = ground (arith, h)

  -- However many wrong passwords are tried on an account that is not locked, within one lock time from
  -- now, at most as many are compared with its hash as were left of the limit (one, if none were
  -- left, as when a lock has run out): each comparison is a row of the login history, and there are
  -- no more rows than that.
  pub login_all-bounded :
      (email : Text) (start : ℕ) (guesses : List (ℕ × Text)) (db : Db) (u : User)
      → find_email v.lower email db.users ≡ some u
      → is_locked u.locked_until start ≡ false
      → AreGuesses start u.password_hash guesses
      → length (login_all email guesses db).login_history
        ≤ length db.login_history + max 1 (s.login_max_failed_attempts - u.failed_login_attempts)
  unfolding login_all
  login_all-bounded email start [] db u f l g = omega arith
  login_all-bounded email start ((now, password) ∷ rest) db u f l g =
      let free = still_unlocked u.locked_until start now l g.0.0 in
      let wrong = login-wrong now email password db u f free g.0.2 in
      let more = history-login_wrong now email password db u f free g.0.2 in
      elim (Bool-cases (leb s.login_max_failed_attempts (u.failed_login_attempts + 1))) [
        | inl full ↦
            let found = rw full at wrong.1 in
            rw
              (login_all-locked email start (now + s.login_lock_minutes * 60) rest
                (login s v now email password db).1
                (record u {
                  failed_login_attempts = u.failed_login_attempts + 1;
                  locked_until = some (now + s.login_lock_minutes * 60);
                })
                found refl (omega arith) g.1)
              (omega (arith, more))
        | inr room ↦
            let found = rw room at wrong.1 in
            let rest_bounded =
              login_all-bounded email start rest (login s v now email password db).1
                (record u { failed_login_attempts = u.failed_login_attempts + 1 }) found l g.1 in
            let left : u.failed_login_attempts + 1 < s.login_max_failed_attempts = ground arith in
            omega (arith, more, rest_bounded)
      ]
