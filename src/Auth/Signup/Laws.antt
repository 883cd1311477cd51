-- ===== src/Auth/Signup/Laws.antt =====
-- When a code is sent again, and that one code at most is ever open.
use aiva_v.Prelude.{
  ℕ, ◌+◌, ◌*◌, ◌≡◌, ◌≢◌, true, false, none, some, ◌∷◌, ◌⊎◌, Text, strip, arith, Option-cases, inl,
  inr,
}
use aiva_v.Auth.Db.{
  Status, Purpose, User, Otp, Db, Services, Settings, ok, find_email, log_event, is_locked,
}
use aiva_v.Auth.Codes.{World, latest, latest_unused, generate_otp, invalidate_unused_otps}
use aiva_v.Auth.Codes.Laws.{OneOpen, create_and_send_otp-sends, create_and_send_otp-OneOpen}
use aiva_v.Auth.Signup.{
  find_id, next_count, new_user, resolve_signup_organization_id, resolve_signup_role_id, is_cooling,
  is_exhausted, maybe_resend_signup_otp, resend_signup_otp, signup_existing, write_user, register,
  signup_user,
}

module _ (s : Settings) (v : Services) where
  maybe_resend-OneOpen :
      (w : World) (u : ℕ) (email : Text) (db : Db)
      → OneOpen db.otps
      → OneOpen (maybe_resend_signup_otp s v w u email db).otps
  unfolding maybe_resend_signup_otp
  maybe_resend-OneOpen w u email db one i q = ground (
    arith,
    one i q,
    create_and_send_otp-OneOpen s v w u email Purpose.signup
        (next_count s (latest_unused u Purpose.signup db.otps)) db one i q,
  )

  write_user-OneOpen :
      (w : World) (o r : ℕ) (name email hash : Text) (db : Db)
      → OneOpen db.otps
      → OneOpen (write_user s v w o r name email hash db).otps
  unfolding write_user log_event
  write_user-OneOpen w o r name email hash db one =
      create_and_send_otp-OneOpen s v w db.next_user_id email Purpose.signup 0
        (record db {
          users = new_user s v o name email hash db ∷ db.users;
          user_roles = (db.next_user_id, r) ∷ db.user_roles;
          next_user_id = db.next_user_id + 1;
        })
        one

  register-OneOpen :
      (w : World) (o r : ℕ) (name email password : Text) (db : Db)
      → OneOpen db.otps
      → OneOpen (register s v w o r name email password db).1.otps
  unfolding register
  register-OneOpen w o r name email password db one =
      elim (Option-cases (v.hash_password password)) [
        | inl raising ↦ rw (register, raising) one
        | inr (hash, hashed) ↦
            rw (register, hashed) (write_user-OneOpen w o r name email hash db one)
      ]

  existing-OneOpen :
      (w : World) (email : Text) (u : User) (db : Db)
      → OneOpen db.otps
      → OneOpen (signup_existing s v w email u db).otps
  unfolding signup_existing log_event
  existing-OneOpen w email u db one i q =
      ground (arith, one i q, maybe_resend-OneOpen w u.id email db one i q)

  -- Signing up keeps at most one code open for each account and purpose, on every path: refused
  -- requests, known accounts and new ones.
  pub signup_user-OneOpen :
      (w : World) (name email password confirm : Text) (db : Db)
      → OneOpen db.otps
      → OneOpen (signup_user s v w name email password confirm db).1.otps
  unfolding signup_user
  signup_user-OneOpen w name email password confirm db one i p =
      elim (Option-cases (find_email v.lower (v.lower (strip email)) db.users)) [
        | inl new ↦ elim (Option-cases (resolve_signup_organization_id s db)) [
          | inl no_org ↦ ground (arith, one i p)
          | inr (o, org) ↦ elim (Option-cases (resolve_signup_role_id s db)) [
            | inl no_role ↦ ground (arith, one i p)
            | inr (r, role) ↦ ground (
              arith,
              one i p,
              register-OneOpen w o r name (v.lower (strip email)) password db one i p,
            )
          ]
        ]
        | inr (u, known) ↦
            ground (arith, one i p, existing-OneOpen w (v.lower (strip email)) u db one i p)
      ]

  -- Asking for the code again never mails one for an unknown account or one that is not waiting for
  -- its verification, one under a code lock, within the cooldown of the last code, or after the
  -- resend limit: then no table changes.
  pub resend_signup_otp-refused :
      (w : World) (email : Text) (db : Db) (u : User)
      → find_email v.lower (v.lower (strip email)) db.users ≡ some u
      → find_id u.id db.users ≡ some u
      → (u.status ≢ Status.pending_email_verification)
        ⊎ (is_locked u.otp_locked_until w.now ≡ true)
        ⊎ (is_cooling s w.now (latest u.id Purpose.signup db.otps) ≡ true)
        ⊎ (is_exhausted s (latest u.id Purpose.signup db.otps) ≡ true)
      → resend_signup_otp s v w email db ≡ db
  unfolding resend_signup_otp
  resend_signup_otp-refused w email db u f g h = ground arith

  -- Signing up again does not ask for the resend limit: a pending account whose last code is past its
  -- cooldown is mailed a new code by every valid signup request, however often its code was resent.
  -- One mail is sent, to the address of the request, with the code that was just drawn; and that code
  -- is the one in force, unused, until its time is over, while the count of resends only goes up.
  pub signup_user-ignores_limit :
      (w : World) (name email password confirm : Text) (db : Db) (u : User) (row : Otp)
      → find_email v.lower (v.lower (strip email)) db.users ≡ some u
      → u.status ≡ Status.pending_email_verification
      → latest_unused u.id Purpose.signup db.otps ≡ some row
      → is_cooling s w.now (some row) ≡ false
      → is_exhausted s (some row) ≡ true
      → w.sent ≡ true
      → (signup_user s v w name email password confirm db).0 ≡ ok tt
      → let drawn = generate_otp s.otp_length 0 w.random in
        let after = (signup_user s v w name email password confirm db).1 in
        (after.outbox
          ≡ record { recipient = v.lower (strip email); purpose = Purpose.signup; otp = drawn }
            ∷ db.outbox)
        × (latest_unused u.id Purpose.signup after.otps
            ≡ some (record {
              id = db.next_otp_id;
              user_id = u.id;
              purpose = Purpose.signup;
              otp_hash = v.sha256 drawn;
              expires_at = w.now + s.otp_expiry_minutes * 60;
              used_at = none;
              failed_attempts = 0;
              resend_count = row.resend_count + 1;
              last_sent_at = w.now;
            }))
  unfolding signup_user signup_existing maybe_resend_signup_otp next_count invalidate_unused_otps
  signup_user-ignores_limit w name email password confirm db u row f p l c x m h =
      let sent =
        create_and_send_otp-sends s v w u.id (v.lower (strip email)) Purpose.signup
          (row.resend_count + 1) (invalidate_unused_otps w.now u.id Purpose.signup db) m in
      (ground (arith, sent.0), ground (arith, sent.1))
