-- ===== src/Auth/Codes/Laws.antt =====
-- At most one code is open for an account and a purpose.
use aiva_v.Prelude.{
  ℕ, ◌+◌, ◌*◌, ◌≤◌, ◌≡◌, refl, true, none, some, List, [], ◌∷◌, ◌&&◌, if◌then◌else◌, Text, arith,
}
use aiva_v.Auth.Db.{Purpose, Otp, Db, Services, Settings, log_event, update_otps}
use aiva_v.Auth.Codes.{
  World, generate_otp, same_purpose, is_unused, is_for, latest_unused, invalidate,
  invalidate_unused_otps, new_otp, create_and_send_otp,
}

-- How many codes of an account can still be used for a purpose.
unfoldable pub open_codes : ℕ → Purpose → List Otp → ℕ
unfolding is_for is_unused
open_codes user_id purpose [] = 0
open_codes user_id purpose (o ∷ os) =
    (if is_for user_id purpose o && is_unused o then 1 else 0) + open_codes user_id purpose os

abbrev pub OneOpen : List Otp → Type 0
OneOpen otps = (user_id : ℕ) (purpose : Purpose) → open_codes user_id purpose otps ≤ 1

same_purpose_refl : (p : Purpose) → same_purpose p p ≡ true
unfolding same_purpose
same_purpose_refl Purpose.signup = refl
same_purpose_refl Purpose.forgot_password = refl

eq_of_same_purpose : (p q : Purpose) → same_purpose p q ≡ true → p ≡ q
unfolding same_purpose
eq_of_same_purpose Purpose.signup Purpose.signup h = refl
eq_of_same_purpose Purpose.forgot_password Purpose.forgot_password h = refl
eq_of_same_purpose Purpose.signup Purpose.forgot_password h = cc
eq_of_same_purpose Purpose.forgot_password Purpose.signup h = cc

pub open_codes-invalidate_self :
    (now u : ℕ) (p : Purpose) (os : List Otp) → open_codes u p (invalidate now u p os) ≡ 0
unfolding open_codes invalidate
open_codes-invalidate_self now u p [] = refl
open_codes-invalidate_self now u p (o ∷ os) = ground (arith, open_codes-invalidate_self now u p os)

pub open_codes-invalidate_le :
    (now u : ℕ) (p : Purpose) (i : ℕ) (q : Purpose) (os : List Otp)
    → open_codes i q (invalidate now u p os) ≤ open_codes i q os
unfolding open_codes invalidate
open_codes-invalidate_le now u p i q [] = omega arith
open_codes-invalidate_le now u p i q (o ∷ os) =
    ground (arith, open_codes-invalidate_le now u p i q os)

-- Marking rows used, by id, opens nothing.
pub open_codes-use :
    (now row u : ℕ) (p : Purpose) (os : List Otp)
    → open_codes u p (update_otps row (λ o. record o { used_at = some now }) os) ≤ open_codes u p os
unfolding open_codes update_otps
open_codes-use now row u p [] = omega arith
open_codes-use now row u p (o ∷ os) = ground (arith, open_codes-use now row u p os)

-- Marking the latest open code used closes it.
pub open_codes-use_latest :
    (now u : ℕ) (p : Purpose) (os : List Otp) (row : Otp)
    → latest_unused u p os ≡ some row
    → open_codes u p (update_otps row.id (λ o. record o { used_at = some now }) os) + 1
      ≤ open_codes u p os
unfolding open_codes update_otps latest_unused
open_codes-use_latest now u p [] row h = cc
open_codes-use_latest now u p (o ∷ os) row h =
    ground (arith, open_codes-use now row.id u p os, open_codes-use_latest now u p os row)

pub latest_unused-none :
    (u : ℕ) (p : Purpose) (os : List Otp) → open_codes u p os ≤ 0 → latest_unused u p os ≡ none
unfolding open_codes latest_unused
latest_unused-none u p [] h = refl
latest_unused-none u p (o ∷ os) h = ground (arith, latest_unused-none u p os)

module _ (s : Settings) (v : Services) where
  -- Sending a new code keeps at most one code open for each account and purpose.
  pub create_and_send_otp-OneOpen :
      (w : World) (u : ℕ) (email : Text) (p : Purpose) (n : ℕ) (db : Db)
      → OneOpen db.otps
      → OneOpen (create_and_send_otp s v w u email p n (invalidate_unused_otps w.now u p db)).otps
  unfolding create_and_send_otp invalidate_unused_otps open_codes
  create_and_send_otp-OneOpen w u email p n db h i q = ground (
    arith,
    h i q,
    open_codes-invalidate_self w.now u p db.otps,
    open_codes-invalidate_le w.now u p i q db.otps,
    eq_of_same_purpose p q,
  )

  -- After that the code in force is the one just made, with its expiry and no failed attempts.
  pub create_and_send_otp-latest :
      (w : World) (u : ℕ) (email : Text) (p : Purpose) (n : ℕ) (db : Db)
      → latest_unused u p
          (create_and_send_otp s v w u email p n (invalidate_unused_otps w.now u p db)).otps
        ≡ some (new_otp s v w u p n db)
  unfolding create_and_send_otp invalidate_unused_otps latest_unused
  create_and_send_otp-latest w u email p n db = ground (arith, same_purpose_refl p)

-- What sending a code does where the mail server takes the mail: one mail, with the code that was drawn,
-- which is then the one in force.
pub create_and_send_otp-sends :
    (s : Settings) (v : Services) (w : World) (user_id : ℕ) (email : Text) (purpose : Purpose)
    (resend_count : ℕ) (db : Db)
    → w.sent ≡ true
    → let drawn = generate_otp s.otp_length 0 w.random in
      let after = create_and_send_otp s v w user_id email purpose resend_count db in
      (after.outbox ≡ record { recipient = email; purpose = purpose; otp = drawn } ∷ db.outbox)
      × (latest_unused user_id purpose after.otps
          ≡ some (record {
            id = db.next_otp_id;
            user_id = user_id;
            purpose = purpose;
            otp_hash = v.sha256 drawn;
            expires_at = w.now + s.otp_expiry_minutes * 60;
            used_at = none;
            failed_attempts = 0;
            resend_count = resend_count;
            last_sent_at = w.now;
          }))
unfolding create_and_send_otp new_otp log_event latest_unused is_for is_unused
create_and_send_otp-sends s v w user_id email purpose resend_count db m =
    (ground (arith, m), ground (arith, m, same_purpose_refl purpose))
