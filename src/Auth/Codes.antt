-- ===== src/Auth/Codes.antt =====
-- backend/services/otp_service.py: the rows of one-time codes, how a code is made and sent. What the
-- world supplies to a call is its time, the random choices, and whether the mail server took the
-- mail.
pub mod Laws
use aiva_v.Prelude.{
  ℕ, zero, suc, ◌+◌, ◌*◌, ◌%◌, Bool, true, false, Option, none, some, List, [], ◌∷◌, ◌&&◌, ◌==◌,
  if◌then◌else◌, Text,
}
use aiva_v.Auth.Db.{Purpose, Otp, Event, Mail, Db, Services, Settings, log_event}

pub record World : Type 0 where
  pub now : ℕ
  pub random : ℕ → ℕ
  pub sent : Bool

-- `_generate_otp`: one choice out of "0123456789" for each place from `i` on.
pub generate_otp : ℕ → ℕ → (ℕ → ℕ) → Text
generate_otp zero i random = []
generate_otp (suc n) i random = (48 + random i % 10) ∷ generate_otp n (i + 1) random

unfoldable pub same_purpose : Purpose → Purpose → Bool
same_purpose Purpose.signup Purpose.signup = true
same_purpose Purpose.forgot_password Purpose.forgot_password = true
same_purpose Purpose.signup Purpose.forgot_password = false
same_purpose Purpose.forgot_password Purpose.signup = false

unfoldable pub is_unused : Otp → Bool
is_unused o = elim (o.used_at) [ none ↦ true | some _ ↦ false ]

-- `user_id = :user_id AND purpose = :purpose`
unfoldable pub is_for : ℕ → Purpose → Otp → Bool
unfolding same_purpose
is_for user_id purpose o = o.user_id == user_id && same_purpose o.purpose purpose

-- `ORDER BY created_at DESC FETCH FIRST 1 ROW ONLY`, over all rows and over the unused ones.
unfoldable pub latest : ℕ → Purpose → List Otp → Option Otp
unfolding is_for
latest user_id purpose [] = none
latest user_id purpose (o ∷ os) =
    if is_for user_id purpose o then some o else latest user_id purpose os

unfoldable pub latest_unused : ℕ → Purpose → List Otp → Option Otp
unfolding is_for is_unused
latest_unused user_id purpose [] = none
latest_unused user_id purpose (o ∷ os) =
    if is_for user_id purpose o && is_unused o then some o else latest_unused user_id purpose os

-- `_invalidate_unused_otps`
unfoldable pub invalidate : ℕ → ℕ → Purpose → List Otp → List Otp
unfolding is_for is_unused
invalidate now user_id purpose [] = []
invalidate now user_id purpose (o ∷ os) =
    (if is_for user_id purpose o && is_unused o then record o { used_at = some now } else o)
    ∷ invalidate now user_id purpose os

unfoldable pub invalidate_unused_otps : ℕ → ℕ → Purpose → Db → Db
unfolding invalidate
invalidate_unused_otps now user_id purpose db = record db {
  otps = invalidate now user_id purpose db.otps;
}

sent_event : ℕ → Event
sent_event zero = Event.otp_sent
sent_event (suc n) = Event.otp_resent

module _ (s : Settings) (v : Services) where
  pub new_otp : World → ℕ → Purpose → ℕ → Db → Otp
  unfolding generate_otp
  new_otp w user_id purpose resend_count db = record {
    id = db.next_otp_id;
    user_id = user_id;
    purpose = purpose;
    otp_hash = v.sha256 (generate_otp s.otp_length 0 w.random);
    expires_at = w.now + s.otp_expiry_minutes * 60;
    used_at = none;
    failed_attempts = 0;
    resend_count = resend_count;
    last_sent_at = w.now;
  }

  -- `_create_and_send_otp`
  pub create_and_send_otp : World → ℕ → Text → Purpose → ℕ → Db → Db
  unfolding new_otp sent_event log_event
  create_and_send_otp w user_id email purpose resend_count db =
      let db' = record db {
        otps = new_otp w user_id purpose resend_count db ∷ db.otps;
        next_otp_id = db.next_otp_id + 1;
      } in
      if w.sent
      then log_event (sent_event resend_count) user_id (record db' {
        outbox =
            record {
              recipient = email;
              purpose = purpose;
              otp = generate_otp s.otp_length 0 w.random;
            }
            ∷ db.outbox;
      })
      else db'
