-- ===== src/Auth/Password/Laws.antt =====
-- Which passwords pass.
use aiva_v.Prelude.{
  ◌≤◌, ◌≡◌, ◌↔◌, true, none, some, length, any_of, Text, text_eq_refl, eq_of_text_eq, arith,
}
use aiva_v.Auth.Db.{Settings, Services}
use aiva_v.Auth.Password.{is_upper, is_lower, is_special, validate_password}

-- A confirmed password is accepted exactly when it equals its confirmation, has the minimum length,
-- and, if complexity is required, holds an uppercase letter, a lowercase letter, a number and a
-- special character.
pub validate_password-none_iff :
    (s : Settings) (v : Services) (password confirm : Text)
    → (validate_password s v password (some confirm) ≡ none) ↔ (
        (password ≡ confirm)
        × (s.password_min_length ≤ length password)
        × (s.password_require_complexity ≡ true
            → (any_of is_upper password ≡ true)
              × (any_of is_lower password ≡ true)
              × (any_of v.is_decimal password ≡ true)
              × (any_of is_special password ≡ true)))
unfolding validate_password
validate_password-none_iff s v password confirm = (
  λ h. (
    eq_of_text_eq password confirm (ground arith),
    ground arith,
    λ c. (ground arith, ground arith, ground arith, ground arith),
  ),
  λ h. ground (arith, text_eq_refl password, h.2),
)
