-- ===== src/Auth/Password.antt =====
-- backend/services/password_policy.py: what a password must look like.
pub mod Laws
use aiva_v.Prelude.{
  ℕ, ◌+◌, Bool, true, false, not, Option, none, some, List, [], ◌∷◌, length, any_of, leb, ltb, ◌&&◌,
  ◌||◌, if◌then◌else◌, Text, text_eq,
}
use aiva_v.Auth.Db.{Settings, Services, AuthError}

-- `[A-Z]`
pub is_upper : ℕ → Bool
is_upper c = leb 65 c && leb c 90

-- `[a-z]`
pub is_lower : ℕ → Bool
is_lower c = leb 97 c && leb c 122

-- `[^A-Za-z0-9]`
pub is_special : ℕ → Bool
unfolding is_upper is_lower
is_special c = not (is_upper c || is_lower c || (leb 48 c && leb c 57))

differs : Text → Option Text → Bool
differs password none = false
differs password (some confirm) = not (text_eq password confirm)

-- `_COMPLEXITY_RULES`, in order.
complexity : (ℕ → Bool) → Text → Option AuthError
complexity is_decimal password =
    if not (any_of is_upper password)
    then some AuthError.no_uppercase
    else if not (any_of is_lower password)
    then some AuthError.no_lowercase
    else if not (any_of is_decimal password)
    then some AuthError.no_number
    else if not (any_of is_special password)
    then some AuthError.no_special
    else none

-- The error that is raised, if any.
pub validate_password : Settings → Services → Text → Option Text → Option AuthError
unfolding differs complexity
validate_password s v password confirm =
    if differs password confirm
    then some AuthError.passwords_differ
    else if ltb (length password) s.password_min_length
    then some AuthError.password_too_short
    else if not s.password_require_complexity
    then none
    else complexity v.is_decimal password
