-- ===== src/Auth/Rows.antt =====
-- What an update by id does to a row that is found by its email.
use aiva_v.Prelude.{◌≡◌, some, List, [], ◌∷◌, Text, arith}
use aiva_v.Auth.Db.{User, find_email, update_users}

pub find_email-update_users :
    (lower : Text → Text) (email : Text) (g : User → User) (users : List User) (u : User)
    → ((x : User) → (g x).email ≡ x.email)
    → find_email lower email users ≡ some u
    → find_email lower email (update_users u.id g users) ≡ some (g u)
unfolding find_email update_users
find_email-update_users lower email g [] u keep f = cc
find_email-update_users lower email g (x ∷ users) u keep f =
    ground (arith, keep x, find_email-update_users lower email g users u keep)
