-- ===== src/Prelude/Maps.antt =====
-- Python's `dict` with keys that are texts, in insertion order, and membership in a list of texts.
use mathlib.Core.Path.{◌≡◌, refl}
use mathlib.Core.Bool.{Bool, true, false, ◌||◌}
use mathlib.Core.List.{List, [], ◌∷◌}
use mathlib.Core.Option.{Option, none, some}
use native.Mathlib.Omega.{arith}
use aiva_v.Prelude.Tests.{if◌then◌else◌}
use aiva_v.Prelude.Lists.{any_of}
use aiva_v.Prelude.Texts.{Text, text_eq, text_eq_refl, eq_of_text_eq}

abbrev pub member : Text → List Text → Bool
member t ts = any_of (λ s. text_eq s t) ts

abbrev pub is_nil {ℓ} : {A : Type ℓ} → List A → Bool
is_nil [] = true
is_nil (x ∷ xs) = false

abbrev pub Map {ℓ} : Type ℓ → Type ℓ
Map V = List (Text × V)

module _ {ℓ} {V : Type ℓ} where
  -- `m.get(k)`
  unfoldable pub find : Text → Map V → Option V
  find k [] = none
  find k ((j, v) ∷ m) = if text_eq j k then some v else find k m

  -- `m[k] = v`
  unfoldable pub put : Text → V → Map V → Map V
  put k v [] = (k, v) ∷ []
  put k v ((j, w) ∷ m) = let rest = put k v m in if text_eq j k then (j, v) ∷ m else (j, w) ∷ rest

  unfoldable pub has_key : Text → Map V → Bool
  has_key k [] = false
  has_key k ((j, w) ∷ m) = text_eq j k || has_key k m

  -- No key stands twice.
  unfoldable pub IsMap : Map V → Type 0
  IsMap [] = Unit
  IsMap ((j, w) ∷ m) = (has_key j m ≡ false) × IsMap m

  pub find-put :
      (k j : Text) (v : V) (m : Map V)
      → find j (put k v m) ≡ (if text_eq k j then some v else find j m)
  unfolding find put
  find-put k j v [] = refl
  find-put k j v ((i, w) ∷ m) = ground (
    arith,
    find-put k j v m,
    eq_of_text_eq i k,
    eq_of_text_eq i j,
    eq_of_text_eq k j,
    text_eq_refl i,
    text_eq_refl j,
    text_eq_refl k,
  )

  pub has_key-put :
      (k j : Text) (v : V) (m : Map V) → has_key j (put k v m) ≡ (text_eq k j || has_key j m)
  unfolding has_key put
  has_key-put k j v [] = refl
  has_key-put k j v ((i, w) ∷ m) =
      ground (arith, has_key-put k j v m, eq_of_text_eq i k, text_eq_refl i)

  pub put-IsMap : (k : Text) (v : V) (m : Map V) → IsMap m → IsMap (put k v m)
  unfolding IsMap put has_key
  put-IsMap k v [] h = (refl, tt)
  put-IsMap k v ((i, w) ∷ m) h =
      ground (
        arith,
        put-IsMap k v m h.1,
        has_key-put k i v m,
        h.0,
        h.1,
        eq_of_text_eq k i,
        text_eq_refl i,
      )

  pub is_nil-put : (k : Text) (v : V) (m : Map V) → is_nil (put k v m) ≡ false
  unfolding put
  is_nil-put k v [] = refl
  is_nil-put k v ((i, w) ∷ m) = ground arith
