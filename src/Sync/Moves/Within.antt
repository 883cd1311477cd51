-- ===== src/Sync/Moves/Within.antt =====
-- Rows that fit only under certain ids.
use aiva_v.Prelude.{
  ℕ, ◌≡◌, refl, inl, inr, Bool, true, false, List, [], ◌∷◌, map, keep_if, ◌==◌, arith, Bool-cases,
  All,
}
use mathlib.Core.Path.{subst}
use aiva_v.Sync.Tables.{update_where, count_where}
use aiva_v.Sync.Files.{is_one_of}

-- Every row that fits has one of these ids.
abbrev pub Within : {A : Type 0} → (A → Bool) → (A → ℕ) → List ℕ → List A → Type 0
Within p id ids rs = All (λ r. p r ≡ true → is_one_of ids (id r) ≡ true) rs

module _ {A : Type 0} (p : A → Bool) (id : A → ℕ) where
  pub none-Within : (rs : List A) → Within p id [] rs → count_where p rs ≡ 0
  none-Within [] h = refl
  none-Within (r ∷ rs) h = ground (arith, h.0, none-Within rs h.1)

  wider-Within :
      (i : ℕ) (ids : List ℕ) (rs : List A) → Within p id ids rs → Within p id (i ∷ ids) rs
  wider-Within i ids [] h = tt
  wider-Within i ids (r ∷ rs) h = (λ y. ground (arith, h.0 y), wider-Within i ids rs h.1)

  pub own-Within : (rs : List A) → Within p id (map id (keep_if p rs)) rs
  own-Within [] = tt
  own-Within (r ∷ rs) = elim (Bool-cases (p r)) [
    | inl y ↦
        let e : r ∷ keep_if p rs ≡ keep_if p (r ∷ rs) = rw y refl in
        subst (λ l. Within p id (map id l) (r ∷ rs)) e
          (λ z. ground arith, wider-Within (id r) _ rs (own-Within rs))
    | inr n ↦
        let e : keep_if p rs ≡ keep_if p (r ∷ rs) = rw n refl in
        subst (λ l. Within p id (map id l) (r ∷ rs)) e
          (λ z. absurd (ground (arith, n, z)), own-Within rs)
  ]

  -- An update that leaves none of the rows of an id fitting.
  pub narrower-Within :
      (q : A → Bool) (f : A → A) (i : ℕ) (ids : List ℕ)
      → ((r : A) → id (f r) ≡ id r)
      → ((r : A) → q r ≡ true → p (f r) ≡ false)
      → ((r : A) → q r ≡ false → p r ≡ true → (i == id r) ≡ false)
      → (rs : List A) → Within p id (i ∷ ids) rs
      → Within p id ids (update_where q f rs)
  unfolding update_where
  narrower-Within q f i ids same hit miss [] h = tt
  narrower-Within q f i ids same hit miss (r ∷ rs) h = (
    elim (Bool-cases (q r)) [
      | inl y ↦ rw y (λ z. absurd (ground (arith, hit r y, z)))
      | inr n ↦ rw n (λ z. ground (arith, h.0 z, miss r n z))
    ],
    narrower-Within q f i ids same hit miss rs h.1,
  )
