-- ===== src/Queues/Assign/Select.antt =====
-- The selection of queues by their names.
use aiva_v.Prelude.{
  ◌≡◌, refl, sym, ◌∙◌, ap, inl, inr, Bool, true, false, Option, none, some, List, [], ◌∷◌, ◌||◌,
  any_of, Text, strip, text_eq, text_eq_refl, eq_of_text_eq, Map, find, member, arith, All,
  Option-cases,
}
use aiva_v.Queues.Assign.{selected, unknown, select}

abbrev pub is_some {ℓ} : {A : Type ℓ} → Option A → Bool
is_some none = false
is_some (some a) = true

-- Every name of the index is that of its raw key.
abbrev pub IsIndex : Map Text → Type 0
IsIndex index = (name raw : Text) → find name index ≡ some raw → strip raw ≡ name

select_unknown :
    (index : Map Text) (key : Text) (keys raws : List Text)
    → find (strip key) index ≡ none
    → select index (key ∷ keys) raws ≡ unknown (strip key)
unfolding select
select_unknown index key keys raws h = rw (h, select) refl

select_known :
    (index : Map Text) (key raw : Text) (keys raws : List Text)
    → find (strip key) index ≡ some raw
    → select index (key ∷ keys) raws ≡ select index keys (raw ∷ raws)
unfolding select
select_known index key raw keys raws h = rw (h, select) refl

select_nil :
    (index : Map Text) (raws rs : List Text) → select index [] raws ≡ selected rs → raws ≡ rs
unfolding select
select_nil index raws rs h = cc

-- A selection succeeds where every key is known.
pub select-total :
    (index : Map Text) (keys raws : List Text)
    → All (λ k. is_some (find (strip k) index) ≡ true) keys
    → (rs : List Text) × (select index keys raws ≡ selected rs)
select-total index [] raws h = (raws, (unfold select in refl))
select-total index (k ∷ keys) raws h = elim (Option-cases (find (strip k) index)) [
  | inl n ↦ let c : false ≡ true = ap is_some (sym n) ∙ h.0 in cc
  | inr (raw, s) ↦
      let (rs, e) = select-total index keys (raw ∷ raws) h.1 in
      (rs, select_known index k raw keys raws s ∙ e)
]

pub select-known :
    (index : Map Text) (keys raws rs : List Text)
    → select index keys raws ≡ selected rs
    → All (λ k. is_some (find (strip k) index) ≡ true) keys
select-known index [] raws rs h = tt
select-known index (k ∷ keys) raws rs h = elim (Option-cases (find (strip k) index)) [
  | inl n ↦
      let c : unknown (strip k) ≡ selected rs = sym (select_unknown index k keys raws n) ∙ h in cc
  | inr (raw, s) ↦ (
    ap is_some s,
    select-known index keys (raw ∷ raws) rs (sym (select_known index k raw keys raws s) ∙ h),
  )
]

-- A name that is not in the index is not among the keys of a selection that succeeds.
pub select-absent :
    (index : Map Text) (name : Text) (keys : List Text)
    → find name index ≡ none
    → All (λ k. is_some (find (strip k) index) ≡ true) keys
    → any_of (λ k. text_eq (strip k) name) keys ≡ false
select-absent index name [] n h = refl
select-absent index name (k ∷ keys) n h =
    ground (arith, h.0, n, eq_of_text_eq (strip k) name, select-absent index name keys n h.1)

-- The raw key of a name is selected exactly if the name is among the keys.
pub member-select :
    (index : Map Text) (name raw : Text) (keys raws rs : List Text)
    → IsIndex index
    → find name index ≡ some raw
    → select index keys raws ≡ selected rs
    → member raw rs ≡ (any_of (λ k. text_eq (strip k) name) keys || member raw raws)
member-select index name raw [] raws rs i s h = ap (member raw) (sym (select_nil index raws rs h))
member-select index name raw (k ∷ keys) raws rs i s h = elim (Option-cases (find (strip k) index)) [
  | inl n ↦
      let c : unknown (strip k) ≡ selected rs = sym (select_unknown index k keys raws n) ∙ h in cc
  | inr (r, t) ↦ ground (
    arith,
    member-select index name raw keys (r ∷ raws) rs i s
        (sym (select_known index k r keys raws t) ∙ h),
    i (strip k) r t,
    i name raw s,
    t,
    s,
    eq_of_text_eq r raw,
    eq_of_text_eq (strip k) name,
    text_eq_refl r,
    text_eq_refl name,
  )
]
