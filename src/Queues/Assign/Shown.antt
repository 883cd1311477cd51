-- ===== src/Queues/Assign/Shown.antt =====
-- What retrieval sees of a list of verticals after the assignment has changed it.
use aiva_v.Prelude.{
  ◌≡◌, refl, ◌∙◌, ap, inl, inr, true, false, not, Option, none, some, List, [], ◌∷◌, ◌++◌, map,
  keep_if, ◌||◌, any_of, Text, strip, text_eq, text_eq_refl, eq_of_text_eq, member, arith,
  Bool-cases, Option-cases,
}
use aiva_v.Queues.Catalog.{
  Value, text, Entry, group, not_dict, Queue, list_of, label_of, str, is_named, queue_of,
  verticals_of,
}
use aiva_v.Queues.Catalog.Laws.{is_taken}
use aiva_v.Queues.Assign.{is_vertical, included, excluded, change_list, assign_entry}

abbrev shown : List Value → List Text
shown vs = keep_if is_named (map str vs)

member-shown :
    (vertical : Text) (vs : List Value)
    → is_named vertical ≡ true
    → member vertical (shown vs) ≡ any_of (is_vertical vertical) vs
member-shown vertical [] h = refl
member-shown vertical (v ∷ vs) h =
    ground (arith, h, member-shown vertical vs h, eq_of_text_eq (str v) vertical)

any_of-append :
    (vertical : Text) (vs ws : List Value)
    → any_of (is_vertical vertical) (vs ++ ws)
      ≡ (any_of (is_vertical vertical) vs || any_of (is_vertical vertical) ws)
any_of-append vertical [] ws = refl
any_of-append vertical (v ∷ vs) ws = ground (arith, any_of-append vertical vs ws)

any_of-included :
    (vertical : Text) (vs : List Value)
    → any_of (is_vertical vertical) (included vertical vs) ≡ true
unfolding included str
any_of-included vertical vs =
    ground (arith, any_of-append vertical vs (text vertical ∷ []), text_eq_refl vertical)

any_of-keep_if :
    (vertical : Text) (vs : List Value)
    → any_of (is_vertical vertical) (keep_if (λ v. not (is_vertical vertical v)) vs) ≡ false
any_of-keep_if vertical [] = refl
any_of-keep_if vertical (v ∷ vs) = ground (arith, any_of-keep_if vertical vs)

any_of-excluded :
    (vertical : Text) (vs : List Value)
    → any_of (is_vertical vertical) (excluded vertical vs) ≡ false
unfolding excluded
any_of-excluded vertical vs = ground (arith, any_of-keep_if vertical vs)

-- The verticals of a queue but one.
abbrev pub others : Text → List Text → List Text
others vertical ts = keep_if (λ t. not (text_eq t vertical)) ts

others-append :
    (vertical : Text) (vs : List Value)
    → others vertical (shown (vs ++ text vertical ∷ [])) ≡ others vertical (shown vs)
unfolding str
others-append vertical [] = ground (arith, text_eq_refl vertical)
others-append vertical (v ∷ vs) = ground (arith, others-append vertical vs)

others-included :
    (vertical : Text) (vs : List Value)
    → others vertical (shown (included vertical vs)) ≡ others vertical (shown vs)
unfolding included
others-included vertical vs = ground (arith, others-append vertical vs)

others-keep_if :
    (vertical : Text) (vs : List Value)
    → others vertical (shown (keep_if (λ v. not (is_vertical vertical v)) vs))
      ≡ others vertical (shown vs)
others-keep_if vertical [] = refl
others-keep_if vertical (v ∷ vs) = ground (arith, others-keep_if vertical vs)

others-excluded :
    (vertical : Text) (vs : List Value)
    → others vertical (shown (excluded vertical vs)) ≡ others vertical (shown vs)
unfolding excluded
others-excluded vertical vs = ground (arith, others-keep_if vertical vs)

list_of-change_list :
    (f : List Value → List Value) (e : Entry) (vs : List Value)
    → list_of e ≡ some vs
    → list_of (change_list f e) ≡ some (f vs)
unfolding list_of change_list
list_of-change_list f (not_dict v) vs h = cc
list_of-change_list f (group g) vs h = ground (arith, h)

label_of-change_list :
    (f : List Value → List Value) (name : Text) (e : Entry)
    → label_of name (change_list f e) ≡ label_of name e
unfolding label_of change_list
label_of-change_list f name (not_dict v) = refl
label_of-change_list f name (group g) = refl

-- An entry that retrieval takes shows the list that a change makes of its own.
queue_of-change_list :
    (f : List Value → List Value) (key : Text) (e : Entry) (vs : List Value)
    → is_named key ≡ true
    → list_of e ≡ some vs
    → queue_of key (change_list f e)
      ≡ some (record { label = label_of (strip key) e; verticals = shown (f vs) })
unfolding queue_of
queue_of-change_list f key e vs n h =
    rw (n, list_of-change_list f e vs h, label_of-change_list f (strip key) e) refl

-- Afterwards a queue has the vertical exactly if its raw key is selected.
pub verticals_of-assign_entry :
    (vertical : Text) (raws : List Text) (key : Text) (e : Entry)
    → is_named vertical ≡ true
    → is_taken key e ≡ true
    → member vertical (verticals_of (queue_of key (assign_entry vertical raws key e)))
      ≡ member key raws
unfolding assign_entry verticals_of is_taken
verticals_of-assign_entry vertical raws key e n t = elim (Option-cases (list_of e)) [
  | inl m ↦ let c : false ≡ true = ground (arith, m, t) in cc
  | inr (vs, s) ↦ elim (Bool-cases (member key raws)) [
    | inl y ↦
        rw (y, queue_of-change_list (included vertical) key e vs (ground (arith, t)) s)
          (member-shown vertical (included vertical vs) n ∙ any_of-included vertical vs)
    | inr y ↦
        rw (y, queue_of-change_list (excluded vertical) key e vs (ground (arith, t)) s)
          (member-shown vertical (excluded vertical vs) n ∙ any_of-excluded vertical vs)
  ]
]

-- What an assignment of one vertical leaves of a queue: its label and its other verticals.
abbrev pub rest_of : Text → Option Queue → Option (Text × List Text)
rest_of vertical none = none
rest_of vertical (some q) = some (q.label, others vertical q.verticals)

queue_of-list :
    (key : Text) (e : Entry) (vs : List Value)
    → is_named key ≡ true
    → list_of e ≡ some vs
    → queue_of key e ≡ some (record { label = label_of (strip key) e; verticals = shown vs })
unfolding queue_of
queue_of-list key e vs n h = rw (n, h) refl

pub rest_of-assign_entry :
    (vertical : Text) (raws : List Text) (key : Text) (e : Entry)
    → is_taken key e ≡ true
    → rest_of vertical (queue_of key (assign_entry vertical raws key e))
      ≡ rest_of vertical (queue_of key e)
unfolding assign_entry is_taken
rest_of-assign_entry vertical raws key e t = elim (Option-cases (list_of e)) [
  | inl m ↦ let c : false ≡ true = ground (arith, m, t) in cc
  | inr (vs, s) ↦
      let k : is_named key ≡ true = ground (arith, t) in
      elim (Bool-cases (member key raws)) [
        | inl y ↦
            rw
              (y, queue_of-change_list (included vertical) key e vs k s, queue_of-list key e vs k s)
              (ap (λ ts. some (label_of (strip key) e, ts)) (others-included vertical vs))
        | inr y ↦
            rw
              (y, queue_of-change_list (excluded vertical) key e vs k s, queue_of-list key e vs k s)
              (ap (λ ts. some (label_of (strip key) e, ts)) (others-excluded vertical vs))
      ]
]
