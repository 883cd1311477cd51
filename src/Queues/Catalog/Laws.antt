-- ===== src/Queues/Catalog/Laws.antt =====
-- What a queue of the catalog is made from, and what a search may see.
use aiva_v.Prelude.{
  ℕ, is_space, lstrip, rstrip, rstrip_onto, not, ap, ◌≡◌, refl, inl, inr, Bool, true, false, not,
  Option, none, some, [], ◌∷◌, ◌++◌, map, keep_if, ◌&&◌, ◌||◌, if◌then◌else◌, Text, strip, text_eq,
  eq_of_text_eq, Map, find, put, has_key, find-put, is_nil, is_nil-put, IsMap, put-IsMap, arith,
  Bool-cases, Option-cases,
}
use aiva_v.Queues.Catalog.{
  is_empty, Entry, Config, Queue, QueueGroups, queues_in, groups, no_groups, list_of, is_named,
  label_of, str, queue_of, merge, or_defaults, get_queue_groups,
}

-- An entry that retrieval takes.
unfoldable pub is_taken : Text → Entry → Bool
is_taken key e = is_named key && elim (list_of e) [ none ↦ false | some vs ↦ true ]

unfoldable pub or_else {ℓ} : {A : Type ℓ} → Option A → Option A → Option A
or_else none o = o
or_else (some a) o = some a

-- The entry that a name of the catalog stands for: the last one of that name.
unfoldable pub last_entry : Text → Map Entry → Option (Text × Entry)
last_entry name [] = none
last_entry name ((key, e) ∷ es) =
    or_else (last_entry name es)
      (if is_taken key e && text_eq (strip key) name then some (key, e) else none)

unfoldable pub queue_at : Option (Text × Entry) → Option Queue
queue_at none = none
queue_at (some r) = queue_of r.0 r.1

pub queue_of-taken :
    (key : Text) (e : Entry) → is_taken key e ≡ true → (q : Queue) × (queue_of key e ≡ some q)
unfolding is_taken queue_of
queue_of-taken key e h = elim (Option-cases (list_of e)) [
  | inl n ↦ let c : false ≡ true = ground (arith, n) in cc
  | inr (vs, s) ↦ (
    record { label = label_of (strip key) e; verticals = keep_if is_named (map str vs) },
    ground (arith, s),
  )
]

pub queue_of-skipped : (key : Text) (e : Entry) → is_taken key e ≡ false → queue_of key e ≡ none
unfolding is_taken queue_of
queue_of-skipped key e h = ground arith

pub last_entry-taken :
    (name : Text) (es : Map Entry) (r : Text × Entry)
    → last_entry name es ≡ some r
    → (is_taken r.0 r.1 ≡ true) × (strip r.0 ≡ name)
unfolding last_entry or_else
last_entry-taken name [] r h = cc
last_entry-taken name ((key, e) ∷ es) r h = elim (Option-cases (last_entry name es)) [
  | inl n ↦ ground (arith, n, eq_of_text_eq (strip key) name)
  | inr (q, s) ↦ last_entry-taken name es r (ground (arith, s))
]

find-merge_step :
    (name key : Text) (e : Entry) (es : Map Entry) (m m' : Map Queue)
    → find name (merge es m') ≡ or_else (queue_at (last_entry name es)) (find name m')
    → find name m'
      ≡ (if is_taken key e && text_eq (strip key) name then queue_of key e else find name m)
    → find name (merge es m') ≡ or_else (queue_at (last_entry name ((key, e) ∷ es))) (find name m)
unfolding last_entry or_else queue_at
find-merge_step name key e es m m' h k = elim (Option-cases (last_entry name es)) [
  | inl n ↦ elim (Bool-cases (is_taken key e)) [
    | inl t ↦ let (q, u) = queue_of-taken key e t in ground (arith, n, h, k, t, u)
    | inr t ↦ ground (arith, n, h, k, t)
  ]
  | inr (r, s) ↦
      let (q, t) = queue_of-taken r.0 r.1 (last_entry-taken name es r s).0 in
      ground (arith, s, t, h)
]

pub find-merge :
    (name : Text) (es : Map Entry) (m : Map Queue)
    → find name (merge es m) ≡ or_else (queue_at (last_entry name es)) (find name m)
unfolding merge
find-merge name [] m = (unfold last_entry or_else queue_at in refl)
find-merge name ((key, e) ∷ es) m = elim (Bool-cases (is_taken key e)) [
  | inl t ↦
      let (q, h) = queue_of-taken key e t in
      rw (h, merge)
        (find-merge_step name key e es m (put (strip key) q m)
          (find-merge name es (put (strip key) q m))
          (ground (arith, find-put (strip key) name q m, t, h)))
  | inr t ↦
      rw (queue_of-skipped key e t, merge)
        (find-merge_step name key e es m m (find-merge name es m) (ground (arith, t)))
]

merge-IsMap : (es : Map Entry) (m : Map Queue) → IsMap m → IsMap (merge es m)
unfolding merge
merge-IsMap [] m h = h
merge-IsMap ((key, e) ∷ es) m h = elim (Option-cases (queue_of key e)) [
  | inl n ↦ rw (n, merge) (merge-IsMap es m h)
  | inr (q, s) ↦ rw (s, merge) (merge-IsMap es (put (strip key) q m) (put-IsMap (strip key) q m h))
]

or_defaults-IsMap : (m : Map Queue) → IsMap m → IsMap (or_defaults m)
unfolding or_defaults IsMap has_key text_eq
or_defaults-IsMap [] h = (refl, (refl, (refl, tt)))
or_defaults-IsMap (q ∷ qs) h = h

queues_in-IsMap : (g : QueueGroups) → IsMap (queues_in g)
unfolding queues_in
queues_in-IsMap (groups es) =
    or_defaults-IsMap (merge es []) (merge-IsMap es [] (unfold IsMap in tt))
queues_in-IsMap (no_groups v) = or_defaults-IsMap [] (unfold IsMap in tt)

-- No queue stands twice in the catalog.
pub get_queue_groups-IsMap : (config : Option Config) → IsMap (get_queue_groups config)
unfolding get_queue_groups queues_in
get_queue_groups-IsMap none = queues_in-IsMap (no_groups none)
get_queue_groups-IsMap (some config) = queues_in-IsMap config.queue_groups

unfoldable pub any_taken : Map Entry → Bool
any_taken [] = false
any_taken ((key, e) ∷ es) = is_taken key e || any_taken es

pub is_nil-merge :
    (es : Map Entry) (m : Map Queue) → is_nil (merge es m) ≡ (not (any_taken es) && is_nil m)
unfolding merge any_taken
is_nil-merge [] m = refl
is_nil-merge ((key, e) ∷ es) m = elim (Bool-cases (is_taken key e)) [
  | inl t ↦
      let (q, h) = queue_of-taken key e t in
      rw (h, merge)
        (ground (arith, is_nil-merge es (put (strip key) q m), is_nil-put (strip key) q m, t))
  | inr t ↦ rw (queue_of-skipped key e t, merge) (ground (arith, is_nil-merge es m, t))
]

pub merge-append_skipped :
    (xs ys : Map Entry) (m : Map Queue) → any_taken xs ≡ false → merge (xs ++ ys) m ≡ merge ys m
unfolding merge any_taken
merge-append_skipped [] ys m h = refl
merge-append_skipped ((key, e) ∷ xs) ys m h =
    rw (queue_of-skipped key e (ground (arith, h)), merge)
      (merge-append_skipped xs ys m (ground (arith, h)))

pub any_taken-keep_if :
    (p : Text × Entry → Bool) (es : Map Entry)
    → any_taken es ≡ false
    → any_taken (keep_if p es) ≡ false
unfolding any_taken
any_taken-keep_if p [] h = refl
any_taken-keep_if p ((key, e) ∷ es) h = ground (arith, any_taken-keep_if p es, h)

rstrip_onto-kept : (c : ℕ) (s : Text) → is_space c ≡ false → is_empty (rstrip_onto c s) ≡ false
unfolding rstrip_onto is_empty
rstrip_onto-kept c [] h = ground (arith, h)
rstrip_onto-kept c (d ∷ s) h = refl

-- A text that starts with another character than a space is not blank.
pub is_named_starting : (c : ℕ) (s : Text) → is_space c ≡ false → is_named (c ∷ s) ≡ true
unfolding is_named strip lstrip rstrip
is_named_starting c s h = rw h (ap not (rstrip_onto-kept c (rstrip s) h))
