-- ===== src/Llm/Strategies/Laws.antt =====
-- Every strategy tries each provider exactly once; what comes first.
use mathlib.Core.List.{Perm, head?}
use mathlib.Core.List.Perm
use native.Mathlib.Nat.{mod-add-mod}
use aiva_v.Prelude.{
  String, ℕ, zero, suc, ◌+◌, ◌%◌, ◌≤◌, ◌<◌, ◌≡◌, refl, ◌∙◌, ap, true, false, not, some, List, [],
  ◌∷◌, length, get_elem?, keep_if, any_of, leb, ◌==◌, if◌then◌else◌, arith, Bool-cases, inl, inr,
  str_eq, eq_iff, All,
}
use aiva_v.Llm.Strategies.{
  Strategy, round_robin, cost_optimized, fallback, lowest_latency, others, rotated,
  order_round_robin, insert_by, sorted_by, order, order_times, cost_of, Balancer, mark_bad,
  mark_good, healthy,
}

module _ {P : Type 0} where
  -- Past the index nothing is left out.
  others_past : (i j : ℕ) (ps : List P) → i < j → others i j ps ≡ ps
  unfolding others
  others_past i j [] h = refl
  others_past i j (p ∷ ps) h = ground (arith, others_past i (j + 1) ps)

  others-perm :
      (i j k : ℕ) (ps : List P) (p : P)
      → j + k ≡ i
      → get_elem? ps k ≡ some p
      → Perm (p ∷ others i j ps) ps
  unfolding others
  others-perm i j k [] p e h = absurd (no_elem h)
    where
      no_elem : get_elem? {A = P} [] k ≡ some p → ⊥
      no_elem h = cc
  others-perm i j zero (q ∷ ps) p e h =
      let same : (j == i) ≡ true = ground arith in
      let past : others i (j + 1) ps ≡ ps = others_past i (j + 1) ps (omega arith) in
      let q_is_p : q ≡ p = ground arith in rw (same, past, q_is_p) (Perm.refl (p ∷ ps))
  others-perm i j (suc k) (q ∷ ps) p e h =
      let differs : (j == i) ≡ false = ground arith in
      rw differs (
        Perm.trans (Perm.swap q p (others i (j + 1) ps))
          (Perm.cons q (others-perm i (j + 1) k ps p (omega arith) h)))

  get_elem?_in : (ps : List P) (i : ℕ) → i < length ps → (p : P) × (get_elem? ps i ≡ some p)
  get_elem?_in [] i h = elim h [ ]
  get_elem?_in (p ∷ ps) zero h = (p, refl)
  get_elem?_in (p ∷ ps) (suc i) h = get_elem?_in ps i (omega arith)

  rotated-perm : (i : ℕ) (ps : List P) → i < length ps → Perm (rotated i ps) ps
  unfolding rotated
  rotated-perm i ps h =
      let (p, e) = get_elem?_in ps i h in rw (e, rotated) (others-perm i 0 i ps p (omega arith) e)

module _ {P : Type 0} (key : P → ℕ) where
  insert_by-perm : (p : P) (qs : List P) → Perm (insert_by key p qs) (p ∷ qs)
  unfolding insert_by
  insert_by-perm p [] = Perm.refl (p ∷ [])
  insert_by-perm p (q ∷ qs) = elim (Bool-cases (leb (key p) (key q))) [
    | inl le ↦ rw le (Perm.refl (p ∷ q ∷ qs))
    | inr gt ↦ rw gt (Perm.trans (Perm.cons q (insert_by-perm p qs)) (Perm.swap p q qs))
  ]

  sorted_by-perm : (ps : List P) → Perm (sorted_by key ps) ps
  unfolding sorted_by
  sorted_by-perm [] = Perm.refl []
  sorted_by-perm (p ∷ ps) =
      Perm.trans (insert_by-perm p (sorted_by key ps)) (Perm.cons p (sorted_by-perm ps))

  -- Each key is at most every key behind it.
  abbrev pub IsSortedBy : List P → Type 0
  IsSortedBy [] = Unit
  IsSortedBy (p ∷ ps) = All (λ q. key p ≤ key q) ps × IsSortedBy ps

  All-insert_by :
      (n : ℕ) (p : P) (qs : List P)
      → n ≤ key p
      → All (λ q. n ≤ key q) qs
      → All (λ q. n ≤ key q) (insert_by key p qs)
  unfolding insert_by
  All-insert_by n p [] h hs = (h, tt)
  All-insert_by n p (q ∷ qs) h hs = elim (Bool-cases (leb (key p) (key q))) [
    | inl le ↦ rw le (h, hs)
    | inr gt ↦ rw gt (hs.0, All-insert_by n p qs h hs.1)
  ]

  All-trans : (n m : ℕ) (qs : List P) → n ≤ m → All (λ q. m ≤ key q) qs → All (λ q. n ≤ key q) qs
  All-trans n m [] h hs = tt
  All-trans n m (q ∷ qs) h hs = (omega arith, All-trans n m qs h hs.1)

  insert_by-IsSortedBy : (p : P) (qs : List P) → IsSortedBy qs → IsSortedBy (insert_by key p qs)
  unfolding insert_by
  insert_by-IsSortedBy p [] s = (tt, tt)
  insert_by-IsSortedBy p (q ∷ qs) s = elim (Bool-cases (leb (key p) (key q))) [
    | inl le ↦
        let h : key p ≤ key q = ground arith in rw le ((h, All-trans (key p) (key q) qs h s.0), s)
    | inr gt ↦ rw gt (All-insert_by (key q) p qs (ground arith) s.0, insert_by-IsSortedBy p qs s.1)
  ]

  pub sorted_by-IsSortedBy : (ps : List P) → IsSortedBy (sorted_by key ps)
  unfolding sorted_by
  sorted_by-IsSortedBy [] = tt
  sorted_by-IsSortedBy (p ∷ ps) =
      insert_by-IsSortedBy p (sorted_by key ps) (sorted_by-IsSortedBy ps)

module _ {P : Type 0} (name : P → String) where
  -- Whatever the strategy and its state, the order holds every provider exactly as often as the
  -- router's list does.
  pub order-perm : (s : Strategy) (ps : List P) → Perm (order name s ps).0 ps
  unfolding order order_round_robin
  order-perm (round_robin idx) [] = Perm.refl []
  order-perm (round_robin idx) (p ∷ ps) =
      rotated-perm ((idx + 1) % length (p ∷ ps)) (p ∷ ps) (omega arith)
  order-perm cost_optimized ps = sorted_by-perm (λ p. cost_of (name p)) ps
  order-perm fallback ps = Perm.refl ps
  order-perm lowest_latency ps = Perm.refl ps

  -- The cost-optimised order is sorted by cost: no provider stands before a cheaper one.
  pub order-cost_sorted :
      (ps : List P) → IsSortedBy (λ p. cost_of (name p)) (order name cost_optimized ps).0
  unfolding order
  order-cost_sorted ps = sorted_by-IsSortedBy (λ p. cost_of (name p)) ps

  head?-rotated : (i : ℕ) (ps : List P) → head? (rotated i ps) ≡ get_elem? ps i
  unfolding rotated
  head?-rotated i ps = ground arith

  order_times-round_robin :
      (n idx : ℕ) (p : P) (ps : List P)
      → idx < length (p ∷ ps)
      → (order_times name n (round_robin idx) (p ∷ ps)) ≡ round_robin ((idx + n) % length (p ∷ ps))
  unfolding order_times order order_round_robin
  order_times-round_robin zero idx p ps h = ap round_robin (grind arith)
  order_times-round_robin (suc n) idx p ps h =
      order_times-round_robin n ((idx + 1) % length (p ∷ ps)) p ps (omega arith)
      ∙ ap round_robin (ground (arith, mod-add-mod (idx + 1) (length (p ∷ ps)) n))

  -- The round robin is fair: after `n` calls from a new strategy, the next call puts first the
  -- provider at index `(n + 1) % len(providers)`, so every provider is first once in each round.
  pub order-round_robin_first :
      (n : ℕ) (p : P) (ps : List P)
      → head? (order name (order_times name n (round_robin 0) (p ∷ ps)) (p ∷ ps)).0
        ≡ get_elem? (p ∷ ps) ((n + 1) % length (p ∷ ps))
  unfolding order order_round_robin rotated
  order-round_robin_first n p ps = rw (order_times-round_robin n 0 p ps (omega arith)) (
      ap head?
        (ap (λ (t : ℕ). rotated t (p ∷ ps)) (ground (arith, mod-add-mod n (length (p ∷ ps)) 1)))
      ∙ head?-rotated ((n + 1) % length (p ∷ ps)) (p ∷ ps))

  any_of-keep_if :
      (x y : String) (l : List String)
      → any_of (λ n. str_eq n y) (keep_if (λ n. not (str_eq n x)) l)
        ≡ (if str_eq x y then false else any_of (λ n. str_eq n y) l)
  any_of-keep_if x y [] = ground arith
  any_of-keep_if x y (z ∷ l) =
      ground (arith, any_of-keep_if x y l, eq_iff z x, eq_iff z y, eq_iff x y)

  -- A provider marked bad is skipped until it is marked good again, and marking one name changes
  -- nothing for another.
  pub healthy-mark :
      (b : Balancer) (bad_name : String) (p : P)
      → (healthy name (mark_bad bad_name b) (p ∷ [])
          ≡ (if str_eq bad_name (name p) then [] else healthy name b (p ∷ [])))
        × (healthy name (mark_good bad_name b) (p ∷ [])
            ≡ (if str_eq bad_name (name p) then p ∷ [] else healthy name b (p ∷ [])))
  unfolding healthy mark_bad mark_good
  healthy-mark b bad_name p = ground (arith, any_of-keep_if bad_name (name p) b.bad)
