-- ===== src/Llm/Memory/Laws.antt =====
-- The window against the whole history.
use aiva_v.Prelude.{
  ℕ, zero, suc, ◌+◌, ◌-◌, ◌≤◌, ◌<◌, ◌≡◌, refl, List, [], ◌∷◌, ◌++◌, length, take_end, drop,
  drop-drop, arith, length-append, length-drop, ◌∙◌, ap, sym,
}
use mathlib.Core.List.{append_assoc, append-nil}
use aiva_v.Llm.Memory.{Memory, new, append, append_all, get}

module _ {M : Type 0} where
  drop-append : (k : ℕ) (xs ys : List M) → k ≤ length xs → drop k (xs ++ ys) ≡ drop k xs ++ ys
  drop-append zero xs ys h = refl
  drop-append (suc k) [] ys h = elim h [ ]
  drop-append (suc k) (x ∷ xs) ys h = drop-append k xs ys (omega arith)

  -- The window of one more message is the window over the longer history.
  take_end-append :
      (n : ℕ) (xs ys : List M) → 0 < n → take_end n (take_end n xs ++ ys) ≡ take_end n (xs ++ ys)
  take_end-append n xs ys h =
      let k : ℕ = length xs - n in
      let e : drop k (xs ++ ys) ≡ drop k xs ++ ys = drop-append k xs ys (omega arith) in
      let l : length (drop k xs ++ ys) ≡ length xs - k + length ys =
        length-append (drop k xs) ys ∙ ap (λ (t : ℕ). t + length ys) (length-drop k xs) in
      let l' : length (xs ++ ys) ≡ length xs + length ys = length-append xs ys in
      let d : k + (length (drop k xs ++ ys) - n) ≡ length (xs ++ ys) - n = omega arith in
      ap (λ t. drop (length (drop k xs ++ ys) - n) t) (sym e)
      ∙ drop-drop (length (drop k xs ++ ys) - n) k (xs ++ ys)
      ∙ ap (λ (t : ℕ). drop t (xs ++ ys)) d

  take_end_short : (n : ℕ) (xs : List M) → length xs ≤ n → take_end n xs ≡ xs
  take_end_short n xs h = let e : length xs - n ≡ 0 = omega arith in rw e

  -- Either branch of the append leaves the last `max_messages` of what it has.
  append-take_end :
      (x : M) (m : Memory M)
      → 0 < m.max_messages
      → (append x m).messages ≡ take_end m.max_messages (m.messages ++ x ∷ [])
  unfolding append
  append-take_end x m h = ground (arith, take_end_short m.max_messages (m.messages ++ x ∷ []))

  max-append : (x : M) (m : Memory M) → (append x m).max_messages ≡ m.max_messages
  unfolding append
  max-append x m = ground arith

  append_all_from :
      (xs hist : List M) (m : Memory M)
      → 0 < m.max_messages
      → m.messages ≡ take_end m.max_messages hist
      → (append_all xs m).messages ≡ take_end m.max_messages (hist ++ xs)
  unfolding append_all
  append_all_from [] hist m h e = e ∙ ap (take_end m.max_messages) (sym (append-nil hist))
  append_all_from (x ∷ xs) hist m h e =
      append_all_from xs (hist ++ x ∷ []) (append x m) (rw (max-append x m) h) (
        append-take_end x m h
        ∙ ap (λ t. take_end m.max_messages (t ++ x ∷ [])) e
        ∙ take_end-append m.max_messages hist (x ∷ []) h
        ∙ ap (λ (t : ℕ). take_end t (hist ++ x ∷ [])) (sym (max-append x m)))
      ∙ ap (λ (t : ℕ). take_end t ((hist ++ x ∷ []) ++ xs)) (max-append x m)
      ∙ ap (take_end m.max_messages) (append_assoc hist (x ∷ []) xs)

  -- With a positive limit, the messages kept after any appends to a new memory are exactly the last
  -- `limit` messages appended, in order; all of them when there are fewer.
  pub append_all-window :
      (limit : ℕ) (xs : List M) → 0 < limit → get (append_all xs (new limit)) ≡ take_end limit xs
  unfolding get new
  append_all-window limit xs h =
      append_all_from xs [] (new limit) h (sym (take_end_short limit [] (omega arith)))

  append-zero :
      (x : M) (m : Memory M) → m.max_messages ≡ 0 → (append x m).messages ≡ m.messages ++ x ∷ []
  unfolding append
  append-zero x m z = ground arith

  append_all-from_zero :
      (xs : List M) (m : Memory M)
      → m.max_messages ≡ 0
      → (append_all xs m).messages ≡ m.messages ++ xs
  unfolding append_all
  append_all-from_zero [] m z = sym (append-nil m.messages)
  append_all-from_zero (x ∷ xs) m z =
      append_all-from_zero xs (append x m) (max-append x m ∙ z)
      ∙ ap (λ t. t ++ xs) (append-zero x m z)
      ∙ append_assoc m.messages (x ∷ []) xs

  -- A limit of zero drops nothing: the slice `[-0:]` is the whole list, so every append is kept.
  pub append_all-zero : (xs : List M) → get (append_all xs (new 0)) ≡ xs
  unfolding get new
  append_all-zero xs = append_all-from_zero xs (new 0) refl
