-- ===== src/Import/Textutil/Laws.antt =====
-- A cut text fits its column, and keeps as much of the text as that allows.
use aiva_v.Prelude.{
  ℕ, ◌+◌, ◌-◌, ◌≤◌, ◌<◌, max, ◌≡◌, refl, sym, ◌⊎◌, inl, inr, [], ◌∷◌, ◌++◌, leb, arith, Text, codes,
  Bool-cases,
}
use aiva_v.Import.Textutil.{width, size, cut, truncated}

pub size-append : (s t : Text) → size (s ++ t) ≡ size s + size t
unfolding size
size-append [] t = omega arith
size-append (c ∷ s) t = omega (arith, size-append s t)

width-le : (c : ℕ) → width c ≤ 4
unfolding width
width-le c = ground arith

cut-fits : (n : ℕ) (s : Text) → size (cut n s) ≤ n
unfolding size cut
cut-fits n [] = omega arith
cut-fits n (c ∷ s) = ground (arith, cut-fits (n - width c) s)

-- What is cut off starts with a character that did not fit.
cut-prefix :
    (n : ℕ) (s : Text)
    → n < size s
    → (rest : Text) × (cut n s ++ rest ≡ s) × (n < size (cut n s) + 4)
unfolding size cut
cut-prefix n [] h = absurd (omega arith)
cut-prefix n (c ∷ s) h = elim (Bool-cases (leb (width c) n)) [
  | inl e ↦
      let ih = cut-prefix (n - width c) s (ground (arith, e, h)) in
      (ih.0, ground (arith, e, ih.1), ground (arith, e, ih.1, ih.2))
  | inr e ↦ (c ∷ s, ground (arith, e), ground (arith, e, width-le c))
]

three_dots : size (codes "...") ≡ 3
unfolding size width
three_dots = refl

-- A text that fits its column is left as it is. One that does not becomes a beginning of it with three
-- dots, takes at most the bytes of the column when that holds the dots at all, and leaves less than a
-- character's four bytes of it unused.
pub truncate_bounded :
    (text : Text) (max_bytes : ℕ)
    → ((size text ≤ max_bytes) × (truncated text max_bytes ≡ text))
      ⊎ ((start : Text) × (rest : Text) × (text ≡ start ++ rest)
          × (truncated text max_bytes ≡ start ++ codes "...")
          × (size (truncated text max_bytes) ≤ max max_bytes 3)
          × (max_bytes < size (truncated text max_bytes) + 4))
unfolding truncated
truncate_bounded text max_bytes = elim (Bool-cases (leb (size text) max_bytes)) [
  | inl e ↦ inl (ground (arith, e), rw e)
  | inr e ↦
      let p = cut-prefix (max_bytes - 3) text (ground (arith, e)) in
      let shown : truncated text max_bytes ≡ cut (max_bytes - 3) text ++ codes "..." = simp e in
      let sized = size-append (cut (max_bytes - 3) text) (codes "...") in
      inr (
        cut (max_bytes - 3) text,
        p.0,
        sym p.1,
        shown,
        rw shown (omega (arith, sized, three_dots, cut-fits (max_bytes - 3) text)),
        rw shown (omega (arith, sized, three_dots, p.2)),
      )
]
