-- ===== src/DocIntel/Chunking/Split/Spread.antt =====
-- Pieces with their separators are no longer than the text they come from.
use aiva_v.Prelude.{
  ℕ, zero, suc, ◌+◌, ◌≤◌, ◌<◌, max, Option, List, [], ◌∷◌, length, get_elem?, take, keep_if, ltb,
  ltb→lt, Text, arith, length-rstrip, length-take, length-drop, Option-cases, inl, inr, Bool-cases,
}
use aiva_v.DocIntel.Chunking.Split.{
  Piece, soft_cut, sep_at, cut_off, last_part, hard_loop, has_text, hard_split, with_first_sep,
}
use aiva_v.DocIntel.Chunking.Split.Laws.{soft_cut-drop}

-- The length of the pieces joined by their separators, the first separator included.
unfoldable pub spread : List Piece → ℕ
spread [] = 0
spread ((p, sep) ∷ ps) = length sep + length p + spread ps

length-sep_at : (o : Option ℕ) → length (sep_at o) ≤ 1
unfolding sep_at
length-sep_at o = ground arith

cut_off-spread :
    (limit : ℕ) (s : Text)
    → limit < length s
    → length (cut_off limit s).0 + length (cut_off limit s).1 + length (cut_off limit s).2
      ≤ length s
unfolding cut_off
cut_off-spread limit s k = elim (Option-cases (soft_cut limit s)) [
  | inl e ↦ rw (e, cut_off) (omega (arith, length-take limit s, length-drop limit s))
  | inr (i, e) ↦
      rw (e, cut_off)
        (omega (
          arith,
          soft_cut-drop limit s i e,
          length-sep_at (get_elem? s i),
          length-rstrip (take i s),
          length-take i s,
        ))
]

last_part-spread : (sep text : Text) → spread (last_part text sep) ≤ length sep + length text
unfolding last_part spread
last_part-spread sep [] = omega arith
last_part-spread sep (c ∷ text) = omega arith

hard_loop-spread :
    (fuel limit : ℕ) (sep text : Text)
    → spread (hard_loop fuel limit sep text) ≤ length sep + length text
unfolding hard_loop last_part spread
hard_loop-spread zero limit sep [] = omega arith
hard_loop-spread zero limit sep (c ∷ text) = omega arith
hard_loop-spread (suc fuel) limit sep text = elim (Bool-cases (ltb limit (length text))) [
  | inl long ↦ rw long (
      omega (
        arith,
        hard_loop-spread fuel limit (cut_off limit text).1 (cut_off limit text).2,
        cut_off-spread limit text (ltb→lt limit (length text) long),
      ))
  | inr short ↦ rw short (last_part-spread sep text)
]

keep_if-spread : (ps : List Piece) → spread (keep_if has_text ps) ≤ spread ps
unfolding spread
keep_if-spread [] = omega arith
keep_if-spread (([], sep) ∷ ps) = omega (arith, keep_if-spread ps)
keep_if-spread ((c ∷ p, sep) ∷ ps) = omega (arith, keep_if-spread ps)

with_first_sep-spread :
    (sep : Text) (ps : List Piece) → spread (with_first_sep sep ps) ≤ length sep + spread ps
unfolding spread with_first_sep
with_first_sep-spread sep [] = omega arith
with_first_sep-spread sep ((p, s) ∷ ps) = omega arith

-- What a text is split into, put after a separator, takes no more room than the text put there whole.
pub hard_split-spread :
    (sep text : Text) (limit : ℕ)
    → spread (with_first_sep sep (hard_split text limit)) ≤ length sep + length text
unfolding hard_split
hard_split-spread sep text limit = omega (
  arith,
  with_first_sep-spread sep (keep_if has_text (hard_loop (length text) (max 1 limit) [] text)),
  keep_if-spread (hard_loop (length text) (max 1 limit) [] text),
  hard_loop-spread (length text) (max 1 limit) [] text,
)
