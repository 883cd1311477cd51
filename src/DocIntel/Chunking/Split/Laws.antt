-- ===== src/DocIntel/Chunking/Split/Laws.antt =====
-- No piece is longer than its limit.
use aiva_v.Prelude.{
  ℕ, zero, suc, ◌+◌, ◌≤◌, ◌<◌, ◌≡◌, max, true, false, not, ◌&&◌, Option, none, some, List, [], ◌∷◌,
  ◌++◌, length, take, drop, keep_if, leb, ltb, ltb→lt, is_space, if◌then◌else◌, Text, lstrip,
  rstrip, strip, arith, All, All-append, length-lstrip, length-rstrip, length-take, length-drop,
  Option-cases, inl, inr, Bool-cases, length-append,
}
use aiva_v.DocIntel.Chunking.Cleaning.{is_empty, split_lines}
use aiva_v.DocIntel.Chunking.Split.{
  Piece, is_cut, last_cut, soft_cut, cut_off, last_part, hard_loop, has_text, hard_split,
  add_sentence, sentences, with_first_sep, blank, sentence_break, add_stripped, split_long,
  sentence_pieces, flush_lines, join_line, group_loop, group_lines, newline,
}

abbrev pub IsBounded : ℕ → List Piece → Type 0
IsBounded limit = All (λ (p : Piece). (length p.0 ≤ limit) × (0 < length p.0))

last_cut-lt : (s : Text) (i : ℕ) → last_cut s ≡ some i → i < length s
unfolding last_cut
last_cut-lt [] i h = cc
last_cut-lt (c ∷ s) i h = elim (Option-cases (last_cut s)) [
  | inl e ↦ ground arith
  | inr (j, e) ↦ ground (arith, last_cut-lt s j e)
]

pub soft_cut-le : (limit : ℕ) (s : Text) (i : ℕ) → soft_cut limit s ≡ some i → i ≤ limit
unfolding soft_cut
soft_cut-le limit s i h = elim (Option-cases (last_cut (take (limit + 1) s))) [
  | inl e ↦ ground arith
  | inr (j, e) ↦ ground (arith, last_cut-lt (take (limit + 1) s) j e, length-take (limit + 1) s)
]

cut_off-le : (limit : ℕ) (s : Text) → length (cut_off limit s).0 ≤ limit
unfolding cut_off
cut_off-le limit s = elim (Option-cases (soft_cut limit s)) [
  | inl e ↦ rw (e, cut_off) (omega (arith, length-take limit s))
  | inr (i, e) ↦
      rw (e, cut_off)
        (omega (arith, length-rstrip (take i s), length-take i s, soft_cut-le limit s i e))
]

abbrev IsShort : ℕ → List Piece → Type 0
IsShort limit = All (λ (p : Piece). length p.0 ≤ limit)

is_cut-is_space : (c : ℕ) → is_cut c ≡ true → is_space c ≡ true
unfolding is_cut is_space
is_cut-is_space c h = ground arith

lstrip-space : (c : ℕ) (s : Text) → is_space c ≡ true → lstrip (c ∷ s) ≡ lstrip s
unfolding lstrip
lstrip-space c s h = rw h

last_cut-drop :
    (k : ℕ) (s : Text) (i : ℕ)
    → last_cut (take k s) ≡ some i
    → length (lstrip (drop i s)) + i + 1 ≤ length s
unfolding last_cut
last_cut-drop zero s i h = cc
last_cut-drop (suc k) [] i h = cc
last_cut-drop (suc k) (c ∷ s) i h = elim (Option-cases (last_cut (take k s))) [
  | inl e ↦
      let zero_is : i ≡ 0 = ground arith in
      let space : is_space c ≡ true = is_cut-is_space c (ground arith) in
      rw (zero_is, lstrip-space c s space) (omega (arith, length-lstrip s))
  | inr (j, e) ↦
      let suc_is : i ≡ suc j = ground arith in rw suc_is (omega (arith, last_cut-drop k s j e))
]

-- The character at a soft cut is a space, which the text that is left has lost.
pub soft_cut-drop :
    (limit : ℕ) (s : Text) (i : ℕ)
    → soft_cut limit s ≡ some i
    → length (lstrip (drop i s)) + i + 1 ≤ length s
unfolding soft_cut
soft_cut-drop limit s i h = last_cut-drop (limit + 1) s i (ground arith)

-- Each round leaves less text than it had.
pub cut_off-lt :
    (limit : ℕ) (s : Text) → 0 < limit → limit < length s → length (cut_off limit s).2 < length s
unfolding cut_off
cut_off-lt limit [] h k = elim k [ ]
cut_off-lt limit (c ∷ s) h k = elim (Option-cases (soft_cut limit (c ∷ s))) [
  | inl e ↦ rw (e, cut_off) (omega (arith, length-drop limit (c ∷ s)))
  | inr (i, e) ↦ rw (e, cut_off) (omega (arith, soft_cut-drop limit (c ∷ s) i e))
]

last_part-IsShort :
    (limit : ℕ) (sep text : Text) → length text ≤ limit → IsShort limit (last_part text sep)
unfolding last_part
last_part-IsShort limit sep [] h = tt
last_part-IsShort limit sep (c ∷ text) h = (h, tt)

hard_loop-IsShort :
    (fuel limit : ℕ) (sep text : Text)
    → 0 < limit
    → length text ≤ fuel
    → IsShort limit (hard_loop fuel limit sep text)
unfolding hard_loop last_part
hard_loop-IsShort zero limit sep [] h k = tt
hard_loop-IsShort zero limit sep (c ∷ text) h k = elim k [ ]
hard_loop-IsShort (suc fuel) limit sep text h k = elim (Bool-cases (ltb limit (length text))) [
  | inl long ↦ rw long (
    cut_off-le limit text,
    hard_loop-IsShort fuel limit (cut_off limit text).1 (cut_off limit text).2 h
        (omega (arith, cut_off-lt limit text h (ltb→lt limit (length text) long))),
  )
  | inr short ↦ rw short (last_part-IsShort limit sep text (ground arith))
]

keep_if-IsBounded :
    (limit : ℕ) (ps : List Piece) → IsShort limit ps → IsBounded limit (keep_if has_text ps)
keep_if-IsBounded limit [] h = tt
keep_if-IsBounded limit (([], sep) ∷ ps) h = keep_if-IsBounded limit ps h.1
keep_if-IsBounded limit ((c ∷ p, sep) ∷ ps) h = ((h.0, omega arith), keep_if-IsBounded limit ps h.1)

-- Whatever the text, every piece of `_hard_split` is non-empty and at most `limit` characters long, or
-- one character where the limit is 0.
pub hard_split-IsBounded :
    (text : Text) (limit : ℕ) → IsBounded (max 1 limit) (hard_split text limit)
unfolding hard_split
hard_split-IsBounded text limit =
    keep_if-IsBounded (max 1 limit) (hard_loop (length text) (max 1 limit) [] text)
      (hard_loop-IsShort (length text) (max 1 limit) [] text (omega arith) (omega arith))

hard_split-IsBounded_pos :
    (text : Text) (limit : ℕ) → 0 < limit → IsBounded limit (hard_split text limit)
hard_split-IsBounded_pos text limit h =
    let m : max 1 limit ≡ limit = omega arith in rw m at (hard_split-IsBounded text limit)

pub with_first_sep-IsBounded :
    (limit : ℕ) (sep : Text) (ps : List Piece)
    → IsBounded limit ps
    → IsBounded limit (with_first_sep sep ps)
unfolding with_first_sep
with_first_sep-IsBounded limit sep [] h = tt
with_first_sep-IsBounded limit sep ((p, s) ∷ ps) h = h

abbrev HasText : List Piece → Type 0
HasText = All (λ (p : Piece). 0 < length p.0)

add_sentence-HasText :
    (piece sep : Text) (out : List Piece) → HasText out → HasText (add_sentence piece sep out)
unfolding add_sentence
add_sentence-HasText piece sep out h = go (strip piece)
  where
    go : (t : Text) → HasText (add_stripped t sep out)
    go [] = h
    go (c ∷ t) = (omega arith, h)

sentences-HasText :
    (skip : ℕ) (prev : Option ℕ) (piece sep text : Text)
    → HasText (sentences skip prev piece sep text)
unfolding sentences
sentences-HasText skip prev piece sep [] = add_sentence-HasText piece sep [] tt
sentences-HasText (suc skip) prev piece sep (c ∷ s) = sentences-HasText skip (some c) piece sep s
sentences-HasText zero prev piece sep (c ∷ s) = elim (Option-cases (sentence_break prev (c ∷ s))) [
  | inl e ↦ rw (e, sentences) (sentences-HasText 0 (some c) (piece ++ c ∷ []) sep s)
  | inr ((n, nl), e) ↦
      rw (e, sentences)
        (add_sentence-HasText piece sep (sentences n (some c) [] (if nl then newline else blank) s)
          (sentences-HasText n (some c) [] (if nl then newline else blank) s))
]

split_long-IsBounded :
    (limit : ℕ) (ps : List Piece) → 0 < limit → HasText ps → IsBounded limit (split_long limit ps)
unfolding split_long
split_long-IsBounded limit [] h t = tt
split_long-IsBounded limit ((p, sep) ∷ ps) h t = elim (Bool-cases (leb (length p) limit)) [
  | inl fits ↦ rw fits ((ground arith, t.0), split_long-IsBounded limit ps h t.1)
  | inr long ↦ rw long (
      All-append (λ (q : Piece). (length q.0 ≤ limit) × (0 < length q.0))
        (with_first_sep sep (hard_split p limit)) (split_long limit ps)
        (with_first_sep-IsBounded limit sep (hard_split p limit)
          (hard_split-IsBounded_pos p limit h))
        (split_long-IsBounded limit ps h t.1))
]

-- Every sentence piece is non-empty and at most `limit` characters long, for a positive limit.
pub sentence_pieces-IsBounded :
    (text : Text) (limit : ℕ) → 0 < limit → IsBounded limit (sentence_pieces text limit)
unfolding sentence_pieces
sentence_pieces-IsBounded text limit h =
    split_long-IsBounded limit (sentences 0 none [] [] text) h (sentences-HasText 0 none [] [] text)

flush_lines-IsBounded :
    (limit : ℕ) (buf : Text) (out : List Piece)
    → length buf ≤ limit
    → IsBounded limit out
    → IsBounded limit (flush_lines buf out)
unfolding flush_lines
flush_lines-IsBounded limit [] out h k = k
flush_lines-IsBounded limit (c ∷ buf) out h k = ((h, omega arith), k)

length-join_line :
    (limit : ℕ) (buf line : Text)
    → length line ≤ limit
    → (not (is_empty buf) && ltb limit (length buf + 1 + length line)) ≡ false
    → length (join_line buf line) ≤ limit
unfolding join_line
length-join_line limit [] line h k = h
length-join_line limit (c ∷ buf) line h k = ground (arith, length-append buf (newline ++ line))

full_buf :
    (limit : ℕ) (buf : Text) (n : ℕ) → (not (is_empty buf) && ltb limit n) ≡ true → 0 < length buf
full_buf limit [] n h = cc
full_buf limit (c ∷ buf) n h = omega arith

group_loop-IsBounded :
    (limit : ℕ) (buf : Text) (lines : List Text)
    → 0 < limit
    → length buf ≤ limit
    → IsBounded limit (group_loop limit buf lines)
unfolding group_loop
group_loop-IsBounded limit buf [] h k = flush_lines-IsBounded limit buf [] k tt
group_loop-IsBounded limit buf (raw ∷ lines) h k =
    elim (Bool-cases (is_empty (strip (rstrip raw)))) [
      | inl skip ↦ rw skip (group_loop-IsBounded limit buf lines h k)
      | inr line ↦ rw line (elim (Bool-cases (ltb limit (length (rstrip raw)))) [
        | inl long ↦ rw long (
            flush_lines-IsBounded limit buf
              (with_first_sep newline (hard_split (rstrip raw) limit) ++ group_loop limit [] lines)
              k
              (All-append (λ (q : Piece). (length q.0 ≤ limit) × (0 < length q.0))
                (with_first_sep newline (hard_split (rstrip raw) limit)) (group_loop limit [] lines)
                (with_first_sep-IsBounded limit newline (hard_split (rstrip raw) limit)
                  (hard_split-IsBounded_pos (rstrip raw) limit h))
                (group_loop-IsBounded limit [] lines h (omega arith))))
        | inr fits ↦
            rw fits
              (elim (Bool-cases
                (not (is_empty buf) && ltb limit (length buf + 1 + length (rstrip raw)))) [
                  | inl full ↦ rw full (
                    (k, full_buf limit buf (length buf + 1 + length (rstrip raw)) full),
                    group_loop-IsBounded limit (rstrip raw) lines h (ground arith),
                  )
                  | inr room ↦ rw room (
                      group_loop-IsBounded limit (join_line buf (rstrip raw)) lines h
                        (length-join_line limit buf (rstrip raw) (ground arith) room))
                ])
      ])
    ]

-- Every group of table lines is non-empty and at most `limit` characters long, for a positive limit.
pub group_lines-IsBounded :
    (text : Text) (limit : ℕ) → 0 < limit → IsBounded limit (group_lines text limit)
unfolding group_lines
group_lines-IsBounded text limit h =
    group_loop-IsBounded limit [] (split_lines [] text) h (omega arith)
