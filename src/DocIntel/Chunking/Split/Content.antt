-- ===== src/DocIntel/Chunking/Split/Content.antt =====
-- Cutting loses nothing but spaces: the other characters of the text are those of its pieces, in order.
use mathlib.Core.Path.{ap₂}
use mathlib.Core.List.{append_assoc, append-nil}
use aiva_v.Prelude.{
  ℕ, zero, suc, ◌+◌, ◌≤◌, ◌<◌, ◌≡◌, refl, sym, ap, ◌∙◌, max, Bool, true, not, ◌&&◌, Option, none,
  some, List, [], ◌∷◌, ◌++◌, length, take, drop, keep_if, leb, ltb, ltb→lt, ◌==◌, if◌then◌else◌,
  Text, is_space, lstrip, rstrip, rstrip_onto, strip, arith, take-append-drop, drop-drop,
  Option-cases, inl, inr, Bool-cases,
}
use aiva_v.DocIntel.Chunking.Cleaning.{is_empty, is_blank, run_length, split_lines}
use aiva_v.DocIntel.Chunking.Split.{
  Piece, soft_cut, cut_off, last_part, hard_loop, has_text, hard_split, is_sentence_end,
  sentence_break, starts_newline, add_stripped, add_sentence, sentences, blank, with_first_sep,
  split_long, sentence_pieces, flush_lines, join_line, group_loop, group_lines, newline,
}
use aiva_v.DocIntel.Chunking.Split.Laws.{cut_off-lt}

-- The text without its spaces.
unfoldable pub solid : Text → Text
solid [] = []
solid (c ∷ s) = if is_space c then solid s else c ∷ solid s

unfoldable pub solid_pieces : List Piece → Text
solid_pieces [] = []
solid_pieces ((p, sep) ∷ ps) = solid p ++ solid_pieces ps

pub solid-append : (s t : Text) → solid (s ++ t) ≡ solid s ++ solid t
unfolding solid
solid-append [] t = refl
solid-append (c ∷ s) t = ground (arith, solid-append s t)

pub solid-lstrip : (s : Text) → solid (lstrip s) ≡ solid s
unfolding solid lstrip
solid-lstrip [] = refl
solid-lstrip (c ∷ s) = ground (arith, solid-lstrip s)

solid-rstrip_onto : (c : ℕ) (s : Text) → solid (rstrip_onto c s) ≡ solid (c ∷ s)
unfolding solid rstrip_onto
solid-rstrip_onto c [] = ground arith
solid-rstrip_onto c (d ∷ s) = refl

solid-cons : (c : ℕ) (s t : Text) → solid s ≡ solid t → solid (c ∷ s) ≡ solid (c ∷ t)
unfolding solid
solid-cons c s t h = rw h

pub solid-rstrip : (s : Text) → solid (rstrip s) ≡ solid s
unfolding rstrip
solid-rstrip [] = refl
solid-rstrip (c ∷ s) = solid-rstrip_onto c (rstrip s) ∙ solid-cons c (rstrip s) s (solid-rstrip s)

pub solid-strip : (s : Text) → solid (strip s) ≡ solid s
unfolding strip
solid-strip s = solid-rstrip (lstrip s) ∙ solid-lstrip s

-- What a round cuts off and what it leaves make up the text.
cut_off-content :
    (limit : ℕ) (s : Text) → solid (cut_off limit s).0 ++ solid (cut_off limit s).2 ≡ solid s
unfolding cut_off
cut_off-content limit s = elim (Option-cases (soft_cut limit s)) [
  | inl e ↦
      rw (e, cut_off)
        (sym (solid-append (take limit s) (drop limit s)) ∙ ap solid (take-append-drop limit s))
  | inr (i, e) ↦
      rw (e, cut_off, solid-rstrip (take i s), solid-lstrip (drop i s))
        (sym (solid-append (take i s) (drop i s)) ∙ ap solid (take-append-drop i s))
]

last_part-content : (text sep : Text) → solid_pieces (last_part text sep) ≡ solid text
unfolding last_part solid_pieces solid
last_part-content [] sep = refl
last_part-content (c ∷ text) sep = append-nil (solid (c ∷ text))

pub hard_loop-content :
    (fuel limit : ℕ) (sep text : Text)
    → 0 < limit
    → length text ≤ fuel
    → solid_pieces (hard_loop fuel limit sep text) ≡ solid text
unfolding hard_loop solid_pieces
hard_loop-content zero limit sep text h k = last_part-content text sep
hard_loop-content (suc fuel) limit sep text h k = elim (Bool-cases (ltb limit (length text))) [
  | inl long ↦ rw long (
      ap (λ t. solid (cut_off limit text).0 ++ t)
        (hard_loop-content fuel limit (cut_off limit text).1 (cut_off limit text).2 h
          (omega (arith, cut_off-lt limit text h (ltb→lt limit (length text) long))))
      ∙ cut_off-content limit text)
  | inr short ↦ rw short (last_part-content text sep)
]

keep_if-content : (ps : List Piece) → solid_pieces (keep_if has_text ps) ≡ solid_pieces ps
unfolding solid_pieces solid
keep_if-content [] = refl
keep_if-content (([], sep) ∷ ps) = keep_if-content ps
keep_if-content ((c ∷ p, sep) ∷ ps) = ap (λ t. solid (c ∷ p) ++ t) (keep_if-content ps)

-- `_hard_split` loses nothing but spaces, whatever the text and the limit: its pieces hold the
-- other characters of the text, each once and in order.
pub hard_split-content :
    (text : Text) (limit : ℕ) → solid_pieces (hard_split text limit) ≡ solid text
unfolding hard_split
hard_split-content text limit =
    keep_if-content (hard_loop (length text) (max 1 limit) [] text)
    ∙ hard_loop-content (length text) (max 1 limit) [] text (omega arith) (omega arith)

with_first_sep-content :
    (sep : Text) (ps : List Piece) → solid_pieces (with_first_sep sep ps) ≡ solid_pieces ps
unfolding with_first_sep solid_pieces
with_first_sep-content sep [] = refl
with_first_sep-content sep ((p, s) ∷ ps) = refl

pub solid_pieces-append :
    (ps qs : List Piece) → solid_pieces (ps ++ qs) ≡ solid_pieces ps ++ solid_pieces qs
unfolding solid_pieces
solid_pieces-append [] qs = refl
solid_pieces-append ((p, sep) ∷ ps) qs =
    ap (λ t. solid p ++ t) (solid_pieces-append ps qs)
    ∙ sym (append_assoc (solid p) (solid_pieces ps) (solid_pieces qs))

split_long-content :
    (limit : ℕ) (ps : List Piece) → solid_pieces (split_long limit ps) ≡ solid_pieces ps
unfolding split_long solid_pieces
split_long-content limit [] = refl
split_long-content limit ((p, sep) ∷ ps) = elim (Bool-cases (leb (length p) limit)) [
  | inl fits ↦ rw fits (ap (λ t. solid p ++ t) (split_long-content limit ps))
  | inr long ↦ rw long (
      solid_pieces-append (with_first_sep sep (hard_split p limit)) (split_long limit ps)
      ∙ ap (λ t. t ++ solid_pieces (split_long limit ps))
          (with_first_sep-content sep (hard_split p limit) ∙ hard_split-content p limit)
      ∙ ap (λ t. solid p ++ t) (split_long-content limit ps))
]

-- The first `n` characters are spaces.
abbrev StartsBlank : ℕ → Text → Type 0
StartsBlank n s = solid (drop n s) ≡ solid s

run_length-StartsBlank :
    (p : ℕ → Bool) (s : Text)
    → ((c : ℕ) → p c ≡ true → is_space c ≡ true)
    → StartsBlank (run_length p s) s
unfolding run_length solid
run_length-StartsBlank p [] h = refl
run_length-StartsBlank p (c ∷ s) h = elim (Bool-cases (p c)) [
  | inl e ↦ rw (e, h c e) (run_length-StartsBlank p s h)
  | inr e ↦ rw e refl
]

is_blank-is_space : (c : ℕ) → is_blank c ≡ true → is_space c ≡ true
unfolding is_blank is_space
is_blank-is_space c h = ground arith

solid-nil : solid [] ≡ []
unfolding solid
solid-nil = refl

solid-space : (c : ℕ) (s : Text) → is_space c ≡ true → solid (c ∷ s) ≡ solid s
unfolding solid
solid-space c s h = rw h

newline-is_space : (c : ℕ) → (c == 10) ≡ true → is_space c ≡ true
unfolding is_space
newline-is_space c e = ground arith

-- A line feed at the start, and the run of spaces after it.
newline-StartsBlank :
    (s : Text) → starts_newline s ≡ true → StartsBlank (suc (run_length is_space (drop 1 s))) s
unfolding starts_newline
newline-StartsBlank [] h = cc
newline-StartsBlank (c ∷ s) h =
    run_length-StartsBlank is_space s (λ x e. e) ∙ sym (solid-space c s (newline-is_space c h))

StartsBlank-add :
    (n m : ℕ) (s : Text) → StartsBlank n s → StartsBlank m (drop n s) → StartsBlank (n + m) s
StartsBlank-add n m s h k = rw (← drop-drop m n s) (k ∙ h)

-- A match of the sentence break is made of spaces.
sentence_break-StartsBlank :
    (prev : Option ℕ) (s : Text) (n : ℕ) (nl : Bool)
    → sentence_break prev s ≡ some (n, nl)
    → StartsBlank (suc n) s
unfolding sentence_break
sentence_break-StartsBlank prev s n nl h =
    let k = run_length is_blank s in
    let blanks : StartsBlank k s = run_length-StartsBlank is_blank s is_blank-is_space in
    elim (Bool-cases (is_sentence_end prev && ltb 0 k)) [
      | inl after_end ↦ let e : suc n ≡ k = ground arith in rw e blanks
      | inr other ↦ elim (Bool-cases (starts_newline (drop k s))) [
        | inl at_line ↦
            let e : suc n ≡ k + suc (run_length is_space (drop 1 (drop k s))) = ground arith in
            rw e (
              StartsBlank-add k (suc (run_length is_space (drop 1 (drop k s)))) s blanks
                (newline-StartsBlank (drop k s) at_line))
        | inr nothing ↦ ground arith
      ]
    ]

add_sentence-content :
    (piece sep : Text) (out : List Piece)
    → solid_pieces (add_sentence piece sep out) ≡ solid piece ++ solid_pieces out
unfolding add_sentence
add_sentence-content piece sep out =
    stripped (strip piece) ∙ ap (λ t. t ++ solid_pieces out) (solid-strip piece)
  where
    stripped : (t : Text) → solid_pieces (add_stripped t sep out) ≡ solid t ++ solid_pieces out
    stripped [] = unfold solid add_stripped in refl
    stripped (c ∷ t) = unfold solid_pieces add_stripped in refl

solid-snoc :
    (piece : Text) (c : ℕ) (s : Text)
    → solid (piece ++ c ∷ []) ++ solid s ≡ solid piece ++ solid (c ∷ s)
solid-snoc piece c s =
    ap (λ t. t ++ solid s) (solid-append piece (c ∷ []))
    ∙ append_assoc (solid piece) (solid (c ∷ [])) (solid s)
    ∙ ap (λ t. solid piece ++ t) (sym (solid-append (c ∷ []) s))

sentences-content :
    (skip : ℕ) (prev : Option ℕ) (piece sep text : Text)
    → solid_pieces (sentences skip prev piece sep text) ≡ solid piece ++ solid (drop skip text)
unfolding sentences solid solid_pieces
sentences-content zero prev piece sep [] = add_sentence-content piece sep []
sentences-content (suc skip) prev piece sep [] = add_sentence-content piece sep []
sentences-content (suc skip) prev piece sep (c ∷ s) = sentences-content skip (some c) piece sep s
sentences-content zero prev piece sep (c ∷ s) = elim (Option-cases (sentence_break prev (c ∷ s))) [
  | inl e ↦
      rw (e, sentences)
        (sentences-content 0 (some c) (piece ++ c ∷ []) sep s ∙ solid-snoc piece c s)
  | inr ((n, nl), e) ↦
      rw (e, sentences)
        (add_sentence-content piece sep (sentences n (some c) [] (if nl then newline else blank) s)
          ∙ ap (λ t. solid piece ++ t)
              (sentences-content n (some c) [] (if nl then newline else blank) s
                ∙ sentence_break-StartsBlank prev (c ∷ s) n nl e))
]

-- The sentence pieces of a text hold all of its characters but spaces, each once and in order.
pub sentence_pieces-content :
    (text : Text) (limit : ℕ) → solid_pieces (sentence_pieces text limit) ≡ solid text
unfolding sentence_pieces solid
sentence_pieces-content text limit =
    split_long-content limit (sentences 0 none [] [] text) ∙ sentences-content 0 none [] [] text

solid_lines : List Text → Text
solid_lines [] = []
solid_lines (l ∷ ls) = solid l ++ solid_lines ls

split_lines-content :
    (line text : Text) → solid_lines (split_lines line text) ≡ solid line ++ solid text
unfolding split_lines solid_lines solid
split_lines-content line [] = ap (λ t. solid line ++ t) (unfold solid in refl)
split_lines-content line (c ∷ s) = elim (Bool-cases (c == 10)) [
  | inl nl ↦ rw nl (
      ap (λ t. solid line ++ t)
        (split_lines-content [] s ∙ sym (solid-space c s (newline-is_space c nl))))
  | inr other ↦ rw other (split_lines-content (line ++ c ∷ []) s ∙ solid-snoc line c s)
]

flush_lines-content :
    (buf : Text) (out : List Piece)
    → solid_pieces (flush_lines buf out) ≡ solid buf ++ solid_pieces out
unfolding flush_lines solid_pieces solid
flush_lines-content [] out = refl
flush_lines-content (c ∷ buf) out = refl

join_line-content : (buf line : Text) → solid (join_line buf line) ≡ solid buf ++ solid line
unfolding join_line
join_line-content [] line = unfold solid in refl
join_line-content (c ∷ buf) line =
    solid-append (c ∷ buf) (newline ++ line)
    ∙ ap (λ t. solid (c ∷ buf) ++ t) (solid-space 10 line (newline-is_space 10 refl))

blank_line-content : (raw : Text) → is_empty (strip (rstrip raw)) ≡ true → solid raw ≡ []
blank_line-content raw h =
    sym (solid-rstrip raw) ∙ sym (solid-strip (rstrip raw)) ∙ empty (strip (rstrip raw)) h
  where
    empty : (t : Text) → is_empty t ≡ true → solid t ≡ []
    empty [] e = unfold solid in refl
    empty (c ∷ t) e = cc

solid_pieces-cons :
    (p sep : Text) (ps : List Piece) → solid_pieces ((p, sep) ∷ ps) ≡ solid p ++ solid_pieces ps
unfolding solid_pieces
solid_pieces-cons p sep ps = refl

group_loop-content :
    (limit : ℕ) (buf : Text) (lines : List Text)
    → solid_pieces (group_loop limit buf lines) ≡ solid buf ++ solid_lines lines
unfolding group_loop solid_lines
group_loop-content limit buf [] = flush_lines-content buf [] ∙ (unfold solid_pieces in refl)
group_loop-content limit buf (raw ∷ lines) = elim (Bool-cases (is_empty (strip (rstrip raw)))) [
  | inl skip ↦ rw (skip, blank_line-content raw skip) (group_loop-content limit buf lines)
  | inr line ↦ rw line (elim (Bool-cases (ltb limit (length (rstrip raw)))) [
    | inl long ↦ rw long (
        flush_lines-content buf
          (with_first_sep newline (hard_split (rstrip raw) limit) ++ group_loop limit [] lines)
        ∙ ap (λ t. solid buf ++ t)
            (solid_pieces-append (with_first_sep newline (hard_split (rstrip raw) limit))
                (group_loop limit [] lines)
              ∙ ap₂ (λ t u. t ++ u)
                  (with_first_sep-content newline (hard_split (rstrip raw) limit)
                    ∙ hard_split-content (rstrip raw) limit
                    ∙ solid-rstrip raw)
                  (group_loop-content limit [] lines ∙ ap (λ t. t ++ solid_lines lines) solid-nil)))
    | inr fits ↦
        rw fits
          (elim (Bool-cases
            (not (is_empty buf) && ltb limit (length buf + 1 + length (rstrip raw)))) [
              | inl full ↦ rw full (
                  solid_pieces-cons buf newline (group_loop limit (rstrip raw) lines)
                  ∙ ap (λ t. solid buf ++ t)
                      (group_loop-content limit (rstrip raw) lines
                        ∙ ap (λ t. t ++ solid_lines lines) (solid-rstrip raw)))
              | inr room ↦ rw room (
                  group_loop-content limit (join_line buf (rstrip raw)) lines
                  ∙ ap (λ t. t ++ solid_lines lines) (join_line-content buf (rstrip raw))
                  ∙ append_assoc (solid buf) (solid (rstrip raw)) (solid_lines lines)
                  ∙ ap (λ t. solid buf ++ (t ++ solid_lines lines)) (solid-rstrip raw))
            ])
  ])
]

-- The groups of a table's lines hold all of its characters but spaces, each once and in order.
pub group_lines-content :
    (text : Text) (limit : ℕ) → solid_pieces (group_lines text limit) ≡ solid text
unfolding group_lines solid
group_lines-content text limit =
    group_loop-content limit [] (split_lines [] text) ∙ split_lines-content [] text
