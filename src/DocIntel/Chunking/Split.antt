-- ===== src/DocIntel/Chunking/Split.antt =====
-- backend/doc_intel/chunking.py: long text is cut at sentence ends, line ends and spaces. A piece
-- comes with the separator that stood before it.
pub mod Laws
pub mod Content
pub mod Spread
use aiva_v.Prelude.{
  ℕ, zero, suc, ◌+◌, ◌-◌, ◌/◌, max, Bool, true, false, not, Option, none, some, List, [], ◌∷◌, ◌++◌,
  ◌&&◌, ◌||◌, length, get_elem?, take, drop, keep_if, leb, ltb, ◌==◌, if◌then◌else◌, Text, is_space,
  lstrip, rstrip, strip,
}
use aiva_v.DocIntel.Chunking.Cleaning.{is_empty, is_blank, run_length, split_lines}

abbrev pub Piece : Type 0
Piece = Text × Text

abbrev pub blank : Text
blank = 32 ∷ []

abbrev pub newline : Text
newline = 10 ∷ []

-- The characters at which `_hard_split` looks for a cut: a blank, `\n`, `\t` and `\xa0`.
unfoldable pub is_cut : ℕ → Bool
is_cut c = c == 32 || c == 10 || c == 9 || c == 160

-- The position of the last cut character: the largest of the four `rfind`s, if one is found.
unfoldable pub last_cut : Text → Option ℕ
unfolding is_cut
last_cut [] = none
last_cut (c ∷ s) = elim (last_cut s) [
  | some i ↦ some (suc i)
  | none ↦ if is_cut c then some 0 else none
]

-- `"\n" if "\n" in text[cut : cut + 1] else " "`
unfoldable pub sep_at : Option ℕ → Text
sep_at none = blank
sep_at (some c) = if c == 10 then newline else blank

-- Where one round of the loop cuts: at a space that is not too early, or hard.
unfoldable pub soft_cut : ℕ → Text → Option ℕ
unfolding last_cut
soft_cut limit text = elim (last_cut (take (limit + 1) text)) [
  | none ↦ none
  | some cut ↦ if leb (limit / 2) cut then some cut else none
]

-- The part that a round cuts off, the separator of the next, and the text that is left.
unfoldable pub cut_off : ℕ → Text → Text × Text × Text
unfolding soft_cut sep_at
cut_off limit text = elim (soft_cut limit text) [
  | some cut ↦ (rstrip (take cut text), sep_at (get_elem? text cut), lstrip (drop cut text))
  | none ↦ (take limit text, [], drop limit text)
]

last_part : Text → Text → List Piece
last_part [] sep = []
last_part (c ∷ text) sep = (c ∷ text, sep) ∷ []

-- The loop of `_hard_split`; each round cuts off at least one character, so the length of the text
-- is fuel enough (`Content.hard_loop-content`).
pub hard_loop : ℕ → ℕ → Text → Text → List Piece
unfolding last_part
hard_loop zero limit sep text = last_part text sep
hard_loop (suc fuel) limit sep text =
    let (part, sep', rest) = cut_off limit text in
    let more = (part, sep) ∷ hard_loop fuel limit sep' rest in
    if ltb limit (length text) then more else last_part text sep

abbrev pub has_text : Piece → Bool
has_text (p, s) = not (is_empty p)

-- `_hard_split`
pub hard_split : Text → ℕ → List Piece
hard_split text limit = keep_if has_text (hard_loop (length text) (max 1 limit) [] text)

-- `[.!?]` and U+061F, the Arabic question mark.
unfoldable pub is_sentence_end : Option ℕ → Bool
is_sentence_end none = false
is_sentence_end (some c) = c == b'.' || c == b'!' || c == b'?' || c == 1567

starts_newline : Text → Bool
starts_newline [] = false
starts_newline (c ∷ s) = c == 10

-- A match of `_SENTENCE_BREAK` at this place, given the character before it: its length less one, and
-- whether it holds a line feed. The first alternative is tried first.
pub sentence_break : Option ℕ → Text → Option (ℕ × Bool)
unfolding is_sentence_end starts_newline is_blank run_length
sentence_break prev s =
    let n = run_length is_blank s in
    let rest = drop n s in
    if is_sentence_end prev && ltb 0 n
    then some (n - 1, false)
    else if starts_newline rest
    then some (n + run_length is_space (drop 1 rest), true)
    else none

add_stripped : Text → Text → List Piece → List Piece
add_stripped [] sep out = out
add_stripped (c ∷ s) sep out = (c ∷ s, sep) ∷ out

-- A sentence that is not blank goes into the list, stripped.
pub add_sentence : Text → Text → List Piece → List Piece
unfolding add_stripped
add_sentence piece sep out = add_stripped (strip piece) sep out

-- The sentences of the text that is left: `skip` characters of it belong to a match already made,
-- `prev` stands before it, and `piece` is the sentence being read.
pub sentences : ℕ → Option ℕ → Text → Text → Text → List Piece
unfolding add_sentence
sentences skip prev piece sep [] = add_sentence piece sep []
sentences (suc skip) prev piece sep (c ∷ s) = sentences skip (some c) piece sep s
sentences zero prev piece sep (c ∷ s) = elim (sentence_break prev (c ∷ s)) [
  | some (n, nl) ↦
      add_sentence piece sep (sentences n (some c) [] (if nl then newline else blank) s)
  | none ↦ sentences 0 (some c) (piece ++ c ∷ []) sep s
]

-- The first part takes the separator of the whole.
pub with_first_sep : Text → List Piece → List Piece
with_first_sep sep [] = []
with_first_sep sep ((p, s) ∷ ps) = (p, sep) ∷ ps

pub split_long : ℕ → List Piece → List Piece
unfolding with_first_sep
split_long limit [] = []
split_long limit ((sentence, sep) ∷ more) =
    let rest = split_long limit more in
    if leb (length sentence) limit
    then (sentence, sep) ∷ rest
    else with_first_sep sep (hard_split sentence limit) ++ rest

-- `_sentence_pieces`
pub sentence_pieces : Text → ℕ → List Piece
unfolding sentences split_long
sentence_pieces text limit = split_long limit (sentences 0 none [] [] text)

flush_lines : Text → List Piece → List Piece
flush_lines [] out = out
flush_lines (c ∷ buf) out = (c ∷ buf, newline) ∷ out

join_line : Text → Text → Text
join_line [] line = line
join_line (c ∷ buf) line = (c ∷ buf) ++ (newline ++ line)

-- The loop of `_group_lines`, with the group being filled.
pub group_loop : ℕ → Text → List Text → List Piece
unfolding flush_lines join_line with_first_sep
group_loop limit buf [] = flush_lines buf []
group_loop limit buf (raw ∷ lines) =
    let line = rstrip raw in
    let skipped = group_loop limit buf lines in
    let long =
      flush_lines buf
        (with_first_sep newline (hard_split line limit) ++ group_loop limit [] lines) in
    let full = (buf, newline) ∷ group_loop limit line lines in
    let joined = group_loop limit (join_line buf line) lines in
    if is_empty (strip line)
    then skipped
    else if ltb limit (length line)
    then long
    else if not (is_empty buf) && ltb limit (length buf + 1 + length line)
    then full
    else joined

-- `_group_lines`
pub group_lines : Text → ℕ → List Piece
unfolding group_loop
group_lines text limit = group_loop limit [] (split_lines [] text)
