-- ===== src/DocIntel/Chunking/Cleaning.antt =====
-- backend/doc_intel/chunking.py: the cleaning of text and paths, and the splitting at line breaks.
use aiva_v.Prelude.{
  ℕ, suc, ◌+◌, Bool, true, false, not, List, [], ◌∷◌, ◌++◌, map, ◌&&◌, ◌||◌, keep_if, ◌==◌,
  if◌then◌else◌, Text, is_space, strip, leb,
}

-- `replace("\x00", "").replace("\r\n", "\n").replace("\r", "\n")`, given whether the character before
-- was a carriage return, which has become a line feed already.
pub line_feeds : Bool → Text → Text
line_feeds after_cr [] = []
line_feeds after_cr (c ∷ s) =
    let dropped = line_feeds false s in
    let other = line_feeds (c == 13) s in
    if after_cr && c == 10 then dropped else (if c == 13 then 10 else c) ∷ other

-- `_MANY_NEWLINES.sub("\n\n", …)`: of a run of line feeds the first two are kept; `n` have been met.
pub few_newlines : ℕ → Text → Text
few_newlines n [] = []
few_newlines n (c ∷ s) =
    let more = few_newlines (n + 1) s in
    let fresh = few_newlines 0 s in
    if c == 10 then (if leb 2 n then more else c ∷ more) else c ∷ fresh

-- `_clean_text`
unfoldable pub clean_text : Text → Text
unfolding line_feeds few_newlines
clean_text s = strip (few_newlines 0 (line_feeds false (keep_if (λ c. not (c == 0)) s)))

-- `_SPACES.sub(" ", …)`: each run of spaces is one blank.
pub one_blank : Bool → Text → Text
one_blank in_run [] = []
one_blank in_run (c ∷ s) =
    let run = one_blank true s in
    let fresh = one_blank false s in
    if is_space c then (if in_run then run else 32 ∷ run) else c ∷ fresh

-- `_one_line`
pub one_line : Text → Text
unfolding one_blank
one_line s = strip (one_blank false s)

abbrev pub is_empty : Text → Bool
is_empty [] = true
is_empty (c ∷ s) = false

-- `_clean_path`
unfoldable pub clean_path : List Text → List Text
unfolding one_line
clean_path path = keep_if (λ p. not (is_empty p)) (map one_line path)

-- `[ \t\xa0]`
unfoldable pub is_blank : ℕ → Bool
is_blank c = c == 32 || c == 9 || c == 160

-- How many characters at the start of the text satisfy a test.
unfoldable pub run_length : (ℕ → Bool) → Text → ℕ
run_length p [] = 0
run_length p (c ∷ s) = let more = suc (run_length p s) in if p c then more else 0

-- `s.split("\n")`, given the line being read.
unfoldable pub split_lines : Text → Text → List Text
split_lines line [] = line ∷ []
split_lines line (c ∷ s) =
    let next = line ∷ split_lines [] s in
    let on = split_lines (line ++ c ∷ []) s in if c == 10 then next else on
