-- ===== src/DocIntel/Chunking/Header.antt =====
-- backend/doc_intel/chunking.py: the one-line header of a chunk, shortened to fit.
pub mod Laws
use aiva_v.Prelude.{
  ℕ, zero, suc, ◌+◌, ◌-◌, ◌/◌, ◌%◌, min, max, Bool, true, false, not, Option, none, some, List, [],
  ◌∷◌, ◌++◌, length, take, take_end, leb, ltb, ◌==◌, if◌then◌else◌, Text, codes, rstrip,
}
use aiva_v.DocIntel.Chunking.Cleaning.{is_empty, one_line}

-- `str(n)`, the digits of what is left in front of those found; `n + 1` rounds are enough.
unfoldable pub decimal_loop : ℕ → ℕ → Text → Text
decimal_loop zero n digits = digits
decimal_loop (suc fuel) n digits =
    let more = decimal_loop fuel (n / 10) ((48 + n % 10) ∷ digits) in
    if ltb n 10 then (48 + n) ∷ digits else more

unfoldable pub decimal : ℕ → Text
unfolding decimal_loop
decimal n = decimal_loop (n + 1) n []

-- `sep.join(parts)`
unfoldable pub join_texts : Text → List Text → Text
join_texts sep [] = []
join_texts sep (p ∷ []) = p
join_texts sep (p ∷ q ∷ ps) = p ++ (sep ++ join_texts sep (q ∷ ps))

abbrev pub ellipsis : Text
ellipsis = codes "…"

-- `_HEADER_SECTION_SEP` and `_PAYLOAD_SECTION_SEP`
abbrev pub header_section_sep : Text
header_section_sep = codes " › "

abbrev pub payload_section_sep : Text
payload_section_sep = codes " > "

-- `_header_cap`
unfoldable pub header_cap : ℕ → ℕ
header_cap max_chars = max 48 (max_chars / 4)

minimum : ℕ → List ℕ → ℕ
minimum m [] = m
minimum m (p ∷ ps) = minimum (min m p) ps

maximum : ℕ → List ℕ → ℕ
maximum m [] = m
maximum m (p ∷ ps) = maximum (max m p) ps

-- `_page_label`
unfoldable pub page_label : List ℕ → Option Text
unfolding minimum maximum
page_label [] = none
page_label (p ∷ ps) =
    let lo = minimum p ps in
    let hi = maximum p ps in
    some (
      if lo == hi
      then codes "Page " ++ decimal lo
      else codes "Pages " ++ (decimal lo ++ (codes "–" ++ decimal hi)))

-- `_ellipsize_middle`, where `none` is no limit.
unfoldable pub ellipsize_middle : Text → Option ℕ → Text
ellipsize_middle text none = text
ellipsize_middle text (some limit) =
    let keep_end = min 12 ((limit - 1) / 3) in
    if leb (length text) limit
    then text
    else if leb limit 1
    then take limit ellipsis
    else take (limit - 1 - keep_end) text
      ++ (ellipsis ++ (if keep_end == 0 then [] else take_end keep_end text))

-- `_ellipsize_left`
unfoldable pub ellipsize_left : Text → Option ℕ → Text
ellipsize_left text none = text
ellipsize_left text (some limit) =
    if leb (length text) limit
    then text
    else if leb limit 1
    then take limit ellipsis
    else ellipsis ++ take_end (limit - 1) text

abbrev pub non_empty : Option Text → Bool
non_empty none = false
non_empty (some t) = not (is_empty t)

section_part : Option Text → List Text
section_part none = []
section_part (some []) = []
section_part (some (c ∷ s)) = (codes "Section: " ++ (c ∷ s)) ∷ []

page_part : Option Text → List Text
page_part none = []
page_part (some []) = []
page_part (some (c ∷ s)) = (c ∷ s) ∷ []

-- `_compose`
unfoldable pub compose : Text → Option Text → Option Text → Text
unfolding section_part page_part
compose name section page =
    codes "["
    ++ (join_texts (codes " · ")
          ((codes "Document: " ++ name) ∷ (section_part section ++ page_part page))
        ++ codes "]")

-- One of `_HEADER_STEPS`: the limits of the name and of the section, and whether the pages are kept.
pub record Step : Type 0 where
  pub name_max : Option ℕ
  pub section_max : Option ℕ
  pub keep_page : Bool

abbrev pub header_steps : List Step
header_steps =
    record { name_max = none; section_max = none; keep_page = true }
    ∷ record { name_max = some 120; section_max = some 160; keep_page = true }
    ∷ record { name_max = some 80; section_max = some 80; keep_page = true }
    ∷ record { name_max = some 48; section_max = some 40; keep_page = true }
    ∷ record { name_max = some 32; section_max = some 0; keep_page = true }
    ∷ record { name_max = some 24; section_max = some 0; keep_page = false }
    ∷ []

section_at : Option ℕ → Text → Option Text
section_at none text = some (ellipsize_left text none)
section_at (some zero) text = none
section_at (some (suc n)) text = some (ellipsize_left text (some (suc n)))

step_text : Text → Text → Option Text → Step → Text
unfolding section_at
step_text name section_text page s =
    compose (ellipsize_middle name s.name_max) (section_at s.section_max section_text)
      (if s.keep_page then page else none)

-- The loop over the steps, with the text of the step before; past the last step it is cut.
unfoldable pub try_steps : Text → Text → Option Text → ℕ → Text → List Step → Text
unfolding step_text
try_steps name section_text page limit text [] = take (max 1 (limit - 1)) text ++ codes "]"
try_steps name section_text page limit text (s ∷ steps) =
    let t = step_text name section_text page s in
    let later = try_steps name section_text page limit t steps in
    if leb (length t) limit then t else later

or_document : Text → Text
or_document [] = codes "document"
or_document (c ∷ s) = c ∷ s

-- `_header`
unfoldable pub header : Text → List Text → List ℕ → ℕ → Text
unfolding or_document
header filename section pages limit =
    try_steps (or_document (one_line filename)) (join_texts header_section_sep section)
      (page_label pages) limit [] header_steps
