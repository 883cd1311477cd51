-- ===== src/DocIntel/Chunking/Header/Laws.antt =====
-- The header fits.
use aiva_v.Prelude.{
  ℕ, zero, suc, refl, ◌≡◌, ◌⊎◌, ◌==◌, ◌/◌, ◌-◌, ◌≤◌, ◌<◌, min, max, Option, none, some, List, [],
  ◌∷◌, ◌++◌, length, take, take_end, true, leb, leb→le, if◌then◌else◌, Text, codes, arith,
  length-append, length-take, length-drop, Bool-cases, inl, inr,
}
use aiva_v.DocIntel.Chunking.Cleaning.{one_line}
use aiva_v.DocIntel.Chunking.Header.{
  ellipsize_middle, ellipsize_left, compose, join_texts, section_part, page_part, Step, step_text,
  section_at, header_steps, header_section_sep, page_label, try_steps, header, ellipsis,
  or_document,
}

-- The shortened file name and the shortened section are at most as long as they may be.
pub length-ellipsize_middle :
    (text : Text) (limit : ℕ) → length (ellipsize_middle text (some limit)) ≤ limit
unfolding ellipsize_middle
length-ellipsize_middle text limit =
    let k = min 12 ((limit - 1) / 3) in
    let kept : Text = if k == 0 then [] else take_end k text in
    ground (
      arith,
      length-take limit ellipsis,
      length-append (take (limit - 1 - k) text) (ellipsis ++ kept),
      length-take (limit - 1 - k) text,
      length-drop (length text - k) text,
    )

pub length-ellipsize_left :
    (text : Text) (limit : ℕ) → length (ellipsize_left text (some limit)) ≤ limit
unfolding ellipsize_left
length-ellipsize_left text limit =
    ground (arith, length-take limit ellipsis, length-drop (length text - (limit - 1)) text)

length-compose : (name : Text) (section page : Option Text) → 2 ≤ length (compose name section page)
unfolding compose
length-compose name section page = omega (
  arith,
  length-append
      (join_texts (codes " · ")
        ((codes "Document: " ++ name) ∷ (section_part section ++ page_part page)))
      (codes "]"),
)

length-step_text :
    (name section_text : Text) (page : Option Text) (s : Step)
    → 2 ≤ length (step_text name section_text page s)
unfolding step_text
length-step_text name section_text page s =
    length-compose (ellipsize_middle name s.name_max) (section_at s.section_max section_text)
      (if s.keep_page then page else none)

try_steps-fits :
    (name section_text : Text) (page : Option Text) (limit : ℕ) (text : Text) (steps : List Step)
    → 2 ≤ limit
    → (1 ≤ length text) ⊎ (0 < length steps)
    → (length (try_steps name section_text page limit text steps) ≤ limit)
      × (2 ≤ length (try_steps name section_text page limit text steps))
unfolding try_steps
try_steps-fits name section_text page limit text [] h (inl k) = omega (
  arith,
  length-append (take (max 1 (limit - 1)) text) (codes "]"),
  length-take (max 1 (limit - 1)) text,
)
try_steps-fits name section_text page limit text [] h (inr k) = elim k [ ]
try_steps-fits name section_text page limit text (s ∷ steps) h k =
    elim (Bool-cases (leb (length (step_text name section_text page s)) limit)) [
      | inl fits ↦ rw fits (
        leb→le (length (step_text name section_text page s)) limit fits,
        length-step_text name section_text page s,
      )
      | inr long ↦ rw long (
          try_steps-fits name section_text page limit (step_text name section_text page s) steps h
            (inl (omega (arith, length-step_text name section_text page s))))
    ]

-- Whatever the file name, the section path and the pages, the header is at most `limit` characters
-- long, and at least two, for every limit of at least two.
pub header-fits :
    (filename : Text) (section : List Text) (pages : List ℕ) (limit : ℕ)
    → 2 ≤ limit
    → (length (header filename section pages limit) ≤ limit)
      × (2 ≤ length (header filename section pages limit))
unfolding header
header-fits filename section pages limit h =
    try_steps-fits (or_document (one_line filename)) (join_texts header_section_sep section)
      (page_label pages) limit [] header_steps h (inr (omega arith))

-- The header in full: the file name or a name in its place, the section path and the pages.
pub full_header : Text → List Text → List ℕ → Text
full_header filename section pages =
    compose (or_document (one_line filename)) (some (join_texts header_section_sep section))
      (page_label pages)

first_fits :
    (name section_text : Text) (page : Option Text) (limit : ℕ) (text : Text) (s : Step)
    (steps : List Step)
    → leb (length (step_text name section_text page s)) limit ≡ true
    → try_steps name section_text page limit text (s ∷ steps) ≡ step_text name section_text page s
unfolding try_steps
first_fits name section_text page limit text s steps h = rw h refl

leb_of_le : (m n : ℕ) → m ≤ n → leb m n ≡ true
leb_of_le m n h = ground (arith, h)

-- A header that has room is not shortened.
pub header-full :
    (filename : Text) (section : List Text) (pages : List ℕ) (limit : ℕ)
    → length (full_header filename section pages) ≤ limit
    → header filename section pages limit ≡ full_header filename section pages
unfolding header step_text section_at ellipsize_middle ellipsize_left full_header
header-full filename section pages limit h =
    first_fits (or_document (one_line filename)) (join_texts header_section_sep section)
      (page_label pages) limit [] _ _ (leb_of_le _ limit h)

-- A text in brackets.
abbrev pub IsBracketed : Text → Type 0
IsBracketed t = (inner : Text) × (t ≡ b'[' ∷ (inner ++ codes "]"))

take_first : (n : ℕ) (inner : Text) → 1 ≤ n → IsBracketed (take n (b'[' ∷ inner) ++ codes "]")
take_first zero inner h = elim h [ ]
take_first (suc n) inner h = (take n inner, refl)

try_steps-IsBracketed :
    (name section_text : Text) (page : Option Text) (limit : ℕ) (text : Text) (steps : List Step)
    → ((inner : Text) × (text ≡ b'[' ∷ inner)) ⊎ (0 < length steps)
    → IsBracketed (try_steps name section_text page limit text steps)
unfolding try_steps
try_steps-IsBracketed name section_text page limit text [] (inl (inner, e)) =
    let n = max 1 (limit - 1) in rw e (take_first n inner (omega arith))
try_steps-IsBracketed name section_text page limit text [] (inr k) = elim k [ ]
try_steps-IsBracketed name section_text page limit text (s ∷ steps) k =
    elim (Bool-cases (leb (length (step_text name section_text page s)) limit)) [
      | inl fits ↦ rw fits (unfold step_text compose in (_, refl))
      | inr long ↦ rw long (
          try_steps-IsBracketed name section_text page limit (step_text name section_text page s)
            steps (inl (unfold step_text compose in (_, refl))))
    ]

-- However short it is, the header is in brackets.
pub header-IsBracketed :
    (filename : Text) (section : List Text) (pages : List ℕ) (limit : ℕ)
    → IsBracketed (header filename section pages limit)
unfolding header
header-IsBracketed filename section pages limit =
    try_steps-IsBracketed (or_document (one_line filename)) (join_texts header_section_sep section)
      (page_label pages) limit [] header_steps (inr (omega arith))
