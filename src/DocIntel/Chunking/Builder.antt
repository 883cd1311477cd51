-- ===== src/DocIntel/Chunking/Builder.antt =====
-- backend/doc_intel/chunking.py: `_Builder`, which pours blocks into drafts of chunks. The budget
-- cache only remembers `budget_for`, so it is not in the state.
pub mod Size
pub mod Laws
use aiva_v.Prelude.{
  ℕ, zero, suc, ◌+◌, ◌-◌, ◌/◌, min, max, Bool, true, false, not, Option, none, some, List, [], ◌∷◌,
  ◌++◌, ◌&&◌, ◌||◌, length, take, drop, take_end, get_elem?, leb, ltb, ◌==◌, if◌then◌else◌, Text,
  is_space, strip,
}
use aiva_v.DocIntel.Chunking.Cleaning.{is_empty, run_length}
use aiva_v.DocIntel.Chunking.Split.{Piece, hard_split, with_first_sep}
use aiva_v.DocIntel.Chunking.Header.{header, header_cap}

-- backend/doc_intel/normalized.py
pub data BlockKind : Type 0 where
  heading paragraph list_item table caption footnote code formula key_value other : BlockKind

abbrev pub is_table : BlockKind → Bool
is_table BlockKind.table = true
is_table _ = false

abbrev pub is_heading : BlockKind → Bool
is_heading BlockKind.heading = true
is_heading _ = false

abbrev pub is_list_item : BlockKind → Bool
is_list_item BlockKind.list_item = true
is_list_item _ = false

pub record Draft : Type 0 where
  pub body : Text
  pub section : List Text
  pub pages : List ℕ

-- The arguments of a `_Builder`.
pub record Config : Type 0 where
  pub filename : Text
  pub max_chars : ℕ
  pub overlap : ℕ
  pub min_chars : ℕ
  pub max_page : ℕ

-- The state of a `_Builder`; `pages` is a set, listed in order.
pub record Builder : Type 0 where
  pub drafts : List Draft
  pub section : List Text
  pub chunk_section : List Text
  pub body : Text
  pub fresh : Bool
  pub pages : List ℕ
  pub last_kind : Option BlockKind
  pub last_pages : List ℕ
  pub body_before_heading : Option Text

unfoldable pub new : Builder
new = record {
  drafts = [];
  section = [];
  chunk_section = [];
  body = [];
  fresh = false;
  pages = [];
  last_kind = none;
  last_pages = [];
  body_before_heading = none;
}

insert_page : ℕ → List ℕ → List ℕ
insert_page p [] = p ∷ []
insert_page p (q ∷ qs) =
    if ltb p q then p ∷ q ∷ qs else if p == q then q ∷ qs else q ∷ insert_page p qs

-- `self.pages.update(pages)`
unfoldable pub update_pages : List ℕ → List ℕ → List ℕ
unfolding insert_page
update_pages pages [] = pages
update_pages pages (p ∷ ps) = update_pages (insert_page p pages) ps

-- `_tail`: the last `n` characters, from a word boundary on.
pub tail_of : Text → ℕ → Text
tail_of body n =
    let tail = take_end n body in
    let inside =
      elim (get_elem? body (length body - n - 1)) [ none ↦ false | some c ↦ not (is_space c) ]
      && elim (get_elem? tail 0) [ none ↦ false | some c ↦ not (is_space c) ] in
    let word = run_length (λ c. not (is_space c)) tail in
    if n == 0 || is_empty body
    then []
    else if leb (length body) n
    then strip body
    else if inside && ltb word (length tail)
    then strip (drop (word + 1) tail)
    else strip tail

-- The body of the chunk without a heading at its end: that heading belongs to the next chunk.
pub body_to_emit : Option BlockKind → Option Text → Text → Text
body_to_emit (some BlockKind.heading) (some before) body = before
body_to_emit _ _ body = body

unfoldable pub flushed_body : Builder → Text
unfolding body_to_emit
flushed_body b = strip (body_to_emit b.last_kind b.body_before_heading b.body)

abbrev pub may_carry : Option BlockKind → Bool
may_carry none = true
may_carry (some k) = not (is_table k || is_heading k)

module _ (cfg : Config) where
  unfoldable pub worst_pages : List ℕ
  worst_pages = if ltb 0 cfg.max_page then cfg.max_page ∷ cfg.max_page ∷ [] else []

  unfoldable pub budget_for : List Text → ℕ
  unfolding worst_pages
  budget_for section =
      cfg.max_chars
      - length (header cfg.filename section worst_pages (header_cap cfg.max_chars))
      - 1

  abbrev pub budget : Builder → ℕ
  budget b = budget_for b.chunk_section

  abbrev pub tight_budget : Builder → ℕ
  tight_budget b = min (budget b) (budget_for b.section)

  abbrev pub overlap_chars : Builder → ℕ
  overlap_chars b = min cfg.overlap (tight_budget b / 3)

  abbrev pub piece_limit : Builder → ℕ
  piece_limit b = max 20 (tight_budget b - overlap_chars b - 2)

  unfoldable pub flush : Bool → Builder → Builder
  flush carry_overlap b =
      let body = flushed_body b in
      let emits = b.fresh && not (is_empty body) in
      let carry =
        if emits && carry_overlap && ltb 0 cfg.overlap && may_carry b.last_kind
        then tail_of body (overlap_chars b)
        else [] in
      record b {
        drafts =
            if emits
            then b.drafts ++ record { body = body; section = b.chunk_section; pages = b.pages } ∷ []
            else b.drafts;
        body = carry;
        pages = if is_empty carry then [] else update_pages [] b.last_pages;
        fresh = false;
        last_kind = none;
        body_before_heading = none;
        chunk_section = b.section;
      }

  unfoldable pub reset : Builder → Builder
  reset b = record b {
    body = [];
    pages = [];
    fresh = false;
    last_kind = none;
    body_before_heading = none;
    chunk_section = b.section;
  }

  -- `self.body and len(self.body) + len(sep) + len(text) > self.budget()`
  abbrev pub overflows : Text → Text → Builder → Bool
  overflows sep text b =
      not (is_empty b.body) && ltb (budget b) (length b.body + length sep + length text)

  unfoldable pub add_body : List ℕ → BlockKind → Text → Text → Builder → Builder
  add_body pages kind sep text b = record b {
    body = if is_empty b.body then text else b.body ++ (sep ++ text);
    pages = update_pages b.pages pages;
    fresh = true;
    last_kind = some kind;
    last_pages = pages;
    body_before_heading = none;
  }

  unfoldable pub flush_if_full : BlockKind → Text → Text → Builder → Builder
  flush_if_full kind sep text b = if overflows sep text b then flush (not (is_table kind)) b else b

  unfoldable pub reset_if_full : Text → Text → Builder → Builder
  reset_if_full sep text b = if overflows sep text b then reset b else b

  -- The end of `append`, for a text that fits a chunk.
  unfoldable pub place : List ℕ → BlockKind → Text → Text → Builder → Builder
  place pages kind sep text b =
      add_body pages kind sep text (reset_if_full sep text (flush_if_full kind sep text b))

  pub append_each : (Text → Text → Builder → Builder) → List Piece → Builder → Builder
  append_each f [] b = b
  append_each f ((text, sep) ∷ ps) b = append_each f ps (f sep text b)

  -- `append`, with a bound on the depth of its recursion: what it splits off fits at once, so the
  -- depth never passes two (`Laws.append_at-depth`).
  unfoldable pub append_at : ℕ → List ℕ → BlockKind → Text → Text → Builder → Builder
  append_at zero pages kind sep text b = b
  append_at (suc d) pages kind sep text b =
      let parts =
        append_each (append_at d pages kind) (with_first_sep sep (hard_split text (piece_limit b)))
          b in
      if ltb (tight_budget b) (length text) then parts else place pages kind sep text b

  abbrev pub append : List ℕ → BlockKind → Text → Text → Builder → Builder
  append = append_at 2
