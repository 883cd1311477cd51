-- ===== src/DocIntel/Chunking/Builder/Size.antt =====
-- The budgets, and the invariant of the builder: its body and its drafts fit the chunks of their
-- sections. `flush`, `reset` and `place` keep it.
use aiva_v.Prelude.{
  ℕ, ◌+◌, ◌-◌, ◌≤◌, ◌<◌, ◌≡◌, refl, ap, ◌∙◌, ◌⊎◌, inl, inr, Bool, true, false, not, Option, none,
  some, List, [], ◌∷◌, ◌++◌, ◌&&◌, length, drop, take_end, if◌then◌else◌, Text, is_space, arith,
  All, All-append, Bool-cases, length-strip, length-drop, length-append,
}
use aiva_v.DocIntel.Chunking.Cleaning.{is_empty, run_length}
use aiva_v.DocIntel.Chunking.Header.{header_cap}
use aiva_v.DocIntel.Chunking.Header.Laws.{header-fits}
use aiva_v.DocIntel.Chunking.Builder.{
  BlockKind, is_table, Draft, Config, Builder, tail_of, worst_pages, budget_for, budget,
  tight_budget, overlap_chars, body_to_emit, flushed_body, flush, reset, overflows, add_body,
  flush_if_full, reset_if_full, place,
}

-- The last `n` characters, or fewer.
length-tail_of : (body : Text) (n : ℕ) → length (tail_of body n) ≤ n
unfolding tail_of
length-tail_of body n =
    let tail = take_end n body in
    ground (
      arith,
      length-strip body,
      length-strip tail,
      length-strip (drop (run_length (λ c. not (is_space c)) tail + 1) tail),
      length-drop (run_length (λ c. not (is_space c)) tail + 1) tail,
      length-drop (length body - n) body,
    )

module _ (cfg : Config) where
  pub budget_for-bounds :
      (section : List Text)
      → 120 ≤ cfg.max_chars
      → (22 ≤ budget_for cfg section) × (budget_for cfg section + 3 ≤ cfg.max_chars)
  unfolding budget_for header_cap
  budget_for-bounds section h =
      let (fits, two) =
        header-fits cfg.filename section (worst_pages cfg) (header_cap cfg.max_chars)
          (omega arith) in
      (omega arith, omega arith)

  abbrev pub DraftFits : Draft → Type 0
  DraftFits d = (0 < length d.body) × (length d.body ≤ budget_for cfg d.section)

  abbrev BeforeFits : ℕ → Option Text → Type 0
  BeforeFits n none = Unit
  BeforeFits n (some before) = length before ≤ n

  pub record Fits (b : Builder) : Type 0 where
    pub body_fits : length b.body ≤ budget cfg b
    pub before_fits : BeforeFits (budget cfg b) b.body_before_heading
    pub drafts_fit : All DraftFits b.drafts

  body_to_emit-fits :
      (n : ℕ) (kind : Option BlockKind) (before : Option Text) (body : Text)
      → length body ≤ n
      → BeforeFits n before
      → length (body_to_emit kind before body) ≤ n
  unfolding body_to_emit
  body_to_emit-fits n (some BlockKind.heading) (some before) body h k = k
  body_to_emit-fits n _ _ body h k = h

  not_empty : (t : Text) → is_empty t ≡ false → 0 < length t
  not_empty [] h = cc
  not_empty (c ∷ t) h = omega arith

  drafts-fit :
      (fresh : Bool) (body : Text) (section : List Text) (pages : List ℕ) (drafts : List Draft)
      → length body ≤ budget_for cfg section
      → All DraftFits drafts
      → All DraftFits (
          if fresh && not (is_empty body)
          then drafts ++ record { body = body; section = section; pages = pages } ∷ []
          else drafts)
  drafts-fit false body section pages drafts h k = k
  drafts-fit true [] section pages drafts h k = k
  drafts-fit true (c ∷ body) section pages drafts h k =
      All-append DraftFits drafts
        (record { body = c ∷ body; section = section; pages = pages } ∷ []) k ((omega arith, h), tt)

  flushed_body_le : (b : Builder) → Fits b → length (flushed_body b) ≤ budget cfg b
  unfolding flushed_body
  flushed_body_le b h = omega (
    arith,
    length-strip (body_to_emit b.last_kind b.body_before_heading b.body),
    body_to_emit-fits (budget cfg b) b.last_kind b.body_before_heading b.body h.body_fits
        h.before_fits,
  )

  pub flush-Fits : (carry : Bool) (b : Builder) → Fits b → Fits (flush cfg carry b)
  unfolding flush
  flush-Fits carry b h = record {
    body_fits = ground (arith, length-tail_of (flushed_body b) (overlap_chars cfg b));
    before_fits = tt;
    drafts_fit =
        drafts-fit b.fresh (flushed_body b) b.chunk_section b.pages b.drafts (flushed_body_le b h)
          h.drafts_fit;
  }

  pub reset-Fits : (b : Builder) → Fits b → Fits (reset cfg b)
  unfolding reset
  reset-Fits b h = record { body_fits = omega arith; before_fits = tt; drafts_fit = h.drafts_fit }

  -- The sections that an operation leaves: that of the content stays, and the chunk's is the old one or
  -- that of the content.
  pub record Moves (b c : Builder) : Type 0 where
    pub same_section : c.section ≡ b.section
    pub chunk_section_is : (c.chunk_section ≡ b.chunk_section) ⊎ (c.chunk_section ≡ b.section)

  pub tight-Moves : (b c : Builder) → Moves b c → tight_budget cfg b ≤ tight_budget cfg c
  tight-Moves b c h = go h.same_section h.chunk_section_is
    where
      go :
          c.section ≡ b.section
          → (c.chunk_section ≡ b.chunk_section) ⊎ (c.chunk_section ≡ b.section)
          → tight_budget cfg b ≤ tight_budget cfg c
      go s (inl k) = omega (arith, ap (budget_for cfg) s, ap (budget_for cfg) k)
      go s (inr k) = omega (arith, ap (budget_for cfg) s, ap (budget_for cfg) k)

  pub Moves-stay : (b : Builder) → Moves b b
  Moves-stay b = record { same_section = refl; chunk_section_is = inl refl }

  pub Moves-trans : (b c d : Builder) → Moves b c → Moves c d → Moves b d
  Moves-trans b c d h k = go h.same_section h.chunk_section_is k.same_section k.chunk_section_is
    where
      go :
          c.section ≡ b.section
          → (c.chunk_section ≡ b.chunk_section) ⊎ (c.chunk_section ≡ b.section)
          → d.section ≡ c.section
          → (d.chunk_section ≡ c.chunk_section) ⊎ (d.chunk_section ≡ c.section)
          → Moves b d
      go s x t (inr y) = record { same_section = t ∙ s; chunk_section_is = inr (y ∙ s) }
      go s (inl x) t (inl y) = record { same_section = t ∙ s; chunk_section_is = inl (y ∙ x) }
      go s (inr x) t (inl y) = record { same_section = t ∙ s; chunk_section_is = inr (y ∙ x) }

  flush-Moves : (carry : Bool) (b : Builder) → Moves b (flush cfg carry b)
  unfolding flush
  flush-Moves carry b = record { same_section = refl; chunk_section_is = inr refl }

  reset-Moves : (b : Builder) → Moves b (reset cfg b)
  unfolding reset
  reset-Moves b = record { same_section = refl; chunk_section_is = inr refl }

  flush_if_full_lem :
      (kind : BlockKind) (sep text : Text) (b : Builder)
      → Fits b
      → Fits (flush_if_full cfg kind sep text b) × Moves b (flush_if_full cfg kind sep text b)
  unfolding flush_if_full
  flush_if_full_lem kind sep text b h = elim (Bool-cases (overflows cfg sep text b)) [
    | inl e ↦ rw e (flush-Fits (not (is_table kind)) b h, flush-Moves (not (is_table kind)) b)
    | inr e ↦ rw e (h, Moves-stay b)
  ]

  -- Afterwards the text can be added.
  reset_if_full_lem :
      (sep text : Text) (b : Builder)
      → Fits b
      → Fits (reset_if_full cfg sep text b)
        × Moves b (reset_if_full cfg sep text b)
        × (overflows cfg sep text (reset_if_full cfg sep text b) ≡ false)
  unfolding reset_if_full
  reset_if_full_lem sep text b h = elim (Bool-cases (overflows cfg sep text b)) [
    | inl e ↦ rw e (reset-Fits b h, reset-Moves b, (unfold reset in refl))
    | inr e ↦ rw e (h, Moves-stay b, e)
  ]

  add_body_lem :
      (pages : List ℕ) (kind : BlockKind) (sep text : Text) (b : Builder)
      → Fits b
      → length text ≤ budget cfg b
      → overflows cfg sep text b ≡ false
      → Fits (add_body cfg pages kind sep text b) × Moves b (add_body cfg pages kind sep text b)
  unfolding add_body
  add_body_lem pages kind sep text b h k o = (
    record {
      body_fits =
          ground (arith, length-append b.body (sep ++ text), length-append sep text, h.body_fits);
      before_fits = tt;
      drafts_fit = h.drafts_fit;
    },
    record { same_section = refl; chunk_section_is = inl refl },
  )

  -- A text that is within the tight budget is added, and the builder still fits.
  pub place_lem :
      (pages : List ℕ) (kind : BlockKind) (sep text : Text) (b : Builder)
      → Fits b
      → length text ≤ tight_budget cfg b
      → Fits (place cfg pages kind sep text b) × Moves b (place cfg pages kind sep text b)
  unfolding place
  place_lem pages kind sep text b h k =
      let b1 = flush_if_full cfg kind sep text b in
      let (f1, m1) = flush_if_full_lem kind sep text b h in
      let b2 = reset_if_full cfg sep text b1 in
      let (f2, m2, o2) = reset_if_full_lem sep text b1 f1 in
      let m = Moves-trans b b1 b2 m1 m2 in
      let (f3, m3) =
        add_body_lem pages kind sep text b2 f2 (omega (arith, tight-Moves b b2 m)) o2 in
      (f3, Moves-trans b b2 (add_body cfg pages kind sep text b2) m m3)
