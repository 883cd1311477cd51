-- ===== src/DocIntel/Chunking/Builder/Laws.antt =====
-- `append` keeps the invariant of the builder, and leaves the chunk open where there is room.
use aiva_v.Prelude.{
  ℕ, suc, ◌+◌, ◌≤◌, ◌≡◌, refl, ap, sym, ◌∙◌, max, inl, inr, true, List, [], ◌∷◌, ◌++◌, length, ltb,
  Text, arith, Bool-cases, length-append,
}
use aiva_v.DocIntel.Chunking.Split.{Piece, hard_split, with_first_sep}
use aiva_v.DocIntel.Chunking.Split.Laws.{IsBounded, hard_split-IsBounded, with_first_sep-IsBounded}
use aiva_v.DocIntel.Chunking.Split.Spread.{spread, hard_split-spread}
use aiva_v.DocIntel.Chunking.Builder.{
  BlockKind, Config, Builder, budget_for, budget, tight_budget, piece_limit, place, append_each,
  append_at, append, add_body, flush_if_full, reset_if_full,
}
use aiva_v.DocIntel.Chunking.Builder.Size.{
  budget_for-bounds, Fits, Moves, tight-Moves, Moves-stay, Moves-trans, place_lem,
}

module _ (cfg : Config) (large : 120 ≤ cfg.max_chars) where
  tight_large : (b : Builder) → 22 ≤ tight_budget cfg b
  tight_large b = omega (
    arith,
    (budget_for-bounds cfg b.chunk_section large).0,
    (budget_for-bounds cfg b.section large).0,
  )

  piece_limit-le : (b : Builder) → piece_limit cfg b ≤ tight_budget cfg b
  piece_limit-le b = omega (arith, tight_large b)

  -- A text within the tight budget is placed, whatever the depth that is left.
  append_at-short :
      (d : ℕ) (pages : List ℕ) (kind : BlockKind) (sep text : Text) (b : Builder)
      → length text ≤ tight_budget cfg b
      → append_at cfg (suc d) pages kind sep text b ≡ place cfg pages kind sep text b
  unfolding append_at
  append_at-short d pages kind sep text b h = ground arith

  append_at-long :
      (d : ℕ) (pages : List ℕ) (kind : BlockKind) (sep text : Text) (b : Builder)
      → ltb (tight_budget cfg b) (length text) ≡ true
      → append_at cfg (suc d) pages kind sep text b
        ≡ append_each cfg
            (append_at cfg d pages kind)
            (with_first_sep sep (hard_split text (piece_limit cfg b)))
            b
  unfolding append_at
  append_at-long d pages kind sep text b long = rw long refl

  split-IsBounded :
      (sep text : Text) (b : Builder)
      → IsBounded (piece_limit cfg b) (with_first_sep sep (hard_split text (piece_limit cfg b)))
  split-IsBounded sep text b =
      let limit = piece_limit cfg b in
      let m : max 1 limit ≡ limit = omega arith in
      with_first_sep-IsBounded limit sep (hard_split text limit)
        (rw m at (hard_split-IsBounded text limit))

  -- Pieces that are all within the tight budget are added one after the other.
  append_each_lem :
      (d limit : ℕ) (pages : List ℕ) (kind : BlockKind) (ps : List Piece) (b : Builder)
      → Fits cfg b
      → limit ≤ tight_budget cfg b
      → IsBounded limit ps
      → let c = append_each cfg (append_at cfg (suc d) pages kind) ps b in
        Fits cfg c × Moves cfg b c
  unfolding append_each
  append_each_lem d limit pages kind [] b f t h = (f, Moves-stay cfg b)
  append_each_lem d limit pages kind ((text, sep) ∷ ps) b f t h =
      let c = place cfg pages kind sep text b in
      let (f1, m1) = place_lem cfg pages kind sep text b f (omega (arith, h.0.0)) in
      let (f2, m2) =
        append_each_lem d limit pages kind ps c f1 (omega (arith, tight-Moves cfg b c m1)) h.1 in
      rw (append_at-short d pages kind sep text b (omega (arith, h.0.0)))
        (f2, Moves-trans cfg b c (append_each cfg (append_at cfg (suc d) pages kind) ps c) m1 m2)

  pub append_at_lem :
      (d : ℕ) (pages : List ℕ) (kind : BlockKind) (sep text : Text) (b : Builder)
      → Fits cfg b
      → let c = append_at cfg (suc (suc d)) pages kind sep text b in Fits cfg c × Moves cfg b c
  append_at_lem d pages kind sep text b f =
      elim (Bool-cases (ltb (tight_budget cfg b) (length text))) [
        | inl long ↦ rw (append_at-long (suc d) pages kind sep text b long) (
            append_each_lem d (piece_limit cfg b) pages kind
              (with_first_sep sep (hard_split text (piece_limit cfg b))) b f (piece_limit-le b)
              (split-IsBounded sep text b))
        | inr short ↦
            rw (append_at-short (suc d) pages kind sep text b (ground arith))
              (place_lem cfg pages kind sep text b f (ground arith))
      ]

  pub append_lem :
      (pages : List ℕ) (kind : BlockKind) (sep text : Text) (b : Builder)
      → Fits cfg b
      → Fits cfg (append cfg pages kind sep text b) × Moves cfg b (append cfg pages kind sep text b)
  append_lem = append_at_lem 0

  append_each-depth :
      (d limit : ℕ) (pages : List ℕ) (kind : BlockKind) (ps : List Piece) (b : Builder)
      → Fits cfg b
      → limit ≤ tight_budget cfg b
      → IsBounded limit ps
      → append_each cfg (append_at cfg (suc d) pages kind) ps b
        ≡ append_each cfg (append_at cfg 1 pages kind) ps b
  unfolding append_each
  append_each-depth d limit pages kind [] b f t h = refl
  append_each-depth d limit pages kind ((text, sep) ∷ ps) b f t h =
      let c = place cfg pages kind sep text b in
      let (f1, m1) = place_lem cfg pages kind sep text b f (omega (arith, h.0.0)) in
      rw
        (
          append_at-short d pages kind sep text b (omega (arith, h.0.0)),
          append_at-short 0 pages kind sep text b (omega (arith, h.0.0)),
        )
        (append_each-depth d limit pages kind ps c f1 (omega (arith, tight-Moves cfg b c m1)) h.1)

  -- Where `max_chars` is at least 120 and the builder is within its sizes, splitting what is appended
  -- one level deep is enough: with any depth of at least two, `append` gives the same builder.
  pub append_at-depth :
      (d : ℕ) (pages : List ℕ) (kind : BlockKind) (sep text : Text) (b : Builder)
      → Fits cfg b
      → append_at cfg (suc (suc d)) pages kind sep text b ≡ append cfg pages kind sep text b
  append_at-depth d pages kind sep text b f =
      elim (Bool-cases (ltb (tight_budget cfg b) (length text))) [
        | inl long ↦
            rw
              (
                append_at-long (suc d) pages kind sep text b long,
                append_at-long 1 pages kind sep text b long,
              )
              (append_each-depth d (piece_limit cfg b) pages kind
                (with_first_sep sep (hard_split text (piece_limit cfg b))) b f (piece_limit-le b)
                (split-IsBounded sep text b))
        | inr short ↦
            append_at-short (suc d) pages kind sep text b (ground arith)
            ∙ sym (append_at-short 1 pages kind sep text b (ground arith))
      ]

  pub append_all_lem :
      (pages : List ℕ) (kind : BlockKind) (ps : List Piece) (b : Builder)
      → Fits cfg b
      → Fits cfg (append_each cfg (append cfg pages kind) ps b)
  unfolding append_each
  append_all_lem pages kind [] b f = f
  append_all_lem pages kind ((text, sep) ∷ ps) b f =
      append_all_lem pages kind ps (append cfg pages kind sep text b)
        (append_lem pages kind sep text b f).0

  -- A text for which there is room leaves the chunk open: its section stays.
  place_stays :
      (pages : List ℕ) (kind : BlockKind) (sep text : Text) (b : Builder)
      → length b.body + length sep + length text ≤ budget cfg b
      → let c = place cfg pages kind sep text b in
        (c.chunk_section ≡ b.chunk_section)
        × (c.section ≡ b.section)
        × (length c.body ≤ length b.body + length sep + length text)
  unfolding place flush_if_full reset_if_full add_body
  place_stays pages kind sep text b h =
      ground (arith, length-append b.body (sep ++ text), length-append sep text)

  append_each_stays :
      (d limit : ℕ) (pages : List ℕ) (kind : BlockKind) (ps : List Piece) (b : Builder)
      → limit ≤ tight_budget cfg b
      → IsBounded limit ps
      → length b.body + spread ps ≤ budget cfg b
      → (append_each cfg (append_at cfg (suc d) pages kind) ps b).chunk_section ≡ b.chunk_section
  unfolding append_each spread
  append_each_stays d limit pages kind [] b t h r = refl
  append_each_stays d limit pages kind ((text, sep) ∷ ps) b t h r =
      let c = place cfg pages kind sep text b in
      let (k, s, l) = place_stays pages kind sep text b (omega arith) in
      let bk = ap (budget_for cfg) k in
      let bs = ap (budget_for cfg) s in
      rw (append_at-short d pages kind sep text b (omega (arith, h.0.0)), append_each)
        (append_each_stays d limit pages kind ps c (omega arith) h.1 (omega arith) ∙ k)

  -- A text for which there is room, split or not, leaves the chunk open.
  pub append_stays :
      (pages : List ℕ) (kind : BlockKind) (sep text : Text) (b : Builder)
      → length b.body + length sep + length text ≤ budget cfg b
      → (append cfg pages kind sep text b).chunk_section ≡ b.chunk_section
  append_stays pages kind sep text b h =
      elim (Bool-cases (ltb (tight_budget cfg b) (length text))) [
        | inl long ↦ rw (append_at-long 1 pages kind sep text b long) (
            append_each_stays 0 (piece_limit cfg b) pages kind
              (with_first_sep sep (hard_split text (piece_limit cfg b))) b (piece_limit-le b)
              (split-IsBounded sep text b)
              (omega (arith, hard_split-spread sep text (piece_limit cfg b))))
        | inr short ↦
            rw (append_at-short 1 pages kind sep text b (ground arith))
              (place_stays pages kind sep text b h).0
      ]
