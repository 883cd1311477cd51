-- ===== src/DocIntel/Chunking/Feed/Laws.antt =====
-- Every block that is fed keeps the invariant of the builder, so every draft fits its chunk.
use aiva_v.Prelude.{
  ℕ, ◌+◌, ◌≤◌, ◌≡◌, ap, inl, inr, false, not, none, some, List, [], ◌∷◌, ◌++◌, ◌&&◌, length,
  keep_if, leb, ltb, if◌then◌else◌, Text, strip, arith, All, Bool-cases,
}
use aiva_v.DocIntel.Chunking.Cleaning.{is_empty, clean_text, clean_path, one_line}
use aiva_v.DocIntel.Chunking.Split.{with_first_sep, sentence_pieces, group_lines, newline}
use aiva_v.DocIntel.Chunking.Builder.{
  BlockKind, is_list_item, Config, Builder, new, update_pages, budget_for, budget, tight_budget,
  piece_limit, flush, reset, append,
}
use aiva_v.DocIntel.Chunking.Feed.{
  Block, same_path, inline_label, paragraph_sep, move_to, inline_heading, enter_section, add_text,
  add_table, enter_path, feed_kind, feed_text, feed, feed_all, chunk_blocks,
}
use aiva_v.DocIntel.Chunking.Builder.Size.{DraftFits, Fits, flush-Fits}
use aiva_v.DocIntel.Chunking.Builder.Laws.{append_lem, append_all_lem, append_stays}

module _ (cfg : Config) (large : 120 ≤ cfg.max_chars) where
  in_section-Fits :
      (path : List Text) (b : Builder) → Fits cfg b → Fits cfg (record b { section = path })
  in_section-Fits path b f = record {
    body_fits = f.body_fits;
    before_fits = f.before_fits;
    drafts_fit = f.drafts_fit;
  }

  inline_heading-Fits :
      (path : List Text) (b : Builder) → Fits cfg b → Fits cfg (inline_heading cfg path b)
  unfolding inline_heading
  inline_heading-Fits path b f =
      let label = inline_label b.section path in
      let b' = record b { section = path } in
      elim (Bool-cases
        (not (is_empty label) && leb (length b'.body + 2 + length label) (budget cfg b'))) [
          | inl room ↦ rw room (
              let c = append cfg [] BlockKind.heading paragraph_sep label b' in
              let g =
                (append_lem cfg large [] BlockKind.heading paragraph_sep label b'
                  (in_section-Fits path b f)).0 in
              let k =
                append_stays cfg large [] BlockKind.heading paragraph_sep label b' (ground arith) in
              record {
                body_fits = g.body_fits;
                before_fits = omega (arith, ap (budget_for cfg) k, f.body_fits);
                drafts_fit = g.drafts_fit;
              })
          | inr full ↦ rw full (flush-Fits cfg false b' (in_section-Fits path b f))
        ]

  flush-clears : (b : Builder) → (flush cfg false b).body ≡ []
  unfolding flush
  flush-clears b = ground arith

  flush_move-Fits :
      (path : List Text) (b : Builder)
      → Fits cfg b
      → Fits cfg (move_to cfg path (flush cfg false b))
  unfolding move_to flush
  flush_move-Fits path b f = record {
    body_fits = omega (arith, ap length (flush-clears b));
    before_fits = tt;
    drafts_fit = (flush-Fits cfg false b f).drafts_fit;
  }

  reset_move-Fits :
      (path : List Text) (b : Builder) → Fits cfg b → Fits cfg (move_to cfg path (reset cfg b))
  unfolding move_to reset
  reset_move-Fits path b f = record {
    body_fits = omega arith;
    before_fits = tt;
    drafts_fit = f.drafts_fit;
  }

  enter_section-Fits :
      (path : List Text) (b : Builder) → Fits cfg b → Fits cfg (enter_section cfg path b)
  unfolding enter_section
  enter_section-Fits path b f = elim (Bool-cases (same_path path b.section)) [
    | inl same ↦ rw same f
    | inr other ↦
        simp other elim (Bool-cases (b.fresh && leb cfg.min_chars (length (strip b.body)))) [
          | inl enough ↦ simp enough (flush_move-Fits path b f)
          | inr little ↦ simp little elim (Bool-cases b.fresh) [
            | inl fresh ↦ simp fresh (inline_heading-Fits path b f)
            | inr stale ↦ simp stale (reset_move-Fits path b f)
          ]
        ]
  ]

  enter_path-Fits : (path : List Text) (b : Builder) → Fits cfg b → Fits cfg (enter_path cfg path b)
  unfolding enter_path
  enter_path-Fits [] b f = f
  enter_path-Fits (p ∷ ps) b f = enter_section-Fits (p ∷ ps) b f

  add_text-Fits :
      (text : Text) (pages : List ℕ) (kind : BlockKind) (b : Builder)
      → Fits cfg b
      → Fits cfg (add_text cfg text pages kind b)
  unfolding add_text
  add_text-Fits text pages kind b f =
      let sep =
        if is_list_item kind && elim (b.last_kind) [ none ↦ false | some k ↦ is_list_item k ]
        then newline
        else paragraph_sep in
      elim (Bool-cases (leb (length text) (piece_limit cfg b))) [
        | inl short ↦ rw short (append_lem cfg large pages kind sep text b f).0
        | inr long ↦ rw long (
            append_all_lem cfg large pages kind
              (with_first_sep sep (sentence_pieces text (piece_limit cfg b))) b f)
      ]

  add_table-Fits :
      (text : Text) (pages : List ℕ) (b : Builder)
      → Fits cfg b
      → Fits cfg (add_table cfg text pages b)
  unfolding add_table
  add_table-Fits text pages b f = elim (Bool-cases (leb (length text) (tight_budget cfg b))) [
    | inl short ↦ rw short (append_lem cfg large pages BlockKind.table paragraph_sep text b f).0
    | inr long ↦ rw long (
        append_all_lem cfg large pages BlockKind.table
          (with_first_sep paragraph_sep (group_lines text (tight_budget cfg b))) b f)
  ]

  feed_kind-Fits :
      (kind : BlockKind) (text : Text) (path : List Text) (pages : List ℕ) (b : Builder)
      → Fits cfg b
      → Fits cfg (feed_kind cfg kind text path pages b)
  unfolding feed_kind
  feed_kind-Fits BlockKind.heading text path pages b f =
      enter_section-Fits (path ++ one_line text ∷ []) b f
  feed_kind-Fits BlockKind.table text path pages b f =
      add_table-Fits text pages (enter_path cfg path b) (enter_path-Fits path b f)
  feed_kind-Fits k text path pages b f =
      add_text-Fits text pages k (enter_path cfg path b) (enter_path-Fits path b f)

  feed-Fits : (block : Block) (b : Builder) → Fits cfg b → Fits cfg (feed cfg block b)
  unfolding feed feed_text
  feed-Fits block b f = elim (Bool-cases (is_empty (clean_text block.text))) [
    | inl empty ↦ simp empty f
    | inr full ↦ simp full (
        feed_kind-Fits block.kind (clean_text block.text) (clean_path block.heading_path)
          (update_pages [] (keep_if (λ p. ltb 0 p) block.pages)) b f)
  ]

  feed_all-Fits :
      (blocks : List Block) (b : Builder) → Fits cfg b → Fits cfg (feed_all cfg blocks b)
  unfolding feed_all
  feed_all-Fits [] b f = f
  feed_all-Fits (block ∷ blocks) b f = feed_all-Fits blocks (feed cfg block b) (feed-Fits block b f)

  pub new-Fits : Fits cfg new
  unfolding new
  new-Fits = record { body_fits = omega arith; before_fits = tt; drafts_fit = tt }

  -- Every draft that the blocks of a document make has a body, which fits a chunk of its section.
  pub chunk_blocks-DraftFits : (blocks : List Block) → All (DraftFits cfg) (chunk_blocks cfg blocks)
  unfolding chunk_blocks
  chunk_blocks-DraftFits blocks =
      (flush-Fits cfg false (feed_all cfg blocks new)
        (feed_all-Fits blocks new new-Fits)).drafts_fit
