-- ===== src/DocIntel/Chunking/Feed.antt =====
-- backend/doc_intel/chunking.py: the methods of `_Builder` that take blocks in.
pub mod Laws
use aiva_v.Prelude.{
  ℕ, zero, suc, ◌+◌, ◌-◌, max, Bool, true, false, not, Option, none, some, List, [], ◌∷◌, ◌++◌,
  ◌&&◌, ◌||◌, length, keep_if, take, drop, leb, ltb, ◌==◌, if◌then◌else◌, Text, text_eq, strip,
  rstrip,
}
use aiva_v.DocIntel.Chunking.Cleaning.{is_empty, clean_text, one_line, clean_path}
use aiva_v.DocIntel.Chunking.Split.{newline, with_first_sep, sentence_pieces, group_lines}
use aiva_v.DocIntel.Chunking.Header.{join_texts, ellipsis, header_section_sep}
use aiva_v.DocIntel.Chunking.Builder.{
  BlockKind, is_list_item, Draft, Config, Builder, new, update_pages, budget, tight_budget,
  piece_limit, flush, reset, append_each, append,
}

-- `NormalizedBlock`
pub record Block : Type 0 where
  pub kind : BlockKind
  pub text : Text
  pub pages : List ℕ
  pub heading_path : List Text

unfoldable pub same_path : List Text → List Text → Bool
same_path [] [] = true
same_path [] (q ∷ qs) = false
same_path (p ∷ ps) [] = false
same_path (p ∷ ps) (q ∷ qs) = text_eq p q && same_path ps qs

-- `_common_prefix_len`
unfoldable pub common_prefix_len : List Text → List Text → ℕ
common_prefix_len [] qs = 0
common_prefix_len (p ∷ ps) [] = 0
common_prefix_len (p ∷ ps) (q ∷ qs) =
    let more = suc (common_prefix_len ps qs) in if text_eq p q then more else 0

-- `_truncate`
pub truncate : Text → ℕ → Text
truncate text limit =
    if leb (length text) limit then text else rstrip (take (max 1 (limit - 1)) text) ++ ellipsis

last_or_empty : List Text → Text
last_or_empty [] = []
last_or_empty (p ∷ []) = p
last_or_empty (p ∷ q ∷ ps) = last_or_empty (q ∷ ps)

or_last : Text → List Text → Text
or_last [] path = last_or_empty path
or_last (c ∷ s) path = c ∷ s

-- The heading as it is shown inline.
pub inline_label : List Text → List Text → Text
unfolding or_last common_prefix_len
inline_label old new_path =
    truncate
      (or_last (join_texts header_section_sep (drop (common_prefix_len old new_path) new_path))
        new_path)
      300

abbrev pub paragraph_sep : Text
paragraph_sep = 10 ∷ 10 ∷ []

module _ (cfg : Config) where
  move_to : List Text → Builder → Builder
  move_to path b = record b { section = path; chunk_section = path }

  -- The heading is shown inline, or else closes the chunk.
  pub inline_heading : List Text → Builder → Builder
  inline_heading path b =
      let label = inline_label b.section path in
      let b' = record b { section = path } in
      if not (is_empty label) && leb (length b'.body + 2 + length label) (budget cfg b')
      then record (append cfg [] BlockKind.heading paragraph_sep label b') {
        body_before_heading = some b'.body;
      }
      else flush cfg false b'

  pub enter_section : List Text → Builder → Builder
  unfolding move_to
  enter_section path b =
      if same_path path b.section
      then b
      else if b.fresh && leb cfg.min_chars (length (strip b.body))
      then move_to path (flush cfg false b)
      else if b.fresh
      then inline_heading path b
      else move_to path (reset cfg b)

  unfoldable pub add_text : Text → List ℕ → BlockKind → Builder → Builder
  add_text text pages kind b =
      let sep =
        if is_list_item kind && elim (b.last_kind) [ none ↦ false | some k ↦ is_list_item k ]
        then newline
        else paragraph_sep in
      if leb (length text) (piece_limit cfg b)
      then append cfg pages kind sep text b
      else append_each cfg (append cfg pages kind)
          (with_first_sep sep (sentence_pieces text (piece_limit cfg b))) b

  pub add_table : Text → List ℕ → Builder → Builder
  add_table text pages b =
      if leb (length text) (tight_budget cfg b)
      then append cfg pages BlockKind.table paragraph_sep text b
      else append_each cfg (append cfg pages BlockKind.table)
          (with_first_sep paragraph_sep (group_lines text (tight_budget cfg b))) b

  enter_path : List Text → Builder → Builder
  enter_path [] b = b
  enter_path (p ∷ ps) b = enter_section (p ∷ ps) b

  -- A text of some kind, with the path and the pages of its block.
  feed_kind : BlockKind → Text → List Text → List ℕ → Builder → Builder
  unfolding enter_path
  feed_kind BlockKind.heading text path pages b = enter_section (path ++ one_line text ∷ []) b
  feed_kind BlockKind.table text path pages b = add_table text pages (enter_path path b)
  feed_kind k text path pages b = add_text text pages k (enter_path path b)

  feed_text : Text → Block → Builder → Builder
  unfolding feed_kind
  feed_text text block b =
      feed_kind block.kind text (clean_path block.heading_path)
        (update_pages [] (keep_if (λ p. ltb 0 p) block.pages)) b

  unfoldable pub feed : Block → Builder → Builder
  unfolding feed_text
  feed block b =
      let text = clean_text block.text in if is_empty text then b else feed_text text block b

  unfoldable pub feed_all : List Block → Builder → Builder
  feed_all [] b = b
  feed_all (block ∷ blocks) b = feed_all blocks (feed block b)

  -- `_chunk_blocks`, with `finish`
  unfoldable pub chunk_blocks : List Block → List Draft
  chunk_blocks blocks = (flush cfg false (feed_all blocks new)).drafts
