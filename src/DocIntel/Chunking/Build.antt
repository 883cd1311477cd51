-- ===== src/DocIntel/Chunking/Build.antt =====
-- backend/doc_intel/chunking.py: `build_chunks`, which chunks a normalized document. The hash of a
-- text is a parameter. Page numbers below 1 mean that the page is unknown, as 0 does here.
pub mod Laws
use aiva_v.Prelude.{
  ℕ, zero, suc, ◌+◌, ◌-◌, min, max, Bool, true, false, not, Option, none, some, List, [], ◌∷◌, ◌++◌,
  map, length, keep_if, get_elem?, leb, ltb, ◌==◌, if◌then◌else◌, Text, codes, strip,
}
use aiva_v.DocIntel.Chunking.Cleaning.{clean_text, is_empty, is_blank, run_length}
use aiva_v.DocIntel.Chunking.Header.{header, header_cap, decimal, join_texts, payload_section_sep}
use aiva_v.DocIntel.Chunking.Builder.{BlockKind, Draft, Config}
use aiva_v.DocIntel.Chunking.Feed.{Block, chunk_blocks}

-- `NormalizedPage`
pub record Page : Type 0 where
  pub number : ℕ
  pub text : Text

-- `NormalizedDocument`
pub record Document : Type 0 where
  pub blocks : List Block
  pub pages : List Page
  pub page_count : ℕ

-- The payload of a chunk.
pub record Payload : Type 0 where
  pub vertical : Text
  pub source : Text
  pub doc_id : ℕ
  pub filename : Text
  pub section : Option Text
  pub pages : List ℕ
  pub queues : List Text
  pub chunk_index : ℕ

pub record PreparedChunk : Type 0 where
  pub index : ℕ
  pub text : Text
  pub content_hash : Text
  pub pages : List ℕ
  pub section : Option Text
  pub payload : Payload

-- `ValueError`, and `ChunkingFailed` with its reason.
pub data Failure : Type 0 where
  max_chars_too_small no_text_chunks : Failure
  too_many_chunks : ℕ → ℕ → Failure

pub data Outcome : Type 0 where
  chunks : List PreparedChunk → Outcome
  failed : Failure → Outcome

-- The keyword arguments of `build_chunks`, with the hash of a text.
pub record Request : Type 0 where
  pub document_id : ℕ
  pub filename : Text
  pub queue_keys : List Text
  pub max_chars : ℕ
  pub overlap : ℕ
  pub max_chunks : ℕ
  pub min_chars : ℕ
  pub sha256 : Text → Text

-- backend/doc_intel/constants.py
abbrev pub kb_vertical_for : ℕ → Text
kb_vertical_for document_id = codes "kbdoc-" ++ decimal document_id

abbrev pub kb_payload_source : Text
kb_payload_source = codes "document_import_v1"

largest : List ℕ → ℕ
largest [] = 0
largest (p ∷ ps) = max p (largest ps)

block_pages : List Block → List ℕ
block_pages [] = []
block_pages (b ∷ bs) = b.pages ++ block_pages bs

-- `_max_page`
unfoldable pub max_page_of : Document → ℕ
unfolding largest block_pages
max_page_of doc =
    largest (block_pages doc.blocks ++ (map (λ p. p.number) doc.pages ++ doc.page_count ∷ []))

-- Where a match of `_BLANK_LINES` that starts at a line feed ends, counted from behind the line feed.
blank_line : Text → Option ℕ
blank_line s =
    let blanks = run_length is_blank s in
    elim (get_elem? s blanks) [ none ↦ none | some c ↦ if c == 10 then some (suc blanks) else none ]

-- `_BLANK_LINES.split`: what is left of a match is skipped; `para` is read so far.
unfoldable pub split_paragraphs : ℕ → Text → Text → List Text
unfolding blank_line
split_paragraphs skip para [] = para ∷ []
split_paragraphs (suc skip) para (c ∷ s) = split_paragraphs skip para s
split_paragraphs zero para (c ∷ s) =
    let on = split_paragraphs 0 (para ++ c ∷ []) s in
    elim (if c == 10 then blank_line s else none) [
      | none ↦ on
      | some gap ↦ para ∷ split_paragraphs gap [] s
    ]

paragraph_blocks : ℕ → List Text → List Block
paragraph_blocks number [] = []
paragraph_blocks number (para ∷ paras) =
    let rest = paragraph_blocks number paras in
    let block : Block = record {
      kind = BlockKind.paragraph;
      text = strip para;
      pages = if ltb 0 number then number ∷ [] else [];
      heading_path = [];
    } in
    if is_empty (strip para) then rest else block ∷ rest

-- `_page_blocks`
unfoldable pub page_blocks : List Page → List Block
unfolding split_paragraphs paragraph_blocks
page_blocks [] = []
page_blocks (p ∷ ps) =
    let text = clean_text p.text in
    let rest = page_blocks ps in
    if is_empty text then rest else paragraph_blocks p.number (split_paragraphs 0 [] text) ++ rest

-- The arguments that `build_chunks` passes to the builder.
abbrev pub config : Request → Document → Config
config r doc = record {
  filename = r.filename;
  max_chars = r.max_chars;
  overlap = r.overlap;
  min_chars = r.min_chars;
  max_page = max_page_of doc;
}

blocks_or_none : Config → List Block → List Draft
blocks_or_none cfg [] = []
blocks_or_none cfg (b ∷ bs) = chunk_blocks cfg (b ∷ bs)

or_pages : Config → Document → List Draft → List Draft
unfolding blocks_or_none
or_pages cfg doc [] = blocks_or_none cfg (page_blocks doc.pages)
or_pages cfg doc (d ∷ ds) = d ∷ ds

-- The drafts of the blocks, or of the pages when there are none.
unfoldable pub drafts_of : Request → Document → List Draft
unfolding or_pages blocks_or_none
drafts_of r doc =
    let blocks = keep_if (λ b. not (is_empty (clean_text b.text))) doc.blocks in
    or_pages (config r doc) doc (blocks_or_none (config r doc) blocks)

section_label : List Text → Option Text
section_label section =
    let text = join_texts payload_section_sep section in if is_empty text then none else some text

-- The header line of a draft, and its chunk.
pub chunk_header : Request → Draft → Text
unfolding header_cap
chunk_header r d =
    header r.filename d.section d.pages
      (min (header_cap r.max_chars) (r.max_chars - 1 - length d.body))

pub chunk_of : Request → ℕ → Draft → PreparedChunk
unfolding chunk_header section_label
chunk_of r index d =
    let text = chunk_header r d ++ 10 ∷ d.body in
    record {
      index = index;
      text = text;
      content_hash = r.sha256 text;
      pages = d.pages;
      section = section_label d.section;
      payload = record {
        vertical = kb_vertical_for r.document_id;
        source = kb_payload_source;
        doc_id = r.document_id;
        filename = r.filename;
        section = section_label d.section;
        pages = d.pages;
        queues = r.queue_keys;
        chunk_index = index;
      };
    }

pub chunks_from : Request → ℕ → List Draft → List PreparedChunk
unfolding chunk_of
chunks_from r index [] = []
chunks_from r index (d ∷ ds) = chunk_of r index d ∷ chunks_from r (index + 1) ds

checked : Request → List Draft → Outcome
unfolding chunks_from
checked r [] = failed no_text_chunks
checked r (d ∷ ds) =
    if ltb r.max_chunks (length (d ∷ ds))
    then failed (too_many_chunks (length (d ∷ ds)) r.max_chunks)
    else chunks (chunks_from r 0 (d ∷ ds))

unfoldable pub build_chunks : Request → Document → Outcome
unfolding checked
build_chunks r doc =
    if ltb r.max_chars 120 then failed max_chars_too_small else checked r (drafts_of r doc)
