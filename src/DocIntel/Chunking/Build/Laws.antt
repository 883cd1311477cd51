-- ===== src/DocIntel/Chunking/Build/Laws.antt =====
-- The chunks of a document: their sizes, their numbering, and when there are none.
use aiva_v.Prelude.{
  ℕ, suc, ◌+◌, ◌-◌, ◌≤◌, ◌<◌, ◌≡◌, refl, ap, min, not, List, [], ◌∷◌, ◌++◌, length, keep_if, ltb,
  Text, arith, All, Bool-cases, inl, inr, length-append,
}
use aiva_v.DocIntel.Chunking.Cleaning.{clean_text, is_empty}
use aiva_v.DocIntel.Chunking.Header.{header_cap}
use aiva_v.DocIntel.Chunking.Header.Laws.{
  header-fits, full_header, header-full, IsBracketed, header-IsBracketed,
}
use aiva_v.DocIntel.Chunking.Builder.{Draft, Config}
use aiva_v.DocIntel.Chunking.Builder.Size.{DraftFits, budget_for-bounds}
use aiva_v.DocIntel.Chunking.Feed.{Block}
use aiva_v.DocIntel.Chunking.Feed.Laws.{chunk_blocks-DraftFits}
use aiva_v.DocIntel.Chunking.Build.{
  Document, PreparedChunk, Outcome, chunks, failed, Request, max_chars_too_small, no_text_chunks,
  too_many_chunks, page_blocks, config, kb_vertical_for, blocks_or_none, or_pages, drafts_of,
  chunk_header, chunk_of, chunks_from, checked, build_chunks,
}

blocks_or_none-DraftFits :
    (cfg : Config)
    → 120 ≤ cfg.max_chars
    → (blocks : List Block) → All (DraftFits cfg) (blocks_or_none cfg blocks)
unfolding blocks_or_none
blocks_or_none-DraftFits cfg large [] = tt
blocks_or_none-DraftFits cfg large (b ∷ bs) = chunk_blocks-DraftFits cfg large (b ∷ bs)

or_pages-DraftFits :
    (cfg : Config)
    → 120 ≤ cfg.max_chars
    → (doc : Document) (ds : List Draft) → All (DraftFits cfg) ds
    → All (DraftFits cfg) (or_pages cfg doc ds)
unfolding or_pages
or_pages-DraftFits cfg large doc [] h = blocks_or_none-DraftFits cfg large (page_blocks doc.pages)
or_pages-DraftFits cfg large doc (d ∷ ds) h = h

pub drafts_of-DraftFits :
    (r : Request) (doc : Document)
    → 120 ≤ r.max_chars
    → All (DraftFits (config r doc)) (drafts_of r doc)
unfolding drafts_of
drafts_of-DraftFits r doc large =
    let cfg = config r doc in
    let blocks = keep_if (λ b. not (is_empty (clean_text b.text))) doc.blocks in
    or_pages-DraftFits cfg large doc (blocks_or_none cfg blocks)
      (blocks_or_none-DraftFits cfg large blocks)

-- The chunk of a draft at a place: a header line and the draft's body, which is not empty, within the
-- size; the line is in brackets and is the full header where there is room for it. The pages and
-- the section are the draft's, the place is the chunk's, and the payload repeats them.
pub record IsChunk (r : Request) (index : ℕ) (d : Draft) (c : PreparedChunk) : Type 0 where
  pub top : Text
  pub text_is : c.text ≡ top ++ 10 ∷ d.body
  pub fits : length c.text ≤ r.max_chars
  pub top_fits : length top ≤ header_cap r.max_chars
  pub in_brackets : IsBracketed top
  pub top_is :
      length (full_header r.filename d.section d.pages)
        ≤ min (header_cap r.max_chars) (r.max_chars - 1 - length d.body)
      → top ≡ full_header r.filename d.section d.pages
  pub has_body : 0 < length d.body
  pub hash_is : c.content_hash ≡ r.sha256 c.text
  pub pages_are : (c.pages ≡ d.pages) × (c.payload.pages ≡ d.pages)
  pub section_is : c.payload.section ≡ c.section
  pub index_is : (c.index ≡ index) × (c.payload.chunk_index ≡ index)
  pub document_is :
      (c.payload.vertical ≡ kb_vertical_for r.document_id)
      × (c.payload.doc_id ≡ r.document_id)
      × (c.payload.queues ≡ r.queue_keys)

-- The chunks are those of the drafts, one each and in their order.
pub ChunksFrom : Request → ℕ → List Draft → List PreparedChunk → Type 0
ChunksFrom r index [] [] = Unit
ChunksFrom r index (d ∷ ds) (c ∷ cs) = IsChunk r index d c × ChunksFrom r (index + 1) ds cs
ChunksFrom r index [] (c ∷ cs) = ⊥
ChunksFrom r index (d ∷ ds) [] = ⊥

chunk_header-fits :
    (r : Request) (doc : Document) (d : Draft)
    → 120 ≤ r.max_chars
    → DraftFits (config r doc) d
    → (length (chunk_header r d) + length d.body + 1 ≤ r.max_chars)
      × (length (chunk_header r d) ≤ header_cap r.max_chars)
unfolding chunk_header header_cap
chunk_header-fits r doc d large (has, fits) =
    let limit = min (header_cap r.max_chars) (r.max_chars - 1 - length d.body) in
    let b = budget_for-bounds (config r doc) d.section large in
    let h = header-fits r.filename d.section d.pages limit (omega arith) in
    (omega arith, omega arith)

chunk_of-IsChunk :
    (r : Request) (doc : Document) (index : ℕ) (d : Draft)
    → 120 ≤ r.max_chars
    → DraftFits (config r doc) d
    → IsChunk r index d (chunk_of r index d)
unfolding chunk_of chunk_header
chunk_of-IsChunk r doc index d large (has, fits) =
    let h = chunk_header-fits r doc d large (has, fits) in
    record {
      top = chunk_header r d;
      text_is = refl;
      fits = omega (arith, length-append (chunk_header r d) (10 ∷ d.body));
      top_fits = h.1;
      in_brackets = header-IsBracketed r.filename d.section d.pages _;
      top_is = header-full r.filename d.section d.pages _;
      has_body = has;
      hash_is = refl;
      pages_are = (refl, refl);
      section_is = refl;
      index_is = (refl, refl);
      document_is = (refl, refl, refl);
    }

chunks_from-ChunksFrom :
    (r : Request) (doc : Document) (index : ℕ) (ds : List Draft)
    → 120 ≤ r.max_chars
    → All (DraftFits (config r doc)) ds
    → ChunksFrom r index ds (chunks_from r index ds)
unfolding chunks_from ChunksFrom
chunks_from-ChunksFrom r doc index [] large h = tt
chunks_from-ChunksFrom r doc index (d ∷ ds) large h = (
  chunk_of-IsChunk r doc index d large h.0,
  chunks_from-ChunksFrom r doc (index + 1) ds large h.1,
)

length-chunks_from :
    (r : Request) (index : ℕ) (ds : List Draft) → length (chunks_from r index ds) ≡ length ds
unfolding chunks_from
length-chunks_from r index [] = refl
length-chunks_from r index (d ∷ ds) = ap suc (length-chunks_from r (index + 1) ds)

-- What `build_chunks` gives: chunks that are right, not none and not too many, or the failure that
-- the arguments and the drafts call for.
pub IsOutcome : Request → Document → Outcome → Type 0
IsOutcome r doc (chunks cs) =
    (120 ≤ r.max_chars)
    × (length cs ≡ length (drafts_of r doc))
    × (0 < length cs)
    × (length cs ≤ r.max_chunks)
    × ChunksFrom r 0 (drafts_of r doc) cs
IsOutcome r doc (failed max_chars_too_small) = r.max_chars < 120
IsOutcome r doc (failed no_text_chunks) = (120 ≤ r.max_chars) × (drafts_of r doc ≡ [])
IsOutcome r doc (failed (too_many_chunks n limit)) =
    (120 ≤ r.max_chars)
    × (n ≡ length (drafts_of r doc))
    × (limit ≡ r.max_chunks)
    × (r.max_chunks < length (drafts_of r doc))

checked-IsOutcome :
    (r : Request) (doc : Document) (ds : List Draft)
    → drafts_of r doc ≡ ds
    → 120 ≤ r.max_chars
    → All (DraftFits (config r doc)) ds
    → IsOutcome r doc (checked r ds)
unfolding checked IsOutcome
checked-IsOutcome r doc [] e large h = (large, e)
checked-IsOutcome r doc (d ∷ ds) e large h =
    let n = ap length e in
    elim (Bool-cases (ltb r.max_chunks (length (d ∷ ds)))) [
      | inl many ↦ rw many (large, omega arith, refl, ground arith)
      | inr few ↦ rw few (
          let m = length-chunks_from r 0 (d ∷ ds) in
          (
            large,
            omega arith,
            omega arith,
            ground arith,
            rw e (chunks_from-ChunksFrom r doc 0 (d ∷ ds) large h),
          ))
    ]

-- Chunking a document ends in one of four ways. With `max_chars` below 120 it fails, and only then
-- with that failure; it fails for want of text only where no draft is made, and for too many chunks
-- only where there are more drafts than `max_chunks`. Otherwise it gives at least one and at most
-- `max_chunks` chunks, one for each draft in their order. Each is a line in brackets, which is the
-- full header of file, section and pages where that fits, and the draft's body, which is not empty;
-- it is at most `max_chars` long in all, has the hash of its text and its place as its index, the
-- pages of its draft, and names the document, its vertical and its queues.
pub build_chunks-IsOutcome : (r : Request) (doc : Document) → IsOutcome r doc (build_chunks r doc)
unfolding build_chunks
build_chunks-IsOutcome r doc = elim (Bool-cases (ltb r.max_chars 120)) [
  | inl small ↦ rw small (unfold IsOutcome in ground arith)
  | inr large ↦ rw large (
      let l : 120 ≤ r.max_chars = ground arith in
      checked-IsOutcome r doc (drafts_of r doc) refl l (drafts_of-DraftFits r doc l))
]
