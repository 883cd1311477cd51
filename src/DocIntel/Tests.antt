-- ===== src/DocIntel/Tests.antt =====
-- The theorems on chunking at concrete inputs, and a run of it.
use aiva_v.Prelude.{
  true, some, ℕ, ◌+◌, ◌-◌, ◌≤◌, ◌*◌, ◌/◌, ◌%◌, ◌≡◌, List, [], ◌∷◌, arith, Text, codes,
}
use aiva_v.DocIntel.Chunking.Split.{sentence_pieces}
use aiva_v.DocIntel.Chunking.Split.Content.{solid, solid_pieces, sentence_pieces-content}
use aiva_v.DocIntel.Chunking.Builder.{BlockKind, Config}
use aiva_v.DocIntel.Chunking.Build.{Document, Request, build_chunks}
use aiva_v.DocIntel.Chunking.Build.Laws.{IsOutcome, build_chunks-IsOutcome}
use aiva_v.DocIntel.Schedule.{Zone, next_sync_at}
use aiva_v.DocIntel.Schedule.Laws.{KeepsOffset, IsScheduled, next_sync_at_ahead}

abbrev two_sentences : Text
two_sentences = codes "Lost cards are blocked. New ones take a week."

abbrev rows : Text
rows = codes "fee | 10\nlimit | 500\n\nterm | 12"

abbrev cards_path : List Text
cards_path = codes "Cards" ∷ codes "Limits" ∷ []

abbrev small_config : Config
small_config = record {
  filename = codes "Card FAQ.pdf";
  max_chars = 120;
  overlap = 20;
  min_chars = 30;
  max_page = 3;
}

abbrev faq : Document
faq = record {
  blocks =
      record {
        kind = BlockKind.heading;
        text = codes "Limits";
        pages = 1 ∷ [];
        heading_path = codes "Cards" ∷ [];
      }
      ∷ record {
        kind = BlockKind.paragraph;
        text = two_sentences;
        pages = 1 ∷ [];
        heading_path = cards_path;
      }
      ∷ record { kind = BlockKind.table; text = rows; pages = 2 ∷ []; heading_path = cards_path }
      ∷ [];
  pages = [];
  page_count = 3;
}

abbrev request : Request
request = record {
  document_id = 7;
  filename = codes "Card FAQ.pdf";
  queue_keys = codes "HALAN" ∷ [];
  max_chars = 120;
  overlap = 20;
  max_chunks = 5;
  min_chars = 30;
  sha256 = λ t. t;
}

sentence_pieces-content_example :
    solid_pieces (sentence_pieces two_sentences 30) ≡ solid two_sentences
sentence_pieces-content_example = sentence_pieces-content two_sentences 30

build_chunks-IsOutcome_example : IsOutcome request faq (build_chunks request faq)
build_chunks-IsOutcome_example = build_chunks-IsOutcome request faq

-- A zone three hours ahead of UTC, all year.
abbrev east_three : Zone
east_three = record {
  to_local = λ t. record { day = (t + 10800) / 86400; second = (t + 10800) % 86400 };
  to_utc = λ day hour. day * 86400 + hour * 3600 - 10800;
}

-- At eight in the evening of day 10.
abbrev evening : ℕ
evening = 10 * 86400 + 61200

keeps_offset : (day : ℕ) → 10 ≤ day → KeepsOffset east_three evening day 2
keeps_offset day h = record {
  east = 10800;
  west = 0;
  at_now = omega arith;
  at_hour = omega (arith, h);
}

-- After a run on day 4, with an interval of a week.
next_sync_at_ahead_example :
    IsScheduled east_three true 7 2 evening
      (some (4 * 86400))
      (next_sync_at east_three true 7 2 evening (some (4 * 86400)))
next_sync_at_ahead_example =
    next_sync_at_ahead east_three true 7 2 evening (some (4 * 86400)) (omega arith)
      (keeps_offset 10 (omega arith)) (keeps_offset 11 (omega arith))
