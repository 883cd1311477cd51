-- ===== src/Import/Pipeline/Extract.antt =====
-- backend/doc_intel/kb_import.py: stage 1 of `_pipeline`, the extraction.
use aiva_v.Prelude.{Option, none, some, if◌then◌else◌, Text, codes, find, put}
use aiva_v.DocIntel.Chunking.Build.{Document}
use aiva_v.Import.Rows.{extraction, stage_running, stage_completed, Row}
use aiva_v.Import.Pipeline.Files.{is_completed, original_path}
use aiva_v.Import.Pipeline.Runs.{World, Run, on, go, exit, crashed, ◌>>◌}
use aiva_v.Import.Pipeline.Given.{
  Extraction, Services, stage, results, fail, nothing_set, or_none, extracted, extraction_failed,
  extraction_crashed,
}

-- The text that an earlier run extracted, if it can be read.
unfoldable pub stored_text : Row → World → Option Document
stored_text row w = elim (row.storage_dir) [
  | none ↦ none
  | some dir ↦
      if is_completed row.stages.for_extraction
      then elim (find dir w.normalized) [ none ↦ none | some doc ↦ doc ]
      else none
]

unfoldable pub keep_text : Text → Document → Run (Unit {0})
keep_text dir doc w = (record w { normalized = put dir (some doc) w.normalized }, on tt)

-- What follows the extraction of the original into a directory.
unfoldable pub extraction_end : Row → Text → Extraction → Run Document
extraction_end row dir (extraction_failed reason) = fail row.id extraction reason
extraction_end row dir (extraction_crashed error) = exit (crashed error)
extraction_end row dir (extracted doc warnings) = do
  keep_text dir doc
  stage row.id extraction stage_completed
  results row.id
      (record nothing_set { page_count = some (or_none doc.page_count); warnings = some warnings })
  go doc

abbrev pub missing_reason : Text
missing_reason = codes "The uploaded file is missing from server storage — upload it again"

unfoldable pub extract_original : Services → Row → Text → Option Text → Run Document
extract_original s row dir none = fail row.id extraction missing_reason
extract_original s row dir (some original) = extraction_end row dir (s.extract original row)

unfoldable pub extract_in : Services → Row → Option Text → Run Document
extract_in s row none = fail row.id extraction missing_reason
extract_in s row (some dir) = extract_original s row dir (original_path s.lower s.is_file row)

unfoldable pub text_or_extract : Services → Row → Option Document → Run Document
text_or_extract s row (some doc) = go doc
text_or_extract s row none = do
  stage row.id extraction stage_running
  extract_in s row row.storage_dir

-- Stage 1 of `_pipeline`.
unfoldable pub extraction_stage : Services → Row → Run Document
extraction_stage s row w = text_or_extract s row (stored_text row w) w
