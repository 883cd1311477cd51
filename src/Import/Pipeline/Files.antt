-- ===== src/Import/Pipeline/Files.antt =====
-- backend/doc_intel/kb_import.py: where a stored upload and its extracted text are. A stored filename has
-- no directory in it.
use aiva_v.Prelude.{
  Bool, true, false, not, ◌&&◌, Option, none, some, List, [], ◌∷◌, ◌++◌, keep_if, ◌==◌,
  if◌then◌else◌, Text, codes, text_eq, Map, has_key, member, map,
}
use aiva_v.Import.Rows.{StageStatus, stage_completed, Row}

-- `ALLOWED_EXTENSIONS` of backend/doc_intel/constants.py
abbrev pub allowed_extensions : Map Text
allowed_extensions =
    (codes ".pdf", codes "application/pdf")
    ∷ (
      codes ".docx",
      codes "application/vnd.openxmlformats-officedocument.wordprocessingml.document",
    )
    ∷ []

unfoldable pub is_completed : StageStatus → Bool
is_completed stage_completed = true
is_completed _ = false

from_last_dot : Text → Option Text
from_last_dot [] = none
from_last_dot (c ∷ s) = elim (from_last_dot s) [
  | some t ↦ some t
  | none ↦ if c == 46 then some (c ∷ s) else none
]

-- `Path(filename).suffix`: neither a dot that starts the name nor one that ends it counts.
unfoldable pub suffix : Text → Text
unfolding from_last_dot
suffix [] = []
suffix (c ∷ s) = elim (from_last_dot s) [
  | none ↦ []
  | some [] ↦ []
  | some (d ∷ []) ↦ []
  | some (d ∷ e ∷ t) ↦ d ∷ e ∷ t
]

extensions_of : Text → Map Text → List Text
extensions_of mime [] = []
extensions_of mime ((ext, m) ∷ rest) =
    let others = extensions_of mime rest in if text_eq m mime then ext ∷ others else others

or_empty : Option Text → Text
or_empty none = []
or_empty (some t) = t

-- The extensions in the order in which `_original_path` tries them.
unfoldable pub candidates : (Text → Text) → Row → List Text
unfolding extensions_of or_empty
candidates lower row =
    let by_type = extensions_of (or_empty row.content_type) allowed_extensions in
    let ext = lower (suffix row.filename) in
    let named =
      if has_key ext allowed_extensions && not (member ext by_type)
      then by_type ++ ext ∷ []
      else by_type in
    named ++ keep_if (λ e. not (member e named)) (map (λ e. e.0) allowed_extensions)

first_file : (Text → Bool) → Text → List Text → Option Text
first_file is_file dir [] = none
first_file is_file dir (ext ∷ exts) =
    let path = dir ++ codes "/original" ++ ext in
    if is_file path then some path else first_file is_file dir exts

-- `_original_path`
unfoldable pub original_path : (Text → Text) → (Text → Bool) → Row → Option Text
unfolding candidates first_file
original_path lower is_file row = elim (row.storage_dir) [
  | none ↦ none
  | some dir ↦ first_file is_file dir (candidates lower row)
]
