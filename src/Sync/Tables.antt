-- ===== src/Sync/Tables.antt =====
-- The four tables, and SQL's SELECT and UPDATE on a list of rows.
use aiva_v.Prelude.{
  ℕ, Bool, Option, none, some, List, [], ◌∷◌, length, keep_if, if◌then◌else◌, ◌==◌, ◌&&◌,
}
use aiva_v.Sync.Rows.{Source, SyncRun, File, Entity, is_unfinished}

pub record Tables : Type 0 where
  pub sources : List Source
  pub runs : List SyncRun
  pub files : List File
  pub entities : List Entity
  pub next_source_id : ℕ
  pub next_run_id : ℕ
  pub next_file_id : ℕ

module _ {A : Type 0} where
  -- `UPDATE ... WHERE`
  unfoldable pub update_where : (A → Bool) → (A → A) → List A → List A
  update_where p f [] = []
  update_where p f (r ∷ rs) = (if p r then f r else r) ∷ update_where p f rs

  -- `rowcount` of the update, or `COUNT(*)`.
  abbrev pub count_where : (A → Bool) → List A → ℕ
  count_where p rs = length (keep_if p rs)

  -- `fetch_one`
  unfoldable pub fetch_where : (A → Bool) → List A → Option A
  fetch_where p [] = none
  fetch_where p (r ∷ rs) = if p r then some r else fetch_where p rs

-- The runs that the unique index uq_aiva_crm_run_active compares for a source.
abbrev pub is_unfinished_of : ℕ → SyncRun → Bool
is_unfinished_of source r = is_unfinished r.status && r.source_id == source

abbrev pub active_runs : ℕ → Tables → ℕ
active_runs source t = count_where (is_unfinished_of source) t.runs
