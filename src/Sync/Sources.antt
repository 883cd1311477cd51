-- ===== src/Sync/Sources.antt =====
-- backend/doc_intel/crm_repo.py: the sources and their schedules.
pub mod Laws
use aiva_v.Prelude.{
  ℕ, suc, ◌&&◌, Bool, true, false, Option, none, some, List, [], ◌∷◌, ◌++◌, take, keep_if, ltb, leb,
  ◌==◌, ◌||◌, if◌then◌else◌, Text,
}
use aiva_v.Sync.Rows.{
  as_date, SourceStatus, source_active, source_deleted, Source, is_deleted, is_active, is_live,
  Entity,
}
use aiva_v.Sync.Tables.{Tables, update_where, count_where, fetch_where, active_runs}
use aiva_v.Sync.Files.{withdraw}
use aiva_v.Sync.Runs.{is_source, is_kept_source}

-- An optional value of a column: `none` where the caller does not change it.
unfoldable pub or_kept {ℓ} : {A : Type ℓ} → Option A → A → A
or_kept none v = v
or_kept (some w) v = w

-- The changes of an administrator, to the columns that are modelled.
pub record SourceChange : Type 0 where
  pub status : Option SourceStatus
  pub sync_enabled : Option Bool
  pub sync_interval_days : Option ℕ
  pub sync_hour : Option ℕ
  pub next_sync_at : Option (Option ℕ)
  pub client_secret_enc : Option (Option Text)

abbrev bound : Option (Option ℕ) → Option (Option ℕ)
bound none = none
bound (some none) = some none
bound (some (some t)) = some (some (as_date t))

unfoldable pub changed : ℕ → Option ℕ → SourceChange → Source → Source
changed now by c s = record s {
  status = or_kept c.status s.status;
  sync_enabled = or_kept c.sync_enabled s.sync_enabled;
  sync_interval_days = or_kept c.sync_interval_days s.sync_interval_days;
  sync_hour = or_kept c.sync_hour s.sync_hour;
  next_sync_at = or_kept (bound c.next_sync_at) s.next_sync_at;
  client_secret_enc = or_kept c.client_secret_enc s.client_secret_enc;
  updated_by = by;
  updated_at = as_date now;
}

-- `insert_source`, with the columns that are modelled.
unfoldable pub insert_source : ℕ → Bool → ℕ → ℕ → Option ℕ → Text → Option ℕ → Tables → Tables × ℕ
insert_source now sync_enabled interval_days hour next_sync_at secret by t = (
  record t {
    sources =
        t.sources
        ++ record {
          id = t.next_source_id;
          status = source_active;
          sync_enabled = sync_enabled;
          sync_interval_days = interval_days;
          sync_hour = hour;
          next_sync_at = or_kept (bound (some next_sync_at)) none;
          client_secret_enc = some secret;
          last_sync_at = none;
          last_sync_status = none;
          last_sync_error = none;
          last_success_at = none;
          updated_by = by;
          updated_at = as_date now;
        }
          ∷ [];
    next_source_id = suc t.next_source_id;
  },
  t.next_source_id,
)

-- `update_source`
unfoldable pub update_source : ℕ → ℕ → Option ℕ → SourceChange → Tables → Tables × Bool
update_source now id by c t = (
  record t { sources = update_where (is_kept_source id) (changed now by c) t.sources },
  count_where (is_kept_source id) t.sources == 1,
)

-- What `soft_delete_source` returns or raises.
pub data Deleted : Type 0 where
  deleted : ℕ → Deleted
  not_there still_active : Deleted

unfoldable pub wiped : ℕ → Option ℕ → Source → Source
wiped now by s = record s {
  status = source_deleted;
  sync_enabled = false;
  next_sync_at = none;
  client_secret_enc = none;
  updated_by = by;
  updated_at = as_date now;
}

abbrev pub is_live_of : ℕ → Entity → Bool
is_live_of source e = e.source_id == source && is_live e.status

delete_kept : ℕ → ℕ → Option ℕ → Tables → Tables × Deleted
delete_kept now id by t =
    let sources = update_where (is_kept_source id) (wiped now by) t.sources in
    if count_where (is_kept_source id) t.sources == 1
    then (
      record t { sources = sources; entities = withdraw now (λ e. e.source_id == id) t.entities },
      deleted (count_where (is_live_of id) t.entities),
    )
    else (record t { sources = sources }, not_there)

-- `soft_delete_source`
unfoldable pub soft_delete_source : ℕ → ℕ → Option ℕ → Tables → Tables × Deleted
unfolding delete_kept
soft_delete_source now id by t = elim (fetch_where (is_source id) t.sources) [
  | none ↦ (t, not_there)
  | some s ↦
      if is_deleted s.status
      then (t, not_there)
      else if active_runs id t == 0
      then delete_kept now id by t
      else (t, still_active)
]

-- `next_sync_at IS NOT NULL AND next_sync_at <= :now`
unfoldable pub is_past : ℕ → Option ℕ → Bool
is_past now none = false
is_past now (some at) = leb at (as_date now)

-- The sources whose schedule is on and due.
unfoldable pub is_due : ℕ → Source → Bool
is_due now s = is_active s.status && (s.sync_enabled && is_past now s.next_sync_at)

unfoldable pub at_or_zero : Option ℕ → ℕ
at_or_zero none = 0
at_or_zero (some t) = t

-- `ORDER BY next_sync_at, id`
due_before : Source → Source → Bool
due_before s u =
    ltb (at_or_zero s.next_sync_at) (at_or_zero u.next_sync_at)
    || (at_or_zero s.next_sync_at == at_or_zero u.next_sync_at && ltb s.id u.id)

insert_source_row : Source → List Source → List Source
unfolding due_before
insert_source_row s [] = s ∷ []
insert_source_row s (u ∷ us) =
    let rest = insert_source_row s us in if due_before u s then u ∷ rest else s ∷ u ∷ us

unfoldable pub in_due_order : List Source → List Source
unfolding insert_source_row
in_due_order [] = []
in_due_order (s ∷ ss) = insert_source_row s (in_due_order ss)

-- `due_sources`
unfoldable pub due_sources : ℕ → Tables → List Source
due_sources now t = take 100 (in_due_order (keep_if (is_due now) t.sources))

-- What `claim_due_source` returns; `refused` is its ValueError.
pub data Claimed : Type 0 where
  claimed : Bool → Claimed
  refused : Claimed

-- `WHERE id = :id AND status = 'ACTIVE' AND sync_enabled = 1 AND next_sync_at <= :now`
abbrev pub is_due_source : ℕ → ℕ → Source → Bool
is_due_source now id s = s.id == id && is_due now s

-- `claim_due_source`
unfoldable pub claim_due_source : ℕ → ℕ → ℕ → Tables → Tables × Claimed
claim_due_source id now next t = if leb next now then (t, refused) else (
  record t {
    sources =
        update_where (is_due_source now id) (λ s. record s { next_sync_at = some (as_date next) })
          t.sources;
  },
  claimed (count_where (is_due_source now id) t.sources == 1),
)

unfoldable pub is_at : Option ℕ → ℕ → Bool
is_at none at = false
is_at (some t) at = t == at

abbrev pub is_claimed_source : ℕ → ℕ → Source → Bool
is_claimed_source id expected s = s.id == id && is_at s.next_sync_at (as_date expected)

-- `restore_next_sync`
unfoldable pub restore_next_sync : ℕ → ℕ → ℕ → Tables → Tables × Bool
restore_next_sync id expected value t = (
  record t {
    sources =
        update_where (is_claimed_source id expected)
          (λ s. record s { next_sync_at = some (as_date value) }) t.sources;
  },
  count_where (is_claimed_source id expected) t.sources == 1,
)
