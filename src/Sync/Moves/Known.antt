-- ===== src/Sync/Moves/Known.antt =====
-- The files that are tracked, and the entities that belong to one.
use aiva_v.Prelude.{
  ℕ, ◌≡◌, inl, inr, Bool, true, ◌&&◌, List, [], ◌∷◌, ◌++◌, any_of, ◌==◌, arith, Bool-cases, All,
}
use aiva_v.Sync.Rows.{File, Entity, is_tracked, is_live}
use aiva_v.Sync.Tables.{Tables, update_where}
use aiva_v.Sync.Files.{withdraw}

-- A file with this id is tracked.
unfoldable pub is_known : ℕ → List File → Bool
is_known id fs = any_of (λ f. f.id == id && is_tracked f.state) fs

abbrev pub Belongs : List File → Entity → Type 0
Belongs fs e = is_live e.status ≡ true → is_known e.source_file_id fs ≡ true

abbrev pub OnlyTracked : Tables → Type 0
OnlyTracked t = All (Belongs t.files) t.entities

-- An update that keeps ids and untracks nothing keeps what is known.
pub update_where-known :
    (p : File → Bool) (f : File → File) (id : ℕ)
    → ((r : File) → (f r).id ≡ r.id)
    → ((r : File) → p r ≡ true → is_tracked r.state ≡ true → is_tracked (f r).state ≡ true)
    → (fs : List File) → is_known id fs ≡ true
    → is_known id (update_where p f fs) ≡ true
unfolding is_known update_where
update_where-known p f id same keep [] h = h
update_where-known p f id same keep (r ∷ rs) h =
    ground (arith, same r, keep r, update_where-known p f id same keep rs)

pub append-known :
    (id : ℕ) (fs gs : List File) → is_known id fs ≡ true → is_known id (fs ++ gs) ≡ true
unfolding is_known
append-known id [] gs h = absurd (cc)
append-known id (f ∷ fs) gs h = ground (arith, append-known id fs gs)

All-mono :
    {A : Type 0} {P Q : A → Type 0} → ((a : A) → P a → Q a) → (xs : List A) → All P xs → All Q xs
All-mono h [] k = tt
All-mono h (x ∷ xs) k = (h x k.0, All-mono h xs k.1)

pub more-known :
    (fs gs : List File)
    → ((id : ℕ) → is_known id fs ≡ true → is_known id gs ≡ true)
    → (es : List Entity) → All (Belongs fs) es
    → All (Belongs gs) es
more-known fs gs h es k = All-mono (λ e b l. h e.source_file_id (b l)) es k

pub withdraw-Belongs :
    (now : ℕ) (fit : Entity → Bool) (fs : List File) (es : List Entity)
    → All (Belongs fs) es
    → All (Belongs fs) (withdraw now fit es)
unfolding withdraw update_where
withdraw-Belongs now fit fs [] h = tt
withdraw-Belongs now fit fs (e ∷ es) h = (
  elim (Bool-cases (fit e && is_live e.status)) [
    | inl y ↦ rw y (λ l. absurd (cc))
    | inr n ↦ rw n h.0
  ],
  withdraw-Belongs now fit fs es h.1,
)
