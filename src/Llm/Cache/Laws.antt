-- ===== src/Llm/Cache/Laws.antt =====
-- What a client of the response cache sees.
use aiva_v.Prelude.{
  String, ℕ, ◌≤◌, ◌≡◌, ◌≢◌, Option, none, some, arith, leb, if◌then◌else◌, lookup, lookup-insert,
  lookup-erase, eq_iff,
}
use aiva_v.Llm.Cache.{Entry, ResponseCache, is_expired, get, ttl_or, expiry, set}

module _ {V : Type 0} where
  -- The entry that a reader at `now` may still see.
  live : ℕ → Option (Entry V) → Option V
  unfolding is_expired
  live now none = none
  live now (some ent) = if is_expired now ent then none else some ent.value

  get-live :
      (k : String) (now : ℕ) (c : ResponseCache V) → (get k now c).0 ≡ live now (lookup k c.data_of)
  unfolding get live
  get-live k now c = ground arith

  -- An expired entry stays expired, so dropping it changes no later read.
  live_later :
      (now later : ℕ) (o : Option (Entry V)) → now ≤ later → live now o ≡ none → live later o ≡ none
  unfolding live
  live_later now later o h e = ground arith

  get-lookup :
      (k j : String) (now later : ℕ) (c : ResponseCache V)
      → now ≤ later
      → live later (lookup j (get k now c).1.data_of) ≡ live later (lookup j c.data_of)
  unfolding get live
  get-lookup k j now later c h = ground (arith, lookup-erase k j c.data_of, eq_iff k j)

  -- Reading a key changes nothing that a later reader of any key sees, though the read may delete
  -- an expired entry.
  pub get-get :
      (k j : String) (now later : ℕ) (c : ResponseCache V)
      → now ≤ later
      → (get j later (get k now c).1).0 ≡ (get j later c).0
  get-get k j now later c h =
      rw (get-live j later (get k now c).1, get-live j later c) (get-lookup k j now later c h)

  -- A value that was set with a time to live, its own or else the default one, is read until that
  -- time has passed and not after; with neither it is read for ever.
  pub get-set_self :
      (k : String) (v : V) (ttl : Option ℕ) (now later : ℕ) (c : ResponseCache V)
      → (get k later (set k v ttl now c)).0 ≡ elim (expiry now (ttl_or ttl c.default_ttl)) [
        | none ↦ some v
        | some t ↦ if leb later t then some v else none
      ]
  unfolding get set
  get-set_self k v ttl now later c = ground (
    arith,
    lookup-insert k k (record { value = v; expires_at = expiry now (ttl_or ttl c.default_ttl) })
        c.data_of,
    eq_iff k k,
  )

  -- Setting one key leaves what is read at every other key, at every time.
  pub get-set_ne :
      (k j : String) (v : V) (ttl : Option ℕ) (now later : ℕ) (c : ResponseCache V)
      → k ≢ j
      → (get j later (set k v ttl now c)).0 ≡ (get j later c).0
  unfolding get set
  get-set_ne k j v ttl now later c h = ground (
    arith,
    lookup-insert k j (record { value = v; expires_at = expiry now (ttl_or ttl c.default_ttl) })
        c.data_of,
    eq_iff k j,
  )
