-- ===== src/Llm/Cache.antt =====
-- llm_service/llm_service/cache/in_memory.py: the response cache with times to live. The lock makes
-- each method one atomic step, and the deep copies make a value the same as its copy.
pub mod Laws
use aiva_v.Prelude.{
  String, ℕ, ◌+◌, ◌<◌, Bool, true, false, Option, none, some, List, [], ◌∷◌, ltb, if◌then◌else◌,
  Dict, lookup, insert, erase,
}

pub record Entry (V : Type 0) : Type 0 where
  pub value : V
  pub expires_at : Option ℕ

pub record ResponseCache (V : Type 0) : Type 0 where
  pub default_ttl : Option ℕ
  pub data_of : Dict (Entry V)

-- `ttl_seconds if ttl_seconds is not None else self._default_ttl`
unfoldable pub ttl_or : Option ℕ → Option ℕ → Option ℕ
ttl_or (some t) d = some t
ttl_or none d = d

unfoldable pub expiry : ℕ → Option ℕ → Option ℕ
expiry now none = none
expiry now (some ttl) = some (now + ttl)

module _ {V : Type 0} where
  pub new : Option ℕ → ResponseCache V
  new ttl = record { default_ttl = ttl; data_of = [] }

  -- `ent.expires_at is not None and time.monotonic() > ent.expires_at`
  pub is_expired : ℕ → Entry V → Bool
  is_expired now ent = elim (ent.expires_at) [ none ↦ false | some t ↦ ltb t now ]

  get_found : String → ℕ → ResponseCache V → Option (Entry V) → Option V × ResponseCache V
  get_found key now c none = (none, c)
  get_found key now c (some ent) =
      if is_expired now ent
      then (none, record c { data_of = erase key c.data_of })
      else (some ent.value, c)

  pub get : String → ℕ → ResponseCache V → Option V × ResponseCache V
  unfolding get_found is_expired
  get key now c = get_found key now c (lookup key c.data_of)

  pub set : String → V → Option ℕ → ℕ → ResponseCache V → ResponseCache V
  unfolding ttl_or expiry
  set key value ttl now c = record c {
    data_of =
        insert key (record { value = value; expires_at = expiry now (ttl_or ttl c.default_ttl) })
          c.data_of;
  }
