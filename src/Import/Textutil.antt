-- ===== src/Import/Textutil.antt =====
-- backend/doc_intel/textutil.py: a text cut to the bytes of a column. A text has no lone surrogates,
-- which `encode` refuses.
pub mod Laws
use aiva_v.Prelude.{
  ℕ, ◌+◌, ◌-◌, List, [], ◌∷◌, ◌++◌, Option, none, some, leb, ltb, if◌then◌else◌, Text, codes,
}

-- The bytes of a character in UTF-8, and of a text.
unfoldable pub width : ℕ → ℕ
width c = if ltb c 128 then 1 else if ltb c 2048 then 2 else if ltb c 65536 then 3 else 4

unfoldable pub size : Text → ℕ
size [] = 0
size (c ∷ s) = width c + size s

-- The encoding cut after so many bytes and decoded with `errors="ignore"`: the characters that are
-- whole.
unfoldable pub cut : ℕ → Text → Text
cut n [] = []
cut n (c ∷ s) = let rest = cut (n - width c) s in if leb (width c) n then c ∷ rest else []

unfoldable pub truncated : Text → ℕ → Text
truncated text max_bytes =
    if leb (size text) max_bytes then text else cut (max_bytes - 3) text ++ codes "..."

-- `truncate_utf8`
unfoldable pub truncate_utf8 : Option Text → ℕ → Option Text
truncate_utf8 none max_bytes = none
truncate_utf8 (some text) max_bytes = some (truncated text max_bytes)
