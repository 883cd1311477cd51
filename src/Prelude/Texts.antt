-- ===== src/Prelude/Texts.antt =====
-- Python's `str` as a list of code points, where the program walks, strips or compares text.
use Prim.Native.Nat.{ℕ, suc, ◌≤◌}
use Prim.Native.String.{String}
use Prim.Native.Char.{code}
use mathlib.Core.Path.{◌≡◌, refl}
use mathlib.Core.Bool.{Bool, true, false, ◌&&◌, ◌||◌}
use mathlib.Core.List.{List, [], ◌∷◌}
use native.Mathlib.Omega.{arith}
use aiva_v.Prelude.Tests.{leb, ◌==◌, if◌then◌else◌}
use aiva_v.Prelude.Lists.{length}

abbrev pub Text : Type 0
Text = List ℕ

-- The code points of a literal.
abbrev pub codes : String → Text
codes String.[] = []
codes (String.◌∷◌ c s) = code c ∷ codes s

-- `str.isspace` of one character.
unfoldable pub is_space : ℕ → Bool
is_space c =
    (leb 9 c && leb c 13)
    || (leb 28 c && leb c 32)
    || c == 133
    || c == 160
    || c == 5760
    || (leb 8192 c && leb c 8202)
    || c == 8232
    || c == 8233
    || c == 8239
    || c == 8287
    || c == 12288

unfoldable pub lstrip : Text → Text
lstrip [] = []
lstrip (c ∷ s) = let rest = lstrip s in if is_space c then rest else c ∷ s

-- `c + s.rstrip()`, where the rest has been stripped already.
unfoldable pub rstrip_onto : ℕ → Text → Text
rstrip_onto c [] = if is_space c then [] else c ∷ []
rstrip_onto c (d ∷ s) = c ∷ d ∷ s

unfoldable pub rstrip : Text → Text
unfolding rstrip_onto
rstrip [] = []
rstrip (c ∷ s) = rstrip_onto c (rstrip s)

-- `s.strip()`
unfoldable pub strip : Text → Text
unfolding lstrip rstrip
strip s = rstrip (lstrip s)

unfoldable pub text_eq : Text → Text → Bool
text_eq [] [] = true
text_eq [] (d ∷ t) = false
text_eq (c ∷ s) [] = false
text_eq (c ∷ s) (d ∷ t) = c == d && text_eq s t

pub text_eq_refl : (s : Text) → text_eq s s ≡ true
unfolding text_eq
text_eq_refl [] = refl
text_eq_refl (c ∷ s) = ground (arith, text_eq_refl s)

pub eq_of_text_eq : (s t : Text) → text_eq s t ≡ true → s ≡ t
unfolding text_eq
eq_of_text_eq [] [] h = refl
eq_of_text_eq [] (d ∷ t) h = cc
eq_of_text_eq (c ∷ s) [] h = cc
eq_of_text_eq (c ∷ s) (d ∷ t) h = ground (arith, eq_of_text_eq s t)

pub length-lstrip : (s : Text) → length (lstrip s) ≤ length s
unfolding lstrip
length-lstrip [] = omega arith
length-lstrip (c ∷ s) = ground (arith, length-lstrip s)

pub length-rstrip_onto : (c : ℕ) (s : Text) → length (rstrip_onto c s) ≤ suc (length s)
unfolding rstrip_onto
length-rstrip_onto c [] = ground arith
length-rstrip_onto c (d ∷ s) = omega arith

pub length-rstrip : (s : Text) → length (rstrip s) ≤ length s
unfolding rstrip
length-rstrip [] = omega arith
length-rstrip (c ∷ s) = omega (arith, length-rstrip_onto c (rstrip s), length-rstrip s)

pub length-strip : (s : Text) → length (strip s) ≤ length s
unfolding strip
length-strip s = omega (arith, length-rstrip (lstrip s), length-lstrip s)
