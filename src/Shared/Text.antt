-- ===== src/Shared/Text.antt =====
-- Texts as the language has them: sequences of 16-bit code units.
pub mod Trim
use Prim.Native.Char.{code}
use Prim.Native.String.{String}
use kalen.Prelude.{
  ℕ, zero, suc, ◌+◌, ◌-◌, ◌/◌, ◌%◌, Bool, true, false, ◌&&◌, ◌||◌, List, [], ◌∷◌, ◌++◌, ltb, leb,
  eqb, length, any, take, drop, if◌then◌else◌,
}

abbrev pub Units : Type 0
Units = List ℕ

-- the code units of a character
abbrev char_units : ℕ → Units
char_units c =
    if ltb c 65536 then c ∷ [] else (55296 + (c - 65536) / 1024) ∷ (56320 + (c - 65536) % 1024) ∷ []

unfoldable pub units : String → Units
units String.[] = []
units (String.◌∷◌ c s) = char_units (code c) ++ units s

-- what `trim` takes for white space: blanks and ends of lines
unfoldable pub is_white : ℕ → Bool
is_white c =
    any (eqb c)
      (9 ∷ 10 ∷ 11 ∷ 12 ∷ 13 ∷ 32 ∷ 160 ∷ 5760 ∷ 8232 ∷ 8233 ∷ 8239 ∷ 8287 ∷ 12288 ∷ 65279 ∷ [])
    || (leb 8192 c && leb c 8202)

-- `s.trimStart()`
unfoldable pub trim_start : Units → Units
unfolding is_white
trim_start [] = []
trim_start (c ∷ s) = let rest = trim_start s in if is_white c then rest else c ∷ s

-- `s.trimEnd()`
unfoldable pub trim_end : Units → Units
unfolding is_white
trim_end [] = []
trim_end (c ∷ s) = elim (trim_end s) [ [] ↦ if is_white c then [] else c ∷ [] | d ∷ r ↦ c ∷ d ∷ r ]

-- `s.trim()`
unfoldable pub trim : Units → Units
unfolding trim_start trim_end
trim s = trim_end (trim_start s)

-- `===`
unfoldable pub same : Units → Units → Bool
same [] [] = true
same [] (d ∷ t) = false
same (c ∷ s) [] = false
same (c ∷ s) (d ∷ t) = eqb c d && same s t

-- `s.endsWith(t)`
unfoldable pub ends_with : Units → Units → Bool
unfolding same
ends_with s t = leb (length t) (length s) && same (drop (length s - length t) s) t

-- `s.toLowerCase()`, as far as it comes into the first 128 code units; a unit beyond them that does
-- not come into them is kept
unfoldable pub lower : ℕ → ℕ
lower c = if leb 65 c && leb c 90 then c + 32 else if eqb c 8490 then 107 else c

-- `[a-zA-Z0-9]`
unfoldable pub is_alphanumeric : ℕ → Bool
is_alphanumeric c = (leb 97 c && leb c 122) || ((leb 65 c && leb c 90) || (leb 48 c && leb c 57))
