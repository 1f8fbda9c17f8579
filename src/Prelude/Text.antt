-- ===== src/Prelude/Text.antt =====
-- Go strings as lists of their bytes: written-out texts, comparison, prefixes and joining.
use Prim.Native.Char.{code}
use Prim.Native.String.{String}
use Prim.Native.Nat.{ℕ}
use mathlib.Core.Path.{◌≡◌, refl}
use mathlib.Core.Bool.{Bool, true, false, ◌&&◌, ◌||◌}
use mathlib.Core.List.{List, [], ◌∷◌, ◌++◌}
use native.Mathlib.Omega.{arith}
use socat.Prelude.Tests.{◌==◌}
use socat.Prelude.Lists.{Bytes}

-- `codes "tcp"` is the string "tcp"; only ASCII is written this way.
abbrev pub codes : String → Bytes
codes String.[] = []
codes (String.◌∷◌ c s) = code c ∷ codes s

abbrev pub equal_text : Bytes → Bytes → Bool
equal_text [] [] = true
equal_text [] (d ∷ t) = false
equal_text (c ∷ s) [] = false
equal_text (c ∷ s) (d ∷ t) = c == d && equal_text s t

pub equal_text_eq : (s t : Bytes) → equal_text s t ≡ true → s ≡ t
equal_text_eq [] [] h = refl
equal_text_eq [] (d ∷ t) h = cc
equal_text_eq (c ∷ s) [] h = cc
equal_text_eq (c ∷ s) (d ∷ t) h = ground (arith, equal_text_eq s t)

pub equal_text_self : (s : Bytes) → equal_text s s ≡ true
equal_text_self [] = refl
equal_text_self (c ∷ s) = ground (arith, equal_text_self s)

abbrev pub contains_text : Bytes → List Bytes → Bool
contains_text s [] = false
contains_text s (t ∷ ts) = equal_text s t || contains_text s ts

-- strings.HasPrefix
abbrev pub has_prefix : Bytes → Bytes → Bool
has_prefix s [] = true
has_prefix [] (d ∷ t) = false
has_prefix (c ∷ s) (d ∷ t) = c == d && has_prefix s t

-- strings.ContainsRune for an ASCII character
abbrev pub contains_byte : ℕ → Bytes → Bool
contains_byte b [] = false
contains_byte b (c ∷ s) = c == b || contains_byte b s

-- strings.Join
abbrev pub join : Bytes → List Bytes → Bytes
join between [] = []
join between (s ∷ []) = s
join between (s ∷ t ∷ rest) = s ++ (between ++ join between (t ∷ rest))
