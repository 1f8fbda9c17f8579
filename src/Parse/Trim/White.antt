-- ===== src/Parse/Trim/White.antt =====
-- White space in UTF-8, and runs of backslashes, as trimUnescapedSpace of internal/parse/parse.go
-- meets them.
use mathlib.Core.Path.{subst}
use socat.Prelude.{
  refl, inr, zero, inl, append_assoc, Bool-cases, suc, sym, ◌≤◌, ◌==◌, false, true, ◌≢◌, length,
  arith, take, ◌⊎◌, ◌++◌, ◌%◌, ◌≡◌, ◌<◌, [], ◌∷◌, ℕ, Bytes,
}
use socat.Parse.Trim.{
  space_size, last_space_size, ascii_space, space2, space3, odd_backslashes, escaped_byte,
}
use mathlib.Core.List.{reverse}

-- One white space of unicode.IsSpace: tab to carriage return and the blank, U+0085 and U+00A0, U+1680,
-- U+2000 to U+200A, U+2028, U+2029, U+202F, U+205F and U+3000.
abbrev pub IsWhite : Bytes → Type 0
IsWhite [] = ⊥
IsWhite (a ∷ []) = (a ≡ 32) ⊎ ((9 ≤ a) × (a ≤ 13))
IsWhite (a ∷ b ∷ []) = (a ≡ 0xc2) × ((b ≡ 0x85) ⊎ (b ≡ 0xa0))
IsWhite (a ∷ b ∷ c ∷ []) =
    ((a ≡ 0xe1) × (b ≡ 0x9a) × (c ≡ 0x80))
    ⊎ ((a ≡ 0xe2) × (b ≡ 0x80) × (0x80 ≤ c) × (c ≤ 0x8a))
    ⊎ ((a ≡ 0xe2) × (b ≡ 0x80) × ((c ≡ 0xa8) ⊎ (c ≡ 0xa9) ⊎ (c ≡ 0xaf)))
    ⊎ ((a ≡ 0xe2) × (b ≡ 0x81) × (c ≡ 0x9f))
    ⊎ ((a ≡ 0xe3) × (b ≡ 0x80) × (c ≡ 0x80))
IsWhite (a ∷ b ∷ c ∷ d ∷ s) = ⊥

pub data White : Bytes → Type 0 where
  no_white : White []
  more_white : (space : Bytes) {s : Bytes} → IsWhite space → White s → White (space ++ s)

pub White-append : {s t : Bytes} → White s → White t → White (s ++ t)
White-append no_white w = w
White-append {t = t} (more_white space {s} i v) w =
    subst White (sym (append_assoc space s t)) (more_white space i (White-append v w))

pub space_size-IsWhite : (s : Bytes) → 0 < space_size s → IsWhite (take (space_size s) s)
unfolding space_size ascii_space space2 space3
space_size-IsWhite [] h = absurd (omega arith)
space_size-IsWhite (a ∷ []) h = ground arith
space_size-IsWhite (a ∷ b ∷ []) h = ground arith
space_size-IsWhite (a ∷ b ∷ c ∷ s) h = ground arith

pub last_space_size-IsWhite :
    (r : Bytes) → 0 < last_space_size r → IsWhite (reverse (take (last_space_size r) r))
unfolding last_space_size ascii_space space2 space3
last_space_size-IsWhite [] h = absurd (omega arith)
last_space_size-IsWhite (a ∷ []) h = ground arith
last_space_size-IsWhite (b ∷ a ∷ []) h = ground arith
last_space_size-IsWhite (c ∷ b ∷ a ∷ s) h = ground arith

-- White space at the front is seen,
pub space_size_white : (space s : Bytes) → IsWhite space → 0 < space_size (space ++ s)
unfolding space_size ascii_space space2 space3
space_size_white [] s h = absurd h
space_size_white (a ∷ []) [] h = ground arith
space_size_white (a ∷ []) (x ∷ []) h = ground arith
space_size_white (a ∷ []) (x ∷ y ∷ s) h = ground arith
space_size_white (a ∷ b ∷ []) [] h = ground arith
space_size_white (a ∷ b ∷ []) (x ∷ s) h = ground arith
space_size_white (a ∷ b ∷ c ∷ []) s h = ground arith
space_size_white (a ∷ b ∷ c ∷ d ∷ t) s h = absurd h

-- and so is white space at the end, of which the bytes come last one first.
pub last_space_size_white :
    (space r : Bytes)
    → IsWhite space
    → last_space_size (reverse space ++ r) ≡ length (reverse space)
unfolding last_space_size ascii_space space2 space3
last_space_size_white [] r h = absurd h
last_space_size_white (a ∷ []) [] h = ground arith
last_space_size_white (a ∷ []) (x ∷ []) h = ground arith
last_space_size_white (a ∷ []) (x ∷ y ∷ s) h = ground arith
last_space_size_white (a ∷ b ∷ []) [] h = ground arith
last_space_size_white (a ∷ b ∷ []) (x ∷ s) h = ground arith
last_space_size_white (a ∷ b ∷ c ∷ []) s h = ground arith
last_space_size_white (a ∷ b ∷ c ∷ d ∷ t) s h = absurd h

-- Exactly `n` backslashes stand at the front.
abbrev pub Slashes : ℕ → Bytes → Type 0
Slashes zero [] = Unit
Slashes zero (c ∷ r) = c ≢ b'\\'
Slashes (suc n) [] = ⊥
Slashes (suc n) (c ∷ r) = (c ≡ b'\\') × Slashes n r

slash_count : (r : Bytes) → (n : ℕ) × Slashes n r × (odd_backslashes r ≡ (n % 2 == 1))
unfolding odd_backslashes
slash_count [] = (0, tt, refl)
slash_count (c ∷ r) = elim (Bool-cases (c == b'\\')) [
  | inl e ↦
      let (n, h, q) = slash_count r in
      let slash : c ≡ b'\\' = ground arith in (suc n, (slash, h), rw e (rw q (ground arith)))
  | inr e ↦ (0, (λ q. ground arith), rw e refl)
]

-- What follows `s` is escaped: an odd number of backslashes ends `s`.
abbrev pub IsEscaping : Bytes → Type 0
IsEscaping s = (n : ℕ) × Slashes n (reverse s) × (n % 2 ≡ 1)

-- An even number does, perhaps none.
abbrev pub IsPlainEnd : Bytes → Type 0
IsPlainEnd s = (n : ℕ) × Slashes n (reverse s) × (n % 2 ≡ 0)

pub escaped_byte-IsEscaping : (s : Bytes) → escaped_byte (reverse s) ≡ true → IsEscaping s
unfolding escaped_byte
escaped_byte-IsEscaping s h = let (n, c, q) = slash_count (reverse s) in (n, c, ground arith)

pub escaped_byte-IsPlainEnd : (s : Bytes) → escaped_byte (reverse s) ≡ false → IsPlainEnd s
unfolding escaped_byte
escaped_byte-IsPlainEnd s h = let (n, c, q) = slash_count (reverse s) in (n, c, ground arith)
