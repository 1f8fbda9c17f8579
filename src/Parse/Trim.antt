-- ===== src/Parse/Trim.antt =====
-- trimUnescapedSpace and escapedByte of internal/parse/parse.go. The end of the string is read on
-- the reversed list. Nothing that is trimmed from the front holds a backslash, so that
-- escapedByte counts the same ones without it.
pub mod White
pub mod Kept
pub mod Exact
use socat.Prelude.{
  zero, drop, not, length, suc, false, [], leb, if◌then◌else◌, ◌&&◌, ◌||◌, ◌∷◌, ◌==◌, Bytes, Bool,
  ℕ,
}
use mathlib.Core.List.{reverse}

-- The ASCII characters of unicode.IsSpace.
unfoldable pub ascii_space : ℕ → Bool
ascii_space c = c == b' ' || (leb 9 c && leb c 13)

-- The others that have two bytes in UTF-8: U+0085 and U+00A0.
unfoldable pub space2 : ℕ → ℕ → Bool
space2 a b = a == 0xc2 && (b == 0x85 || b == 0xa0)

-- The others with three: U+1680, U+2000 to U+200A, U+2028, U+2029, U+202F, U+205F and U+3000.
unfoldable pub space3 : ℕ → ℕ → ℕ → Bool
space3 a b c =
    (a == 0xe1 && (b == 0x9a && c == 0x80))
    || ((a == 0xe2
          && ((b == 0x80 && ((leb 0x80 c && leb c 0x8a) || (c == 0xa8 || (c == 0xa9 || c == 0xaf))))
              || (b == 0x81 && c == 0x9f)))
        || (a == 0xe3 && (b == 0x80 && c == 0x80)))

-- utf8.DecodeRuneInString and unicode.IsSpace: the size of the white space at the front, 0 without.
unfoldable pub space_size : Bytes → ℕ
unfolding ascii_space space2 space3
space_size [] = 0
space_size (a ∷ []) = if ascii_space a then 1 else 0
space_size (a ∷ b ∷ []) = if ascii_space a then 1 else if space2 a b then 2 else 0
space_size (a ∷ b ∷ c ∷ rest) =
    if ascii_space a then 1 else if space2 a b then 2 else if space3 a b c then 3 else 0

-- The same for utf8.DecodeLastRuneInString: here the bytes come last one first.
unfoldable pub last_space_size : Bytes → ℕ
unfolding ascii_space space2 space3
last_space_size [] = 0
last_space_size (a ∷ []) = if ascii_space a then 1 else 0
last_space_size (b ∷ a ∷ []) = if ascii_space b then 1 else if space2 a b then 2 else 0
last_space_size (c ∷ b ∷ a ∷ rest) =
    if ascii_space c then 1 else if space2 b c then 2 else if space3 a b c then 3 else 0

-- strings of backslashes at the front: their number is odd
unfoldable pub odd_backslashes : Bytes → Bool
odd_backslashes [] = false
odd_backslashes (c ∷ rest) =
    let fewer = odd_backslashes rest in if c == b'\\' then not fewer else false

-- escapedByte for the byte that follows `before`, whose bytes come last one first
unfoldable pub escaped_byte : Bytes → Bool
unfolding odd_backslashes
escaped_byte before = odd_backslashes before

-- The first loop of trimUnescapedSpace; a round that continues takes a byte at least.
unfoldable pub trim_start_loop : ℕ → Bytes → Bytes
unfolding space_size
trim_start_loop zero s = s
trim_start_loop (suc fuel) s =
    let size = space_size s in
    let later = trim_start_loop fuel (drop size s) in if size == 0 then s else later

-- The second loop, on the reversed string.
unfoldable pub trim_end_loop : ℕ → Bytes → Bytes
unfolding last_space_size escaped_byte
trim_end_loop zero r = r
trim_end_loop (suc fuel) r =
    let size = last_space_size r in
    let later = trim_end_loop fuel (drop size r) in
    if size == 0 || escaped_byte (drop size r) then r else later

unfoldable pub trim_unescaped_space : Bytes → Bytes
unfolding trim_start_loop trim_end_loop
trim_unescaped_space s =
    let front = trim_start_loop (length s) s in
    reverse (trim_end_loop (length front) (reverse front))
