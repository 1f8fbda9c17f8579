-- ===== src/Parse/Escapes/Grammar.antt =====
-- expandSlashEscapes against a grammar of escapes, and the form that writes any bytes.
use socat.Prelude.Text.{codes, contains_byte}
use socat.Parse.Error.{err, ok, Result}
use socat.Parse.Escapes.{
  hex_value, expand_hex, expand_escape, hex_pair, named_escape, write_byte, expand_slash_escapes,
}
use socat.Prelude.{
  ap, false, ◌≤◌, ◌+◌, ◌*◌, ◌<◌, ◌⊎◌, Option-cases, inr, ==_iff, inl, some, refl, ◌==◌, Bool-cases,
  ◌↔◌, ◌∷◌, arith, ◌≢◌, ◌≡◌, [], Bytes, ℕ,
}

-- The byte that a backslash before `c` stands for, when no hexadecimal digits follow.
abbrev pub Escape : ℕ → ℕ → Type 0
Escape c b =
    ((c ≡ b'0') × (b ≡ 0))
    ⊎ ((c ≡ b'a') × (b ≡ 7))
    ⊎ ((c ≡ b'b') × (b ≡ 8))
    ⊎ ((c ≡ b't') × (b ≡ 9))
    ⊎ ((c ≡ b'n') × (b ≡ 10))
    ⊎ ((c ≡ b'v') × (b ≡ 11))
    ⊎ ((c ≡ b'f') × (b ≡ 12))
    ⊎ ((c ≡ b'r') × (b ≡ 13))
    ⊎ ((contains_byte c (codes "0abfnrtvx") ≡ false) × (b ≡ c))

-- A hexadecimal digit and its value.
abbrev pub HexDigit : ℕ → ℕ → Type 0
HexDigit c v =
    ((v < 10) × (c ≡ b'0' + v))
    ⊎ ((10 ≤ v) × (v < 16) × (c + 10 ≡ b'a' + v))
    ⊎ ((10 ≤ v) × (v < 16) × (c + 10 ≡ b'A' + v))

-- What a string with escapes stands for.
pub data Expands : Bytes → Bytes → Type 0 where
  done : Expands [] []
  plain : {c : ℕ} {s t : Bytes} → c ≢ b'\\' → Expands s t → Expands (c ∷ s) (c ∷ t)
  named : {c b : ℕ} {s t : Bytes} → Escape c b → Expands s t → Expands (b'\\' ∷ c ∷ s) (b ∷ t)
  hex :
      {h l a b : ℕ} {s t : Bytes}
      → HexDigit h a
      → HexDigit l b
      → Expands s t
      → Expands (b'\\' ∷ b'x' ∷ h ∷ l ∷ s) ((16 * a + b) ∷ t)

named_escape-Escape : (c : ℕ) → c ≢ b'x' → Escape c (named_escape c)
unfolding named_escape
named_escape-Escape c n = ground arith

Escape-named_escape : (c b : ℕ) → Escape c b → (c ≢ b'x') × (named_escape c ≡ b)
unfolding named_escape
Escape-named_escape c b e = ground arith

hex_digit : (c v : ℕ) → HexDigit c v → hex_value c ≡ some v
unfolding hex_value
hex_digit c v h = ground arith

digit_hex : (c v : ℕ) → hex_value c ≡ some v → HexDigit c v
unfolding hex_value
digit_hex c v h = ground arith

hex_pair_lem : (h l a b : ℕ) → HexDigit h a → HexDigit l b → hex_pair h l ≡ some (16 * a + b)
unfolding hex_pair
hex_pair_lem h l a b p q = rw (hex_digit h a p, hex_digit l b q) (ap some (omega arith))

hex_pair_digits :
    (h l v : ℕ)
    → hex_pair h l ≡ some v
    → (a : ℕ) × (b : ℕ) × (HexDigit h a × (HexDigit l b × (v ≡ 16 * a + b)))
unfolding hex_pair
hex_pair_digits h l v e = elim (Option-cases (hex_value h)) [
  | inl n ↦ absurd (cc (rw n at e))
  | inr (a, p) ↦ elim (Option-cases (hex_value l)) [
    | inl n ↦ absurd (cc (rw n at (rw p at e)))
    | inr (b, q) ↦
        let w : some (a * 16 + b) ≡ some v = rw q at (rw p at e) in
        let value : a * 16 + b ≡ v = cc in (a, b, (digit_hex h a p, (digit_hex l b q, omega arith)))
  ]
]

complete : {s t : Bytes} → Expands s t → expand_slash_escapes s ≡ ok t
unfolding expand_slash_escapes
complete done = refl
complete (plain n e) = ground (arith, complete e)
complete (named {c = c} {b = b} n e) =
    let (ne, q) = Escape-named_escape c b n in ground (arith, complete e, q)
complete (hex {h = h} {l = l} {a = a} {b = b} p q e) =
    rw (hex_pair_lem h l a b p q) (ap (write_byte (16 * a + b)) (complete e))

write_byte-ok :
    (b : ℕ) (r : Result Bytes) (t : Bytes)
    → write_byte b r ≡ ok t
    → (u : Bytes) × ((r ≡ ok u) × (t ≡ b ∷ u))
write_byte-ok b (err e) t h = cc
write_byte-ok b (ok u) t h = (u, (refl, cc))

mutual
  unfolding expand_slash_escapes

  sound : (s t : Bytes) → expand_slash_escapes s ≡ ok t → Expands s t
  sound [] t h = let e : t ≡ [] = cc in rw e done
  sound (c ∷ s) t h = elim (Bool-cases (c == b'\\')) [
    | inl e ↦ let esc : c ≡ b'\\' = (==_iff c b'\\').0 e in rw esc (escape_sound s t (rw e at h))
    | inr n ↦
        let (u, (r, q)) = write_byte-ok c (expand_slash_escapes s) t (rw n at h) in
        let ne : c ≢ b'\\' = ground arith in rw q (plain ne (sound s u r))
  ]

  escape_sound : (s t : Bytes) → expand_escape s ≡ ok t → Expands (b'\\' ∷ s) t
  escape_sound [] t h = cc
  escape_sound (c ∷ s) t h = elim (Bool-cases (c == b'x')) [
    | inl e ↦ let esc : c ≡ b'x' = (==_iff c b'x').0 e in rw esc (hex_sound s t (rw e at h))
    | inr n ↦
        let (u, (r, q)) = write_byte-ok (named_escape c) (expand_slash_escapes s) t (rw n at h) in
        let ne : c ≢ b'x' = ground arith in rw q (named (named_escape-Escape c ne) (sound s u r))
  ]

  hex_sound : (s t : Bytes) → expand_hex s ≡ ok t → Expands (b'\\' ∷ b'x' ∷ s) t
  hex_sound [] t h = cc
  hex_sound (a ∷ []) t h = cc
  hex_sound (a ∷ l ∷ s) t h = elim (Option-cases (hex_pair a l)) [
    | inl e ↦ absurd (cc (rw e at h))
    | inr (b, e) ↦
        let (u, (r, q)) = write_byte-ok b (expand_slash_escapes s) t (rw e at h) in
        let (x, y, (p, (g, v))) = hex_pair_digits a l b e in rw q (rw v (hex p g (sound s u r)))
  ]

-- expandSlashEscapes returns a value exactly if the string stands for it by the grammar of escapes,
-- so it fails exactly on the strings that the grammar does not know.
pub expand_slash_escapes-Expands : (s t : Bytes) → (expand_slash_escapes s ≡ ok t) ↔ Expands s t
expand_slash_escapes-Expands s t = (sound s t, complete)
