-- ===== src/Parse/Print/Plain.antt =====
-- Printed text has nothing to trim, and a quoted value is unquoted to what it was.
use socat.Parse.Print.Quoted.{expand_slash_escapes-escape_all}
use socat.Parse.Error.{ok}
use socat.Parse.Trim.Kept.{trim_unescaped_space-id}
use socat.Parse.Path.{has_windows_volume, is_letter, looks_like_windows_path}
use socat.Parse.Unquote.{unquote_quoted, unquote, is_quoted}
use socat.Parse.Print.{AreBytes, escape_all, closing, IsWord, quoted, is_word_byte}
use socat.Parse.Trim.{
  trim_unescaped_space, space3, space2, ascii_space, last_space_size, space_size,
}
use socat.Prelude.{
  drop, take, length-append, append_assoc, refl, take-length-append, ◌≤◌, suc, sym, ◌-◌, false, ◌∙◌,
  [], arith, ◌∷◌, ◌&&◌, length, ap, true, ◌++◌, ◌≡◌, slice, get_or, ltb, Bytes, Bool, ℕ,
}
use mathlib.Core.List.{reverse, reverse-append}

-- A byte that is neither white space nor part of a longer character.
abbrev pub is_plain : ℕ → Bool
is_plain c = ltb 32 c && ltb c 128

space_size-plain : (c : ℕ) (s : Bytes) → is_plain c ≡ true → space_size (c ∷ s) ≡ 0
unfolding space_size ascii_space space2 space3
space_size-plain c [] h = ground arith
space_size-plain c (a ∷ []) h = ground arith
space_size-plain c (a ∷ b ∷ s) h = ground arith

last_space_size-plain : (c : ℕ) (s : Bytes) → is_plain c ≡ true → last_space_size (c ∷ s) ≡ 0
unfolding last_space_size ascii_space space2 space3
last_space_size-plain c [] h = ground arith
last_space_size-plain c (a ∷ []) h = ground arith
last_space_size-plain c (a ∷ b ∷ s) h = ground arith

pub is_word_byte-plain : (c : ℕ) → is_word_byte c ≡ true → is_plain c ≡ true
unfolding is_word_byte is_letter
is_word_byte-plain c h = ground arith

-- The last byte is a plain one.
pub record PlainEnd (s : Bytes) : Type 0 where
  pub front : Bytes
  pub last : ℕ
  pub splits : s ≡ front ++ last ∷ []
  pub plain : is_plain last ≡ true

pub PlainEnd-append : (s : Bytes) {t : Bytes} → PlainEnd t → PlainEnd (s ++ t)
PlainEnd-append s {t} e = record {
  front = s ++ e.front;
  last = e.last;
  splits = ap (λ u. s ++ u) e.splits ∙ sym (append_assoc s e.front (e.last ∷ []));
  plain = e.plain;
}

pub PlainEnd-word : (c : ℕ) (s : Bytes) → IsWord (c ∷ s) → PlainEnd (c ∷ s)
PlainEnd-word c [] (h, hs) = record {
  front = [];
  last = c;
  splits = refl;
  plain = is_word_byte-plain c h;
}
PlainEnd-word c (d ∷ s) (h, hs) = PlainEnd-append (c ∷ []) (PlainEnd-word d s hs)

pub PlainEnd-quoted : (t : Bytes) → PlainEnd (quoted t)
unfolding quoted closing
PlainEnd-quoted t = record { front = b'"' ∷ escape_all t; last = b'"'; splits = refl; plain = refl }

pub trim_unescaped_space-plain :
    (c : ℕ) (s : Bytes)
    → is_plain c ≡ true
    → PlainEnd (c ∷ s)
    → trim_unescaped_space (c ∷ s) ≡ c ∷ s
trim_unescaped_space-plain c s h e =
    let back : reverse (c ∷ s) ≡ e.last ∷ reverse e.front =
      ap reverse e.splits ∙ reverse-append e.front (e.last ∷ []) in
    let none_last : last_space_size (reverse (c ∷ s)) ≡ 0 =
      ap last_space_size back ∙ last_space_size-plain e.last (reverse e.front) e.plain in
    trim_unescaped_space-id (c ∷ s) (space_size-plain c s h, ground (arith, none_last))

get_or-append_last : (s : Bytes) (c : ℕ) → get_or (s ++ c ∷ []) (length s) 0 ≡ c
get_or-append_last [] c = refl
get_or-append_last (b ∷ s) c = get_or-append_last s c

length-quoted : (t : Bytes) → length (quoted t) - 1 ≡ suc (length (escape_all t))
unfolding quoted closing
length-quoted t = omega (arith, length-append (escape_all t) (b'"' ∷ []))

is_quoted-quoted : (t : Bytes) → is_quoted (quoted t) ≡ true
unfolding is_quoted
is_quoted-quoted t =
    let end : get_or (quoted t) (length (quoted t) - 1) 0 ≡ b'"' =
      ap (λ i. get_or (quoted t) i 0) (length-quoted t)
      ∙ unfold quoted closing in get_or-append_last (escape_all t) b'"' in
    let start : get_or (quoted t) 0 0 ≡ b'"' = unfold quoted in refl in
    let long : 2 ≤ length (quoted t) = omega (arith, length-quoted t) in
    ground (arith, end, start, long)

slice-quoted : (t : Bytes) → slice (quoted t) 1 (length (quoted t) - 1) ≡ escape_all t
slice-quoted t =
    let size : length (quoted t) - 1 - 1 ≡ length (escape_all t) = omega (arith, length-quoted t) in
    ap (λ n. take n (drop 1 (quoted t))) size
    ∙ unfold quoted closing in take-length-append (escape_all t) (b'"' ∷ [])

looks_like_windows_path-escape_all :
    (t : Bytes) → looks_like_windows_path false (escape_all t) ≡ false
unfolding looks_like_windows_path has_windows_volume escape_all is_letter
looks_like_windows_path-escape_all [] = refl
looks_like_windows_path-escape_all (b ∷ t) = refl

-- Off Windows, unquoting a quoted value gives the value, be it a path or not.
pub unquote-quoted : (path : Bool) (t : Bytes) → AreBytes t → unquote false path (quoted t) ≡ ok t
unfolding unquote unquote_quoted quoted
unquote-quoted path t h =
    let trimmed : trim_unescaped_space (quoted t) ≡ quoted t =
      trim_unescaped_space-plain b'"' (closing t) refl (PlainEnd-quoted t) in
    rw trimmed (
      rw (is_quoted-quoted t) (
        rw (slice-quoted t) (
          rw (looks_like_windows_path-escape_all t)
            (ground (arith, expand_slash_escapes-escape_all t h)))))
