-- ===== src/AddrConfig/Integer/Grammar.antt =====
-- parseNumericPort against a grammar of port numbers.
use socat.Prelude.Text.{contains_byte}
use socat.Prelude.{
  sym, [], ◌%◌, refl, ◌==◌, arith, not, ◌&&◌, ◌↔◌, Bool, ◌^◌, ◌<◌, ap, ◌∙◌, some, Option-cases,
  false, ◌||◌, inl, ◌∷◌, inr, Bool-cases, true, ◌≡◌, Option, ℕ, Bytes,
}
use socat.AddrConfig.Integer.{
  invalid, not_numeric, DigitResult, is_sign, parse_signed_port, port_answer, trim_strtoul_space,
  parse_numeric_port, numeric, starts_digit, has_go_base_prefix, is_strtoul_space,
  parse_digit_strtoul,
}

module _ (parse_uint : Bytes → ℕ → ℕ → Option ℕ) where
  -- A text that begins with a digit, has no underscore and none of Go's own base prefixes, and
  -- is a number of 16 bits.
  pub record IsNumber (value : Bytes) (n : ℕ) : Type 0 where
    pub first : starts_digit value ≡ true
    pub plain : (contains_byte b'_' value || has_go_base_prefix value) ≡ false
    pub parsed : parse_uint value 0 16 ≡ some n

  -- White space, perhaps a sign, and a number, which is zero behind a minus.
  pub data IsPort : Bytes → ℕ → Type 0 where
    space : {c : ℕ} {s : Bytes} {n : ℕ} → is_strtoul_space c ≡ true → IsPort s n → IsPort (c ∷ s) n
    unsigned : {s : Bytes} {n : ℕ} → IsNumber s n → IsPort s n
    plus : {s : Bytes} {n : ℕ} → IsNumber s n → IsPort (b'+' ∷ s) n
    minus : {s : Bytes} → IsNumber s 0 → IsPort (b'-' ∷ s) 0

  IsNumber-complete :
      {s : Bytes} {n : ℕ} → IsNumber s n → parse_digit_strtoul parse_uint s 16 ≡ numeric n
  unfolding parse_digit_strtoul
  IsNumber-complete i = simp (i.first, i.plain, i.parsed)

  IsNumber-sound :
      (s : Bytes) (n : ℕ) → parse_digit_strtoul parse_uint s 16 ≡ numeric n → IsNumber s n
  unfolding parse_digit_strtoul
  IsNumber-sound s n h = elim (Bool-cases (starts_digit s)) [
    | inr e ↦ absurd (cc (rw e at h))
    | inl e ↦ elim (Bool-cases (contains_byte b'_' s || has_go_base_prefix s)) [
      | inl g ↦ absurd (cc (rw g at (rw e at h)))
      | inr g ↦ elim (Option-cases (parse_uint s 0 16)) [
        | inl p ↦ absurd (cc (rw p at (rw g at (rw e at h))))
        | inr (m, p) ↦
            let q : numeric m ≡ numeric n = rw p at (rw g at (rw e at h)) in
            let same : m ≡ n = cc in record { first = e; plain = g; parsed = p ∙ ap some same }
      ]
    ]
  ]

  module _ (c : ℕ) (s : Bytes) (quiet : is_strtoul_space c ≡ false) where
    text_bare :
        is_sign c ≡ false
        → parse_numeric_port parse_uint (c ∷ s)
          ≡ port_answer parse_uint false (parse_digit_strtoul parse_uint (c ∷ s) 16)
    unfolding parse_numeric_port trim_strtoul_space parse_signed_port
    text_bare h = rw quiet (rw h refl)

    text_signed :
        is_sign c ≡ true
        → parse_numeric_port parse_uint (c ∷ s)
          ≡ port_answer parse_uint (c == b'-') (parse_digit_strtoul parse_uint s 16)
    unfolding parse_numeric_port trim_strtoul_space parse_signed_port
    text_signed h = rw quiet (rw h refl)

  module _ (bounded : (value : Bytes) (n : ℕ) → parse_uint value 0 16 ≡ some n → n < 2 ^ 16) where
    answered :
        (negative : Bool) {s : Bytes} {n : ℕ}
        → IsNumber s n
        → (negative && not (n == 0)) ≡ false
        → port_answer parse_uint negative (parse_digit_strtoul parse_uint s 16) ≡ some n
    answered negative {s = s} {n = n} i h =
        let low : n < 2 ^ 16 = bounded s n i.parsed in
        rw (IsNumber-complete i) (rw h (ap some (omega arith)))

    IsPort-unsigned : (s : Bytes) (n : ℕ) → IsNumber s n → parse_numeric_port parse_uint s ≡ some n
    IsPort-unsigned [] n i = let f = i.first in absurd (cc f)
    IsPort-unsigned (c ∷ s) n i =
        let f = i.first in
        let quiet : is_strtoul_space c ≡ false = ground arith in
        let bare : is_sign c ≡ false = ground arith in
        text_bare c s quiet bare ∙ answered false i refl

    complete : {s : Bytes} {n : ℕ} → IsPort s n → parse_numeric_port parse_uint s ≡ some n
    unfolding parse_numeric_port trim_strtoul_space parse_signed_port
    complete (space e p) = rw e (complete p)
    complete (plus i) = answered false i refl
    complete (minus i) = answered true i refl
    complete (unsigned {s = s} {n = n} i) = IsPort-unsigned s n i

    IsNumber-answer :
        (negative : Bool) (s : Bytes) (n : ℕ)
        → port_answer parse_uint negative (parse_digit_strtoul parse_uint s 16) ≡ some n
        → IsNumber s n × ((negative && not (n == 0)) ≡ false)
    IsNumber-answer negative s n h = from _ refl
      where
        from :
            (r : DigitResult)
            → parse_digit_strtoul parse_uint s 16 ≡ r
            → IsNumber s n × ((negative && not (n == 0)) ≡ false)
        from not_numeric e = absurd (cc (rw e at h))
        from invalid e = absurd (cc (rw e at h))
        from (numeric m) e =
            let i = IsNumber-sound s m e in
            let low : m < 2 ^ 16 = bounded s m i.parsed in
            elim (Bool-cases (negative && not (m == 0))) [
              | inl z ↦ absurd (cc (rw z at (rw e at h)))
              | inr z ↦
                  let q : some (m % 2 ^ 16) ≡ some n = rw z at (rw e at h) in
                  let wrapped : m % 2 ^ 16 ≡ n = cc in
                  let same : m ≡ n = omega arith in
                  let both : IsNumber s m × ((negative && not (m == 0)) ≡ false) = (i, z) in
                  rw same at both
            ]

    sound : (s : Bytes) (n : ℕ) → parse_numeric_port parse_uint s ≡ some n → IsPort s n
    unfolding parse_numeric_port trim_strtoul_space parse_signed_port
    sound [] n h = unsigned (IsNumber-answer false [] n h).0
    sound (c ∷ s) n h = elim (Bool-cases (is_strtoul_space c)) [
      | inl e ↦ space e (sound s n (rw e at h))
      | inr e ↦ elim (Bool-cases (is_sign c)) [
        | inr g ↦ unsigned (IsNumber-answer false (c ∷ s) n (sym (text_bare c s e g) ∙ h)).0
        | inl g ↦ signed (IsNumber-answer (c == b'-') s n (sym (text_signed c s e g) ∙ h)) g
      ]
    ]
      where
        signed :
            IsNumber s n × (((c == b'-') && not (n == 0)) ≡ false)
            → is_sign c ≡ true
            → IsPort (c ∷ s) n
        signed (i, z) g = elim (Bool-cases (c == b'-')) [
          | inl m ↦
              let mark : c ≡ b'-' = ground arith in
              let zeroed : n ≡ 0 = ground arith in rw mark (rw zeroed (minus (rw zeroed at i)))
          | inr m ↦ let mark : c ≡ b'+' = ground arith in rw mark (plus i)
        ]

    -- With a ParseUint whose results fit the bits it is given, parseNumericPort takes exactly the
    -- texts of a port: white space, perhaps a sign, and a number of 16 bits in the manner of
    -- strtoul, which is zero behind a minus; and it answers that number.
    pub parse_numeric_port-IsPort :
        (s : Bytes) (n : ℕ) → (parse_numeric_port parse_uint s ≡ some n) ↔ IsPort s n
    parse_numeric_port-IsPort s n = (sound s n, complete)
