-- ===== src/Dtls/Wire/Inversion.antt =====
-- What a reader that has not failed took: the bytes before what is left.
use socat.Dtls.Wire.RoundTrip.{uint24_bytes, uint16_bytes}
use native.Mathlib.Nat.{zero-add}
use socat.Prelude.{
  ◌*◌, ◌+◌, ◌^◌, append_assoc, ap, ◌∙◌, ◌<◌, All-append_left, le→ltb, ℕ, ◌≤◌, ◌≡◌, sym, arith, [],
  ◌∷◌, ◌++◌, none, Bytes, IsByte, All, All-drop, length, length-take, take-append-drop, drop,
  take as take_bytes,
}
use socat.Dtls.Wire.{
  read_vector24, read_uint24, read_uint16, big_endian, WireReader, take, read_uint8,
}

-- `r` had not failed, and held `front` before what `r'` holds.
pub record Took (r : WireReader) (front : Bytes) (r' : WireReader) : Type 0 where
  pub sound : r.failure ≡ none
  pub split : r.data_left ≡ front ++ r'.data_left
  pub bytes_left : All IsByte r.data_left → All IsByte r'.data_left

-- An unsuccessful `take` leaves the error set; a successful one had room.
take_room :
    (n : ℕ) (r : WireReader)
    → (take n r).1.failure ≡ none
    → (r.failure ≡ none) × (n ≤ length r.data_left)
unfolding take
take_room n r h = ground arith

take_result :
    (n : ℕ) (r : WireReader)
    → r.failure ≡ none
    → n ≤ length r.data_left
    → take n r ≡ (take_bytes n r.data_left, record r { data_left = drop n r.data_left })
unfolding take
take_result n r e h = rw (e, le→ltb (length r.data_left) n h)

pub take-Took :
    (n : ℕ) (r : WireReader)
    → (take n r).1.failure ≡ none
    → Took r (take n r).0 (take n r).1 × (length (take n r).0 ≡ n)
take-Took n r h =
    let (e, room) = take_room n r h in
    rw (take_result n r e room) (
      record {
        sound = e;
        split = sym (take-append-drop n r.data_left);
        bytes_left = All-drop IsByte n r.data_left;
      },
      omega (arith, length-take n r.data_left),
    )

front_bytes :
    {front : Bytes} {r r' : WireReader}
    → Took r front r'
    → All IsByte r.data_left
    → All IsByte front
front_bytes {front} {r} {r'} t h = All-append_left IsByte front r'.data_left (rw t.split at h)

pub read_uint8-Took :
    (r : WireReader)
    → (read_uint8 r).1.failure ≡ none
    → Took r ((read_uint8 r).0 ∷ []) (read_uint8 r).1
unfolding read_uint8
read_uint8-Took r h = let (t, n) = take-Took 1 r h in one (take 1 r).0 (take 1 r).1 t n
  where
    one :
        (v : Bytes) (r' : WireReader) → Took r v r' → length v ≡ 1 → Took r (big_endian 0 v ∷ []) r'
    one (a ∷ []) r' t n = rw zero-add t
    one [] r' t n = absurd (omega arith)
    one (a ∷ b ∷ v) r' t n = absurd (omega arith)

-- An error that is set stays set.
module _ (r : WireReader) where
  pub read_uint16_sound : (read_uint16 r).1.failure ≡ none → r.failure ≡ none
  unfolding read_uint16
  read_uint16_sound h = (take_room 2 r h).0

  pub read_uint24_sound : (read_uint24 r).1.failure ≡ none → r.failure ≡ none
  unfolding read_uint24
  read_uint24_sound h = (take_room 3 r h).0

  pub read_vector24_sound : (read_vector24 r).1.failure ≡ none → r.failure ≡ none
  unfolding read_vector24
  read_vector24_sound h = read_uint24_sound (take_room (read_uint24 r).0 (read_uint24 r).1 h).0

uint16_digits : (a b : ℕ) → b < 256 → uint16_bytes ((0 + a) * 256 + b) ≡ a ∷ b ∷ []
uint16_digits a b q = ground arith

uint24_digits :
    (a b c : ℕ)
    → a < 256
    → b < 256
    → c < 256
    → uint24_bytes (((0 + a) * 256 + b) * 256 + c) ≡ a ∷ b ∷ c ∷ []
uint24_digits a b c p q s = ground arith

pub read_uint16-Took :
    (r : WireReader)
    → All IsByte r.data_left
    → (read_uint16 r).1.failure ≡ none
    → Took r (uint16_bytes (read_uint16 r).0) (read_uint16 r).1 × ((read_uint16 r).0 < 2 ^ 16)
unfolding read_uint16
read_uint16-Took r bytes h =
    let (t, n) = take-Took 2 r h in two (take 2 r).0 (take 2 r).1 t (front_bytes t bytes) n
  where
    two :
        (v : Bytes) (r' : WireReader)
        → Took r v r'
        → All IsByte v
        → length v ≡ 2
        → Took r (uint16_bytes (big_endian 0 v)) r' × (big_endian 0 v < 2 ^ 16)
    two (a ∷ b ∷ []) r' t q n = (rw (uint16_digits a b q.1.0) t, omega (arith, q.0, q.1.0))
    two [] r' t q n = absurd (omega arith)
    two (a ∷ []) r' t q n = absurd (omega arith)
    two (a ∷ b ∷ c ∷ v) r' t q n = absurd (omega arith)

pub read_uint24-Took :
    (r : WireReader)
    → All IsByte r.data_left
    → (read_uint24 r).1.failure ≡ none
    → Took r (uint24_bytes (read_uint24 r).0) (read_uint24 r).1 × ((read_uint24 r).0 < 2 ^ 24)
unfolding read_uint24
read_uint24-Took r bytes h =
    let (t, n) = take-Took 3 r h in three (take 3 r).0 (take 3 r).1 t (front_bytes t bytes) n
  where
    three :
        (v : Bytes) (r' : WireReader)
        → Took r v r'
        → All IsByte v
        → length v ≡ 3
        → Took r (uint24_bytes (big_endian 0 v)) r' × (big_endian 0 v < 2 ^ 24)
    three (a ∷ b ∷ c ∷ []) r' t q n =
        (rw (uint24_digits a b c q.0 q.1.0 q.1.1.0) t, omega (arith, q.0, q.1.0, q.1.1.0))
    three [] r' t q n = absurd (omega arith)
    three (a ∷ []) r' t q n = absurd (omega arith)
    three (a ∷ b ∷ []) r' t q n = absurd (omega arith)
    three (a ∷ b ∷ c ∷ d ∷ v) r' t q n = absurd (omega arith)

pub Took-trans : {a b : Bytes} {r s t : WireReader} → Took r a s → Took s b t → Took r (a ++ b) t
Took-trans {a} {b} {r} {s} {t} p q = record {
  sound = p.sound;
  split = p.split ∙ ap (λ (x : Bytes). a ++ x) q.split ∙ sym (append_assoc a b t.data_left);
  bytes_left = λ h. q.bytes_left (p.bytes_left h);
}

pub read_vector24-Took :
    (r : WireReader)
    → All IsByte r.data_left
    → (read_vector24 r).1.failure ≡ none
    → Took r (uint24_bytes (length (read_vector24 r).0) ++ (read_vector24 r).0) (read_vector24 r).1
unfolding read_vector24
read_vector24-Took r bytes h =
    let (t, n) = take-Took (read_uint24 r).0 (read_uint24 r).1 h in
    let (s, lt) = read_uint24-Took r bytes t.sound in rw n (Took-trans s t)
