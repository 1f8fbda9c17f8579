-- ===== src/Dtls/MtuSearch.antt =====
-- internal/dtls13/pmtu_search.go: the search for the largest datagram that a path carries. Sizes
-- are non-negative; `none` is invalidProbeSize in a slot of the array `lost`.
use socat.Prelude.{
  ◌++◌, drop, length, ◌&&◌, replicate, [], take, ◌/◌, some, zero, false, ◌||◌, ◌+◌, none, ◌-◌, ◌∷◌,
  ltb, suc, true, Option, get_or, leb, if◌then◌else◌, List, Bool, ℕ,
}
pub mod Bounds
pub mod Answers

abbrev pub max_mtu_diff : ℕ
max_mtu_diff = 20

abbrev pub max_lost_mtu_probes : ℕ
max_lost_mtu_probes = 3

abbrev pub max_search_probes : ℕ
max_search_probes = 24

pub record MtuFinder : Type 0 where
  pub floor : ℕ
  pub lost : List (Option ℕ)
  pub last_probe_was_lost : Bool
  pub in_flight : ℕ
  pub probes : ℕ

-- `init(start, ceiling)`
unfoldable pub init : ℕ → ℕ → MtuFinder
init start ceiling =
    let low = if ltb start 1 then 1 else start in
    let high = if ltb ceiling low then low else ceiling in
    record {
      floor = low;
      lost = some high ∷ replicate (max_lost_mtu_probes - 1) none;
      last_probe_was_lost = false;
      in_flight = 0;
      probes = 0;
    }

-- The last valid slot; `above` is the slot before, or the floor.
unfoldable pub last_valid : ℕ → List (Option ℕ) → ℕ
last_valid above [] = above
last_valid above (none ∷ vs) = above
last_valid above (some v ∷ vs) = last_valid v vs

unfoldable pub ceiling : MtuFinder → ℕ
ceiling f = last_valid f.floor f.lost

unfoldable pub done : MtuFinder → Bool
done f = leb (ceiling f - f.floor) (max_mtu_diff + 1) || leb max_search_probes f.probes

-- `f.lost[0]`
unfoldable pub first_lost : MtuFinder → ℕ
first_lost f = elim (get_or f.lost 0 none) [ none ↦ 0 | some v ↦ v ]

-- the midpoint, moved inside the open interval
unfoldable pub middle : MtuFinder → ℕ
middle f =
    let size =
      if f.last_probe_was_lost then (f.floor + first_lost f) / 2 else (f.floor + ceiling f) / 2 in
    let raised = if leb size f.floor then f.floor + 1 else size in
    if leb (ceiling f) raised && ltb f.floor (ceiling f) then ceiling f - 1 else raised

unfoldable pub next_size : MtuFinder → ℕ
next_size f =
    if done f
    then 0
    else if leb (middle f) f.floor || ltb (ceiling f) (middle f)
    then 0
    else middle f

-- `size < v` for a slot `v`: no size is below invalidProbeSize
abbrev pub below : ℕ → Option ℕ → Bool
below size none = false
below size (some v) = ltb size v

-- the first slot above `size`; 0 if there is none
unfoldable pub slot_above : ℕ → ℕ → List (Option ℕ) → ℕ
slot_above i size [] = 0
slot_above i size (v ∷ vs) =
    let later = slot_above (i + 1) size vs in if below size v then i else later

unfoldable pub on_acked : ℕ → MtuFinder → MtuFinder
on_acked size f =
    let j = slot_above 0 size f.lost in
    record f {
      in_flight = 0;
      floor = if ltb f.floor size then size else f.floor;
      last_probe_was_lost = false;
      lost = take (length f.lost) (drop j f.lost ++ replicate j none);
    }

-- `size` before the first slot above it; the last slot falls out
unfoldable pub insert_lost : ℕ → List (Option ℕ) → List (Option ℕ)
insert_lost size [] = []
insert_lost size (v ∷ vs) =
    let later = insert_lost size vs in
    if below size v then some size ∷ take (length vs) (v ∷ vs) else v ∷ later

unfoldable pub on_lost : ℕ → MtuFinder → MtuFinder
on_lost size f = record f {
  last_probe_was_lost = true;
  in_flight = 0;
  lost = insert_lost size f.lost;
}

-- `for range n { f.onLost(size) }`
unfoldable pub repeat_lost : ℕ → ℕ → MtuFinder → MtuFinder
repeat_lost zero size f = f
repeat_lost (suc n) size f = repeat_lost n size (on_lost size f)

unfoldable pub reject_hard : ℕ → MtuFinder → MtuFinder
reject_hard size f = repeat_lost max_lost_mtu_probes size f
