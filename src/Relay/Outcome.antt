-- ===== src/Relay/Outcome.antt =====
-- internal/relay/relay.go: the classified results of the two directions and the error that a
-- transfer reports. An error value is a parameter `E`; Go compares it with context.Canceled by
-- identity, which `is_canceled` stands for.
use socat.Prelude.{◌∷◌, ◌++◌, [], List, if◌then◌else◌, some, none, Option, Bool}

pub data Direction : Type 0 where
  left_to_right right_to_left : Direction

-- `classEOF`, `classClosed`, `classCanceled`, `classFailed`; the error stands with the last two.
pub data Class (E : Type 0) : Type 0 where
  eof closed : Class E
  canceled failed : E → Class E

pub record DirOutcome (E : Type 0) : Type 0 where
  pub dir : Direction
  pub class : Class E

-- A direction that has not returned has no outcome.
pub record TransferOutcomes (E : Type 0) : Type 0 where
  pub left : Option (DirOutcome E)
  pub right : Option (DirOutcome E)
  pub inspect : List Direction

module _ {E : Type 0} where
  abbrev pub dir_eof : Direction → DirOutcome E
  dir_eof d = record { dir = d; class = eof }

  abbrev pub dir_closed : Direction → DirOutcome E
  dir_closed d = record { dir = d; class = closed }

  unfoldable pub classify_dir_error : (E → Bool) → Direction → E → DirOutcome E
  classify_dir_error is_canceled d e =
      if is_canceled e
      then record { dir = d; class = canceled e }
      else record { dir = d; class = failed e }

  abbrev pub no_outcomes : TransferOutcomes E
  no_outcomes = record { left = none; right = none; inspect = [] }

  unfoldable pub store : DirOutcome E → TransferOutcomes E → TransferOutcomes E
  store r o = elim r.dir [
    | left_to_right ↦ record o { left = some r }
    | right_to_left ↦ record o { right = some r }
  ]

  unfoldable pub accept : DirOutcome E → Bool → TransferOutcomes E → TransferOutcomes E
  accept r live o =
      let stored = store r o in
      if live then record stored { inspect = stored.inspect ++ (r.dir ∷ []) } else stored

  unfoldable pub outcome : TransferOutcomes E → Direction → Option (DirOutcome E)
  outcome o left_to_right = o.left
  outcome o right_to_left = o.right

  -- `fmt.Errorf("%s: %w", dir, err)` as the pair of the direction and the error
  unfoldable pub select_transfer_error :
      Option (Direction × E) → Option (DirOutcome E) → Option (Direction × E)
  select_transfer_error (some e) o = some e
  select_transfer_error none none = none
  select_transfer_error none (some o) = elim o.class [
    | failed e ↦ some (o.dir, e)
    | canceled e ↦ none
    | closed ↦ none
    | eof ↦ none
  ]

  -- the loop over `o.inspect`
  unfoldable pub select_from :
      Option (Direction × E) → List Direction → TransferOutcomes E → Option (Direction × E)
  select_from first [] o = first
  select_from first (d ∷ ds) o = select_from (select_transfer_error first (outcome o d)) ds o

  unfoldable pub selected_transfer_error : TransferOutcomes E → Option (Direction × E)
  selected_transfer_error o = select_from none o.inspect o
