-- ===== src/Dtls/Budget.antt =====
-- internal/dtls13/budget.go: the byte budget that reassemblers share. A nil budget is `none`. The
-- compare-and-swap loop is one atomic step; `used` never passes `limit`, so both stay natural numbers.
use socat.Prelude.{ℕ, ◌+◌, ◌-◌, Option, none, some, ltb, if◌then◌else◌}

pub record MemoryBudget : Type 0 where
  pub used : ℕ
  pub limit : ℕ

-- `none` is the answer false; `some` holds the budget after a reservation.
unfoldable pub reserve : ℕ → Option MemoryBudget → Option (Option MemoryBudget)
reserve size none = some none
reserve size (some b) =
    if ltb b.limit (b.used + size) then none else some (some (record b { used = b.used + size }))

unfoldable pub release : ℕ → Option MemoryBudget → Option MemoryBudget
release size none = none
release size (some b) = some (record b { used = b.used - size })
