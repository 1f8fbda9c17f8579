-- ===== src/Dtls/Pmtu/Steps.antt =====
-- How the working size moves.
use socat.Dtls.Pmtu.{
  max_mtu_reductions, min_path_mtu, WorkingMtu, effective_mtu, reduced, set_working_mtu,
  reduce_handshake_mtu,
}
use socat.Prelude.{arith, ◌<◌, ◌+◌, min, true, ◌≤◌, ◌⊎◌, false, ◌≡◌, ℕ}

-- A reduction that reduceHandshakeMTU reports makes the effective size smaller, not below 256 bytes,
-- below the size that was too big if that is more than 256, and counts itself, up to eight. Without
-- one the state is as it was.
pub reduce_handshake_mtu-step :
    (too_big : ℕ) (s : WorkingMtu)
    → let after = reduce_handshake_mtu too_big s in
      ((after.0 ≡ false) × (after.1 ≡ s))
      ⊎ ((after.0 ≡ true)
          × (effective_mtu after.1 < effective_mtu s)
          × (min_path_mtu ≤ effective_mtu after.1)
          × ((too_big ≤ min_path_mtu) ⊎ (effective_mtu after.1 < too_big))
          × (after.1.reductions ≡ s.reductions + 1)
          × (after.1.reductions ≤ max_mtu_reductions))
unfolding reduce_handshake_mtu reduced effective_mtu
reduce_handshake_mtu-step too_big s = ground arith

-- With a ceiling of at least 256 bytes, a confirmed size never lowers the effective size, which is
-- at least the smaller of the confirmed size and the ceiling.
pub set_working_mtu-raises :
    (n : ℕ) (s : WorkingMtu)
    → min_path_mtu ≤ s.mtu_ceiling
    → (effective_mtu s ≤ effective_mtu (set_working_mtu n s))
      × (min n s.mtu_ceiling ≤ effective_mtu (set_working_mtu n s))
      × (effective_mtu (set_working_mtu n s) ≤ s.mtu_ceiling)
unfolding set_working_mtu effective_mtu
set_working_mtu-raises n s h = ground arith
