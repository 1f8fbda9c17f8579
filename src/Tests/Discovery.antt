-- ===== src/Tests/Discovery.antt =====
-- The theorem on the discovery of the datagram size at a concrete input.
use socat.Dtls.Pmtu.{datagram_overhead, rrc_probe_overhead, effective_mtu, rrc_probe_padding}
use socat.Dtls.Discovery.Invariant.{on_discovery-IsProbing}
use socat.Dtls.Discovery.Probe.{
  after_send, probe_sent, probe_with, probe_padded, can_send_mtu_probe, send_mtu_probe,
  send_discovery_probe, phase_step, tick_mtu_discovery, expire_probe, tick_mtu_probe,
}
use socat.Dtls.Discovery.Bounded.{ticks, on_discovery, IsProbing}
use socat.Dtls.Discovery.{restart_mtu_confirm, no_finder, mtu_disabled, Discovery, Surroundings}
use socat.Prelude.{refl, ◌≡◌, arith, [], ◌∷◌, some, false, none, true, ℕ}

abbrev quiet_path : Surroundings
quiet_path = record {
  enabled = true;
  probe_min = 32;
  probe_ceiling = 1500;
  busy = false;
  cid_len = 1;
  tag_len = 16;
  peer = record { remote = 1; local = 1 };
  random = some (1 ∷ 2 ∷ 3 ∷ 4 ∷ 5 ∷ 6 ∷ 7 ∷ 8 ∷ []);
  transport = λ size. none;
}

abbrev undiscovered : Discovery
undiscovered = record {
  mtu = record {
    generation = 0;
    outstanding = none;
    phase = mtu_disabled;
    finder = no_finder;
    next_probe = 0;
    raise_at = 0;
    confirm_at = 0;
    confirm_fails = 0;
    app_since_probe = false;
    search_after_confirm = false;
  };
  working = record { path_mtu = 0; reductions = 0; mtu_ceiling = 1500 };
}

on_discovery-IsProbing_example :
    IsProbing 32 1500 (on_discovery quiet_path (ticks 100) undiscovered)
on_discovery-IsProbing_example =
    on_discovery-IsProbing 32 1500 quiet_path (omega arith) (omega arith) (ticks 100) undiscovered
      (tt, omega arith)

abbrev outstanding_size : Discovery → ℕ
outstanding_size d = elim (d.mtu.outstanding) [ none ↦ 0 | some probe ↦ probe.size ]

-- the first tick confirms the size that is in use
first_probe : outstanding_size (on_discovery quiet_path (ticks 100) undiscovered) ≡ 1500
unfolding tick_mtu_probe expire_probe tick_mtu_discovery restart_mtu_confirm phase_step
    send_discovery_probe send_mtu_probe can_send_mtu_probe rrc_probe_padding probe_padded probe_with
    probe_sent after_send effective_mtu rrc_probe_overhead datagram_overhead
first_probe = refl
