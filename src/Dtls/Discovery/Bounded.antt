-- ===== src/Dtls/Discovery/Bounded.antt =====
-- The probes of the discovery stay within their bounds.
use socat.Dtls.Pmtu.{reduce_handshake_mtu, effective_mtu}
use socat.Dtls.Discovery.Probe.{receive_mtu_probe, tick_mtu_probe}
use socat.Dtls.MtuSearch.{on_lost, on_acked, init, done}
use socat.Dtls.Path.{PacketPath}
use socat.Dtls.Discovery.{
  is_search, probe_pace, MtuProbeKind, on_mtu_probe_lost, with_mtu, max_confirm_fails, MtuProbe,
  confirm_failed, on_mtu_probe_acked, watch_if_done, raise_working, begin_mtu_search,
  schedule_mtu_watch, restart_mtu_confirm, Surroundings, Discovery,
}
use socat.Prelude.{
  inr, ltb→lt, inl, Bool-cases, ◌+◌, none, ◌≡◌, false, ◌≤◌, true, some, if◌then◌else◌, not, ltb,
  arith, Bytes, ◌<◌, Bool, Option, ℕ,
}

-- The outstanding probe is of the current generation, with a size from `lo` to `hi`.
abbrev pub Inside : ℕ → ℕ → ℕ → Option MtuProbe → Type 0
Inside lo hi generation none = Unit
Inside lo hi generation (some b) = (lo ≤ b.size) × ((b.size ≤ hi) × (b.generation ≡ generation))

-- This, and fewer failed confirmations than make the size be reduced.
abbrev pub IsProbing : ℕ → ℕ → Discovery → Type 0
IsProbing lo hi d =
    Inside lo hi d.mtu.generation d.mtu.outstanding × (d.mtu.confirm_fails < max_confirm_fails)

pub data DiscoveryEvent : Type 0 where
  ticks : (now : ℕ) → DiscoveryEvent
  answers : (from : PacketPath) (body : Bytes) (now : ℕ) → DiscoveryEvent
  restarts : DiscoveryEvent

-- tickMTUProbe, receiveMTUProbe and restartMTUConfirm
abbrev pub on_discovery : Surroundings → DiscoveryEvent → Discovery → Discovery
on_discovery env (ticks now) d = tick_mtu_probe env now d
on_discovery env (answers from body now) d = receive_mtu_probe env from body now d
on_discovery env restarts d = restart_mtu_confirm env.enabled d

module _ (lo hi : ℕ) where
  pub either_way :
      (b : Bool) (x y : Discovery)
      → IsProbing lo hi x
      → IsProbing lo hi y
      → IsProbing lo hi (if b then x else y)
  either_way true x y hx hy = hx
  either_way false x y hx hy = hy

  pub restart_mtu_confirm-IsProbing :
      (enabled : Bool) (d : Discovery) → IsProbing lo hi (restart_mtu_confirm enabled d)
  unfolding restart_mtu_confirm
  restart_mtu_confirm-IsProbing true d = (tt, omega arith)
  restart_mtu_confirm-IsProbing false d = (tt, omega arith)

  pub schedule_mtu_watch-IsProbing :
      (now : ℕ) (d : Discovery) → IsProbing lo hi d → IsProbing lo hi (schedule_mtu_watch now d)
  unfolding schedule_mtu_watch
  schedule_mtu_watch-IsProbing now d h = h

  pub begin_mtu_search-IsProbing :
      (size now : ℕ) (d : Discovery)
      → IsProbing lo hi d
      → IsProbing lo hi (begin_mtu_search size now d)
  unfolding begin_mtu_search schedule_mtu_watch
  begin_mtu_search-IsProbing size now d h =
      either_way (done (init (effective_mtu d.working) size)) _ _ h h

  pub raise_working-IsProbing :
      (size : ℕ) (d : Discovery) → IsProbing lo hi d → IsProbing lo hi (raise_working size d)
  unfolding raise_working
  raise_working-IsProbing size d h = either_way (ltb (effective_mtu d.working) size) _ _ h h

  pub watch_if_done-IsProbing :
      (now : ℕ) (d : Discovery) → IsProbing lo hi d → IsProbing lo hi (watch_if_done now d)
  unfolding watch_if_done schedule_mtu_watch
  watch_if_done-IsProbing now d h = either_way (done d.mtu.finder) _ _ h h

  pub on_mtu_probe_acked-IsProbing :
      (env : Surroundings) (probe : MtuProbe) (now : ℕ) (d : Discovery)
      → IsProbing lo hi d
      → IsProbing lo hi (on_mtu_probe_acked env probe now d)
  unfolding on_mtu_probe_acked
  on_mtu_probe_acked-IsProbing env probe now d h =
      let paced = with_mtu (record (d.mtu) { next_probe = now + probe_pace }) d in
      let found =
        with_mtu (record (paced.mtu) { finder = on_acked probe.size paced.mtu.finder }) paced in
      let cleared = with_mtu (record (paced.mtu) { confirm_fails = 0 }) paced in
      let none_failed : IsProbing lo hi cleared = (h.0, omega arith) in
      let raised = raise_working-IsProbing probe.size cleared none_failed in
      either_way (is_search probe.kind) _ _
        (watch_if_done-IsProbing now (raise_working probe.size found)
          (raise_working-IsProbing probe.size found h))
        (either_way (raise_working probe.size cleared).mtu.search_after_confirm _ _
          (begin_mtu_search-IsProbing env.probe_ceiling now (raise_working probe.size cleared)
            raised)
          (schedule_mtu_watch-IsProbing now (raise_working probe.size cleared) raised))

  pub confirm_failed-IsProbing :
      (size now : ℕ) (d : Discovery)
      → Inside lo hi d.mtu.generation d.mtu.outstanding
      → IsProbing lo hi (confirm_failed size now d)
  unfolding confirm_failed schedule_mtu_watch
  confirm_failed-IsProbing size now d h =
      either_way (not (reduce_handshake_mtu size d.working).0) _ _ (h, omega arith) (h, omega arith)

  pub on_mtu_probe_lost-IsProbing :
      (size : ℕ) (kind : MtuProbeKind) (now : ℕ) (hard : Bool) (d : Discovery)
      → IsProbing lo hi d
      → IsProbing lo hi (on_mtu_probe_lost size kind now hard d)
  unfolding on_mtu_probe_lost
  on_mtu_probe_lost-IsProbing size kind now hard d h =
      let paced = with_mtu (record (d.mtu) { next_probe = now + probe_pace }) d in
      let lost = with_mtu (record (paced.mtu) { finder = on_lost size paced.mtu.finder }) paced in
      let fails = if hard then max_confirm_fails else d.mtu.confirm_fails + 1 in
      let counted = with_mtu (record (paced.mtu) { confirm_fails = fails }) paced in
      either_way (is_search kind) _ _ (watch_if_done-IsProbing now lost h)
        (elim (Bool-cases (ltb fails max_confirm_fails)) [
          | inl e ↦ rw e (h.0, ltb→lt fails max_confirm_fails e)
          | inr e ↦ rw e (confirm_failed-IsProbing size now counted h.0)
        ])
