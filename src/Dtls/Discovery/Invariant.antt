-- ===== src/Dtls/Discovery/Invariant.antt =====
-- The invariant of the discovery over its events.
use socat.Dtls.Protection.{same}
use socat.Dtls.Pmtu.{rrc_message_len, effective_mtu}
use socat.Dtls.Path.{same_path, path_response, path_drop, PacketPath}
use socat.Dtls.MtuSearch.{next_size, reject_hard}
use socat.Dtls.Discovery.Bounded.{
  restarts, answers, ticks, on_discovery, on_mtu_probe_acked-IsProbing,
  restart_mtu_confirm-IsProbing, begin_mtu_search-IsProbing, DiscoveryEvent,
  schedule_mtu_watch-IsProbing, on_mtu_probe_lost-IsProbing, watch_if_done-IsProbing, either_way,
  Inside, IsProbing,
}
use socat.Dtls.Error.{ok, err, Result}
use socat.Dtls.Discovery.{
  mtu_watch, mtu_search, mtu_disabled, probe_search, restart_mtu_confirm, mtu_confirm,
  begin_mtu_search, MtuPhase, probe_confirm, is_search, probe_pace, probe_timeout, with_mtu,
  MtuProbe, Discovery, ProbeError, MtuProbeKind, Surroundings,
}
use socat.Dtls.Discovery.Probe.{
  is_search_phase, set_outstanding, receive_mtu_probe, is_disabled, tick_mtu_probe, probe_answered,
  expire_probe, tick_mtu_discovery, phase_step, watch_step, raise_step, search_step, is_bad_size,
  is_too_big, probe_with, can_send_mtu_probe, send_discovery_probe, send_mtu_probe, after_send,
  probe_padded, probe_sent,
}
use socat.Prelude.{
  drop, ◌||◌, length, get_or, is_some, ◌==◌, leb, false, arith, if◌then◌else◌, true, not, ◌&&◌,
  refl, ltb, Bool-cases, ◌+◌, inl, inr, Bytes, none, Option-cases, some, ◌≤◌, Option, ℕ,
}

module _ (lo hi : ℕ) where
  probe_sent-IsProbing :
      (r : Option ProbeError) (probe : MtuProbe) (d : Discovery)
      → IsProbing lo hi d
      → Inside lo hi d.mtu.generation (some probe)
      → IsProbing lo hi (probe_sent r probe d).1
  unfolding probe_sent
  probe_sent-IsProbing none probe d h i = (i, h.1)
  probe_sent-IsProbing (some e) probe d h i = (tt, h.1)

  probe_padded-IsProbing :
      (r : Result ℕ) (env : Surroundings) (size now : ℕ) (kind : MtuProbeKind) (d : Discovery)
      → IsProbing lo hi d
      → lo ≤ size
      → size ≤ hi
      → IsProbing lo hi (probe_padded r env size now kind d).1
  unfolding probe_padded
  probe_padded-IsProbing (err e) env size now kind d h a b = h
  probe_padded-IsProbing (ok pad) env size now kind d h a b = probe_with-IsProbing env.random
    where
      probe_with-IsProbing :
          (o : Option Bytes) → IsProbing lo hi (probe_with o env size now kind d).1
      probe_with-IsProbing none = unfold probe_with in h
      probe_with-IsProbing (some cookie) =
          unfold probe_with in
          probe_sent-IsProbing (env.transport size)
            record {
              cookie = cookie;
              size = size;
              generation = d.mtu.generation;
              deadline = now + probe_timeout;
              path = env.peer;
              kind = kind;
            }
            d h (a, (b, refl))

  after_send-IsProbing :
      (size now : ℕ) (kind : MtuProbeKind) (r : Option ProbeError × Discovery)
      → IsProbing lo hi r.1
      → IsProbing lo hi (after_send size now kind r)
  unfolding after_send
  after_send-IsProbing size now kind (none, d) h = h
  after_send-IsProbing size now kind (some e, d) h =
      let rejected =
        with_mtu
          (record (d.mtu) { finder = reject_hard size d.mtu.finder; next_probe = now + probe_pace })
          d in
      either_way lo hi (is_search kind && is_too_big e) _ _
        (watch_if_done-IsProbing lo hi now rejected h)
        (either_way lo hi (not (is_search kind) && is_too_big e) _ _
          (on_mtu_probe_lost-IsProbing lo hi size probe_confirm now true d h)
          (either_way lo hi (is_bad_size e) _ _ (schedule_mtu_watch-IsProbing lo hi now d h) h))

  send_mtu_probe-IsProbing :
      (env : Surroundings) (size now : ℕ) (kind : MtuProbeKind) (d : Discovery)
      → IsProbing lo hi d
      → lo ≤ size
      → size ≤ hi
      → IsProbing lo hi (send_mtu_probe env size now kind d).1
  unfolding send_mtu_probe
  send_mtu_probe-IsProbing env size now kind d h a b =
      elim (Option-cases (can_send_mtu_probe env d)) [
        | inr (e, q) ↦ rw (q, send_mtu_probe) h
        | inl q ↦ elim (Bool-cases (ltb d.working.mtu_ceiling size)) [
          | inl c ↦ rw (q, send_mtu_probe) (rw c h)
          | inr c ↦
              rw (q, send_mtu_probe) (rw c (probe_padded-IsProbing _ env size now kind d h a b))
        ]
      ]

  module _ (env : Surroundings) (low : lo ≤ env.probe_min) (high : env.probe_ceiling ≤ hi) where
    send_discovery_probe-IsProbing :
        (wanted now : ℕ) (kind : MtuProbeKind) (d : Discovery)
        → IsProbing lo hi d
        → IsProbing lo hi (send_discovery_probe env wanted now kind d)
    unfolding send_discovery_probe
    send_discovery_probe-IsProbing wanted now kind d h =
        let size = if ltb wanted env.probe_min then env.probe_min else wanted in
        let least : lo ≤ size = ground arith in
        let watch = schedule_mtu_watch-IsProbing lo hi now d h in
        elim (Bool-cases (ltb env.probe_ceiling size)) [
          | inl e ↦ rw e watch
          | inr e ↦
              let most : size ≤ hi = ground arith in
              let sent = send_mtu_probe-IsProbing env size now kind d h least most in
              rw e (
                either_way lo hi (is_search kind && leb size d.mtu.finder.floor) _ _ watch
                  (after_send-IsProbing size now kind (send_mtu_probe env size now kind d) sent))
        ]

    search_step-IsProbing :
        (now : ℕ) (d : Discovery) → IsProbing lo hi d → IsProbing lo hi (search_step env now d)
    unfolding search_step
    search_step-IsProbing now d h =
        let size = next_size d.mtu.finder in
        either_way lo hi (size == 0) _ _ (schedule_mtu_watch-IsProbing lo hi now d h)
          (send_discovery_probe-IsProbing size now probe_search d h)

    raise_step-IsProbing :
        (now : ℕ) (d : Discovery) → IsProbing lo hi d → IsProbing lo hi (raise_step env now d)
    unfolding raise_step
    raise_step-IsProbing now d h =
        let quiet = with_mtu (record (d.mtu) { app_since_probe = false }) d in
        let started = begin_mtu_search env.probe_ceiling now quiet in
        let begun = begin_mtu_search-IsProbing lo hi env.probe_ceiling now quiet h in
        either_way lo hi (is_search_phase started.mtu.phase) _ _
          (search_step-IsProbing now started begun) begun

    watch_step-IsProbing :
        (now : ℕ) (d : Discovery) → IsProbing lo hi d → IsProbing lo hi (watch_step env now d)
    unfolding watch_step
    watch_step-IsProbing now d h =
        let confirming =
          with_mtu
            (record (d.mtu) {
              app_since_probe = false;
              phase = mtu_confirm;
              search_after_confirm = false;
              confirm_fails = 0;
            })
            d in
        let probed =
          send_discovery_probe-IsProbing (effective_mtu d.working) now probe_confirm confirming
            (h.0, omega arith) in
        either_way lo hi (not d.mtu.app_since_probe) _ _ h (
          either_way lo hi (not (d.mtu.raise_at == 0) && not (ltb now d.mtu.raise_at)) _ _
            (raise_step-IsProbing now d h)
            (either_way lo hi (not (d.mtu.confirm_at == 0) && not (ltb now d.mtu.confirm_at)) _ _
              probed h))

    phase_step-IsProbing :
        (phase : MtuPhase) (now : ℕ) (d : Discovery)
        → IsProbing lo hi d
        → IsProbing lo hi (phase_step phase env now d)
    unfolding phase_step
    phase_step-IsProbing mtu_disabled now d h = h
    phase_step-IsProbing mtu_confirm now d h =
        send_discovery_probe-IsProbing (effective_mtu d.working) now probe_confirm d h
    phase_step-IsProbing mtu_search now d h = search_step-IsProbing now d h
    phase_step-IsProbing mtu_watch now d h = watch_step-IsProbing now d h

    tick_mtu_discovery-IsProbing :
        (now : ℕ) (d : Discovery)
        → IsProbing lo hi d
        → IsProbing lo hi (tick_mtu_discovery env now d)
    unfolding tick_mtu_discovery
    tick_mtu_discovery-IsProbing now d h =
        let live = if is_disabled d.mtu.phase then restart_mtu_confirm env.enabled d else d in
        let live-IsProbing : IsProbing lo hi live =
          either_way lo hi (is_disabled d.mtu.phase) _ _
            (restart_mtu_confirm-IsProbing lo hi env.enabled d) h in
        either_way lo hi (is_some d.mtu.outstanding) _ _ h (
          either_way lo hi (not env.enabled) _ _ h (
            either_way lo hi (not (live.mtu.next_probe == 0) && ltb now live.mtu.next_probe) _ _
              live-IsProbing (phase_step-IsProbing live.mtu.phase now live live-IsProbing)))

    expire_probe-IsProbing :
        (o : Option MtuProbe) (now : ℕ) (d : Discovery)
        → IsProbing lo hi d
        → IsProbing lo hi (expire_probe o now d)
    unfolding expire_probe
    expire_probe-IsProbing none now d h = h
    expire_probe-IsProbing (some b) now d h = either_way lo hi (ltb now b.deadline) _ _ h (
        on_mtu_probe_lost-IsProbing lo hi b.size b.kind now false (set_outstanding none d)
          (tt, h.1))

    probe_answered-IsProbing :
        (o : Option MtuProbe) (from : PacketPath) (body : Bytes) (now : ℕ) (d : Discovery)
        → IsProbing lo hi d
        → IsProbing lo hi (probe_answered o env from body now d)
    unfolding probe_answered
    probe_answered-IsProbing none from body now d h = h
    probe_answered-IsProbing (some b) from body now d h =
        let free = set_outstanding none d in
        let lost = on_mtu_probe_lost-IsProbing lo hi b.size b.kind now false free (tt, h.1) in
        let acked = on_mtu_probe_acked-IsProbing lo hi env b now free (tt, h.1) in
        let typ = get_or body 0 0 in
        either_way lo hi (not (length body == rrc_message_len) || env.busy) _ _ h (
          either_way lo hi (not (typ == path_response) && not (typ == path_drop)) _ _ h (
            either_way lo hi
              (not (b.generation == d.mtu.generation) || not (same (drop 1 body) b.cookie)) _ _ h
              (either_way lo hi (not (same_path from b.path) || not (ltb now b.deadline)) _ _ h
                (either_way lo hi (typ == path_drop) _ _ lost acked))))

    -- An event of the discovery keeps the invariant: an outstanding probe is of the current
    -- generation and of a size within the bounds of the session, and fewer confirmations have
    -- failed than make the size be reduced.
    pub on_discovery-IsProbing :
        (e : DiscoveryEvent) (d : Discovery)
        → IsProbing lo hi d
        → IsProbing lo hi (on_discovery env e d)
    unfolding tick_mtu_probe receive_mtu_probe
    on_discovery-IsProbing (ticks now) d h =
        tick_mtu_discovery-IsProbing now (expire_probe d.mtu.outstanding now d)
          (expire_probe-IsProbing d.mtu.outstanding now d h)
    on_discovery-IsProbing (answers from body now) d h =
        probe_answered-IsProbing d.mtu.outstanding from body now d h
    on_discovery-IsProbing restarts d h = restart_mtu_confirm-IsProbing lo hi env.enabled d
