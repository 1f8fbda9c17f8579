-- ===== src/Dtls/Discovery/Probe.antt =====
-- The probes of internal/dtls13/pmtu_probe.go, and sendDiscoveryProbe and tickMTUDiscovery of
-- internal/dtls13/pmtu_discover.go.
use socat.Dtls.MtuSearch.{reject_hard, next_size}
use socat.Dtls.Protection.{same}
use socat.Dtls.Path.{path_drop, path_response, PacketPath, same_path}
use socat.Dtls.Pmtu.{rrc_message_len, effective_mtu, rrc_probe_padding}
use socat.Dtls.Error.{record_overflow, ok, err, Result, Error}
use socat.Dtls.Discovery.{
  probe_pending, mtu_watch, probe_pace, probe_timeout, probe_busy, mtu_confirm, mtu_search,
  probe_search, probe_disabled, mtu_disabled, is_search, other_error, message_too_long,
  on_mtu_probe_acked, probe_confirm, with_mtu, bad_size, watch_if_done, MtuProbeKind, MtuProbe,
  too_long_record, too_big, Discovery, restart_mtu_confirm, begin_mtu_search, MtuPhase,
  schedule_mtu_watch, on_mtu_probe_lost, ProbeError, Surroundings,
}
use socat.Prelude.{
  drop, get_or, ◌||◌, leb, ◌+◌, length, ◌&&◌, ◌==◌, is_some, false, ltb, none, not, if◌then◌else◌,
  true, some, Bool, Bytes, Option, ℕ,
}

unfoldable pub can_send_mtu_probe : Surroundings → Discovery → Option ProbeError
can_send_mtu_probe env d =
    if not env.enabled
    then some probe_disabled
    else if env.busy
    then some probe_busy
    else if is_some d.mtu.outstanding
    then some probe_pending
    else none

abbrev pub to_large_error : ProbeError → ProbeError
to_large_error message_too_long = too_big
to_large_error e = e

-- the errors of rrcProbePadding
abbrev pub padding_error : Error → ProbeError
padding_error record_overflow = too_long_record
padding_error e = bad_size

abbrev pub set_outstanding : Option MtuProbe → Discovery → Discovery
set_outstanding o d = with_mtu (record (d.mtu) { outstanding = o }) d

-- After the probe was handed over: without an error it is outstanding.
unfoldable pub probe_sent : Option ProbeError → MtuProbe → Discovery → Option ProbeError × Discovery
probe_sent none probe d = (none, set_outstanding (some probe) d)
probe_sent (some e) probe d = (some (to_large_error e), set_outstanding none d)

unfoldable pub probe_with :
    Option Bytes → Surroundings → ℕ → ℕ → MtuProbeKind → Discovery → Option ProbeError × Discovery
unfolding probe_sent
probe_with none env size now kind d = (some other_error, d)
probe_with (some cookie) env size now kind d =
    probe_sent (env.transport size)
      record {
        cookie = cookie;
        size = size;
        generation = d.mtu.generation;
        deadline = now + probe_timeout;
        path = env.peer;
        kind = kind;
      }
      d

unfoldable pub probe_padded :
    Result ℕ → Surroundings → ℕ → ℕ → MtuProbeKind → Discovery → Option ProbeError × Discovery
unfolding probe_with
probe_padded (err e) env size now kind d = (some (padding_error e), d)
probe_padded (ok pad) env size now kind d = probe_with env.random env size now kind d

unfoldable pub send_mtu_probe :
    Surroundings → ℕ → ℕ → MtuProbeKind → Discovery → Option ProbeError × Discovery
unfolding can_send_mtu_probe probe_padded rrc_probe_padding
send_mtu_probe env size now kind d = elim (can_send_mtu_probe env d) [
  | some e ↦ (some e, d)
  | none ↦
      if ltb d.working.mtu_ceiling size
      then (some bad_size, d)
      else probe_padded (rrc_probe_padding size env.cid_len env.tag_len) env size now kind d
]

abbrev pub is_too_big : ProbeError → Bool
is_too_big too_big = true
is_too_big message_too_long = true
is_too_big e = false

abbrev pub is_bad_size : ProbeError → Bool
is_bad_size bad_size = true
is_bad_size too_long_record = true
is_bad_size e = false

-- sendDiscoveryProbe after its call of sendMTUProbe
unfoldable pub after_send : ℕ → ℕ → MtuProbeKind → Option ProbeError × Discovery → Discovery
unfolding on_mtu_probe_lost watch_if_done schedule_mtu_watch reject_hard
after_send size now kind (none, d) =
    let f = d.mtu.finder in
    let counted =
      if is_search kind then record f { in_flight = size; probes = f.probes + 1 } else f in
    with_mtu (record (d.mtu) { finder = counted; app_since_probe = false }) d
after_send size now kind (some e, d) =
    if is_search kind && is_too_big e
    then watch_if_done now (
        with_mtu
          (record (d.mtu) { finder = reject_hard size d.mtu.finder; next_probe = now + probe_pace })
          d)
    else if not (is_search kind) && is_too_big e
    then on_mtu_probe_lost size probe_confirm now true d
    else if is_bad_size e
    then schedule_mtu_watch now d
    else with_mtu (record (d.mtu) { next_probe = now + probe_pace }) d

unfoldable pub send_discovery_probe : Surroundings → ℕ → ℕ → MtuProbeKind → Discovery → Discovery
unfolding after_send send_mtu_probe schedule_mtu_watch
send_discovery_probe env wanted now kind d =
    let size = if ltb wanted env.probe_min then env.probe_min else wanted in
    if ltb env.probe_ceiling size
    then schedule_mtu_watch now d
    else if is_search kind && leb size d.mtu.finder.floor
    then schedule_mtu_watch now d
    else after_send size now kind (send_mtu_probe env size now kind d)

-- The next size of the search, if there is one.
unfoldable pub search_step : Surroundings → ℕ → Discovery → Discovery
unfolding send_discovery_probe schedule_mtu_watch next_size
search_step env now d =
    let size = next_size d.mtu.finder in
    if size == 0 then schedule_mtu_watch now d else send_discovery_probe env size now probe_search d

abbrev pub is_search_phase : MtuPhase → Bool
is_search_phase mtu_search = true
is_search_phase p = false

abbrev pub is_disabled : MtuPhase → Bool
is_disabled mtu_disabled = true
is_disabled p = false

-- When the raise timer is over, a search starts and sends its first probe.
unfoldable pub raise_step : Surroundings → ℕ → Discovery → Discovery
unfolding begin_mtu_search search_step
raise_step env now d =
    let started =
      begin_mtu_search env.probe_ceiling now
        (with_mtu (record (d.mtu) { app_since_probe = false }) d) in
    if is_search_phase started.mtu.phase then search_step env now started else started

-- tickMTUDiscovery in the phase of watching
unfoldable pub watch_step : Surroundings → ℕ → Discovery → Discovery
unfolding raise_step send_discovery_probe effective_mtu
watch_step env now d =
    if not d.mtu.app_since_probe
    then d
    else if not (d.mtu.raise_at == 0) && not (ltb now d.mtu.raise_at)
    then raise_step env now d
    else if not (d.mtu.confirm_at == 0) && not (ltb now d.mtu.confirm_at)
    then send_discovery_probe env (effective_mtu d.working) now probe_confirm (
        with_mtu
          (record (d.mtu) {
            app_since_probe = false;
            phase = mtu_confirm;
            search_after_confirm = false;
            confirm_fails = 0;
          })
          d)
    else d

unfoldable pub phase_step : MtuPhase → Surroundings → ℕ → Discovery → Discovery
unfolding send_discovery_probe search_step watch_step effective_mtu
phase_step mtu_disabled env now d = d
phase_step mtu_confirm env now d =
    send_discovery_probe env (effective_mtu d.working) now probe_confirm d
phase_step mtu_search env now d = search_step env now d
phase_step mtu_watch env now d = watch_step env now d

unfoldable pub tick_mtu_discovery : Surroundings → ℕ → Discovery → Discovery
unfolding restart_mtu_confirm phase_step
tick_mtu_discovery env now d =
    if is_some d.mtu.outstanding
    then d
    else if not env.enabled
    then with_mtu (record (d.mtu) { phase = mtu_disabled }) d
    else let live = if is_disabled d.mtu.phase then restart_mtu_confirm env.enabled d else d in
      if not (live.mtu.next_probe == 0) && ltb now live.mtu.next_probe
      then live
      else phase_step live.mtu.phase env now live

-- The first part of tickMTUProbe: a probe whose deadline has come is lost.
unfoldable pub expire_probe : Option MtuProbe → ℕ → Discovery → Discovery
unfolding on_mtu_probe_lost
expire_probe none now d = d
expire_probe (some probe) now d =
    if ltb now probe.deadline
    then d
    else on_mtu_probe_lost probe.size probe.kind now false (set_outstanding none d)

unfoldable pub tick_mtu_probe : Surroundings → ℕ → Discovery → Discovery
unfolding expire_probe tick_mtu_discovery
tick_mtu_probe env now d = tick_mtu_discovery env now (expire_probe d.mtu.outstanding now d)

-- receiveMTUProbe with the outstanding probe
unfoldable pub probe_answered :
    Option MtuProbe → Surroundings → PacketPath → Bytes → ℕ → Discovery → Discovery
unfolding same_path same on_mtu_probe_lost on_mtu_probe_acked
probe_answered none env from body now d = d
probe_answered (some probe) env from body now d =
    if not (length body == rrc_message_len) || env.busy
    then d
    else if not (get_or body 0 0 == path_response) && not (get_or body 0 0 == path_drop)
    then d
    else if not (probe.generation == d.mtu.generation) || not (same (drop 1 body) probe.cookie)
    then d
    else if not (same_path from probe.path) || not (ltb now probe.deadline)
    then d
    else if get_or body 0 0 == path_drop
    then on_mtu_probe_lost probe.size probe.kind now false (set_outstanding none d)
    else on_mtu_probe_acked env probe now (set_outstanding none d)

unfoldable pub receive_mtu_probe : Surroundings → PacketPath → Bytes → ℕ → Discovery → Discovery
unfolding probe_answered
receive_mtu_probe env from body now d = probe_answered d.mtu.outstanding env from body now d
