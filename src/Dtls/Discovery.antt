-- ===== src/Dtls/Discovery.antt =====
-- The discovery of the path's datagram size: internal/dtls13/pmtu_probe.go and pmtu_discover.go. Times
-- are numbers, 0 for time.Time{}. What it reads of the rest of the session is a record, and what
-- sending a probe of some size returns is a function of the size.
pub mod Probe
pub mod Bounded
pub mod Invariant
use socat.Dtls.Path.{PacketPath}
use socat.Dtls.MtuSearch.{max_lost_mtu_probes, on_lost, on_acked, done, init, MtuFinder}
use socat.Dtls.Pmtu.{set_working_mtu, reduce_handshake_mtu, effective_mtu, WorkingMtu}
use socat.Prelude.{
  none, ◌^◌, some, ltb, ◌||◌, ◌%◌, true, not, ◌==◌, ◌+◌, false, replicate, if◌then◌else◌, ◌*◌, Bool,
  Option, Bytes, ℕ,
}

-- errProbeDisabled, errProbeBusy, errProbePending, errProbeSize, errProbeTooBig, errRecordOverflow, an
-- error of the transport for a long message, and any other error
pub data ProbeError : Type 0 where
  probe_disabled probe_busy probe_pending bad_size too_big too_long_record message_too_long :
      ProbeError
  other_error : ProbeError

pub data MtuPhase : Type 0 where
  mtu_disabled mtu_confirm mtu_search mtu_watch : MtuPhase

pub data MtuProbeKind : Type 0 where
  probe_confirm probe_search : MtuProbeKind

pub record MtuProbe : Type 0 where
  pub cookie : Bytes
  pub size : ℕ
  pub generation : ℕ
  pub deadline : ℕ
  pub path : PacketPath
  pub kind : MtuProbeKind

pub record MtuDiscovery : Type 0 where
  pub generation : ℕ
  pub outstanding : Option MtuProbe
  pub phase : MtuPhase
  pub finder : MtuFinder
  pub next_probe : ℕ
  pub raise_at : ℕ
  pub confirm_at : ℕ
  pub confirm_fails : ℕ
  pub app_since_probe : Bool
  pub search_after_confirm : Bool

-- `s.mtu` and `s.working`
pub record Discovery : Type 0 where
  pub mtu : MtuDiscovery
  pub working : WorkingMtu

-- What mtuDiscoveryEnabled, mtuProbeMin and mtuProbeCeiling return, whether a path probe or a key
-- update is under way, the sizes of the connection id and of the tag, the peer, and the outcomes of
-- rand.Read and of sending.
pub record Surroundings : Type 0 where
  pub enabled : Bool
  pub probe_min : ℕ
  pub probe_ceiling : ℕ
  pub busy : Bool
  pub cid_len : ℕ
  pub tag_len : ℕ
  pub peer : PacketPath
  pub random : Option Bytes
  pub transport : ℕ → Option ProbeError

abbrev pub second : ℕ
second = 1000000000

abbrev pub probe_timeout : ℕ
probe_timeout = 16 * second

abbrev pub probe_pace : ℕ
probe_pace = second

abbrev pub raise_timer : ℕ
raise_timer = 600 * second

abbrev pub confirm_timer : ℕ
confirm_timer = 10 * second

abbrev pub max_confirm_fails : ℕ
max_confirm_fails = 3

abbrev pub no_finder : MtuFinder
no_finder = record {
  floor = 0;
  lost = replicate max_lost_mtu_probes (some 0);
  last_probe_was_lost = false;
  in_flight = 0;
  probes = 0;
}

abbrev pub is_search : MtuProbeKind → Bool
is_search probe_confirm = false
is_search probe_search = true

abbrev pub with_mtu : MtuDiscovery → Discovery → Discovery
with_mtu m d = record d { mtu = m }

unfoldable pub restart_mtu_confirm : Bool → Discovery → Discovery
restart_mtu_confirm enabled d =
    let cleared = record (d.mtu) {
      generation = (d.mtu.generation + 1) % 2 ^ 64;
      outstanding = none;
      confirm_fails = 0;
      finder = no_finder;
      next_probe = 0;
      raise_at = 0;
      confirm_at = 0;
    } in
    if not enabled
    then with_mtu (record cleared { phase = mtu_disabled; search_after_confirm = false }) d
    else with_mtu (record cleared { phase = mtu_confirm; search_after_confirm = true }) d

unfoldable pub schedule_mtu_watch : ℕ → Discovery → Discovery
schedule_mtu_watch now d =
    with_mtu
      (record (d.mtu) {
        phase = mtu_watch;
        raise_at =
            if d.mtu.raise_at == 0 || not (ltb now d.mtu.raise_at)
            then now + raise_timer
            else d.mtu.raise_at;
        confirm_at = now + confirm_timer;
        next_probe = 0;
      })
      d

unfoldable pub begin_mtu_search : ℕ → ℕ → Discovery → Discovery
unfolding schedule_mtu_watch init done effective_mtu
begin_mtu_search ceiling_size now d =
    let f = init (effective_mtu d.working) ceiling_size in
    let started = with_mtu (record (d.mtu) { raise_at = 0; finder = f }) d in
    if done f
    then schedule_mtu_watch now started
    else with_mtu (record (started.mtu) { phase = mtu_search }) started

-- `if probe.size > s.effectiveMTU() { s.setWorkingMTU(probe.size) }`
unfoldable pub raise_working : ℕ → Discovery → Discovery
unfolding effective_mtu set_working_mtu
raise_working size d =
    if ltb (effective_mtu d.working) size
    then record d { working = set_working_mtu size d.working }
    else d

unfoldable pub watch_if_done : ℕ → Discovery → Discovery
unfolding done schedule_mtu_watch
watch_if_done now d = if done d.mtu.finder then schedule_mtu_watch now d else d

unfoldable pub on_mtu_probe_acked : Surroundings → MtuProbe → ℕ → Discovery → Discovery
unfolding raise_working begin_mtu_search schedule_mtu_watch watch_if_done on_acked
on_mtu_probe_acked env probe now d =
    let paced = with_mtu (record (d.mtu) { next_probe = now + probe_pace }) d in
    if is_search probe.kind
    then watch_if_done now (
        raise_working probe.size
          (with_mtu (record (paced.mtu) { finder = on_acked probe.size paced.mtu.finder }) paced))
    else let raised =
        raise_working probe.size (with_mtu (record (paced.mtu) { confirm_fails = 0 }) paced) in
      if raised.mtu.search_after_confirm
      then begin_mtu_search env.probe_ceiling now raised
      else schedule_mtu_watch now raised

-- The confirmation failed for the last time: the size is reduced and confirmed anew.
unfoldable pub confirm_failed : ℕ → ℕ → Discovery → Discovery
unfolding reduce_handshake_mtu schedule_mtu_watch
confirm_failed size now d =
    let reset = with_mtu (record (d.mtu) { confirm_fails = 0 }) d in
    let answer = reduce_handshake_mtu size d.working in
    let smaller = record reset { working = answer.1 } in
    if not answer.0
    then schedule_mtu_watch now smaller
    else with_mtu (record (smaller.mtu) { search_after_confirm = true; phase = mtu_confirm })
        smaller

unfoldable pub on_mtu_probe_lost : ℕ → MtuProbeKind → ℕ → Bool → Discovery → Discovery
unfolding confirm_failed watch_if_done on_lost
on_mtu_probe_lost size kind now hard d =
    let paced = with_mtu (record (d.mtu) { next_probe = now + probe_pace }) d in
    if is_search kind
    then watch_if_done now
        (with_mtu (record (paced.mtu) { finder = on_lost size paced.mtu.finder }) paced)
    else let fails = if hard then max_confirm_fails else d.mtu.confirm_fails + 1 in
      let counted = with_mtu (record (paced.mtu) { confirm_fails = fails }) paced in
      if ltb fails max_confirm_fails then counted else confirm_failed size now counted

unfoldable pub note_mtu_activity : Discovery → Discovery
note_mtu_activity d = with_mtu (record (d.mtu) { app_since_probe = true }) d

-- `last` is the size of the last packet sent.
unfoldable pub on_application_too_big : Bool → ℕ → Discovery → Discovery
unfolding reduce_handshake_mtu restart_mtu_confirm
on_application_too_big enabled last d =
    let smaller = record d { working = (reduce_handshake_mtu last d.working).1 } in
    if enabled then restart_mtu_confirm enabled smaller else smaller
