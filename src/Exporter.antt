-- ===== src/Exporter.antt =====
-- exporter/control_shm.rs, the start of exporter/mod.rs, liveness.rs and the abdication test of
-- drain/graceful.rs: what the exporter's generations share.
pub mod Crash
pub mod Liveness
mod Runs
use ngx_otel_rust.Base.{
  ℕ, zero, suc, ◌+◌, ◌*◌, ◌-◌, ◌%◌, ◌^◌, Bool, true, false, not, ◌&&◌, ◌||◌, Option, none, some,
  List, [], ◌∷◌, ltb, leb, ◌==◌, if◌then◌else◌, min, max,
}
use ngx_otel_rust.Policy.{shl, fetch_add, u64_max}

-- The reserved words are left out.
pub record ControlShm : Type 0 where
  pub version : ℕ
  pub flags : ℕ
  pub crash_count : ℕ
  pub window_start_unix : ℕ
  pub successor_gen : ℕ
  pub last_beat_msec : ℕ

abbrev pub zeroed : ControlShm
zeroed = record {
  version = 0;
  flags = 0;
  crash_count = 0;
  window_start_unix = 0;
  successor_gen = 0;
  last_beat_msec = 0;
}

abbrev pub with_crashes : ControlShm → ℕ → ℕ → ControlShm
with_crashes ctrl crash_count window = record {
  version = ctrl.version;
  flags = ctrl.flags;
  crash_count = crash_count;
  window_start_unix = window;
  successor_gen = ctrl.successor_gen;
  last_beat_msec = ctrl.last_beat_msec;
}

abbrev with_gen : ControlShm → ℕ → ControlShm
with_gen ctrl gen = record {
  version = ctrl.version;
  flags = ctrl.flags;
  crash_count = ctrl.crash_count;
  window_start_unix = ctrl.window_start_unix;
  successor_gen = gen;
  last_beat_msec = ctrl.last_beat_msec;
}

unfoldable pub announce_successor : ControlShm → ControlShm
announce_successor ctrl = with_gen ctrl (fetch_add ctrl.successor_gen 1)

-- `fetch_sub` wraps around.
unfoldable pub rollback_successor : ControlShm → ControlShm
rollback_successor ctrl = with_gen ctrl (fetch_add ctrl.successor_gen u64_max)

abbrev pub reload_write_extent : ℕ
reload_write_extent = 32

-- `reload` tells that there is old data; `ctrl` is what the zone holds behind `offset`.
unfoldable pub control_shm_zone_init : (size offset : ℕ) → (reload : Bool) → ControlShm → ControlShm
control_shm_zone_init size offset true ctrl =
    if leb (offset + reload_write_extent) size then with_crashes ctrl 0 0 else ctrl
control_shm_zone_init size offset false ctrl = if ltb offset size then zeroed else ctrl

unfoldable pub successor_announced : Option ControlShm → ℕ → Bool
successor_announced none my_gen = false
successor_announced (some ctrl) my_gen = ltb my_gen ctrl.successor_gen

unfoldable pub effective_drain_backstop : ℕ → ℕ → ℕ
effective_drain_backstop default_ms shutdown_timeout_ms =
    if shutdown_timeout_ms == 0 then default_ms else min default_ms shutdown_timeout_ms

abbrev pub crash_window_secs : ℕ
crash_window_secs = 60

abbrev pub max_crash_restarts : ℕ
max_crash_restarts = 5

abbrev pub crash_backoff_base_ms : ℕ
crash_backoff_base_ms = 100

abbrev pub crash_backoff_cap_ms : ℕ
crash_backoff_cap_ms = 5000

unfoldable pub crash_backoff_ms : ℕ → ℕ
crash_backoff_ms count =
    if leb count 1
    then 0
    else let shift = min (count - 1) 31 in
      min (min (crash_backoff_base_ms * shl 1 shift) u64_max) crash_backoff_cap_ms

-- How a start goes on: the process exits, or it sleeps and publishes the earlier crashes.
pub data Start : Type 0 where
  disabled : (count : ℕ) → Start
  first_start : Start
  restart : (backoff_ms restarts : ℕ) → Start

abbrev started : ℕ → Start
started count =
    if ltb max_crash_restarts count
    then disabled count
    else if ltb 1 count
    then restart (crash_backoff_ms count) (count - 1)
    else first_start

-- The window of crashes at the start of the exporter.
unfoldable pub open_window : ControlShm → ℕ → ControlShm
open_window ctrl now =
    let window = ctrl.window_start_unix in
    if (window == 0) || ltb crash_window_secs (now - window) then with_crashes ctrl 0 now else ctrl

unfoldable pub crash_check : ControlShm → ℕ → Start × ControlShm
crash_check ctrl now =
    let opened = open_window ctrl now in
    let count = fetch_add opened.crash_count 1 in
    (started count, with_crashes opened count opened.window_start_unix)

abbrev pub heartbeat_stale_threshold_ms : ℕ
heartbeat_stale_threshold_ms = 5 * 1000

unfoldable pub heartbeat_is_stale : ℕ → ℕ → Bool
heartbeat_is_stale now_msec last_beat_msec =
    not (last_beat_msec == 0) && ltb heartbeat_stale_threshold_ms (now_msec - last_beat_msec)

unfoldable pub latch_should_alert : ℕ → ℕ → Bool → Bool
latch_should_alert latched_gen current_gen stale = stale && not (latched_gen == current_gen)

-- Whether the alert is logged, and the generation that the latch then holds.
unfoldable pub check_exporter_liveness_on_drop : Bool → Option ControlShm → ℕ → ℕ → Bool × ℕ
check_exporter_liveness_on_drop false ctrl now latched_gen = (false, latched_gen)
check_exporter_liveness_on_drop true none now latched_gen = (false, latched_gen)
check_exporter_liveness_on_drop true (some ctrl) now latched_gen =
    let stale = heartbeat_is_stale now ctrl.last_beat_msec in
    if not stale
    then (false, latched_gen)
    else if not (latch_should_alert latched_gen ctrl.successor_gen stale)
    then (false, latched_gen)
    else (true, ctrl.successor_gen)
