-- ===== src/Writer.antt =====
-- logs/error_writer.rs: the writer in nginx's log chain. A null pointer is `none`; what a pointer of the
-- state points at is kept in the state, since only this worker's writer changes it.
pub mod Rates
pub mod Chain
mod Runs
use ngx_otel_rust.Base.{
  ℕ, zero, suc, ◌+◌, ◌*◌, ◌-◌, ◌%◌, ◌^◌, min, Bool, true, false, not, ◌&&◌, ◌||◌, Option, none,
  some, List, [], ◌∷◌, ltb, ◌==◌, if◌then◌else◌, bytes_eq,
}
use ngx_otel_rust.Base.Text.{codes}
use ngx_otel_rust.Coalesce.{CoalesceSlot, CoalesceResult, coalesced, emit_verbatim, coalesce}
use ngx_otel_rust.Logs.{push_error_record}
use ngx_otel_rust.Ring.{WorkerSignalRing}
use ngx_otel_rust.Shm.Histogram.{fetch_add_at}

abbrev pub n_severity_classes : ℕ
n_severity_classes = 5

unfoldable pub severity_class_index : (ngx_level : ℕ) → ℕ
severity_class_index ngx_level =
    if (ngx_level == 1) || (ngx_level == 2) || (ngx_level == 3)
    then 0
    else if ngx_level == 4
    then 1
    else if ngx_level == 5
    then 2
    else if (ngx_level == 6) || (ngx_level == 7)
    then 3
    else if ngx_level == 8
    then 4
    else 0

pub record OtelErrorWriterState : Type 0 where
  pub busy : Bool
  pub cleanup : Bool
  pub level_floor : ℕ
  pub logs_zone : Bool
  pub coalesce_table : Option (List CoalesceSlot)
  pub coalesce_enabled : Bool
  pub error_ring : Option WorkerSignalRing
  pub error_rates : Option (List ℕ)

abbrev pub saturate : ℕ → ℕ
saturate n = min n (2 ^ 64 - 1)

-- The seconds and milliseconds of nginx's cached clock.
unfoldable pub cached_unix_nanos : (tp : Option (ℕ × ℕ)) → ℕ
cached_unix_nanos none = 0
cached_unix_nanos (some (sec, msec)) =
    saturate (saturate (sec * 1000000000) + saturate (msec * 1000000))

unfoldable pub bump_rate : (level : ℕ) (rates : Option (List ℕ)) → Option (List ℕ)
bump_rate level none = none
bump_rate level (some counters) = some (fetch_add_at counters (severity_class_index (level % 256)))

unfoldable pub push_verbatim :
    (ts_ns level : ℕ) (result : CoalesceResult) (buf : List ℕ) (ring : Option WorkerSignalRing)
    → Option WorkerSignalRing
push_verbatim ts_ns level result buf none = none
push_verbatim ts_ns level coalesced buf (some ring) = some ring
push_verbatim ts_ns level (emit_verbatim template_hash) buf (some ring) =
    some (push_error_record ring ts_ns (level % 256) template_hash buf).1

-- Behind the guards: the rate, then the coalescer and its verdict.
unfoldable pub count_and_coalesce :
    (now : Option (ℕ × ℕ)) (level : ℕ) (buf : List ℕ) (state : OtelErrorWriterState)
    → OtelErrorWriterState
count_and_coalesce now level buf state =
    let rates = bump_rate level state.error_rates in
    elim state.coalesce_table [
      | none ↦ record state { error_rates = rates }
      | some table ↦
          (let (result, table') = coalesce table (level % 256) buf state.coalesce_enabled in
            record state {
              error_rates = rates;
              coalesce_table = some table';
              error_ring = push_verbatim (cached_unix_nanos now) level result buf state.error_ring;
            })
    ]

-- `is_worker` is the role of the process; the clock is read when a record is pushed.
unfoldable pub ngx_otel_error_writer :
    (is_worker : Bool) (now : Option (ℕ × ℕ)) (level : ℕ) (buf : List ℕ)
    (state : OtelErrorWriterState)
    → OtelErrorWriterState
ngx_otel_error_writer is_worker now level buf state =
    if state.cleanup
    then state
    else if state.busy
    then state
    else let entered = record state { busy = true } in
      let left =
        if ltb entered.level_floor level
        then entered
        else if not is_worker || not entered.logs_zone
        then entered
        else count_and_coalesce now level buf entered in
      record left { busy = false }

unfoldable pub parse_error_log_level : (s : List ℕ) → Option ℕ
parse_error_log_level s =
    if bytes_eq s (codes "emerg")
    then some 1
    else if bytes_eq s (codes "alert")
    then some 2
    else if bytes_eq s (codes "crit")
    then some 3
    else if bytes_eq s (codes "error")
    then some 4
    else if bytes_eq s (codes "warn")
    then some 5
    else if bytes_eq s (codes "notice")
    then some 6
    else if bytes_eq s (codes "info")
    then some 7
    else if bytes_eq s (codes "debug")
    then some 8
    else none

-- A node of the log chain: its address, the level, the other fields of nginx's as one value, and our
-- state when the node's writer is ours.
pub record NgxLog : Type 0 where
  pub log_level : ℕ
  pub other : ℕ
  pub wdata : Option OtelErrorWriterState

-- The chain from its head on, each node with its address.
abbrev pub LogChain : Type 0
LogChain = List (ℕ × NgxLog)

unfoldable pub set_cleanup_flag : (chain : LogChain) → LogChain
set_cleanup_flag [] = []
set_cleanup_flag ((address, log) ∷ chain) = elim log.wdata [
  | none ↦ (address, log) ∷ set_cleanup_flag chain
  | some state ↦
      (address, record log { wdata = some (record state { cleanup = true }) })
      ∷ set_cleanup_flag chain
]

unfoldable pub wire_error_writer_state :
    (logs_zone : Bool) (table : Option (List CoalesceSlot)) (ring : Option WorkerSignalRing)
    (rates : Option (List ℕ)) (enabled : Bool) (chain : LogChain)
    → LogChain
wire_error_writer_state logs_zone table ring rates enabled [] = []
wire_error_writer_state logs_zone table ring rates enabled ((address, log) ∷ chain) =
    let rest = wire_error_writer_state logs_zone table ring rates enabled chain in
    elim log.wdata [
      | none ↦ (address, log) ∷ rest
      | some state ↦
          (let wired = record state {
            logs_zone = logs_zone;
            coalesce_table = table;
            error_ring = ring;
            error_rates = rates;
            coalesce_enabled = enabled;
          } in
            (address, record log { wdata = some wired }) ∷ rest)
    ]

-- Behind a node: before the first later node of a lower level, or at the end.
unfoldable pub insert_after : (new_address : ℕ) (new_log : NgxLog) (next : LogChain) → LogChain
insert_after new_address new_log [] = (new_address, new_log) ∷ []
insert_after new_address new_log ((address, log) ∷ chain) =
    let later = insert_after new_address new_log chain in
    if ltb log.log_level new_log.log_level
    then (new_address, new_log) ∷ (address, log) ∷ chain
    else (address, log) ∷ later

-- The head's memory stays where it is: a new head swaps the contents.
unfoldable pub otel_log_insert :
    (head_address : ℕ) (head : NgxLog) (next : LogChain) (new_address : ℕ) (new_log : NgxLog)
    → LogChain
otel_log_insert head_address head next new_address new_log =
    if ltb head.log_level new_log.log_level
    then (head_address, new_log) ∷ (new_address, head) ∷ next
    else (head_address, head) ∷ insert_after new_address new_log next
