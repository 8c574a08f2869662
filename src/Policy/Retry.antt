-- ===== src/Policy/Retry.antt =====
-- The retry queue of a lane: drain/graceful.rs `enqueue_with_eviction` and
-- `account_drops_and_clear`, drain/backoff.rs `handle_fresh_send_outcome`, and the retry pass of
-- drain/mod.rs.
use ngx_otel_rust.Base.{
  ℕ, ◌+◌, Bool, true, false, List, [], ◌∷◌, ◌++◌, ltb, leb, if◌then◌else◌, length,
}
use ngx_otel_rust.Policy.{
  DeliveryOutcome, TransportError, SignalBackoff, OutcomeAction, release, requeue, drop_batch,
  Statics, fetch_add, apply_delivery_outcome, is_permanent_rejection,
}

-- An encoded batch and its number of records.
abbrev pub Batch : Type 0
Batch = List ℕ × ℕ

-- The queue afterwards, and the records dropped.
unfoldable pub enqueue_with_eviction : List Batch → Batch → ℕ → List Batch × ℕ
enqueue_with_eviction [] b max_depth = (b ∷ [], 0)
enqueue_with_eviction (oldest ∷ rest) b max_depth =
    if leb max_depth (length (oldest ∷ rest))
    then (rest ++ b ∷ [], oldest.1)
    else (oldest ∷ (rest ++ b ∷ []), 0)

abbrev pub records : List Batch → ℕ
records [] = 0
records (b ∷ queue) = b.1 + records queue

unfoldable pub account_drops_and_clear : List Batch → ℕ → List Batch × ℕ
account_drops_and_clear queue counter =
    let remaining = records queue in
    ([], if ltb 0 remaining then fetch_add counter remaining else counter)

abbrev pub add_dropped : Statics → ℕ → Statics
add_dropped statics n = record {
  partial_rejected = statics.partial_rejected;
  permanent_rejected = statics.permanent_rejected;
  unauthorized_rejected = statics.unauthorized_rejected;
  dropped_records = fetch_add statics.dropped_records n;
  unauthorized_log_last_msec = statics.unauthorized_log_last_msec;
  unauthorized_lines = statics.unauthorized_lines;
}

-- The state of one signal lane that a send changes.
pub record Lane : Type 0 where
  pub queue : List Batch
  pub backoff : SignalBackoff
  pub failures : ℕ
  pub statics : Statics

unfoldable pub requeue_in : Lane → Batch → ℕ → Lane
requeue_in lane b depth =
    let (queue, dropped) = enqueue_with_eviction lane.queue b depth in
    record {
      queue = queue;
      backoff = lane.backoff;
      failures = lane.failures;
      statics = add_dropped lane.statics dropped;
    }

abbrev pub bump_failures : Lane → Lane
bump_failures lane = record {
  queue = lane.queue;
  backoff = lane.backoff;
  failures = fetch_add lane.failures 1;
  statics = lane.statics;
}

abbrev pub with_policy : Lane → SignalBackoff → Statics → Lane
with_policy lane backoff statics = record {
  queue = lane.queue;
  backoff = backoff;
  failures = lane.failures;
  statics = statics;
}

unfoldable pub handle_fresh_send_outcome :
    DeliveryOutcome → Lane → ℕ → Batch → ℕ → Bool → ℕ → OutcomeAction × Lane
handle_fresh_send_outcome outcome lane now_msec b depth log current_msec =
    let (action, backoff, statics) =
      apply_delivery_outcome outcome lane.backoff now_msec log current_msec lane.statics in
    let lane' = with_policy lane backoff statics in
    elim action [
      | release ↦ (release, lane')
      | requeue ↦ (requeue, bump_failures (requeue_in lane' b depth))
      | drop_batch ↦ (drop_batch, lane')
    ]

pub data SendResult : Type 0 where
  delivered : (outcome : DeliveryOutcome) → SendResult
  failed : (e : TransportError) → SendResult
  deadline_exceeded : SendResult

-- One round of the loop for a batch that is sent: the lane, and `drain_failed`.
unfoldable pub settle : SendResult → Lane → ℕ → Batch → ℕ → Bool → ℕ → Lane × Bool
settle (delivered outcome) lane now_msec b depth log current_msec =
    let (action, backoff, statics) =
      apply_delivery_outcome outcome lane.backoff now_msec log current_msec lane.statics in
    let lane' = with_policy lane backoff statics in
    elim action [
      | release ↦ (lane', false)
      | requeue ↦ (requeue_in (bump_failures lane') b depth, true)
      | drop_batch ↦ (lane', false)
    ]
settle (failed e) lane now_msec b depth log current_msec =
    if is_permanent_rejection e
    then (bump_failures lane, true)
    else (requeue_in (bump_failures lane) b depth, true)
settle deadline_exceeded lane now_msec b depth log current_msec =
    (requeue_in (bump_failures lane) b depth, true)

-- The rounds after a failure put the rest of the snapshot back.
unfoldable pub put_back : List Batch → Lane → ℕ → Lane
put_back [] lane depth = lane
put_back (b ∷ snapshot) lane depth = put_back snapshot (requeue_in lane b depth) depth

module _ {S : Type 0} (send_batch : S → List ℕ → SendResult × S) where
  unfoldable pub drain_snapshot : List Batch → Lane → S → ℕ → ℕ → Bool → ℕ → Lane × S
  drain_snapshot [] lane sender now_msec depth log current_msec = (lane, sender)
  drain_snapshot (b ∷ snapshot) lane sender now_msec depth log current_msec =
      let (result, sender') = send_batch sender b.0 in
      let (lane', drain_failed) = settle result lane now_msec b depth log current_msec in
      let rest = drain_snapshot snapshot lane' sender' now_msec depth log current_msec in
      if drain_failed then (put_back snapshot lane' depth, sender') else rest

  unfoldable pub drain_retry_queue_once_with_timer : Lane → S → ℕ → ℕ → Bool → ℕ → Lane × S
  drain_retry_queue_once_with_timer lane sender now_msec depth log current_msec =
      drain_snapshot lane.queue
        (record {
          queue = [];
          backoff = lane.backoff;
          failures = lane.failures;
          statics = lane.statics;
        })
        sender now_msec depth log current_msec
