-- ===== src/Policy/Queue.antt =====
-- The bounded retry queue (drain/graceful.rs `enqueue_with_eviction`, drain/mod.rs
-- `drain_retry_queue_once_with_timer`).
use ngx_otel_rust.Base.{
  ℕ, ◌+◌, ◌%◌, ◌^◌, ◌≤◌, ◌<◌, ◌≡◌, ◌⊎◌, refl, sym, ap, ◌∙◌, Bool, true, false, arith, if◌then◌else◌,
  max, Bool-cases, inl, inr, List, [], ◌∷◌, ◌++◌, length, length-append, append_assoc, append-nil,
}
use ngx_otel_rust.Policy.{
  Statics, apply_delivery_outcome, accepted, partial_reject, retryable, permanent, unauthorized,
  is_permanent_rejection, maybe_log_unauthorized, retry_backoff,
}
use ngx_otel_rust.Policy.Retry.{
  Batch, enqueue_with_eviction, records, account_drops_and_clear, Lane, requeue_in, bump_failures,
  with_policy, settle, put_back, drain_snapshot, drain_retry_queue_once_with_timer, SendResult,
  delivered, failed, deadline_exceeded,
}

records-append : (xs ys : List Batch) → records (xs ++ ys) ≡ records xs + records ys
records-append [] ys = omega arith
records-append (x ∷ xs) ys = omega (arith, records-append xs ys)

-- A batch goes to the back, at most the oldest batch leaves, the records that leave are counted,
-- and a queue within its depth stays within it (a depth of 0 counts as 1).
pub enqueue_with_eviction_lem :
    (queue : List Batch) (b : Batch) (max_depth : ℕ)
    → length queue ≤ max max_depth 1
    → let (queue', dropped) = enqueue_with_eviction queue b max_depth in
      (length queue' ≤ max max_depth 1)
      × (records queue' + dropped ≡ records queue + b.1)
      × (length queue < max_depth → (queue' ≡ queue ++ b ∷ []) × (dropped ≡ 0))
unfolding enqueue_with_eviction
enqueue_with_eviction_lem [] b max_depth h = (omega arith, omega arith, λ e. (refl, refl))
enqueue_with_eviction_lem (oldest ∷ rest) b max_depth h =
    ground (arith, length-append rest (b ∷ []), records-append rest (b ∷ []))

-- Clearing a queue credits every record of it to the counter.
pub account_drops_and_clear_lem :
    (queue : List Batch) (counter : ℕ)
    → counter < 2 ^ 64
    → (length (account_drops_and_clear queue counter).0 ≡ 0)
      × ((account_drops_and_clear queue counter).1 ≡ (counter + records queue) % 2 ^ 64)
unfolding account_drops_and_clear
account_drops_and_clear_lem queue counter h = (refl, ground arith)

requeue_in_room :
    (lane : Lane) (b : Batch) (depth : ℕ)
    → length lane.queue < depth
    → lane.statics.dropped_records < 2 ^ 64
    → let lane' = requeue_in lane b depth in
      (lane'.queue ≡ lane.queue ++ b ∷ [])
      × (lane'.statics.dropped_records ≡ lane.statics.dropped_records)
unfolding requeue_in
requeue_in_room lane b depth room small =
    let e = enqueue_with_eviction_lem lane.queue b depth (omega (arith, room)) in
    let r = e.2 room in (r.0, rw (r.1) (omega (arith, small)))

put_back_lem :
    (snapshot : List Batch) (lane : Lane) (depth : ℕ)
    → length lane.queue + length snapshot ≤ depth
    → lane.statics.dropped_records < 2 ^ 64
    → let lane' = put_back snapshot lane depth in
      (lane'.queue ≡ lane.queue ++ snapshot)
      × (lane'.statics.dropped_records ≡ lane.statics.dropped_records)
unfolding put_back
put_back_lem [] lane depth room small = (sym (append-nil lane.queue), refl)
put_back_lem (b ∷ snapshot) lane depth room small =
    let st = requeue_in_room lane b depth (omega (arith, room)) small in
    let ih =
      put_back_lem snapshot (requeue_in lane b depth) depth
        (omega (arith, room, ap length st.0, length-append lane.queue (b ∷ [])))
        (omega (arith, st.1, small)) in
    (ih.0 ∙ ap (λ q. q ++ snapshot) st.0 ∙ append_assoc lane.queue (b ∷ []) snapshot, ih.1 ∙ st.1)

maybe_log_unauthorized-dropped :
    (log : Bool) (now : ℕ) (s : Statics)
    → (maybe_log_unauthorized log now s).dropped_records ≡ s.dropped_records
unfolding maybe_log_unauthorized
maybe_log_unauthorized-dropped true now s = ground arith
maybe_log_unauthorized-dropped false now s = refl

-- What a round leaves of a lane whose queue was empty.
abbrev Round : Batch → Lane → Lane × Bool → Type 0
Round b lane (lane', stop) =
    ((lane'.queue ≡ []) ⊎ ((lane'.queue ≡ b ∷ []) × (stop ≡ true)))
    × (lane'.statics.dropped_records ≡ lane.statics.dropped_records)

requeue_alone :
    (b : Batch) (lane lane' : Lane) (depth : ℕ)
    → lane'.queue ≡ []
    → lane'.statics.dropped_records ≡ lane.statics.dropped_records
    → 1 ≤ depth
    → lane.statics.dropped_records < 2 ^ 64
    → Round b lane (requeue_in lane' b depth, true)
requeue_alone b lane lane' depth e same d small =
    let st = requeue_in_room lane' b depth (omega (arith, ap length e)) (omega (arith, same)) in
    (inr (st.0 ∙ ap (λ q. q ++ b ∷ []) e, refl), st.1 ∙ same)

settle-Round :
    (result : SendResult) (lane : Lane) (now_msec : ℕ) (b : Batch) (depth : ℕ) (log : Bool)
    (current_msec : ℕ)
    → lane.queue ≡ []
    → 1 ≤ depth
    → lane.statics.dropped_records < 2 ^ 64
    → Round b lane (settle result lane now_msec b depth log current_msec)
unfolding settle apply_delivery_outcome
settle-Round (delivered accepted) lane now_msec b depth log current_msec e d small = (inl e, refl)
settle-Round (delivered (partial_reject r)) lane now_msec b depth log current_msec e d small =
    (inl e, refl)
settle-Round (delivered permanent) lane now_msec b depth log current_msec e d small = (inl e, refl)
settle-Round (delivered unauthorized) lane now_msec b depth log current_msec e d small =
    (inl e, maybe_log_unauthorized-dropped log current_msec _)
settle-Round (delivered (retryable h)) lane now_msec b depth log current_msec e d small =
    requeue_alone b lane
      (bump_failures (with_policy lane (retry_backoff h lane.backoff now_msec) lane.statics)) depth
      e refl d small
settle-Round (failed err) lane now_msec b depth log current_msec e d small =
    elim (Bool-cases (is_permanent_rejection err)) [
      | inl refused ↦ rw (refused) ((inl e, refl))
      | inr other ↦ rw (other) (requeue_alone b lane (bump_failures lane) depth e refl d small)
    ]
settle-Round deadline_exceeded lane now_msec b depth log current_msec e d small =
    requeue_alone b lane (bump_failures lane) depth e refl d small

-- What is left of a snapshot is an end of it, and nothing was dropped to make room.
abbrev pub IsSuffix : List Batch → Lane → Lane → Type 0
IsSuffix snapshot before after =
    ((settled : List Batch) × (settled ++ after.queue ≡ snapshot))
    × (after.statics.dropped_records ≡ before.statics.dropped_records)

put_back-IsSuffix :
    (b : Batch) (snapshot : List Batch) (before lane : Lane) (depth : ℕ) (settled : List Batch)
    → settled ++ lane.queue ≡ b ∷ []
    → length (b ∷ snapshot) ≤ depth
    → before.statics.dropped_records < 2 ^ 64
    → lane.statics.dropped_records ≡ before.statics.dropped_records
    → IsSuffix (b ∷ snapshot) before (put_back snapshot lane depth)
put_back-IsSuffix b snapshot before lane depth settled is_b room small same =
    let back =
      put_back_lem snapshot lane depth
        (omega (arith, room, ap length is_b, length-append settled lane.queue))
        (omega (arith, same, small)) in
    let whole : settled ++ (lane.queue ++ snapshot) ≡ b ∷ snapshot =
      sym (append_assoc settled lane.queue snapshot) ∙ ap (λ q. q ++ snapshot) is_b in
    ((settled, ap (λ q. settled ++ q) back.0 ∙ whole), back.1 ∙ same)

module _ {S : Type 0} where
  Round-IsSuffix :
      (b : Batch) (snapshot : List Batch) (before lane : Lane) (depth : ℕ) (stop : Bool)
      (sender : S) (rest : Lane × S)
      → length (b ∷ snapshot) ≤ depth
      → before.statics.dropped_records < 2 ^ 64
      → Round b before (lane, stop)
      → (lane.queue ≡ [] → IsSuffix snapshot lane rest.0)
      → IsSuffix
          (b ∷ snapshot)
          before
          (if stop then (put_back snapshot lane depth, sender) else rest).0
  Round-IsSuffix b snapshot before lane depth true sender rest room small (inl empty, same) ih =
      put_back-IsSuffix b snapshot before lane depth (b ∷ []) (ap (λ q. b ∷ q) empty) room small
        same
  Round-IsSuffix b snapshot before lane depth true sender rest room small (inr kept, same) ih =
      put_back-IsSuffix b snapshot before lane depth [] kept.0 room small same
  Round-IsSuffix b snapshot before lane depth false sender rest room small (inl empty, same) ih =
      let after = ih empty in ((b ∷ after.0.0, ap (λ q. b ∷ q) after.0.1), after.1 ∙ same)
  Round-IsSuffix b snapshot before lane depth false sender rest room small (inr kept, same) ih =
      ground (arith, kept.1)

module _ {S : Type 0} (send_batch : S → List ℕ → SendResult × S) where
  drain_snapshot-IsSuffix :
      (snapshot : List Batch) (lane : Lane) (sender : S) (now_msec depth : ℕ) (log : Bool)
      (current_msec : ℕ)
      → lane.queue ≡ []
      → length snapshot ≤ depth
      → lane.statics.dropped_records < 2 ^ 64
      → IsSuffix snapshot lane
          (drain_snapshot send_batch snapshot lane sender now_msec depth log current_msec).0
  unfolding drain_snapshot
  drain_snapshot-IsSuffix [] lane sender now_msec depth log current_msec e room small =
      (([], e), refl)
  drain_snapshot-IsSuffix (b ∷ snapshot) lane sender now_msec depth log current_msec e room small =
      let sent = send_batch sender b.0 in
      let out = settle sent.0 lane now_msec b depth log current_msec in
      let round =
        settle-Round sent.0 lane now_msec b depth log current_msec e (omega (arith, room)) small in
      Round-IsSuffix b snapshot lane out.0 depth out.1 sent.1 _ room small round (λ empty.
        drain_snapshot-IsSuffix snapshot out.0 sent.1 now_msec depth log current_msec empty
          (omega (arith, room)) (omega (arith, round.1, small)))

  -- A pass over a queue within its depth, with any sender and a counter of dropped records that fits
  -- 64 bits, drops nothing to make room: what is left is an end of the queue, in its order, and the
  -- counter is as before.
  pub drain_retry_queue_once-IsSuffix :
      (lane : Lane) (sender : S) (now_msec depth : ℕ) (log : Bool) (current_msec : ℕ)
      → length lane.queue ≤ depth
      → lane.statics.dropped_records < 2 ^ 64
      → IsSuffix lane.queue lane
          (drain_retry_queue_once_with_timer send_batch lane sender now_msec depth log
            current_msec).0
  unfolding drain_retry_queue_once_with_timer
  drain_retry_queue_once-IsSuffix lane sender now_msec depth log current_msec room small =
      drain_snapshot-IsSuffix lane.queue _ sender now_msec depth log current_msec refl room small
