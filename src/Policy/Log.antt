-- ===== src/Policy/Log.antt =====
-- The rate limit of the credentials line (drain/backoff.rs `maybe_log_unauthorized`).
use ngx_otel_rust.Base.{ℕ, ◌+◌, ◌*◌, ◌≤◌, ◌≡◌, true, arith, max, List, [], ◌∷◌}
use ngx_otel_rust.Policy.{Statics, maybe_log_unauthorized, unauthorized_log_interval_ms}

-- The calls at the given times, one after the other.
unfoldable pub log_calls : List ℕ → Statics → Statics
log_calls [] statics = statics
log_calls (now ∷ times) statics = log_calls times (maybe_log_unauthorized true now statics)

abbrev pub latest : List ℕ → ℕ
latest [] = 0
latest (now ∷ times) = max now (latest times)

-- The lines so far fit the time that has passed.
abbrev Paced : Statics → Type 0
Paced statics =
    statics.unauthorized_lines * unauthorized_log_interval_ms
    ≤ statics.unauthorized_log_last_msec + unauthorized_log_interval_ms

maybe_log-Paced :
    (now : ℕ) (s : Statics)
    → Paced s
    → (s.unauthorized_log_last_msec ≡ 0 → s.unauthorized_lines ≡ 0)
    → let s' = maybe_log_unauthorized true now s in
      Paced s'
      × (s'.unauthorized_log_last_msec ≡ 0 → s'.unauthorized_lines ≡ 0)
      × (s'.unauthorized_log_last_msec ≤ max s.unauthorized_log_last_msec (max now 1))
unfolding maybe_log_unauthorized
maybe_log-Paced now s h z =
    ground (arith, h, z, s.unauthorized_log_last_msec, s.unauthorized_lines, s.partial_rejected)

log_calls-Paced :
    (times : List ℕ) (s : Statics)
    → Paced s
    → (s.unauthorized_log_last_msec ≡ 0 → s.unauthorized_lines ≡ 0)
    → (log_calls times s).unauthorized_lines * unauthorized_log_interval_ms
      ≤ max s.unauthorized_log_last_msec (max (latest times) 1) + unauthorized_log_interval_ms
unfolding log_calls
log_calls-Paced [] s h z = omega (arith, h)
log_calls-Paced (now ∷ times) s h z =
    let st = maybe_log-Paced now s h z in
    omega (arith, st.2, log_calls-Paced times (maybe_log_unauthorized true now s) st.0 st.1)

-- From a start without any line, the credentials line appears at most once in an interval, however
-- many batches are refused and at whatever times.
pub log_calls_limit :
    (times : List ℕ) (s : Statics)
    → s.unauthorized_log_last_msec ≡ 0
    → s.unauthorized_lines ≡ 0
    → (log_calls times s).unauthorized_lines * unauthorized_log_interval_ms
      ≤ max (latest times) 1 + unauthorized_log_interval_ms
log_calls_limit times s l z =
    omega (arith, l, z, log_calls-Paced times s (omega (arith, l, z)) (λ e. z))
