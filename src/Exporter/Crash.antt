-- ===== src/Exporter/Crash.antt =====
-- The crash loop and the generations of the exporter (exporter/mod.rs, exporter/control_shm.rs).
use ngx_otel_rust.Base.{
  ℕ, suc, ◌+◌, ◌*◌, ◌-◌, ◌^◌, ◌≤◌, ◌<◌, ◌≡◌, refl, sym, ap, Bool, true, false, ◌||◌, some, List, [],
  ◌∷◌, ltb, leb, ◌==◌, if◌then◌else◌, min, arith, length, All, ◌⊎◌, le→leb, Bool-cases, inl, inr,
}
use mathlib.Core.Path.{subst}
use ngx_otel_rust.Policy.{shl}
use ngx_otel_rust.Policy.Backoff.{shl_mono_le}
use ngx_otel_rust.Exporter.{
  ControlShm, announce_successor, rollback_successor, control_shm_zone_init, successor_announced,
  crash_check, open_window, with_gen, with_crashes, crash_backoff_ms, Start, disabled, first_start,
  restart, max_crash_restarts, crash_window_secs, reload_write_extent,
}

-- As long as the counter of generations is below its last value, an announcement, and only it, makes
-- the exporter of the generation before give up its rings, and taking it back after a failed spawn
-- restores the shared state.
pub rollback_successor-announce_successor :
    (ctrl : ControlShm)
    → suc ctrl.successor_gen < 2 ^ 64
    → (successor_announced (some ctrl) ctrl.successor_gen ≡ false)
      × (successor_announced (some (announce_successor ctrl)) ctrl.successor_gen ≡ true)
      × (rollback_successor (announce_successor ctrl) ≡ ctrl)
unfolding successor_announced announce_successor rollback_successor
rollback_successor-announce_successor ctrl h =
    (ground arith, ground (arith, h), ap (with_gen ctrl) (omega (arith, h)))

-- From the second start of a window on, the delay before start `n` is 100 ms doubled `n - 1` times
-- and cut at 5 s.
pub crash_backoff_ms_lem : (n : ℕ) → 2 ≤ n → crash_backoff_ms n ≡ min (100 * shl 1 (n - 1)) 5000
unfolding crash_backoff_ms shl
crash_backoff_ms_lem n h = elim (Bool-cases (leb n 32)) [
  | inl few ↦
      rw (after_first)
        (let s : min (n - 1) 31 ≡ n - 1 = ground (arith, few) in rw (s) (omega arith))
  | inr many ↦ rw (after_first) (
      let s : min (n - 1) 31 ≡ 31 = ground (arith, many) in
      rw (s) (omega (arith, big, shl_mono_le 1 31 (n - 1) (ground (arith, many)))))
]
  where
    after_first : leb n 1 ≡ false
    after_first = ground (arith, h)

    big : shl 1 31 ≡ 2147483648
    big = refl

-- The starts at the given times, one after the other.
unfoldable pub starts : List ℕ → ControlShm → List Start
starts [] ctrl = []
starts (now ∷ times) ctrl = (crash_check ctrl now).0 ∷ starts times (crash_check ctrl now).1

abbrev pub is_enabled : Start → Bool
is_enabled (disabled count) = false
is_enabled first_start = true
is_enabled (restart backoff_ms restarts) = true

abbrev pub enabled : List Start → ℕ
enabled [] = 0
enabled (s ∷ rest) = if is_enabled s then suc (enabled rest) else enabled rest

crash_check_in_window :
    (ctrl : ControlShm) (now : ℕ)
    → 1 ≤ ctrl.window_start_unix
    → now ≤ ctrl.window_start_unix + crash_window_secs
    → suc ctrl.crash_count < 2 ^ 64
    → ((crash_check ctrl now).1.crash_count ≡ suc ctrl.crash_count)
      × ((crash_check ctrl now).1.window_start_unix ≡ ctrl.window_start_unix)
      × (is_enabled (crash_check ctrl now).0 ≡ ltb ctrl.crash_count max_crash_restarts)
unfolding crash_check open_window
crash_check_in_window ctrl now w h c = rw (same_window) (omega (arith, c), refl, ground (arith, c))
  where
    same_window :
        ((ctrl.window_start_unix == 0) || ltb crash_window_secs (now - ctrl.window_start_unix))
        ≡ false
    same_window = ground (arith, w, h)

-- All the times are in the window that begins at `window`.
abbrev pub InWindow : ℕ → List ℕ → Type 0
InWindow window times = All (λ now. now ≤ window + crash_window_secs) times

enabled-starts :
    (times : List ℕ) (ctrl : ControlShm)
    → 1 ≤ ctrl.window_start_unix
    → InWindow ctrl.window_start_unix times
    → ctrl.crash_count + length times < 2 ^ 64
    → enabled (starts times ctrl) ≡ min (length times) (max_crash_restarts - ctrl.crash_count)
unfolding starts
enabled-starts [] ctrl w h c = omega arith
enabled-starts (now ∷ times) ctrl w (h0, h) c =
    let st = crash_check_in_window ctrl now w h0 (omega (arith, c)) in
    let ih =
      enabled-starts times (crash_check ctrl now).1 (omega (arith, w, st.1))
        (subst (λ k. InWindow k times) (sym st.1) h) (omega (arith, c, st.0)) in
    elim (Bool-cases (ltb ctrl.crash_count max_crash_restarts)) [
      | inl low ↦ rw (st.2, low) (ground (arith, ih, st.0, low))
      | inr high ↦ rw (st.2, high) (ground (arith, ih, st.0, high))
    ]

first_of_window :
    (ctrl : ControlShm) (now : ℕ)
    → 1 ≤ now
    → (ctrl.window_start_unix ≡ 0) ⊎ (ctrl.window_start_unix + crash_window_secs < now)
    → ((crash_check ctrl now).0 ≡ first_start)
      × ((crash_check ctrl now).1.crash_count ≡ 1)
      × ((crash_check ctrl now).1.window_start_unix ≡ now)
unfolding crash_check open_window
first_of_window ctrl now pos over = rw (expired) (refl, refl, refl)
  where
    expired :
        ((ctrl.window_start_unix == 0) || ltb crash_window_secs (now - ctrl.window_start_unix))
        ≡ true
    expired = ground (arith, pos, over)

-- When no window is open, or the last one began more than 60 s ago, then of the first start after the
-- epoch and those up to 60 s later (fewer than 2 ^ 64), five go on and every other one disables the
-- exporter.
pub enabled-starts_window :
    (ctrl : ControlShm) (first : ℕ) (times : List ℕ)
    → 1 ≤ first
    → (ctrl.window_start_unix ≡ 0) ⊎ (ctrl.window_start_unix + crash_window_secs < first)
    → InWindow first times
    → suc (length times) < 2 ^ 64
    → enabled (starts (first ∷ times) ctrl) ≡ min (suc (length times)) max_crash_restarts
unfolding starts
enabled-starts_window ctrl first times pos over h few =
    let st = first_of_window ctrl first pos over in
    let rest =
      enabled-starts times (crash_check ctrl first).1 (omega (arith, pos, st.2))
        (subst (λ k. InWindow k times) (sym st.2) h) (omega (arith, few, st.1)) in
    rw (st.0) (omega (arith, rest, st.1))

-- After a reload with a zone of the full extent, the next start, after the epoch, goes on without a
-- delay, whatever crashes came before.
pub crash_check-reload :
    (size offset : ℕ) (ctrl : ControlShm) (now : ℕ)
    → offset + reload_write_extent ≤ size
    → 1 ≤ now
    → (crash_check (control_shm_zone_init size offset true ctrl) now).0 ≡ first_start
unfolding control_shm_zone_init
crash_check-reload size offset ctrl now fits pos =
    rw (le→leb (offset + reload_write_extent) size fits, control_shm_zone_init)
      (first_of_window (with_crashes ctrl 0 0) now pos (inl refl)).0
