-- ===== src/Exporter/Runs.antt =====
-- The crash loop, the generations and the alert at concrete inputs.
use ngx_otel_rust.Base.{ℕ, ◌≡◌, inl, refl, List, [], ◌∷◌, arith, min, if◌then◌else◌}
use Prim.{tt}
use ngx_otel_rust.Exporter.{ControlShm, zeroed}
use ngx_otel_rust.Exporter.Crash.{starts, enabled, enabled-starts_window}
use ngx_otel_rust.Exporter.Liveness.{alerts, any_stale, alerts_once}

enabled-starts_window_example :
    enabled (starts (100 ∷ 101 ∷ 102 ∷ 104 ∷ 108 ∷ 113 ∷ 118 ∷ []) zeroed) ≡ min 7 5
enabled-starts_window_example =
    enabled-starts_window zeroed 100 (101 ∷ 102 ∷ 104 ∷ 108 ∷ 113 ∷ 118 ∷ []) (omega arith)
      (inl refl)
      (omega arith, (omega arith, (omega arith, (omega arith, (omega arith, (omega arith, tt))))))
      (omega arith)

-- An exporter of generation 0 that last beat at 1 s.
abbrev beat_at_1s : ControlShm
beat_at_1s = record {
  version = 0;
  flags = 0;
  crash_count = 1;
  window_start_unix = 50;
  successor_gen = 0;
  last_beat_msec = 1000;
}

abbrev drops : List (ℕ × ControlShm)
drops = (2000, beat_at_1s) ∷ (9000, beat_at_1s) ∷ (9500, beat_at_1s) ∷ []

alerts_once_example : alerts drops 77 ≡ (if any_stale drops then 1 else 0)
alerts_once_example = alerts_once drops 0 77 (refl, (refl, (refl, tt))) (λ e. ground (arith, e))
