-- ===== src/Exporter/Liveness.antt =====
-- The alert of liveness.rs for an exporter that has stopped.
use ngx_otel_rust.Base.{
  ℕ, suc, ◌≡◌, ◌≢◌, refl, ap, Bool, true, false, ◌||◌, some, List, [], ◌∷◌, ◌==◌, if◌then◌else◌,
  arith, Bool-cases, inl, inr,
}
use Prim.{Unit}
use ngx_otel_rust.Exporter.{
  ControlShm, heartbeat_is_stale, latch_should_alert, check_exporter_liveness_on_drop,
}

-- The alerts of a worker whose ring drops records, each drop with its clock and what it finds in
-- the shared zone.
unfoldable pub alerts : List (ℕ × ControlShm) → ℕ → ℕ
alerts [] latched = 0
alerts (drop ∷ drops) latched =
    let (alert, latched') = check_exporter_liveness_on_drop true (some drop.1) drop.0 latched in
    if alert then suc (alerts drops latched') else alerts drops latched'

abbrev pub any_stale : List (ℕ × ControlShm) → Bool
any_stale [] = false
any_stale (drop ∷ drops) = heartbeat_is_stale drop.0 drop.1.last_beat_msec || any_stale drops

-- Every drop finds the generation `gen`.
abbrev pub SameGen : ℕ → List (ℕ × ControlShm) → Type 0
SameGen gen [] = Unit
SameGen gen (drop ∷ drops) = (drop.1.successor_gen ≡ gen) × SameGen gen drops

alerts_latched :
    (drops : List (ℕ × ControlShm)) (gen : ℕ) → SameGen gen drops → alerts drops gen ≡ 0
unfolding alerts check_exporter_liveness_on_drop latch_should_alert
alerts_latched [] gen h = refl
alerts_latched (drop ∷ drops) gen (g, h) = ground (arith, g, alerts_latched drops gen h)

-- However many records a worker drops within one generation of the exporter, for which its latch is
-- not set yet, it logs one alert if
-- the heartbeat was stale at some drop, and none otherwise.
pub alerts_once :
    (drops : List (ℕ × ControlShm)) (gen latched : ℕ)
    → SameGen gen drops
    → latched ≢ gen
    → alerts drops latched ≡ (if any_stale drops then 1 else 0)
unfolding alerts check_exporter_liveness_on_drop latch_should_alert
alerts_once [] gen latched h fresh = refl
alerts_once (drop ∷ drops) gen latched (g, h) fresh =
    elim (Bool-cases (heartbeat_is_stale drop.0 drop.1.last_beat_msec)) [
      | inl stale ↦ rw (stale, g, armed) (ap suc (alerts_latched drops gen h))
      | inr alive ↦ rw (alive) (alerts_once drops gen latched h fresh)
    ]
  where
    armed : (latched == gen) ≡ false
    armed = ground (arith, fresh)
