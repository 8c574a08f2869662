-- ===== src/Directives/Selection.antt =====
-- config/directives.rs and metric_source/location_conf.rs: a location that selects log records has raised
-- the flag of the main configuration.
use ngx_otel_rust.Base.{
  ℕ, ◌≡◌, refl, ◌⊎◌, inl, inr, true, Bool-cases, Option, none, some, List, if◌then◌else◌, ◌||◌, ltb,
  length, bytes_eq, take, drop,
}
use mathlib.Core.Path.{subst}
use ngx_otel_rust.Base.Text.{codes}
use ngx_otel_rust.Directives.{MainConfig, ConfError, conf_error, arg}
use ngx_otel_rust.Directives.Location.{
  LogExportMode, unset, off, all, if_cond, log_export_code, LocationConf, default_location,
  log_export_mode, log_export_is_set, merge, selects, with_log_export, log_export_of,
  cmd_set_otel_log_export,
}

abbrev Answer : Type 0 → Type 0
Answer V = ConfError ⊎ (LocationConf V × MainConfig)

-- A condition comes with its compiled value.
Conditioned : {V : Type 0} → LogExportMode → Option V → Type 0
Conditioned {V} if_cond cond = (v : V) × (cond ≡ some v)
Conditioned unset cond = Unit {0}
Conditioned off cond = Unit {0}
Conditioned all cond = Unit {0}

Sound : {V : Type 0} → Option (LogExportMode × Option V) → Type 0
unfolding Conditioned
Sound none = Unit {0}
Sound (some (mode, cond)) = Conditioned mode cond

-- A location that selects records has raised the flag, and one with a condition has its value.
pub record Selected {V : Type 0} (amcf : MainConfig) (lcf : LocationConf V) : Type 0 where
  pub flagged : selects (log_export_mode lcf) ≡ true → amcf.any_log_export ≡ true
  pub conditioned : log_export_mode lcf ≡ if_cond → (v : V) × (lcf.log_export_cv ≡ some v)

module _ {V : Type 0} (compile : List ℕ → Option V) where
  -- The locations of a configuration while its directives are read, and when they have inherited.
  pub data Located : MainConfig → LocationConf V → Type 0 where
    fresh : (amcf : MainConfig) → Located amcf default_location
    directive :
        {amcf amcf' : MainConfig} {lcf lcf' : LocationConf V} (args : List (List ℕ))
        → Located amcf lcf
        → cmd_set_otel_log_export compile args lcf amcf ≡ inr (lcf', amcf')
        → Located amcf' lcf'
    elsewhere :
        {amcf amcf' : MainConfig} {lcf : LocationConf V} (other other' : LocationConf V)
        (args : List (List ℕ))
        → Located amcf lcf
        → cmd_set_otel_log_export compile args other amcf ≡ inr (other', amcf')
        → Located amcf' lcf
    merged :
        {amcf : MainConfig} {lcf prev : LocationConf V}
        → Located amcf lcf
        → Located amcf prev
        → Located amcf (merge lcf prev)

  log_export_of-Sound : (args : List (List ℕ)) → Sound (log_export_of compile args)
  unfolding Sound Conditioned log_export_of
  log_export_of-Sound args =
      elim (Bool-cases (ltb (length args) 2 || bytes_eq (arg 1 args) (codes "on"))) [
        | inl bare ↦ rw (bare) tt
        | inr not_on ↦ elim (Bool-cases (bytes_eq (arg 1 args) (codes "off"))) [
          | inl is_off ↦ rw (not_on, is_off) tt
          | inr not_off ↦ elim (Bool-cases (bytes_eq (take 3 (arg 1 args)) (codes "if="))) [
            | inl cond ↦ rw (not_on, not_off, cond) (compiled (compile (drop 3 (arg 1 args))))
            | inr neither ↦ rw (not_on, not_off, neither) tt
          ]
        ]
      ]
    where
      compiled :
          (value : Option V)
          → Sound (elim value as (λ _. Option (LogExportMode × Option V)) [
            | none ↦ none
            | some v ↦ some (if_cond, some v)
          ])
      compiled none = tt
      compiled (some v) = (v, refl)

  flag_of : LogExportMode → MainConfig → MainConfig
  flag_of mode amcf = if selects mode then record amcf { any_log_export = true } else amcf

  set-Selected :
      (mode : LogExportMode) (cond : Option V) (lcf : LocationConf V) (amcf : MainConfig)
      → Conditioned mode cond
      → Selected (flag_of mode amcf) (with_log_export mode cond lcf)
  unfolding Conditioned flag_of selects with_log_export log_export_mode log_export_code
  set-Selected unset none lcf amcf h = record { flagged = λ e. cc e; conditioned = λ e. cc e }
  set-Selected unset (some v) lcf amcf h = record { flagged = λ e. cc e; conditioned = λ e. cc e }
  set-Selected off none lcf amcf h = record { flagged = λ e. cc e; conditioned = λ e. cc e }
  set-Selected off (some v) lcf amcf h = record { flagged = λ e. cc e; conditioned = λ e. cc e }
  set-Selected all none lcf amcf h = record { flagged = λ e. refl; conditioned = λ e. cc e }
  set-Selected all (some v) lcf amcf h = record { flagged = λ e. refl; conditioned = λ e. cc e }
  set-Selected if_cond none lcf amcf h = record { flagged = λ e. refl; conditioned = λ e. cc (h.1) }
  set-Selected if_cond (some v) lcf amcf h = record {
    flagged = λ e. refl;
    conditioned = λ e. (v, refl);
  }

  -- The answer is refused, or the location is selected as the mode says and no flag is lowered.
  Kept : MainConfig → Answer V → Type 0
  Kept amcf (inl e) = Unit {0}
  Kept amcf (inr (lcf', amcf')) =
      Selected amcf' lcf' × (amcf.any_log_export ≡ true → amcf'.any_log_export ≡ true)

  flag_of-kept :
      (mode : LogExportMode) (amcf : MainConfig)
      → amcf.any_log_export ≡ true
      → (flag_of mode amcf).any_log_export ≡ true
  unfolding flag_of selects
  flag_of-kept unset amcf h = h
  flag_of-kept off amcf h = h
  flag_of-kept all amcf h = refl
  flag_of-kept if_cond amcf h = refl

  directive-Kept :
      (args : List (List ℕ)) (lcf : LocationConf V) (amcf : MainConfig)
      → Kept amcf (cmd_set_otel_log_export compile args lcf amcf)
  unfolding Kept cmd_set_otel_log_export flag_of Sound
  directive-Kept args lcf amcf = elim (Bool-cases (log_export_is_set lcf)) [
    | inl twice ↦ rw (twice) tt
    | inr first ↦ rw (first) (set (log_export_of compile args) (log_export_of-Sound args))
  ]
    where
      set :
          (mode : Option (LogExportMode × Option V))
          → Sound mode
          → Kept amcf (elim mode [
            | none ↦ inl conf_error
            | some (mode, cond) ↦ inr (
              with_log_export mode cond lcf,
              (if selects mode then record amcf { any_log_export = true } else amcf),
            )
          ])
      set none h = tt
      set (some (mode, cond)) h = (set-Selected mode cond lcf amcf h, flag_of-kept mode amcf)

  merge-Selected :
      (amcf : MainConfig) (lcf prev : LocationConf V)
      → Selected amcf lcf
      → Selected amcf prev
      → Selected amcf (merge lcf prev)
  unfolding merge log_export_mode
  merge-Selected amcf lcf prev own inherited = elim (Bool-cases (log_export_is_set lcf)) [
    | inl given ↦ record {
      flagged = simp (given) own.flagged;
      conditioned = simp (given) own.conditioned;
    }
    | inr not_given ↦ record {
      flagged = simp (not_given) inherited.flagged;
      conditioned = simp (not_given) inherited.conditioned;
    }
  ]

  Located-Selected :
      {amcf : MainConfig} {lcf : LocationConf V} → Located amcf lcf → Selected amcf lcf
  unfolding Kept log_export_mode selects
  Located-Selected (fresh amcf) = record { flagged = λ e. cc e; conditioned = λ e. cc e }
  Located-Selected (directive {amcf} {lcf = l} args before e) =
      (subst (Kept amcf) e (directive-Kept args l amcf)).0
  Located-Selected (elsewhere {amcf} {lcf = l} other other' args before e) =
      let kept = (subst (Kept amcf) e (directive-Kept args other amcf)).1 in
      let was = Located-Selected before in
      record { flagged = λ s. kept (was.flagged s); conditioned = was.conditioned }
  Located-Selected (merged {amcf} {lcf = l} {prev} one two) =
      merge-Selected amcf l prev (Located-Selected one) (Located-Selected two)

-- However the directives and the inheritance of the locations follow each other: when a location selects
-- log records, by its own directive or an inherited one, the main configuration has the flag by which
-- the zone of the logs is allocated, and a location with a condition has its compiled value.
pub Located-flagged :
    {V : Type 0} (compile : List ℕ → Option V) (amcf : MainConfig) (lcf : LocationConf V)
    → Located compile amcf lcf
    → (selects (log_export_mode lcf) ≡ true → amcf.any_log_export ≡ true)
      × (log_export_mode lcf ≡ if_cond → (v : V) × (lcf.log_export_cv ≡ some v))
Located-flagged compile amcf lcf reached =
    let selected = Located-Selected compile reached in (selected.flagged, selected.conditioned)
