-- ===== src/Processor.antt =====
-- processor/mod.rs: the processors between the drain and the encoder. The JSON value is serde_json's:
-- its accessors are parameters.
pub mod Filter
mod Runs
use ngx_otel_rust.Base.{
  ℕ, Bool, true, false, not, Option, none, some, List, [], ◌∷◌, if◌then◌else◌, bytes_eq, unwrap_or,
  ◌>>=◌, any,
}
use ngx_otel_rust.Base.Text.{codes}
use ngx_otel_rust.DataModel.{AnyValue, KeyValue, Span, StatusCode, string}
use ngx_otel_rust.DataModel.Payload.{Pdata, SpansBatch, metrics_data, logs_data, spans_data}

-- `Vec::retain`.
unfoldable pub retain {ℓ} : {A : Type ℓ} (keep : A → Bool) (xs : List A) → List A
retain keep [] = []
retain keep (x ∷ xs) = let rest = retain keep xs in if keep x then x ∷ rest else rest

pub data Processor : Type 0 where
  noop : Processor
  status_filter : (drop_errors : Bool) → Processor
  probe_drop : (paths : List (List ℕ)) → Processor

abbrev pub is_error : StatusCode → Bool
is_error StatusCode.error = true
is_error _ = false

-- The first string among the attributes called `url.path`.
unfoldable pub url_path_of : (attributes : List KeyValue) → Option (List ℕ)
url_path_of [] = none
url_path_of (kv ∷ kvs) =
    let rest = url_path_of kvs in
    if bytes_eq kv.key (codes "url.path")
    then elim kv.value [ AnyValue.string s ↦ some s | _ ↦ rest ]
    else rest

unfoldable pub keeps_path : (paths : List (List ℕ)) (span : Span) → Bool
keeps_path paths span = elim (url_path_of span.attributes) [
  | some path ↦ not (any (λ p. bytes_eq p path) paths)
  | none ↦ true
]

abbrev pub retain_spans : (Span → Bool) → Pdata → Pdata
retain_spans keep (metrics_data b) = metrics_data b
retain_spans keep (logs_data b) = logs_data b
retain_spans keep (spans_data b) = spans_data (record b { spans = retain keep b.spans })

unfoldable pub process : (processor : Processor) (data_in : Pdata) → Pdata
process noop data_in = data_in
process (status_filter false) data_in = data_in
process (status_filter true) data_in =
    retain_spans (λ span. not (is_error span.status_code)) data_in
process (probe_drop paths) data_in = retain_spans (keeps_path paths) data_in

abbrev pub default_paths : List (List ℕ)
default_paths =
    codes "/healthz" ∷ codes "/readyz" ∷ codes "/livez" ∷ codes "/ping" ∷ codes "/metrics" ∷ []

-- The accessors of a JSON value.
pub record Json (J : Type 0) : Type 0 where
  pub get : J → List ℕ → Option J
  pub as_bool : J → Option Bool
  pub as_array : J → Option (List J)
  pub as_str : J → Option (List ℕ)

module _ {J : Type 0} (json : Json J) where
  unfoldable pub strings_of : (arr : List J) → List (List ℕ)
  strings_of [] = []
  strings_of (v ∷ vs) = elim (json.as_str v) [ some s ↦ s ∷ strings_of vs | none ↦ strings_of vs ]

  unfoldable pub from_config : (cfg : J) → Processor
  from_config cfg =
      let kind = unwrap_or (json.get cfg (codes "type") >>= json.as_str) (codes "noop") in
      if bytes_eq kind (codes "status_filter")
      then status_filter (unwrap_or (json.get cfg (codes "drop_errors") >>= json.as_bool) false)
      else if bytes_eq kind (codes "probe_drop")
      then probe_drop (elim (json.get cfg (codes "paths") >>= json.as_array) [
        | some arr ↦ strings_of arr
        | none ↦ default_paths
      ])
      else noop
