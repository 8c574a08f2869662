-- ===== src/Processor/Runs.antt =====
-- A processor at a concrete batch.
use ngx_otel_rust.Base.{ℕ, ◌≡◌, refl, none, some, List, [], ◌∷◌, bytes_eq, if◌then◌else◌}
use ngx_otel_rust.Base.Text.{codes}
use ngx_otel_rust.DataModel.{Span, SpanKind, StatusCode, string}
use ngx_otel_rust.DataModel.Payload.{SpansBatch, spans_data}
use ngx_otel_rust.Processor.{
  Json, probe_drop, from_config, strings_of, process, default_paths, retain, keeps_path,
  url_path_of,
}
use ngx_otel_rust.Processor.Filter.{Drops, KeptFrom, process-KeptFrom}

abbrev span_at : List ℕ → Span
span_at path = record {
  trace_id = [];
  span_id = [];
  parent_span_id = [];
  flags = 0;
  name = [];
  kind = SpanKind.server;
  start_time_unix_nano = 0;
  end_time_unix_nano = 1000;
  attributes = record { key = codes "url.path"; value = string path } ∷ [];
  status_code = StatusCode.ok;
  status_message = [];
}

abbrev two_spans : SpansBatch
two_spans = record {
  resource = record { attributes = [] };
  scope = record { name = []; version = [] };
  spans = span_at (codes "/healthz") ∷ span_at (codes "/api") ∷ [];
}

healthz_dropped :
    process (probe_drop default_paths) (spans_data two_spans)
    ≡ spans_data (record two_spans { spans = span_at (codes "/api") ∷ [] })
unfolding process retain keeps_path url_path_of
healthz_dropped = refl

process-KeptFrom_example :
    (b' : SpansBatch) × (process (probe_drop default_paths) (spans_data two_spans) ≡ spans_data b')
    × (b'.resource ≡ two_spans.resource)
    × (b'.scope ≡ two_spans.scope)
    × KeptFrom (Drops (probe_drop default_paths)) two_spans.spans b'.spans
    × (process (probe_drop default_paths) (spans_data b') ≡ spans_data b')
process-KeptFrom_example = process-KeptFrom (probe_drop default_paths) two_spans

-- A configuration whose only member is its type.
abbrev typed : Json (List ℕ)
typed = record {
  get = λ cfg key. if bytes_eq key (codes "type") then some cfg else none;
  as_bool = λ v. none;
  as_array = λ v. none;
  as_str = λ v. some v;
}

probe_drop_config : from_config typed (codes "probe_drop") ≡ probe_drop default_paths
unfolding from_config strings_of
probe_drop_config = refl
