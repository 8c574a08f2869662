-- ===== src/DataModel.antt =====
-- data_model/mod.rs: the exporter's payload types. A string is its bytes; an `i64` is its 64-bit
-- pattern; a double is given by its value in millionths, which is how the parsers make one.
pub mod Payload
pub mod Fields
use ngx_otel_rust.Base.{ℕ, Bool, List}

mutual
  pub data AnyValue : Type 0 where
    string : List ℕ → AnyValue
    bool : Bool → AnyValue
    int : ℕ → AnyValue
    double : ℕ → AnyValue
    bytes : List ℕ → AnyValue
    array : Values → AnyValue

  pub data Values : Type 0 where
    nil : Values
    cons : AnyValue → Values → Values

pub record KeyValue : Type 0 where
  pub key : List ℕ
  pub value : AnyValue

pub data SpanKind : Type 0 where
  unspecified internal server client producer consumer : SpanKind

pub data StatusCode : Type 0 where
  unset ok error : StatusCode

-- `events` and `links` are always empty and are left out.
pub record Span : Type 0 where
  pub trace_id : List ℕ
  pub span_id : List ℕ
  pub parent_span_id : List ℕ
  pub flags : ℕ
  pub name : List ℕ
  pub kind : SpanKind
  pub start_time_unix_nano : ℕ
  pub end_time_unix_nano : ℕ
  pub attributes : List KeyValue
  pub status_code : StatusCode
  pub status_message : List ℕ

-- The levels that `nginx_to_otel` gives, and those between them.
pub data SeverityNumber : Type 0 where
  unspecified : SeverityNumber
  trace trace2 trace3 trace4 : SeverityNumber
  debug debug2 debug3 debug4 : SeverityNumber
  info info2 info3 info4 : SeverityNumber
  warn warn2 warn3 warn4 : SeverityNumber
  error error2 error3 error4 : SeverityNumber
  fatal fatal2 fatal3 fatal4 : SeverityNumber

pub record LogRecord : Type 0 where
  pub time_unix_nano : ℕ
  pub observed_time_unix_nano : ℕ
  pub severity_number : SeverityNumber
  pub severity_text : List ℕ
  pub body : AnyValue
  pub attributes : List KeyValue
  pub event_name : List ℕ
  pub trace_id : List ℕ
  pub span_id : List ℕ
