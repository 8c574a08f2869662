-- ===== src/Shm/Combo.antt =====
-- `combo_index` of shm/mod.rs: the slot of a method, a status class and a protocol.
use ngx_otel_rust.Base.{ℕ, ◌+◌, ◌*◌, ◌/◌, ◌%◌, ◌<◌, ◌≡◌, ap, ◌∙◌, arith}
use ngx_otel_rust.Shm.HttpMethod
use ngx_otel_rust.Shm.HttpMethod.{HttpMethod, n_http_methods}
use ngx_otel_rust.Shm.StatusClass
use ngx_otel_rust.Shm.StatusClass.{StatusClass, n_status_classes}
use ngx_otel_rust.Shm.ProtoVersion
use ngx_otel_rust.Shm.ProtoVersion.{ProtoVersion, n_proto_versions}

abbrev pub n_combos : ℕ
n_combos = n_http_methods * n_status_classes * n_proto_versions

unfoldable pub combo_index : HttpMethod → StatusClass → ProtoVersion → ℕ
combo_index method status_class proto =
    HttpMethod.index method * n_status_classes * n_proto_versions
    + StatusClass.index status_class * n_proto_versions
    + ProtoVersion.index proto

method_bound : (m : HttpMethod) → HttpMethod.index m < 8
method_bound m = ground arith

status_bound : (c : StatusClass) → StatusClass.index c < 5
status_bound c = ground arith

proto_bound : (p : ProtoVersion) → ProtoVersion.index p < 4
proto_bound p = ground arith

-- The index is within the table of 160 slots, and its quotient by 20, its quotient by 4 modulo 5 and
-- its remainder by 4 are the indices from which `from_index` makes the three dimensions again.
pub combo_index_lem :
    (m : HttpMethod) (c : StatusClass) (p : ProtoVersion)
    → (combo_index m c p < n_combos)
      × (HttpMethod.from_index (combo_index m c p / 20) ≡ m)
      × (StatusClass.from_index (combo_index m c p / 4 % 5) ≡ c)
      × (ProtoVersion.from_index (combo_index m c p % 4) ≡ p)
unfolding combo_index
combo_index_lem m c p =
    let i = combo_index m c p in
    let em : i / 20 ≡ HttpMethod.index m =
      omega (arith, method_bound m, status_bound c, proto_bound p) in
    let ec : i / 4 % 5 ≡ StatusClass.index c =
      omega (arith, method_bound m, status_bound c, proto_bound p) in
    let ep : i % 4 ≡ ProtoVersion.index p =
      omega (arith, method_bound m, status_bound c, proto_bound p) in
    (
      omega (arith, method_bound m, status_bound c, proto_bound p),
      ap HttpMethod.from_index em ∙ HttpMethod.from_index-index m,
      ap StatusClass.from_index ec ∙ StatusClass.from_index-index c,
      ap ProtoVersion.from_index ep ∙ ProtoVersion.from_index-index p,
    )
