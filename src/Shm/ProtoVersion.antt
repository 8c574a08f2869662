-- ===== src/Shm/ProtoVersion.antt =====
-- `ProtoVersion` of shm/mod.rs.
use ngx_otel_rust.Base.{ℕ, ◌≡◌, refl, List, ◌==◌, if◌then◌else◌}
use ngx_otel_rust.Base.Text.{codes}

pub data ProtoVersion : Type 0 where
  http10 http11 http2 http3 : ProtoVersion

abbrev pub n_proto_versions : ℕ
n_proto_versions = 4

unfoldable pub from_ngx : ℕ → ProtoVersion
from_ngx v =
    if v == 1000
    then http10
    else if v == 1001
    then http11
    else if v == 2000
    then http2
    else if v == 3000
    then http3
    else http11

unfoldable pub from_index : ℕ → ProtoVersion
from_index i = if i == 0 then http10 else if i == 1 then http11 else if i == 2 then http2 else http3

abbrev pub index : ProtoVersion → ℕ
index http10 = 0
index http11 = 1
index http2 = 2
index http3 = 3

unfoldable pub as_str : ProtoVersion → List ℕ
as_str http10 = codes "1.0"
as_str http11 = codes "1.1"
as_str http2 = codes "2"
as_str http3 = codes "3"

pub from_index-index : (p : ProtoVersion) → from_index (index p) ≡ p
unfolding from_index
from_index-index http10 = refl
from_index-index http11 = refl
from_index-index http2 = refl
from_index-index http3 = refl
