-- ===== src/Shm/StatusClass.antt =====
-- `StatusClass` of shm/mod.rs.
use ngx_otel_rust.Base.{ℕ, ◌≡◌, refl, ◌&&◌, List, leb, ◌==◌, if◌then◌else◌}
use ngx_otel_rust.Base.Text.{codes}

pub data StatusClass : Type 0 where
  s1xx s2xx s3xx s4xx s5xx : StatusClass

abbrev pub n_status_classes : ℕ
n_status_classes = 5

unfoldable pub from_status : ℕ → StatusClass
from_status status =
    if leb 100 status && leb status 199
    then s1xx
    else if leb 200 status && leb status 299
    then s2xx
    else if leb 300 status && leb status 399
    then s3xx
    else if leb 400 status && leb status 499
    then s4xx
    else s5xx

unfoldable pub from_index : ℕ → StatusClass
from_index i =
    if i == 0
    then s1xx
    else if i == 1
    then s2xx
    else if i == 2
    then s3xx
    else if i == 3
    then s4xx
    else s5xx

abbrev pub index : StatusClass → ℕ
index s1xx = 0
index s2xx = 1
index s3xx = 2
index s4xx = 3
index s5xx = 4

unfoldable pub representative_status : StatusClass → ℕ
representative_status s1xx = 100
representative_status s2xx = 200
representative_status s3xx = 300
representative_status s4xx = 400
representative_status s5xx = 500

unfoldable pub as_str : StatusClass → List ℕ
as_str s1xx = codes "1xx"
as_str s2xx = codes "2xx"
as_str s3xx = codes "3xx"
as_str s4xx = codes "4xx"
as_str s5xx = codes "5xx"

pub from_index-index : (c : StatusClass) → from_index (index c) ≡ c
unfolding from_index
from_index-index s1xx = refl
from_index-index s2xx = refl
from_index-index s3xx = refl
from_index-index s4xx = refl
from_index-index s5xx = refl

pub from_status-representative_status :
    (c : StatusClass) → from_status (representative_status c) ≡ c
unfolding from_status representative_status
from_status-representative_status s1xx = refl
from_status-representative_status s2xx = refl
from_status-representative_status s3xx = refl
from_status-representative_status s4xx = refl
from_status-representative_status s5xx = refl
