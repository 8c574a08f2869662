-- ===== src/Shm/HttpMethod.antt =====
-- `HttpMethod` of shm/mod.rs.
use ngx_otel_rust.Base.{ℕ, ◌≡◌, refl, List, ◌==◌, if◌then◌else◌, bytes_eq}
use ngx_otel_rust.Base.Text.{codes}

pub data HttpMethod : Type 0 where
  get head post put delete patch options other : HttpMethod

abbrev pub n_http_methods : ℕ
n_http_methods = 8

unfoldable pub from_bytes : List ℕ → HttpMethod
from_bytes m =
    if bytes_eq m (codes "GET")
    then get
    else if bytes_eq m (codes "HEAD")
    then head
    else if bytes_eq m (codes "POST")
    then post
    else if bytes_eq m (codes "PUT")
    then put
    else if bytes_eq m (codes "DELETE")
    then delete
    else if bytes_eq m (codes "PATCH")
    then patch
    else if bytes_eq m (codes "OPTIONS")
    then options
    else other

unfoldable pub from_index : ℕ → HttpMethod
from_index i =
    if i == 0
    then get
    else if i == 1
    then head
    else if i == 2
    then post
    else if i == 3
    then put
    else if i == 4
    then delete
    else if i == 5
    then patch
    else if i == 6
    then options
    else other

-- The discriminant, `as usize`.
abbrev pub index : HttpMethod → ℕ
index get = 0
index head = 1
index post = 2
index put = 3
index delete = 4
index patch = 5
index options = 6
index other = 7

unfoldable pub as_str : HttpMethod → List ℕ
as_str get = codes "GET"
as_str head = codes "HEAD"
as_str post = codes "POST"
as_str put = codes "PUT"
as_str delete = codes "DELETE"
as_str patch = codes "PATCH"
as_str options = codes "OPTIONS"
as_str other = codes "_OTHER"

pub from_index-index : (m : HttpMethod) → from_index (index m) ≡ m
unfolding from_index
from_index-index get = refl
from_index-index head = refl
from_index-index post = refl
from_index-index put = refl
from_index-index delete = refl
from_index-index patch = refl
from_index-index options = refl
from_index-index other = refl

-- The attribute text of a method is read back as that method; `_OTHER` is no method's name.
pub from_bytes-as_str : (m : HttpMethod) → from_bytes (as_str m) ≡ m
unfolding from_bytes as_str
from_bytes-as_str get = refl
from_bytes-as_str head = refl
from_bytes-as_str post = refl
from_bytes-as_str put = refl
from_bytes-as_str delete = refl
from_bytes-as_str patch = refl
from_bytes-as_str options = refl
from_bytes-as_str other = refl
