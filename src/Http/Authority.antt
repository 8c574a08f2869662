-- ===== src/Http/Authority.antt =====
-- transport/hyper_http.rs: the authority that an endpoint prints is parsed back to its host and port.
use ngx_otel_rust.Base.{
  ℕ, suc, ◌+◌, ◌^◌, ◌<◌, ◌≡◌, refl, sym, ap, ◌∙◌, inl, inr, ◌⊎◌, true, false, none, some, List, [],
  ◌∷◌, ◌++◌, ◌==◌, if◌then◌else◌, Bool-cases, All, All-map, leb, length, take, drop, get_or,
  is_empty, take-append, drop-append, append-nil, append_assoc, length-append, arith,
}
use ngx_otel_rust.Decimal.{decimal_u16}
use ngx_otel_rust.Decimal.Digits.{IsDigit, decimal_u16_lem}
use ngx_otel_rust.Http.Date.{parse_decimal, parse_digits}
use ngx_otel_rust.Http.Endpoint.{
  http, https, find, rfind, parse_u16, search_start_of, parse_authority, with_port, authority_of,
}

abbrev pub Without : ℕ → List ℕ → Type 0
Without c s = All (λ b. (b == c) ≡ false) s

-- A name or an IPv4 address has no colon and does not start with a bracket.
abbrev pub IsName : List ℕ → Type 0
IsName host = ((get_or host 0 0 == b'[') ≡ false) × Without b':' host

abbrev pub bracketed : List ℕ → List ℕ
bracketed inner = b'[' ∷ inner ++ b']' ∷ []

rfind-none : (c : ℕ) (s : List ℕ) → Without c s → rfind c s ≡ none
unfolding rfind
rfind-none c [] w = refl
rfind-none c (b ∷ s) w = rw (rfind, rfind-none c s w.1, w.0) refl

rfind_last : (c : ℕ) (s t : List ℕ) → Without c t → rfind c (s ++ c ∷ t) ≡ some (length s)
unfolding rfind
rfind_last c [] t w =
    let self : (c == c) ≡ true = ground arith in rw (rfind, rfind-none c t w, self) refl
rfind_last c (b ∷ s) t w = rw (rfind, rfind_last c s t w) refl

pub find_first : (c : ℕ) (s t : List ℕ) → Without c s → find c (s ++ c ∷ t) ≡ some (length s)
unfolding find
find_first c [] t w = let self : (c == c) ≡ true = ground arith in rw (self) refl
find_first c (b ∷ s) t w = rw (find, find_first c s t w.1, w.0) refl

read_back :
    (text : List ℕ) (port : ℕ)
    → All IsDigit text
    → is_empty text ≡ false
    → parse_digits (2 ^ 16) text 0 ≡ some port
    → parse_u16 text ≡ some port
unfolding parse_u16 parse_decimal
read_back [] port digits filled value = cc filled
read_back (c ∷ s) port digits filled value =
    let plain : (c == b'+') ≡ false = ground (arith, digits.0) in rw (plain) value

parse_u16-decimal_u16 : (port : ℕ) → port < 2 ^ 16 → parse_u16 (decimal_u16 port) ≡ some port
parse_u16-decimal_u16 port small =
    let text = decimal_u16_lem port small in read_back (decimal_u16 port) port text.0 text.1 text.2

no_colon : (port : ℕ) → port < 2 ^ 16 → Without b':' (decimal_u16 port)
no_colon port small =
    All-map {Q = λ b. (b == b':') ≡ false} (λ b. λ digit. ground (arith, digit)) (decimal_u16 port)
      (decimal_u16_lem port small).0

drop_past : (s t : List ℕ) (c : ℕ) → drop (length s + 1) (s ++ c ∷ t) ≡ t
drop_past s t c =
    let size : length s + 1 ≡ length (s ++ c ∷ []) = omega (arith, length-append s (c ∷ [])) in
    ap (λ k. drop k (s ++ c ∷ t)) size
    ∙ ap (drop (length (s ++ c ∷ []))) (sym (append_assoc s (c ∷ []) t))
    ∙ drop-append (s ++ c ∷ []) t

module _ (host tail : List ℕ) (k default_port : ℕ) where
  with_port_lem :
      (port : ℕ)
      → port < 2 ^ 16
      → search_start_of (with_port host port) ≡ k
      → drop k (with_port host port) ≡ tail ++ b':' ∷ decimal_u16 port
      → length host ≡ k + length tail
      → parse_authority (with_port host port) default_port ≡ (host, port)
  unfolding parse_authority
  with_port_lem port small start rest size =
      let text = decimal_u16 port in
      let colon : rfind b':' (tail ++ b':' ∷ text) ≡ some (length tail) =
        rfind_last b':' tail text (no_colon port small) in
      let at : k + length tail ≡ length host = omega (arith, size) in
      let name : take (length host) (with_port host port) ≡ host = take-append host (b':' ∷ text) in
      let behind : drop (length host + 1) (with_port host port) ≡ text = drop_past host text b':' in
      rw
        (
          parse_authority,
          start,
          rest,
          colon,
          start,
          at,
          name,
          behind,
          parse_u16-decimal_u16 port small,
        )
        refl

  without_port_lem :
      search_start_of host ≡ k
      → drop k host ≡ tail
      → Without b':' tail
      → parse_authority host default_port ≡ (host, default_port)
  unfolding parse_authority
  without_port_lem start rest w = rw (parse_authority, start, rest, rfind-none b':' tail w) refl

leb_one : (n : ℕ) → leb 1 (suc n) ≡ true
leb_one n = ground arith

-- A text that does not start with a bracket is searched from its start.
plain_start : (text : List ℕ) → (get_or text 0 0 == b'[') ≡ false → search_start_of text ≡ 0
unfolding search_start_of
plain_start [] plain = refl
plain_start (b ∷ text) plain = rw (search_start_of, plain, leb_one (length text)) refl

name_start : (host : List ℕ) (port : ℕ) → IsName host → search_start_of (with_port host port) ≡ 0
name_start [] port name = plain_start (with_port [] port) (ground arith)
name_start (b ∷ host) port name = plain_start (with_port (b ∷ host) port) name.0

bracketed_start :
    (inner r : List ℕ)
    → Without b']' inner
    → search_start_of (bracketed inner ++ r) ≡ length inner + 2
unfolding search_start_of find
bracketed_start inner r w =
    let close : find b']' ((inner ++ b']' ∷ []) ++ r) ≡ some (length inner) =
      ap (find b']') (append_assoc inner (b']' ∷ []) r) ∙ find_first b']' inner r w in
    rw (search_start_of, leb_one (length ((inner ++ b']' ∷ []) ++ r)), close) (omega arith)

-- A host as an endpoint has it: a name, or an IPv6 literal in its brackets; the path starts behind it.
unfoldable pub IsHost : (host : List ℕ) → Type 0
IsHost host =
    Without b'/' host
    × (IsName host ⊎ ((inner : List ℕ) × (host ≡ bracketed inner) × Without b']' inner))

bracketed_size : (inner : List ℕ) → length (bracketed inner) ≡ length inner + 2
bracketed_size inner = rw (length-append inner (b']' ∷ [])) (omega arith)

bracketed_rest : (inner r : List ℕ) → drop (length inner + 2) (bracketed inner ++ r) ≡ r
bracketed_rest inner r =
    ap (λ k. drop k (bracketed inner ++ r)) (sym (bracketed_size inner))
    ∙ drop-append (bracketed inner) r

module _ (port d : ℕ) (small : port < 2 ^ 16) where
  name_lem :
      (host : List ℕ)
      → IsName host
      → parse_authority (if port == d then host else with_port host port) d ≡ (host, port)
  name_lem host name = elim (Bool-cases (port == d)) [
    | inl same ↦
        (let at : port ≡ d = ground (arith, same) in
          rw (same, at) (without_port_lem host host 0 d (plain_start host name.0) refl name.1))
    | inr other ↦
        rw (other)
          (with_port_lem host host 0 d port small (name_start host port name) refl (omega arith))
  ]

  bracketed_lem :
      (inner : List ℕ)
      → Without b']' inner
      → parse_authority (if port == d then bracketed inner else with_port (bracketed inner) port) d
        ≡ (bracketed inner, port)
  bracketed_lem inner w =
      let host = bracketed inner in
      let whole : search_start_of host ≡ length inner + 2 =
        ap search_start_of (sym (append-nil host)) ∙ bracketed_start inner [] w in
      let nothing : drop (length inner + 2) host ≡ [] =
        ap (drop (length inner + 2)) (sym (append-nil host)) ∙ bracketed_rest inner [] in
      elim (Bool-cases (port == d)) [
        | inl same ↦
            (let at : port ≡ d = ground (arith, same) in
              rw (same, at) (without_port_lem host [] (length inner + 2) d whole nothing tt))
        | inr other ↦ rw (other) (
            with_port_lem host [] (length inner + 2) d port small
              (bracketed_start inner (b':' ∷ decimal_u16 port) w)
              (bracketed_rest inner (b':' ∷ decimal_u16 port))
              (omega (arith, bracketed_size inner)))
      ]

  host_lem :
      (host : List ℕ)
      → IsHost host
      → parse_authority (if port == d then host else with_port host port) d ≡ (host, port)
  unfolding IsHost
  host_lem host (path, inl name) = name_lem host name
  host_lem host (path, inr (inner, same, w)) = rw (same) (bracketed_lem inner w)

-- The authority of an endpoint is parsed back to the host and the port.
pub parse_authority-authority_of :
    (host : List ℕ) (port : ℕ) (path : List ℕ)
    → IsHost host
    → port < 2 ^ 16
    → (parse_authority (authority_of (http host port path)) 80 ≡ (host, port))
      × (parse_authority (authority_of (https host port path)) 443 ≡ (host, port))
unfolding authority_of
parse_authority-authority_of host port path is small =
    (host_lem port 80 small host is, host_lem port 443 small host is)
