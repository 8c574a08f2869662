-- ===== src/Drain/Errors.antt =====
-- drain/mod.rs: the error part of the logs drain loses no counted template.
use ngx_otel_rust.Base.{
  ℕ, zero, suc, ◌<◌, ◌≡◌, refl, sym, ap, ◌∙◌, inl, inr, ◌⊎◌, Bool, true, false, not, ◌&&◌, Option,
  none, some, List, [], ◌∷◌, length, drop, drop-add, arith, All, All-map, any, any-append, ltb,
  lt→ltb, ltb→lt, ◌==◌, ==_iff, bytes_eq, if◌then◌else◌, Bool-cases, Option-cases, >>=-eq-some,
  guard-eq-some, some-inj,
}
use ngx_otel_rust.Base.Text.{codes}
use ngx_otel_rust.Wire.{read_be, take_bytes, read_capped_str}
use ngx_otel_rust.DataModel.{AnyValue, LogRecord}
use ngx_otel_rust.Logs.{
  parse_error_record, parse_error_record_consuming, error_attributes, kind_error, error_record_hdr,
}
use ngx_otel_rust.Ring.{WorkerSignalRing, pop_into}
use ngx_otel_rust.Coalesce.{CoalesceSlot, drain_coalesce_table}
use ngx_otel_rust.Drain.{
  keep, contains, drain_error_ring, orphan_record, orphans, ErrorWorker, drain_error_worker,
  counts_map_of, max_error_records_per_worker_per_drain,
}

abbrev pub is_int : (n : ℕ) (v : AnyValue) → Bool
is_int n (AnyValue.int m) = m == n
is_int n _ = false

-- The record names the template in its attributes.
unfoldable pub carries : (hash : ℕ) (lr : LogRecord) → Bool
carries hash lr =
    any (λ kv. bytes_eq kv.key (codes "nginx.error.template_hash") && is_int hash kv.value)
      lr.attributes

carries-orphan_record :
    (now hash severity count : ℕ) → carries hash (orphan_record now hash severity count) ≡ true
unfolding carries orphan_record
carries-orphan_record now hash severity count = ground arith

carries_parsed :
    (hash : ℕ) (m : ℕ → Option ℕ)
    → hash == 0 ≡ false
    → any
        (λ kv. bytes_eq kv.key (codes "nginx.error.template_hash") && is_int hash kv.value)
        (error_attributes hash m)
      ≡ true
unfolding error_attributes
carries_parsed hash m tracked = rw (tracked) (ground arith)

read_be_inv :
    (n : ℕ) (r : List ℕ) (v : ℕ) (r' : List ℕ) → read_be n r ≡ some (v, r') → r' ≡ drop n r
unfolding read_be take_bytes
read_be_inv n r v r' e = elim (Bool-cases (ltb (length r) n)) [
  | inl short ↦ ground (arith, short, e)
  | inr enough ↦ ground (arith, enough, e)
]

-- The template that a parsed record names is the one at the fixed offset.
parse_error_record_hash :
    (buf : List ℕ) (now : ℕ) (m : ℕ → Option ℕ) (lr : LogRecord)
    → parse_error_record buf now m ≡ some lr
    → (h : ℕ) × (r : List ℕ) × (read_be 8 (drop 10 buf) ≡ some (h, r))
      × (lr.attributes ≡ error_attributes h m)
unfolding parse_error_record
parse_error_record_hash buf now m lr e =
    let (long, e1) = guard-eq-some (not (ltb (length buf) error_record_hdr)) _ e in
    let (k, ek, e2) = >>=-eq-some (read_be 1 buf) _ e1 in
    let (is_kind, e3) = guard-eq-some (k.0 == kind_error) _ e2 in
    let (ts, ets, e4) = >>=-eq-some (read_be 8 k.1) _ e3 in
    let (level, el, e5) = >>=-eq-some (read_be 1 ts.1) _ e4 in
    let (hash, eh, e6) = >>=-eq-some (read_be 8 level.1) _ e5 in
    let (line, eb, e7) = >>=-eq-some (read_capped_str hash.1) _ e6 in
    let offset : level.1 ≡ drop 10 buf =
      read_be_inv 1 ts.1 level.0 level.1 el
      ∙ ap (drop 1) (read_be_inv 8 k.1 ts.0 ts.1 ets ∙ ap (drop 8) (read_be_inv 1 buf k.0 k.1 ek))
      ∙ sym (drop-add 8 1 (drop 1 buf))
      ∙ sym (drop-add 1 9 buf) in
    (
      hash.0,
      hash.1,
      ap (read_be 8) (sym offset) ∙ eh,
      ap (λ r. r.attributes) (sym (some-inj _ _ e7)),
    )

-- A template is consumed only together with a record that names it.
abbrev Names : Option LogRecord × Option ℕ → Type 0
Names (parsed, none) = Unit
Names (none, some h) = ⊥
Names (some lr, some h) = carries h lr ≡ true

tracked_Names :
    (lr : LogRecord) (h : ℕ) (m : ℕ → Option ℕ)
    → lr.attributes ≡ error_attributes h m
    → Names (some lr, if h == 0 then none else some h)
unfolding carries
tracked_Names lr h m attributes = elim (Bool-cases (h == 0)) [
  | inl e ↦ rw (e) tt
  | inr e ↦ rw (e, attributes) (carries_parsed h m e)
]

parse_error_record_consuming-Names :
    (buf : List ℕ) (now : ℕ) (m : ℕ → Option ℕ) → Names (parse_error_record_consuming buf now m)
unfolding parse_error_record_consuming
parse_error_record_consuming-Names buf now m = elim (Option-cases (parse_error_record buf now m)) [
  | inl e ↦ rw (parse_error_record_consuming, e) tt
  | inr (lr, e) ↦
      (let (h, r, eh, attributes) = parse_error_record_hash buf now m lr e in
        rw (parse_error_record_consuming, e, eh) (tracked_Names lr h m attributes))
]

kept-Names :
    (parsed : Option LogRecord) (consumed : Option ℕ) (hash : ℕ) (rest : List LogRecord)
    (hashes : List ℕ)
    → Names (parsed, consumed)
    → (contains hashes hash ≡ true → any (carries hash) rest ≡ true)
    → contains (keep consumed hashes) hash ≡ true
    → any (carries hash) (keep parsed rest) ≡ true
unfolding contains
kept-Names none none hash rest hashes names later member = later member
kept-Names (some lr) none hash rest hashes names later member = ground (arith, later member)
kept-Names none (some h) hash rest hashes names later member = absurd names
kept-Names (some lr) (some h) hash rest hashes names later member = elim (Bool-cases (h == hash)) [
  | inl e ↦ (let same : h ≡ hash = (==_iff h hash).0 e in rw (sym same, names) refl)
  | inr e ↦ ground (arith, later, e, member)
]

abbrev NamesAll : List LogRecord × List ℕ × WorkerSignalRing → Type 0
NamesAll (lines, hashes, ring) =
    (hash : ℕ) → contains hashes hash ≡ true → any (carries hash) lines ≡ true

drain_error_ring-NamesAll :
    (now : ℕ) (m : ℕ → Option ℕ) (limit : ℕ) (ring : WorkerSignalRing)
    → NamesAll (drain_error_ring now m limit ring)
unfolding drain_error_ring contains
drain_error_ring-NamesAll now m zero ring = λ hash member. cc member
drain_error_ring-NamesAll now m (suc limit) ring = elim (Bool-cases (pop_into ring []).0) [
  | inl e ↦
      rw (drain_error_ring, e)
        (λ hash member.
          kept-Names (parse_error_record_consuming (pop_into ring []).1 now m).0
            (parse_error_record_consuming (pop_into ring []).1 now m).1 hash
            (drain_error_ring now m limit (pop_into ring []).2).0
            (drain_error_ring now m limit (pop_into ring []).2).1
            (parse_error_record_consuming-Names (pop_into ring []).1 now m)
            (drain_error_ring-NamesAll now m limit (pop_into ring []).2 hash) member)
  | inr e ↦ rw (drain_error_ring, e) (λ hash member. cc member)
]

orphans_grow :
    (test : LogRecord → Bool) (now : ℕ) (consumed : List ℕ) (hash severity count : ℕ)
    (counts_vec : List (ℕ × ℕ × ℕ))
    → any test (orphans now consumed counts_vec).0 ≡ true
    → any test (orphans now consumed ((hash, severity, count) ∷ counts_vec)).0 ≡ true
unfolding orphans
orphans_grow test now consumed hash severity count counts_vec own =
    elim (Bool-cases (ltb 0 count && not (contains consumed hash))) [
      | inl e ↦ rw (e) (ground (arith, own))
      | inr e ↦ rw (e) own
    ]

own_record :
    (now : ℕ) (consumed : List ℕ) (hash severity count : ℕ) (counts_vec : List (ℕ × ℕ × ℕ))
    → 0 < count
    → contains consumed hash ≡ false
    → any (carries hash) (orphans now consumed ((hash, severity, count) ∷ counts_vec)).0 ≡ true
unfolding orphans
own_record now consumed hash severity count counts_vec positive missing =
    rw (lt→ltb 0 count positive, missing, carries-orphan_record now hash severity count) refl

abbrev Covered : List ℕ → List LogRecord → ℕ × ℕ × ℕ → Type 0
Covered consumed lines entry =
    (contains consumed entry.0 ≡ true) ⊎ (any (carries entry.0) lines ≡ true)

-- Each entry of the drained table is consumed or gets a record of its own.
orphans_name :
    (now : ℕ) (consumed : List ℕ) (counts_vec : List (ℕ × ℕ × ℕ))
    → All (λ e. 0 < e.2) counts_vec
    → All (Covered consumed (orphans now consumed counts_vec).0) counts_vec
unfolding orphans
orphans_name now consumed [] counted = tt
orphans_name now consumed ((hash, severity, count) ∷ counts_vec) counted =
    let grown : All
        (Covered consumed (orphans now consumed ((hash, severity, count) ∷ counts_vec)).0)
        counts_vec =
      All-map
        (λ e. λ named. elim named [
          | inl member ↦ inl member
          | inr own ↦
              inr (orphans_grow (carries e.0) now consumed hash severity count counts_vec own)
        ])
        counts_vec (orphans_name now consumed counts_vec counted.1) in
    elim (Bool-cases (contains consumed hash)) [
      | inl member ↦ (inl member, grown)
      | inr missing ↦
          (inr (own_record now consumed hash severity count counts_vec counted.0 missing), grown)
    ]

drained_counts : (table : List CoalesceSlot) → All (λ e. 0 < e.2) (drain_coalesce_table table).0
unfolding drain_coalesce_table
drained_counts [] = tt
drained_counts (slot ∷ table) =
    let later = drained_counts table in
    elim (Bool-cases (slot.key_hash == 0)) [
      | inl e ↦ rw (e) later
      | inr e ↦ elim (Bool-cases (ltb 0 slot.count)) [
        | inl c ↦ rw (e, c) ((ltb→lt 0 slot.count c, later))
        | inr c ↦ rw (e, c) later
      ]
    ]

-- After the error part of a drain, for every worker state, each template that the worker's table
-- counted in the interval is named by at least one of the records that the drain delivers: by a record
-- of the ring that parsed, or by the record that stands in for it.
pub drain_error_worker_lem :
    (now : ℕ) (w : ErrorWorker)
    → All
        (λ entry. any (carries entry.0) (drain_error_worker now w).0 ≡ true)
        (drain_coalesce_table w.table).0
unfolding drain_error_worker
drain_error_worker_lem now w =
    let counts_vec = (drain_coalesce_table w.table).0 in
    let drained =
      drain_error_ring now (counts_map_of counts_vec) max_error_records_per_worker_per_drain
        w.ring in
    All-map
      (λ entry. λ named. elim named [
        | inl member ↦
            rw
              (
                any-append (carries entry.0) drained.0 (orphans now drained.1 counts_vec).0,
                drain_error_ring-NamesAll now _ _ w.ring entry.0 member,
              )
              refl
        | inr own ↦
            rw (any-append (carries entry.0) drained.0 (orphans now drained.1 counts_vec).0, own)
              (ground arith)
      ])
      counts_vec (orphans_name now drained.1 counts_vec (drained_counts w.table))
