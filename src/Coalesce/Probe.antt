-- ===== src/Coalesce/Probe.antt =====
-- The table of logs/coalesce.rs: `coalesce` and `drain_coalesce_table`.
use ngx_otel_rust.Base.{
  ℕ, zero, suc, ◌+◌, ◌%◌, ◌≤◌, ◌<◌, ◌≡◌, ◌≢◌, refl, sym, ap, ◌∙◌, true, false, ◌&&◌, List, [], ◌∷◌,
  ltb, leb, ◌==◌, if◌then◌else◌, arith, length, get_or, All, Bool-cases, inl, inr, get_or-set_self,
  get_or-set_ne, length-set,
}
use Prim.{tt}
use ngx_otel_rust.Coalesce.{
  CoalesceSlot, empty_slot, new_slot, bumped, next_probe, coalesce_capacity, coalesced,
  emit_verbatim, probe_table, coalesce, coalesce_key, stable_core, drain_coalesce_table,
}

-- A slot of another template.
abbrev Other : CoalesceSlot → ℕ → ℕ → Type 0
Other slot key severity =
    ((slot.key_hash == 0) ≡ false)
    × (((slot.key_hash == key) && (slot.severity == severity)) ≡ false)

probe_table-others :
    (left : ℕ) (table : List CoalesceSlot) (key severity probe q : ℕ)
    → Other (get_or table q empty_slot) key severity
    → get_or (probe_table left table key severity probe).1 q empty_slot ≡ get_or table q empty_slot
unfolding probe_table
probe_table-others zero table key severity probe q o = refl
probe_table-others (suc left) table key severity probe q o =
    elim (Bool-cases ((get_or table probe empty_slot).key_hash == 0)) [
      | inl empty ↦ rw (empty) (
          get_or-set_ne table probe q _ empty_slot (λ e.
            ground
              (arith, o.0, sym (ap (λ k. (get_or table k empty_slot).key_hash == 0) e) ∙ empty)))
      | inr full ↦
          elim (Bool-cases (
            ((get_or table probe empty_slot).key_hash == key)
            && ((get_or table probe empty_slot).severity == severity))) [
              | inl same ↦
                  rw (full, same)
                    (get_or-set_ne table probe q _ empty_slot (λ e. ground (
                      arith,
                      o.1,
                      sym (
                            ap
                              (λ k.
                                ((get_or table k empty_slot).key_hash == key)
                                && ((get_or table k empty_slot).severity == severity))
                              e)
                          ∙ same,
                    )))
              | inr diff ↦
                  rw (full, diff)
                    (probe_table-others left table key severity (next_probe probe) q o)
            ]
    ]

-- A call that tracked the template has left a slot that the same call finds again.
probe_table-again :
    (left : ℕ) (table : List CoalesceSlot) (key severity probe : ℕ)
    → length table ≡ coalesce_capacity
    → probe < coalesce_capacity
    → 1 ≤ key
    → (probe_table left table key severity probe).0 ≢ emit_verbatim 0
    → (probe_table left (probe_table left table key severity probe).1 key severity probe).0
      ≡ coalesced
unfolding probe_table
probe_table-again zero table key severity probe size inside pos tracked = absurd (tracked refl)
probe_table-again (suc left) table key severity probe size inside pos tracked =
    elim (Bool-cases (slot.key_hash == 0)) [
      | inl empty ↦
          rw
            (
              empty,
              get_or-set_self table probe (new_slot key severity) empty_slot room,
              not_empty,
              same_key,
              same_severity,
            )
            refl
      | inr full ↦ elim (Bool-cases ((slot.key_hash == key) && (slot.severity == severity))) [
        | inl same ↦
            rw (full, same, get_or-set_self table probe (bumped slot) empty_slot room, full, same)
              refl
        | inr diff ↦
            rw
              (
                full,
                diff,
                probe_table-others left table key severity (next_probe probe) probe (full, diff),
                full,
                diff,
              )
              (probe_table-again left table key severity (next_probe probe) size (omega arith) pos
                (λ e. tracked (rw (full, diff) e)))
      ]
    ]
  where
    slot : CoalesceSlot
    slot = get_or table probe empty_slot

    room : probe < length table
    room = omega (arith, size, inside)

    not_empty : (key == 0) ≡ false
    not_empty = ground (arith, pos)

    same_key : (key == key) ≡ true
    same_key = ground arith

    same_severity : (severity == severity) ≡ true
    same_severity = ground arith

length-probe_table :
    (left : ℕ) (table : List CoalesceSlot) (key severity probe : ℕ)
    → length (probe_table left table key severity probe).1 ≡ length table
unfolding probe_table
length-probe_table zero table key severity probe = refl
length-probe_table (suc left) table key severity probe =
    elim (Bool-cases ((get_or table probe empty_slot).key_hash == 0)) [
      | inl empty ↦ rw (empty) (length-set table probe _)
      | inr full ↦
          elim (Bool-cases (
            ((get_or table probe empty_slot).key_hash == key)
            && ((get_or table probe empty_slot).severity == severity))) [
              | inl same ↦ rw (full, same) (length-set table probe _)
              | inr diff ↦
                  rw (full, diff) (length-probe_table left table key severity (next_probe probe))
            ]
    ]

-- How many of `n` calls with the same line emit a sample.
unfoldable pub samples : ℕ → List CoalesceSlot → ℕ → List ℕ → ℕ
samples zero table severity buf = 0
samples (suc n) table severity buf =
    let rest = samples n (coalesce table severity buf true).1 severity buf in
    elim (coalesce table severity buf true).0 [ coalesced ↦ rest | emit_verbatim h ↦ suc rest ]

coalesce_key_pos : (severity : ℕ) (core : List ℕ) → 1 ≤ coalesce_key severity core
unfolding coalesce_key
coalesce_key_pos severity core = ground arith

coalesce-again :
    (table : List CoalesceSlot) (severity : ℕ) (buf : List ℕ)
    → length table ≡ coalesce_capacity
    → (coalesce table severity buf true).0 ≢ emit_verbatim 0
    → (length (coalesce table severity buf true).1 ≡ coalesce_capacity)
      × ((coalesce (coalesce table severity buf true).1 severity buf true).0 ≡ coalesced)
unfolding coalesce
coalesce-again table severity buf size tracked = elim (Bool-cases (leb severity 3)) [
  | inl high ↦ absurd (tracked (rw (high) refl))
  | inr low ↦
      (let key = coalesce_key severity (stable_core buf) in
        let start = key % coalesce_capacity in
        rw (low) (
          length-probe_table coalesce_capacity table key severity start ∙ size,
          probe_table-again coalesce_capacity table key severity start size (omega arith)
              (coalesce_key_pos severity (stable_core buf)) (λ e. tracked (rw (low) e)),
        ))
]

samples-coalesced :
    (n : ℕ) (table : List CoalesceSlot) (severity : ℕ) (buf : List ℕ)
    → length table ≡ coalesce_capacity
    → (coalesce table severity buf true).0 ≡ coalesced
    → samples n table severity buf ≡ 0
unfolding samples
samples-coalesced zero table severity buf size h = refl
samples-coalesced (suc n) table severity buf size h =
    let again = coalesce-again table severity buf size (λ e. ground (arith, h, e)) in
    rw (h, samples)
      (samples-coalesced n (coalesce table severity buf true).1 severity buf again.0 again.1)

-- Once a table of 256 slots has a slot for a line, a flood of the same line emits no further sample: all its
-- calls after the first are coalesced, however many there are.
pub samples-flood :
    (n : ℕ) (table : List CoalesceSlot) (severity : ℕ) (buf : List ℕ)
    → length table ≡ coalesce_capacity
    → (coalesce table severity buf true).0 ≢ emit_verbatim 0
    → samples n (coalesce table severity buf true).1 severity buf ≡ 0
samples-flood n table severity buf size tracked =
    let again = coalesce-again table severity buf size tracked in
    samples-coalesced n (coalesce table severity buf true).1 severity buf again.0 again.1

-- The occurrences of one template that the slots hold.
abbrev pub occurrences : ℕ → ℕ → List CoalesceSlot → ℕ
occurrences key severity [] = 0
occurrences key severity (slot ∷ table) =
    (if (slot.key_hash == key) && (slot.severity == severity) then slot.count else 0)
    + occurrences key severity table

-- The counts that a report has for one template: its entries are key, severity and count.
abbrev pub reported : ℕ → ℕ → List (ℕ × ℕ × ℕ) → ℕ
reported key severity [] = 0
reported key severity (entry ∷ out) =
    (if (entry.0 == key) && (entry.1 == severity) then entry.2 else 0) + reported key severity out

drain-reported :
    (table : List CoalesceSlot) (key severity : ℕ)
    → 1 ≤ key
    → reported key severity (drain_coalesce_table table).0 ≡ occurrences key severity table
unfolding drain_coalesce_table
drain-reported [] key severity pos = refl
drain-reported (slot ∷ table) key severity pos =
    let rest = drain-reported table key severity pos in
    elim (Bool-cases (slot.key_hash == 0)) [
      | inl empty ↦
          (let other : (slot.key_hash == key) ≡ false = ground (arith, empty, pos) in
            rw (empty, other) (omega (arith, rest)))
      | inr full ↦ elim (Bool-cases (ltb 0 slot.count)) [
        | inl some_count ↦
            rw (full, some_count)
              (ap
                (λ n.
                  (if (slot.key_hash == key) && (slot.severity == severity) then slot.count else 0)
                  + n)
                rest)
        | inr no_count ↦
            (let none_counted : slot.count ≡ 0 = ground (arith, no_count) in
              rw (full, no_count) (ground (arith, rest, none_counted)))
      ]
    ]

drain-free :
    (table : List CoalesceSlot)
    → All (λ entry. (1 ≤ entry.0) × (1 ≤ entry.2)) (drain_coalesce_table table).0
      × (length (drain_coalesce_table table).1 ≡ length table)
      × All (λ slot. slot.key_hash ≡ 0) (drain_coalesce_table table).1
unfolding drain_coalesce_table
drain-free [] = (tt, refl, tt)
drain-free (slot ∷ table) =
    let (named, size, free) = drain-free table in
    elim (Bool-cases (slot.key_hash == 0)) [
      | inl empty ↦ rw (empty) (named, ap suc size, (ground (arith, empty), free))
      | inr full ↦ elim (Bool-cases (ltb 0 slot.count)) [
        | inl some_count ↦
            rw (full, some_count)
              (
                ((ground (arith, full), ground (arith, some_count)), named),
                ap suc size,
                (refl, free),
              )
        | inr no_count ↦ rw (full, no_count) (named, ap suc size, (refl, free))
      ]
    ]

-- A drain reports for every template, that is for every key from 1 on and every severity, as many
-- occurrences as the slots of that key and severity hold; every entry has a key and a count from 1
-- on; and it leaves as many slots, all of them free.
pub drain_coalesce_table_lem :
    (table : List CoalesceSlot)
    → ((key severity : ℕ)
        → 1 ≤ key
        → reported key severity (drain_coalesce_table table).0 ≡ occurrences key severity table)
      × All (λ entry. (1 ≤ entry.0) × (1 ≤ entry.2)) (drain_coalesce_table table).0
      × (length (drain_coalesce_table table).1 ≡ length table)
      × All (λ slot. slot.key_hash ≡ 0) (drain_coalesce_table table).1
drain_coalesce_table_lem table =
    let left = drain-free table in (drain-reported table, left.0, left.1, left.2)
