-- ===== src/Coalesce.antt =====
-- logs/coalesce.rs: the stable core of an error line, its key, and the table of a worker. Its
-- atomics are single reads and writes of the one worker, or of the drain between two calls of it.
pub mod Core
pub mod Probe
mod Runs
use ngx_otel_rust.Base.{
  ℕ, zero, suc, ◌+◌, ◌*◌, ◌/◌, ◌-◌, ◌%◌, ◌^◌, Bool, true, false, not, ◌&&◌, ◌||◌, Option, none,
  some, List, [], ◌∷◌, ◌++◌, ltb, leb, ◌==◌, if◌then◌else◌, length, take, drop, get_or, set,
  is_empty, bytes_eq,
}
use ngx_otel_rust.Base.Text.{codes}
use ngx_otel_rust.Http.Date.{is_ascii_digit}

-- The place behind the next `c` and space from `pos` on; the last place when there is none.
unfoldable pub skip_past : ℕ → ℕ → List ℕ → ℕ → ℕ
skip_past zero c buf pos = pos
skip_past (suc fuel) c buf pos =
    let rest = skip_past fuel c buf (pos + 1) in
    if ltb (pos + 1) (length buf)
    then if (get_or buf pos 0 == c) && (get_or buf (pos + 1) 0 == 32) then pos + 2 else rest
    else pos

unfoldable pub skip_digits : ℕ → List ℕ → ℕ → ℕ
skip_digits zero buf pos = pos
skip_digits (suc fuel) buf pos =
    let rest = skip_digits fuel buf (pos + 1) in
    if ltb pos (length buf) && is_ascii_digit (get_or buf pos 0) then rest else pos

unfoldable pub skip_connection : List ℕ → ℕ → ℕ
skip_connection buf pos =
    if ltb pos (length buf) && (get_or buf pos 0 == 42)
    then (let after = skip_digits (length buf) buf (pos + 1) in
        if ltb after (length buf) && (get_or buf after 0 == 32) then after + 1 else after)
    else pos

abbrev pub bytes_at : List ℕ → ℕ → ℕ → List ℕ
bytes_at buf start n = take n (drop start buf)

unfoldable pub find_context : ℕ → List ℕ → ℕ → ℕ → ℕ
find_context zero buf i end = end
find_context (suc fuel) buf i end =
    let rest = find_context fuel buf (i + 1) end in
    if ltb i end
    then if leb (i + 7) end && bytes_eq (bytes_at buf i 7) (codes " while ")
      then i
      else if leb (i + 9) end && bytes_eq (bytes_at buf i 9) (codes ", client:")
      then i
      else rest
    else end

unfoldable pub core_start_of : List ℕ → ℕ
core_start_of buf =
    let n = length buf in skip_connection buf (skip_past n 58 buf (skip_past n 93 buf 0))

-- The end before the handler's context, after the newline at the end of the line is cut.
unfoldable pub line_end : List ℕ → ℕ
line_end buf = let n = length buf in if ltb 0 n && (get_or buf (n - 1) 0 == 10) then n - 1 else n

unfoldable pub core_end_of : List ℕ → ℕ
core_end_of buf = find_context (length buf) buf (core_start_of buf) (line_end buf)

unfoldable pub stable_core : List ℕ → List ℕ
stable_core buf =
    let core = bytes_at buf (core_start_of buf) (core_end_of buf - core_start_of buf) in
    if is_empty core then buf else core

-- `a ^ b` of Rust on `w` bits.
unfoldable pub xor : ℕ → ℕ → ℕ → ℕ
xor zero a b = 0
xor (suc w) a b = (if a % 2 == b % 2 then 0 else 1) + 2 * xor w (a / 2) (b / 2)

abbrev pub fnv_prime : ℕ
fnv_prime = 1099511628211

abbrev pub fnv_step : ℕ → ℕ → ℕ
fnv_step h b = xor 64 h b * fnv_prime % 2 ^ 64

unfoldable pub fnv_fold : ℕ → List ℕ → ℕ
fnv_fold h [] = h
fnv_fold h (b ∷ core) = fnv_fold (fnv_step h b) core

unfoldable pub coalesce_key : ℕ → List ℕ → ℕ
coalesce_key severity core =
    let h = fnv_fold (fnv_step 14695981039346656037 severity) core in if h == 0 then 1 else h

abbrev pub high_severity_threshold : ℕ
high_severity_threshold = 3

abbrev pub coalesce_capacity : ℕ
coalesce_capacity = 256

pub record CoalesceSlot : Type 0 where
  pub key_hash : ℕ
  pub severity : ℕ
  pub count : ℕ
  pub sample_emitted : Bool

abbrev pub empty_slot : CoalesceSlot
empty_slot = record { key_hash = 0; severity = 0; count = 0; sample_emitted = false }

pub data CoalesceResult : Type 0 where
  coalesced : CoalesceResult
  emit_verbatim : (template_hash : ℕ) → CoalesceResult

abbrev pub new_slot : ℕ → ℕ → CoalesceSlot
new_slot key severity = record {
  key_hash = key;
  severity = severity;
  count = 1;
  sample_emitted = true;
}

-- A further occurrence: the count goes up, and the sample counts as emitted.
abbrev pub bumped : CoalesceSlot → CoalesceSlot
bumped slot = record {
  key_hash = slot.key_hash;
  severity = slot.severity;
  count = (slot.count + 1) % 2 ^ 32;
  sample_emitted = true;
}

abbrev pub next_probe : ℕ → ℕ
next_probe probe = (probe + 1) % coalesce_capacity

-- The probe loop, with `probes` rounds left.
unfoldable pub probe_table :
    (left : ℕ) → List CoalesceSlot → (key severity probe : ℕ) → CoalesceResult × List CoalesceSlot
probe_table zero table key severity probe = (emit_verbatim 0, table)
probe_table (suc left) table key severity probe =
    let slot = get_or table probe empty_slot in
    let rest = probe_table left table key severity (next_probe probe) in
    if slot.key_hash == 0
    then (emit_verbatim key, set table probe (new_slot key severity))
    else if (slot.key_hash == key) && (slot.severity == severity)
    then (
      if slot.sample_emitted then coalesced else emit_verbatim key,
      set table probe (bumped slot),
    )
    else rest

unfoldable pub coalesce : List CoalesceSlot → ℕ → List ℕ → Bool → CoalesceResult × List CoalesceSlot
coalesce table severity buf coalesce_enabled =
    if not coalesce_enabled
    then (emit_verbatim 0, table)
    else if leb severity high_severity_threshold
    then (emit_verbatim 0, table)
    else let key = coalesce_key severity (stable_core buf) in
      probe_table coalesce_capacity table key severity (key % coalesce_capacity)

unfoldable pub drain_coalesce_table : List CoalesceSlot → List (ℕ × ℕ × ℕ) × List CoalesceSlot
drain_coalesce_table [] = ([], [])
drain_coalesce_table (slot ∷ table) =
    let (out, rest) = drain_coalesce_table table in
    if slot.key_hash == 0 then (out, slot ∷ rest) else (
      if ltb 0 slot.count then (slot.key_hash, slot.severity, slot.count) ∷ out else out,
      empty_slot ∷ rest,
    )
