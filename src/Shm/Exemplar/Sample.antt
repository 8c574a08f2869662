-- ===== src/Shm/Exemplar/Sample.antt =====
-- shm/mod.rs: what a snapshot of an exemplar reservoir shows.
use ngx_otel_rust.Base.{
  ℕ, zero, suc, ◌+◌, ◌%◌, ◌^◌, ◌<◌, min, ◌≡◌, ◌≢◌, refl, ap₂, ◌∙◌, inl, inr, ◌⊎◌, true, false,
  Option, none, some, List, [], ◌∷◌, ◌++◌, leb, ◌==◌, Bool-cases, get_or, take, drop, length, All,
  All-take, All-drop, length-take, length-drop, length-set, get_or-set_self, get_or-set_ne,
  take-append-drop, arith, append-nil, append_assoc,
}
use ngx_otel_rust.Base.Bytes.{be_bytes, from_be, IsByte, be_bytes-from_be}
use ngx_otel_rust.Logs.{SampledRequest}
use ngx_otel_rust.Shm.Exemplar.{
  ExemplarEntry, ExemplarReservoir, ExemplarSnapshot, exemplar_reservoir_size, zeroed_entry,
  bucket_for, store_trace, overwrite, write, snapshot_of, snapshots_from, reservoir_snapshot, reset,
  write_all,
}

-- The trace and span identifiers of a request are 16 and 8 bytes.
abbrev pub IsSampled : Option (List ℕ × List ℕ) → Type 0
IsSampled none = Unit
IsSampled (some (tid, sid)) = (length tid ≡ 16) × (length sid ≡ 8) × All IsByte tid × All IsByte sid

abbrev pub SameTrace : Option (List ℕ × List ℕ) → ExemplarSnapshot → Type 0
SameTrace none s = s.has_trace ≡ false
SameTrace (some ids) s = (s.has_trace ≡ true) × (s.trace_id ≡ ids.0) × (s.span_id ≡ ids.1)

-- The exemplar shows the request.
abbrev pub Shows : ExemplarSnapshot → SampledRequest → Type 0
Shows s req =
    (s.value_us ≡ req.duration_us)
    × (s.ts_unix_nano ≡ req.ts_unix_nano)
    × (s.combo_idx ≡ req.combo_idx)
    × SameTrace req.trace s

-- One of the requests.
abbrev pub OneOf : (SampledRequest → Type 0) → List SampledRequest → Type 0
OneOf P [] = ⊥
OneOf P (req ∷ reqs) = P req ⊎ OneOf P reqs

OneOf-append :
    (P : SampledRequest → Type 0) (reqs more : List SampledRequest)
    → OneOf P reqs
    → OneOf P (reqs ++ more)
OneOf-append P [] more one = absurd one
OneOf-append P (req ∷ reqs) more (inl p) = inl p
OneOf-append P (req ∷ reqs) more (inr one) = inr (OneOf-append P reqs more one)

OneOf-last :
    (P : SampledRequest → Type 0) (reqs : List SampledRequest) (req : SampledRequest)
    → P req
    → OneOf P (reqs ++ req ∷ [])
OneOf-last P [] req p = inl p
OneOf-last P (x ∷ reqs) req p = inr (OneOf-last P reqs req p)

store_trace-SameTrace :
    (e : ExemplarEntry) (trace : Option (List ℕ × List ℕ))
    → IsSampled trace
    → SameTrace trace (snapshot_of (store_trace e trace))
unfolding store_trace snapshot_of
store_trace-SameTrace e none sampled = refl
store_trace-SameTrace e (some (tid, sid)) sampled =
    let low : be_bytes 8 (from_be (take 8 tid)) ≡ take 8 tid =
      be_bytes-from_be 8 (take 8 tid) (omega (arith, length-take 8 tid, sampled.0))
        (All-take IsByte 8 tid sampled.2) in
    let high : be_bytes 8 (from_be (drop 8 tid)) ≡ drop 8 tid =
      be_bytes-from_be 8 (drop 8 tid) (omega (arith, length-drop 8 tid, sampled.0))
        (All-drop IsByte 8 tid sampled.2) in
    (
      refl,
      ap₂ (λ l h. l ++ h) low high ∙ take-append-drop 8 tid,
      be_bytes-from_be 8 sid sampled.1 sampled.3,
    )

store_trace_fields :
    (e : ExemplarEntry) (trace : Option (List ℕ × List ℕ))
    → ((store_trace e trace).value_us ≡ e.value_us)
      × ((store_trace e trace).ts_unix_nano ≡ e.ts_unix_nano)
      × ((store_trace e trace).combo_idx ≡ e.combo_idx)
unfolding store_trace
store_trace_fields e none = (refl, refl, refl)
store_trace_fields e (some ids) = (refl, refl, refl)

overwrite-Shows :
    (e : ExemplarEntry) (req : SampledRequest)
    → IsSampled req.trace
    → Shows (snapshot_of (overwrite e req)) req
unfolding overwrite snapshot_of
overwrite-Shows e req sampled =
    let stored = store_trace_fields _ req.trace in
    (stored.0, stored.1, stored.2, store_trace-SameTrace _ req.trace sampled)

bucket_for_fill : (n : ℕ) → n < exemplar_reservoir_size → bucket_for n ≡ n
unfolding bucket_for
bucket_for_fill n small = ground (arith, small)

-- The filled entries show requests that were written.
unfoldable IsFilled : (r : ExemplarReservoir) (past : List SampledRequest) → Type 0
IsFilled r past =
    (length r.entries ≡ 2)
    × ((i : ℕ)
        → i < min r.seen 2
        → OneOf (Shows (snapshot_of (get_or r.entries i zeroed_entry))) past)

write-IsFilled :
    (r : ExemplarReservoir) (past : List SampledRequest) (req : SampledRequest)
    → IsFilled r past
    → IsSampled req.trace
    → r.seen + 1 < 2 ^ 64
    → IsFilled (write r req) (past ++ req ∷ [])
unfolding write IsFilled
write-IsFilled r past req filled sampled small =
    let n = r.seen in
    let b = bucket_for n in
    let next : (n + 1) % 2 ^ 64 ≡ n + 1 = omega (arith, small) in
    let fill : n < 2 → b ≡ n = bucket_for_fill n in
    elim (Bool-cases (leb exemplar_reservoir_size b)) [
      | inl e ↦
          rw (write, e, next)
            ((
              filled.0,
              λ i inside.
                  OneOf-append _ past (req ∷ []) (filled.1 i (ground (arith, inside, fill, e))),
            ))
      | inr e ↦
          (let new = overwrite (get_or r.entries b zeroed_entry) req in
            rw (write, e, next)
              ((
                length-set r.entries b new ∙ filled.0,
                λ i inside. elim (Bool-cases (b == i)) [
                  | inl q ↦
                      (let at : i ≡ b = ground (arith, q) in
                        rw
                          (
                            at,
                            get_or-set_self r.entries b new zeroed_entry
                                (ground (arith, e, filled.0)),
                          )
                          (OneOf-last _ past req
                            (overwrite-Shows (get_or r.entries b zeroed_entry) req sampled)))
                  | inr q ↦
                      (let apart : b ≢ i = λ same. ground (arith, q, same) in
                        rw (get_or-set_ne r.entries b i new zeroed_entry apart) (
                          OneOf-append _ past (req ∷ [])
                            (filled.1 i (ground (arith, inside, fill, q)))))
                ],
              )))
    ]

write-seen :
    (r : ExemplarReservoir) (req : SampledRequest)
    → r.seen + 1 < 2 ^ 64
    → (write r req).seen ≡ r.seen + 1
unfolding write
write-seen r req small = ground (arith, small)

abbrev pub AllSampled : List SampledRequest → Type 0
AllSampled reqs = All (λ req. IsSampled req.trace) reqs

write_all-IsFilled :
    (reqs past : List SampledRequest) (r : ExemplarReservoir)
    → IsFilled r past
    → AllSampled reqs
    → r.seen + length reqs < 2 ^ 64
    → IsFilled (write_all r reqs) (past ++ reqs) × ((write_all r reqs).seen ≡ r.seen + length reqs)
unfolding write_all
write_all-IsFilled [] past r filled sampled small = (rw (append-nil past) filled, omega arith)
write_all-IsFilled (req ∷ reqs) past r filled sampled small =
    let one = write-IsFilled r past req filled sampled.0 (omega (arith, small)) in
    let seen : (write r req).seen ≡ r.seen + 1 = write-seen r req (omega (arith, small)) in
    let rest =
      write_all-IsFilled reqs (past ++ req ∷ []) (write r req) one sampled.1
        (omega (arith, seen, small)) in
    (rw⁻¹ (append_assoc past (req ∷ []) reqs) rest.0, omega (arith, rest.1, seen))

snapshots_from-All :
    (P : ExemplarSnapshot → Type 0) (filled i : ℕ) (entries : List ExemplarEntry)
    → ((j : ℕ) → j < i + filled → P (snapshot_of (get_or entries j zeroed_entry)))
    → All P (snapshots_from filled i entries) × (length (snapshots_from filled i entries) ≡ filled)
unfolding snapshots_from
snapshots_from-All P zero i entries each = (tt, refl)
snapshots_from-All P (suc filled) i entries each =
    let rest =
      snapshots_from-All P filled (suc i) entries (λ j inside. each j (omega (arith, inside))) in
    ((each i (omega arith), rest.0), omega (arith, rest.1))

-- After a reset of a reservoir of two entries, for fewer than 2^64 requests whose identifiers, if they
-- have any, are 16 and 8 bytes: the snapshot has an exemplar for each request but at most two, and each
-- exemplar shows the duration, time, combination and identifiers of one of the requests that were written
-- since the reset; nothing of an older interval shows.
pub reservoir_snapshot_lem :
    (r : ExemplarReservoir) (reqs : List SampledRequest)
    → length r.entries ≡ 2
    → AllSampled reqs
    → length reqs < 2 ^ 64
    → let shown = reservoir_snapshot (write_all (reset r) reqs) in
      (length shown ≡ min (length reqs) 2) × All (λ s. OneOf (Shows s) reqs) shown
unfolding reservoir_snapshot reset IsFilled
reservoir_snapshot_lem r reqs two sampled small =
    let start : IsFilled (reset r) [] = (two, λ i inside. absurd (omega (arith, inside))) in
    let after = write_all-IsFilled reqs [] (reset r) start sampled (omega (arith, small)) in
    let r' = write_all (reset r) reqs in
    let seen : r'.seen ≡ length reqs = omega (arith, after.1) in
    let shown =
      snapshots_from-All (λ s. OneOf (Shows s) reqs) (min r'.seen 2) 0 r'.entries
        (λ j inside. after.0.1 j (omega (arith, inside))) in
    (omega (arith, shown.1, seen), shown.0)
