-- ===== src/Coalesce/Core.antt =====
-- The bounds of the stable core (logs/coalesce.rs `stable_core`).
use ngx_otel_rust.Base.{
  ℕ, zero, suc, ◌+◌, ◌-◌, ◌≤◌, ◌<◌, ◌≡◌, ◌≢◌, ap, ◌∙◌, ◌&&◌, List, [], ◌∷◌, ltb, ◌==◌, arith,
  length, get_or, Bool-cases, inl, inr,
}
use ngx_otel_rust.Http.Date.{is_ascii_digit}
use ngx_otel_rust.Coalesce.{
  skip_past, skip_digits, skip_connection, find_context, core_start_of, core_end_of, line_end,
}

-- A place at the end of the line does not stand behind a newline.
abbrev Inside : List ℕ → ℕ → Type 0
Inside buf pos = (pos ≤ length buf) × (pos ≡ length buf → get_or buf (length buf - 1) 0 ≢ 10)

Inside-zero : (buf : List ℕ) → Inside buf 0
Inside-zero [] = (omega arith, λ e h. ground (arith, h))
Inside-zero (c ∷ buf) = (omega arith, λ e h. ground (arith, e))

Inside-next :
    (buf : List ℕ) (pos : ℕ) → pos < length buf → get_or buf pos 0 ≢ 10 → Inside buf (pos + 1)
Inside-next buf pos h ne = (omega arith, λ e h10. ne (ap (λ k. get_or buf k 0) (place e) ∙ h10))
  where
    place : pos + 1 ≡ length buf → pos ≡ length buf - 1
    place e = omega (arith, e)

skip_past-Inside :
    (fuel c : ℕ) (buf : List ℕ) (pos : ℕ) → Inside buf pos → Inside buf (skip_past fuel c buf pos)
unfolding skip_past
skip_past-Inside zero c buf pos h = h
skip_past-Inside (suc fuel) c buf pos h = elim (Bool-cases (ltb (pos + 1) (length buf))) [
  | inl more ↦ elim (Bool-cases ((get_or buf pos 0 == c) && (get_or buf (pos + 1) 0 == 32))) [
    | inl found ↦
        rw (more, found)
          (
            ground (arith, more),
            λ e h10.
                (let place : pos + 1 ≡ length buf - 1 = omega (arith, e) in
                  ground (arith, found, h10, ap (λ k. get_or buf k 0) place)),
          )
    | inr other ↦
        rw (more, other)
          (skip_past-Inside fuel c buf (pos + 1)
            (ground (arith, more), λ e. ground (arith, more, e)))
  ]
  | inr over ↦ rw (over) h
]

skip_digits-Inside :
    (fuel : ℕ) (buf : List ℕ) (pos : ℕ) → Inside buf pos → Inside buf (skip_digits fuel buf pos)
unfolding skip_digits
skip_digits-Inside zero buf pos h = h
skip_digits-Inside (suc fuel) buf pos h =
    elim (Bool-cases (ltb pos (length buf) && is_ascii_digit (get_or buf pos 0))) [
      | inl more ↦ rw (more) (
          skip_digits-Inside fuel buf (pos + 1)
            (Inside-next buf pos (ground (arith, more)) (λ e. ground (arith, more, e))))
      | inr over ↦ rw (over) h
    ]

skip_connection-Inside :
    (buf : List ℕ) (pos : ℕ) → Inside buf pos → Inside buf (skip_connection buf pos)
unfolding skip_connection
skip_connection-Inside buf pos h =
    elim (Bool-cases (ltb pos (length buf) && (get_or buf pos 0 == 42))) [
      | inl star ↦
          (let after = skip_digits (length buf) buf (pos + 1) in
            let digits =
              skip_digits-Inside (length buf) buf (pos + 1)
                (Inside-next buf pos (ground (arith, star)) (λ e. ground (arith, star, e))) in
            elim (Bool-cases (ltb after (length buf) && (get_or buf after 0 == 32))) [
              | inl space ↦
                  rw (star, space)
                    (Inside-next buf after (ground (arith, space)) (λ e. ground (arith, space, e)))
              | inr other ↦ rw (star, other) digits
            ])
      | inr plain ↦ rw (plain) h
    ]

find_context-bounds :
    (fuel : ℕ) (buf : List ℕ) (i end : ℕ)
    → i ≤ end
    → (i ≤ find_context fuel buf i end) × (find_context fuel buf i end ≤ end)
unfolding find_context
find_context-bounds zero buf i end h = (h, omega arith)
find_context-bounds (suc fuel) buf i end h = elim (Bool-cases (ltb i end)) [
  | inl more ↦ ground (arith, more, find_context-bounds fuel buf (i + 1) end (ground (arith, more)))
  | inr over ↦ rw (over) (h, omega arith)
]

-- The slice of the core never runs backwards or over the end of the line, so taking it does not
-- panic, whatever the bytes of the line are.
pub core_bounds :
    (buf : List ℕ) → (core_start_of buf ≤ core_end_of buf) × (core_end_of buf ≤ length buf)
unfolding core_end_of line_end core_start_of
core_bounds buf =
    let n = length buf in
    let level = skip_past-Inside n 93 buf 0 (Inside-zero buf) in
    let process = skip_past-Inside n 58 buf (skip_past n 93 buf 0) level in
    let start = skip_connection-Inside buf (skip_past n 58 buf (skip_past n 93 buf 0)) process in
    elim (Bool-cases (ltb 0 n && (get_or buf (n - 1) 0 == 10))) [
      | inl newline ↦ rw (newline) (
          let before : core_start_of buf ≤ n - 1 = ground (arith, newline, start.0, start.1) in
          let found = find_context-bounds n buf (core_start_of buf) (n - 1) before in
          (found.0, omega (arith, found.1)))
      | inr plain ↦ rw (plain) (find_context-bounds n buf (core_start_of buf) n start.0)
    ]
