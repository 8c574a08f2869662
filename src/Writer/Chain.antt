-- ===== src/Writer/Chain.antt =====
-- logs/error_writer.rs: the log chain stays sorted, and the cleanup flag silences its writers.
use ngx_otel_rust.Base.{
  ℕ, ◌+◌, ◌≤◌, ◌<◌, ◌≡◌, refl, ap, ◌∙◌, inl, inr, Bool, true, none, some, List, [], ◌∷◌, ltb,
  if◌then◌else◌, Bool-cases, Option-cases, All, All-map, arith, ltb→lt,
}
use ngx_otel_rust.Writer.{
  OtelErrorWriterState, ngx_otel_error_writer, NgxLog, LogChain, insert_after, otel_log_insert,
  set_cleanup_flag,
}
use ngx_otel_rust.Writer.Rates.{Line, write_lines}

-- No node has a higher level than a node before it.
abbrev pub IsSorted : LogChain → Type 0
IsSorted [] = Unit
IsSorted ((address, log) ∷ chain) =
    All (λ node. node.1.log_level ≤ log.log_level) chain × IsSorted chain

abbrev pub count_logs : (NgxLog → Bool) → LogChain → ℕ
count_logs test [] = 0
count_logs test ((address, log) ∷ chain) = (if test log then 1 else 0) + count_logs test chain

insert_after-All :
    (P : NgxLog → Type 0) (new_address : ℕ) (new_log : NgxLog) (chain : LogChain)
    → P new_log
    → All (λ node. P node.1) chain
    → All (λ node. P node.1) (insert_after new_address new_log chain)
unfolding insert_after
insert_after-All P new_address new_log [] new rest = (new, tt)
insert_after-All P new_address new_log ((address, log) ∷ chain) new rest =
    elim (Bool-cases (ltb log.log_level new_log.log_level)) [
      | inl e ↦ rw (e) ((new, rest))
      | inr e ↦ rw (e) ((rest.0, insert_after-All P new_address new_log chain new rest.1))
    ]

insert_after-IsSorted :
    (new_address : ℕ) (new_log : NgxLog) (chain : LogChain)
    → IsSorted chain
    → IsSorted (insert_after new_address new_log chain)
unfolding insert_after
insert_after-IsSorted new_address new_log [] sorted = (tt, tt)
insert_after-IsSorted new_address new_log ((address, log) ∷ chain) sorted =
    elim (Bool-cases (ltb log.log_level new_log.log_level)) [
      | inl e ↦
          (let lower : log.log_level < new_log.log_level = ltb→lt _ _ e in
            rw (e) (
              (
                (
                  omega (arith, lower),
                  All-map (λ node. λ h. omega (arith, h, lower)) chain sorted.0,
                ),
                sorted,
              )))
      | inr e ↦ rw (e) (
          (
            insert_after-All (λ l. l.log_level ≤ log.log_level) new_address new_log chain
                (ground (arith, e)) sorted.0,
            insert_after-IsSorted new_address new_log chain sorted.1,
          ))
    ]

count_logs-insert_after :
    (test : NgxLog → Bool) (new_address : ℕ) (new_log : NgxLog) (chain : LogChain)
    → count_logs test (insert_after new_address new_log chain)
      ≡ (if test new_log then 1 else 0) + count_logs test chain
unfolding insert_after
count_logs-insert_after test new_address new_log [] = refl
count_logs-insert_after test new_address new_log ((address, log) ∷ chain) =
    let rest = count_logs-insert_after test new_address new_log chain in
    elim (Bool-cases (ltb log.log_level new_log.log_level)) [
      | inl e ↦ rw (e) refl
      | inr e ↦ rw (e, rest) (omega arith)
    ]

abbrev pub address_of : LogChain → ℕ
address_of [] = 0
address_of ((address, log) ∷ chain) = address

-- Inserting a node into a chain that is sorted by descending level keeps it sorted, keeps the address of
-- the head, and adds exactly the new node's contents: any test on the contents is passed by as many
-- nodes as before, and one more if the new one passes it.
pub otel_log_insert_lem :
    (head_address : ℕ) (head : NgxLog) (next : LogChain) (new_address : ℕ) (new_log : NgxLog)
    (test : NgxLog → Bool)
    → IsSorted ((head_address, head) ∷ next)
    → let chain = otel_log_insert head_address head next new_address new_log in
      IsSorted chain
      × (address_of chain ≡ head_address)
      × (count_logs test chain
          ≡ (if test new_log then 1 else 0) + count_logs test ((head_address, head) ∷ next))
unfolding otel_log_insert
otel_log_insert_lem head_address head next new_address new_log test sorted =
    elim (Bool-cases (ltb head.log_level new_log.log_level)) [
      | inl e ↦
          (let lower : head.log_level < new_log.log_level = ltb→lt _ _ e in
            rw (otel_log_insert, e)
              ((
                (
                  (
                    omega (arith, lower),
                    All-map (λ node. λ h. omega (arith, h, lower)) next sorted.0,
                  ),
                  sorted,
                ),
                refl,
                omega arith,
              )))
      | inr e ↦
          rw (otel_log_insert, e)
            ((
              (
                insert_after-All (λ l. l.log_level ≤ head.log_level) new_address new_log next
                    (ground (arith, e)) sorted.0,
                insert_after-IsSorted new_address new_log next sorted.1,
              ),
              refl,
              omega (arith, count_logs-insert_after test new_address new_log next),
            ))
    ]

-- The writers of a chain.
abbrev pub states_of : LogChain → List OtelErrorWriterState
states_of [] = []
states_of ((address, log) ∷ chain) = elim log.wdata [
  | none ↦ states_of chain
  | some state ↦ state ∷ states_of chain
]

cleaned_silent :
    (is_worker : Bool) (lines : List Line) (state : OtelErrorWriterState)
    → state.cleanup ≡ true
    → write_lines is_worker lines state ≡ state
unfolding write_lines ngx_otel_error_writer
cleaned_silent is_worker [] state cleaned = refl
cleaned_silent is_worker ((now, level, buf) ∷ lines) state cleaned =
    let same : ngx_otel_error_writer is_worker now level buf state ≡ state =
      rw (ngx_otel_error_writer, cleaned) refl in
    ap (write_lines is_worker lines) same ∙ cleaned_silent is_worker lines state cleaned

-- After the exit path has set the cleanup flag on a chain, no sequence of lines, in a worker or not,
-- changes the state of any of our writers in the chain.
pub set_cleanup_flag-silent :
    (chain : LogChain) (is_worker : Bool) (lines : List Line)
    → All (λ state. write_lines is_worker lines state ≡ state) (states_of (set_cleanup_flag chain))
unfolding set_cleanup_flag
set_cleanup_flag-silent [] is_worker lines = tt
set_cleanup_flag-silent ((address, log) ∷ chain) is_worker lines = elim (Option-cases log.wdata) [
  | inl e ↦ rw (set_cleanup_flag, e, e) (set_cleanup_flag-silent chain is_worker lines)
  | inr (state, e) ↦
      rw (set_cleanup_flag, e)
        ((
          cleaned_silent is_worker lines (record state { cleanup = true }) refl,
          set_cleanup_flag-silent chain is_worker lines,
        ))
]
