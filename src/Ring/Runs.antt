-- ===== src/Ring/Runs.antt =====
-- Concrete runs of the ring, and its theorems at concrete inputs.
use ngx_otel_rust.Base.{◌≡◌, refl, true, false, List, [], ◌∷◌, arith, replicate}
use ngx_otel_rust.Base.Bytes.{be_bytes, from_be}
use ngx_otel_rust.Ring.{WorkerSignalRing, push, pop_into, write_wrap, read_wrap, splice}
use ngx_otel_rust.Ring.Wrap.{window}
use ngx_otel_rust.Ring.Queue.{Holds, pushed, pushed-Holds}
use ngx_otel_rust.Ring.Trace.{Call, produce, consume, run, queue_run, run_refines}

-- An empty ring of 16 bytes whose next record goes round the end of the payload.
abbrev near_end : WorkerSignalRing
near_end = record {
  write_offset = 13;
  read_offset = 13;
  dropped = 0;
  cap = 16;
  payload = replicate 16 0;
}

near_end-Holds : Holds near_end []
unfolding window
near_end-Holds = record {
  payload_size = refl;
  cap_pos = omega arith;
  cap_u32 = omega arith;
  offsets = refl;
  fits = omega arith;
  no_wrap = omega arith;
  stored = refl;
}

abbrev one_record : WorkerSignalRing
one_record = pushed near_end (7 ∷ 8 ∷ [])

one_record-Holds : Holds one_record ((7 ∷ 8 ∷ []) ∷ [])
one_record-Holds = pushed-Holds near_end [] (7 ∷ 8 ∷ []) near_end-Holds (omega arith) (omega arith)

abbrev calls : List Call
calls = produce (7 ∷ 8 ∷ []) ∷ produce (9 ∷ []) ∷ produce (1 ∷ 2 ∷ []) ∷ consume ∷ consume ∷ []

run-near_end :
    run near_end calls
    ≡ (true, []) ∷ (true, []) ∷ (false, []) ∷ (true, 7 ∷ 8 ∷ []) ∷ (true, 9 ∷ []) ∷ []
unfolding run push pop_into write_wrap read_wrap splice be_bytes from_be
run-near_end = refl

run_refines_example : run near_end calls ≡ queue_run 16 [] calls
run_refines_example = run_refines calls near_end [] near_end-Holds (omega arith)
