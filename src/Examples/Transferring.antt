-- ===== src/Examples/Transferring.antt =====
-- read_writer.go: a write of eight bytes, and the completion that the second pass sees.
use iouring_go.Base.{◌%◌, some, ◌+◌, ◌^◌, ◌<◌, ◌≡◌, refl, [], ◌∷◌, List, arith}
use iouring_go.Base.Int.{pos}
use iouring_go.Base.Outcome.{done}
use iouring_go.Entry.{SubmitEntry}
use iouring_go.Ops.{Bytes}
use iouring_go.Ops.Prepare.{after}
use iouring_go.Fio.{Fio, IoResult, View}
use iouring_go.Fio.Finding.{Took, IsIdle, Arrived, IsAbsent}
use iouring_go.Fio.Staging.{Completes, entered}
use iouring_go.Fio.Transfers.{Io, run_io, io_entry, io_result, run_io-Took}
use iouring_go.Connection.Answering.{IsHonest}
use iouring_go.Fio.Jobs.{Job, AllComplete, results, total, run_ios, Ran}
use iouring_go.Fio.Sequence.{run_ios-Ran}
use iouring_go.Fio.Acknowledged.{InOrder, leading, run_ios-acknowledged}
use iouring_go.Completer.{Completer, run, new_completer}
use iouring_go.Examples.Data.{cqe, small_cq, small_ring}
use iouring_go.Examples.Preparing.{small_ring-IsReady}
use iouring_go.Examples.Entering.{taking}

abbrev file : Fio
file = record { ring = small_ring; fd = pos 5; offset = pos 100; seen = [] }

abbrev nothing_in : View
nothing_in = (
  small_cq 0 0 (cqe 0 ∷ cqe 0 ∷ cqe 0 ∷ cqe 0 ∷ []),
  small_cq 0 0 (cqe 0 ∷ cqe 0 ∷ cqe 0 ∷ cqe 0 ∷ []),
)

abbrev one_in : View
one_in = (
  small_cq 0 1 (cqe 1 ∷ cqe 0 ∷ cqe 0 ∷ cqe 0 ∷ []),
  small_cq 0 1 (cqe 1 ∷ cqe 0 ∷ cqe 0 ∷ cqe 0 ∷ []),
)

blank_entries-IsAbsent : IsAbsent 1 (cqe 0 ∷ cqe 0 ∷ cqe 0 ∷ cqe 0 ∷ [])
blank_entries-IsAbsent j c at = ground arith

nothing_in-IsIdle : IsIdle 1 nothing_in
nothing_in-IsIdle = record {
  first = blank_entries-IsAbsent;
  second = blank_entries-IsAbsent;
  within = omega arith;
}

one_in-Arrived : Arrived 1 0 (cqe 1) one_in.0
one_in-Arrived = record {
  at = refl;
  same = refl;
  from = omega arith;
  to = omega arith;
  only = λ j c lt at. absurd (omega arith);
  small = λ n e. ground arith;
}

abbrev passes : List View
passes = nothing_in ∷ one_in ∷ []

completes : Completes 1 0 (cqe 1) passes
completes = record {
  n = 1;
  idle = nothing_in;
  v = one_in;
  vs = [];
  all = refl;
  is_idle = nothing_in-IsIdle;
  arrived = one_in-Arrived;
}

abbrev letters : Bytes
letters = record { addr = 4096; len = 8 }

-- The queue has wrapped, and the completion stands in the first entry.
abbrev wrapped_in : View
wrapped_in = (
  small_cq 3 5 (cqe 1 ∷ cqe 0 ∷ cqe 0 ∷ cqe 0 ∷ []),
  small_cq 3 5 (cqe 1 ∷ cqe 0 ∷ cqe 0 ∷ cqe 0 ∷ []),
)

run_io-Took_example :
    (e : SubmitEntry) × (r : IoResult) × (i' : Fio) × (run_io taking 1 passes
        (Io.write letters)
        file
      ≡ done (io_result (Io.write letters) r, i'))
    × Took
        (record file {
          ring = entered taking (after 1 small_ring (io_entry (Io.write letters) file e.anon0));
        })
        0
        (pos 8)
        r
        i'
run_io-Took_example =
    run_io-Took taking 1 0 0 file (Io.write letters) (cqe 1) passes small_ring-IsReady (omega arith)
      completes (λ anon. refl)

abbrev two_in : View
two_in = (
  small_cq 0 2 (cqe 1 ∷ cqe 2 ∷ cqe 0 ∷ cqe 0 ∷ []),
  small_cq 0 2 (cqe 1 ∷ cqe 2 ∷ cqe 0 ∷ cqe 0 ∷ []),
)

blank_entries-IsAbsent_two : IsAbsent 2 (cqe 0 ∷ cqe 0 ∷ cqe 0 ∷ cqe 0 ∷ [])
blank_entries-IsAbsent_two j c at = ground arith

second-Completes : Completes 2 1 (cqe 2) (two_in ∷ [])
second-Completes = record {
  n = 0;
  idle = nothing_in;
  v = two_in;
  vs = [];
  all = refl;
  is_idle = record {
    first = blank_entries-IsAbsent_two;
    second = blank_entries-IsAbsent_two;
    within = omega arith;
  };
  arrived = record {
    at = refl;
    same = refl;
    from = omega arith;
    to = omega arith;
    only = λ j c lt at. ground arith;
    small = λ n e. ground arith;
  };
}

-- Eight bytes written, then as many read behind them.
abbrev jobs : List Job
jobs =
    record { io = Io.write letters; views = passes; at = 0; cqe = cqe 1 }
    ∷ record { io = Io.read letters; views = two_in ∷ []; at = 1; cqe = cqe 2 }
    ∷ []

jobs-AllComplete : AllComplete 0 jobs
unfolding AllComplete
jobs-AllComplete = (completes, omega arith, (second-Completes, omega arith, tt))

jobs-fits : 100 + total jobs < 2 ^ 63
unfolding total
jobs-fits = omega arith

taking-IsHonest : IsHonest 1 taking
taking-IsHonest = record {
  valid = λ c sq cq v. record {
    small = v.small;
    mask_ones = v.mask_ones;
    n_entries = v.n_entries;
    n_array = v.n_array;
  };
  writes = λ c sq cq. refl;
  fits = λ c sq cq h. h;
}

run_ios-Ran_example :
    (i' : Fio) × (run_ios taking 1 jobs file ≡ done (results jobs, i'))
    × Ran taking 1 100 file jobs i'
run_ios-Ran_example =
    run_ios-Ran taking taking-IsHonest (λ c sq cq. refl) 0 100 jobs file small_ring-IsReady
      (omega arith) refl jobs-fits jobs-AllComplete

jobs-InOrder : InOrder 0 jobs
unfolding InOrder
jobs-InOrder = (refl, (refl, tt))

run_ios-acknowledged_example :
    (i' : Fio) × (c : Completer) × (run_ios taking 1 jobs file ≡ done (results jobs, i'))
    × (run (new_completer (small_cq 0 0 [])) i'.seen ≡ some c)
    × (c.cq.head ≡ (0 + leading jobs) % 2 ^ 32)
run_ios-acknowledged_example =
    run_ios-acknowledged taking 1 2 0 100 jobs file (small_cq 0 0 []) taking-IsHonest
      (λ c sq cq. refl) small_ring-IsReady (omega arith) refl jobs-fits jobs-AllComplete refl
      (omega arith) refl (omega arith) (omega arith) jobs-InOrder
