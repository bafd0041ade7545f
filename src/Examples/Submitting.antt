-- ===== src/Examples/Submitting.antt =====
-- submitter.go: three requests and a tick, with a kernel that takes all entries and with one that
-- refuses.
use iouring_go.Base.{◌+◌, ◌-◌, ◌%◌, ◌^◌, ◌==◌, if◌then◌else◌, ◌≡◌, refl, true, false, arith}
use iouring_go.Base.Int.{pos}
use iouring_go.Base.Outcome.{done}
use iouring_go.Queue.{enter_lock}
use iouring_go.Ring.{Kernel, enter, enter_result}
use iouring_go.Submitter.{Submitter, work, flush, tick, worked, later, here}
use iouring_go.Submitter.Flush.{IsTaking, IsFlushed, pending, tick-IsFlushed}
use iouring_go.Submitter.Stall.{IsStalled, failed_tick-IsStalled}
use iouring_go.Examples.Data.{small_ring}

abbrev three_waiting : Submitter
three_waiting = record {
  ring = small_ring;
  count = 3;
  seen = pos 0;
  timer_active = true;
  armed = true;
}

-- Two requests, whose entries are in the queue.
abbrev two_waiting : Submitter
two_waiting = record three_waiting {
  ring = record small_ring { sq = record (small_ring.sq) { head = 0; tail = 2 } };
  count = 2;
}

-- One entry at a time.
abbrev slow : Kernel
slow c sq cq = if pending sq == 0 then record { res = 0; errno = 0; sq = sq; cq = cq } else record {
  res = 1;
  errno = 0;
  sq = record sq { head = (sq.tail + (2 ^ 32 - (pending sq - 1))) % 2 ^ 32 };
  cq = cq;
}

slow-IsTaking : IsTaking slow
slow-IsTaking = record {
  fine = λ c sq cq. ground arith;
  taken = λ c sq cq. ground arith;
  some_taken = λ c sq cq a b. ground arith;
}

tick-IsFlushed_example :
    (t : Submitter) × (tick slow 1 3 two_waiting ≡ done t) × IsFlushed slow 1 0 two_waiting t
tick-IsFlushed_example =
    tick-IsFlushed slow 0 two_waiting slow-IsTaking refl refl (omega arith) (omega arith)

-- EBUSY
abbrev busy : Kernel
busy c sq cq = record { res = 0; errno = 16; sq = sq; cq = cq }

abbrev failed : Submitter
failed = record three_waiting { armed = false }

failed_tick-IsStalled_example : IsStalled 3 (work failed)
unfolding tick flush enter enter_lock enter_result
failed_tick-IsStalled_example =
    failed_tick-IsStalled busy 1 0 16 three_waiting failed (work failed) small_ring refl refl refl
      (later here worked)
