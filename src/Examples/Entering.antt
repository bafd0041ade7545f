-- ===== src/Examples/Entering.antt =====
-- Enter of ring.go: a ring whose kernel thread asks to be woken.
use iouring_go.Base.{◌≡◌, refl}
use iouring_go.Base.Int.{ℤ}
use iouring_go.Base.Outcome.{done}
use iouring_go.Ring.{Ring, Kernel, Result, enter}
use iouring_go.Ring.Entering.{answer_of, Returned, enter-Returned}
use iouring_go.Examples.Data.{small_ring}

-- A kernel that takes all entries.
abbrev pub taking : Kernel
taking c sq cq = record { res = c.to_submit; errno = 0; sq = record sq { head = sq.tail }; cq = cq }

abbrev sleepy : Ring
sleepy = record small_ring { sq = record (small_ring.sq) { flags = 1; tail = 1 } }

enter-Returned_example :
    (res : Result ℤ) × (enter taking 2 1 1 1 sleepy
      ≡ done (
        res,
        record sleepy {
          sq = record ((answer_of taking 1 1 1 sleepy).sq) { entered = 0 };
          cq = (answer_of taking 1 1 1 sleepy).cq;
        },
      ))
    × Returned (answer_of taking 1 1 1 sleepy) res
enter-Returned_example = enter-Returned taking 1 1 1 1 sleepy refl
