-- ===== src/Submit/Publish.antt =====
-- ring.go, the callback of SubmitEntry: what it writes for the kernel.
use iouring_go.Base.{◌+◌, ◌-◌, ◌^◌, ◌<◌, ◌≡◌, ◌≢◌, set, length, bit_and, arith}
use iouring_go.Base.Outcome.{done}
use iouring_go.Queue.{SubmitQueue, complete_write}
use iouring_go.Submit.{Reservation, commit, array_slot}

slot-eq : (s : Reservation) → s.next ≡ s.slot + 1 → s.slot + 1 < 2 ^ 32 → array_slot s ≡ s.slot
slot-eq s n b = omega arith

pub commit-at :
    (s : Reservation) (sq : SubmitQueue)
    → sq.writes ≢ 0
    → s.next ≡ s.slot + 1
    → s.slot + 1 < 2 ^ 32
    → s.slot < length sq.array
    → commit s sq
      ≡ done (
        tt,
        record sq { writes = sq.writes - 1; array = set sq.array s.slot (bit_and s.head s.mask) },
      )
unfolding commit complete_write
commit-at s sq w n b h = ground (arith, slot-eq s n b)
