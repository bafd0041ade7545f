-- ===== src/Examples/Connecting.antt =====
-- ring_conn.go: a connection on descriptor 7, whose ring has completions for the ids 1 and 2.
use iouring_go.Base.{ℕ, ◌≤◌, ◌≡◌, ◌⊎◌, refl, false, true, [], ◌∷◌, arith}
use iouring_go.Base.Int.{ℤ, pos}
use iouring_go.Base.Outcome.{done}
use iouring_go.Entry.{SubmitEntry, Opcode}
use iouring_go.Queue.{complete_write, enter_lock}
use iouring_go.Submit.{submit_entry, commit}
use iouring_go.Lookup.{entry_by}
use iouring_go.Ring.{Kernel, next_id, enter}
use iouring_go.Ops.{Bytes, store}
use iouring_go.Ops.Prepare.{after}
use iouring_go.Connection.{RingConn, Reply, Addr, returned, blocked, read, write, close}
use iouring_go.Connection.Answering.{IsHonest, Answered}
use iouring_go.Connection.Polling.{id_of, repolled}
use iouring_go.Connection.Transfers.{fixed_entry, write-Answered, read-Answered}
use iouring_go.Connection.Lifetime.{
  Life, count, perform, Reach, fresh, later, called, Call, Reach-returns,
}
use iouring_go.Examples.Data.{cqe, small_cq, small_ring}
use iouring_go.Examples.Preparing.{small_ring-IsReady}

abbrev pub somewhere : Addr
somewhere = record { net = 116 ∷ 99 ∷ 112 ∷ []; s = [] }

abbrev conn : RingConn
conn = record {
  fd = pos 7;
  laddr = somewhere;
  raddr = somewhere;
  r = small_ring;
  stop = 0;
  deadline = 0;
  read_deadline = 0;
  write_deadline = 0;
}

abbrev four : Bytes
four = record { addr = 4096; len = 4 }

-- A kernel that takes all entries and has completed two.
abbrev pub serving : Kernel
serving c sq cq = record {
  res = 1;
  errno = 0;
  sq = record sq { head = sq.tail };
  cq = small_cq 0 2 (cqe 1 ∷ cqe 2 ∷ cqe 0 ∷ cqe 0 ∷ []);
}

pub serving-IsHonest : IsHonest 1 serving
serving-IsHonest = record {
  valid = λ c sq cq v. record {
    small = v.small;
    mask_ones = v.mask_ones;
    n_entries = v.n_entries;
    n_array = v.n_array;
  };
  writes = λ c sq cq. refl;
  fits = λ c sq cq h. omega arith;
}

write-Answered_example :
    (e : SubmitEntry) × (reply : Reply) × (c' : RingConn) × (write serving 1 four conn
      ≡ done (reply, c'))
    × Answered serving 1
        (record conn {
          r = after 1 small_ring (fixed_entry Opcode.write_fixed (pos 7) four 1 e.anon0);
        })
        reply
        c'
write-Answered_example =
    write-Answered serving 0 four conn serving-IsHonest small_ring-IsReady (omega arith)
      (omega arith)

-- The eight bytes of the completion.
write_returns : (c' : RingConn) × (write serving 1 four conn ≡ done (returned (pos 8), c'))
unfolding write submit_entry store next_id commit complete_write enter enter_lock entry_by
write_returns = (_, refl)

read-Answered_example :
    (a e : SubmitEntry) × (reply : Reply) × (c' : RingConn) × (read serving 1 four conn
      ≡ done (reply, c'))
    × Answered serving
        (id_of (repolled serving 1 (pos 7) small_ring a.anon0))
        (record conn {
          r = after 1 (repolled serving 1 (pos 7) small_ring a.anon0) (
              fixed_entry Opcode.read_fixed
                (pos 7)
                four
                (id_of (repolled serving 1 (pos 7) small_ring a.anon0))
                e.anon0);
        })
        reply
        c'
read-Answered_example =
    read-Answered serving 0 four conn serving-IsHonest small_ring-IsReady (omega arith)
      (omega arith)

abbrev closing : ℤ → ℕ
closing fd = 0

-- After a Write and a Close.
abbrev used_twice : RingConn
used_twice = record conn { stop = 2 }

-- Its first call is a Close.
abbrev closed_once : Life
closed_once = record { conn = record conn { stop = 1 }; waiting = true; returns = 1 }

closed_once-Reach : Reach serving 1 closing closed_once
unfolding perform count close
closed_once-Reach = later (fresh conn refl) (called Call.closes refl)

Reach-returns_example : (1 ≤ 3) × ((true ≡ false) ⊎ (1 ≤ 2))
Reach-returns_example = Reach-returns serving 1 closing closed_once-Reach

-- A third call is not let through while nothing is received.
third_blocked : close closing used_twice ≡ (blocked, used_twice)
unfolding close
third_blocked = refl
