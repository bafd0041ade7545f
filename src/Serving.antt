-- ===== src/Serving.antt =====
-- conn.go: ringListener with its loop run, Accept, Close, Addr and Fd.
pub mod Walking
pub mod Rounds
pub mod Again
use iouring_go.Base.{
  ◌&&◌, ◌||◌, not, bit_and, ◌==◌, ℕ, Bool, true, false, List, [], ◌∷◌, ◌++◌, Option, none, some,
  ltb, if◌then◌else◌, length,
}
use iouring_go.Base.Int.{ℤ, negsuc}
use iouring_go.Base.Outcome.{Outcome, M, done, spin, panic, ◌>>=◌, ◌>>◌}
use iouring_go.Ring
use iouring_go.Ring.{Ring, Kernel, next_id, enter, enter_get_events}
use iouring_go.Connection.{Addr, RingConn}
use iouring_go.Listener.{Conn, Conns, walk_cq, on_listen, poll_for}

-- A connection that onListen hands over.
pub record Accepted : Type 0 where
  pub fd : ℤ
  pub laddr : Addr
  pub raddr : Addr

-- The ringConn of it: its channel is empty, and no deadline is set.
abbrev pub conn_on : Ring → Accepted → RingConn
conn_on r c = record {
  fd = c.fd;
  laddr = c.laddr;
  raddr = c.raddr;
  r = r;
  stop = 0;
  deadline = 0;
  read_deadline = 0;
  write_deadline = 0;
}

-- `ringListener`: `f` is the descriptor of the socket's file, `stopped` whether `stop` is closed,
-- `new_conn` what stands in that channel and `sending` what waits to be sent into it, `handled` the
-- errors given to the handler, if there is one.
pub record RingListener : Type 0 where
  pub r : Ring
  pub f : Option ℤ
  pub a : Addr
  pub stopped : Bool
  pub new_conn : List Accepted
  pub sending : Option Accepted
  pub has_handler : Bool
  pub handled : List ℕ

-- The capacity of the channel `newConn`.
abbrev pub conn_room : ℕ
conn_room = 1024

abbrev pub with_r : RingListener → Ring → RingListener
with_r l r = record l { r = r }

abbrev pub accepted : (ℤ → List ℕ) → RingListener → ℤ → Accepted
accepted peer l fd = record { fd = fd; laddr = l.a; raddr = record { net = l.a.net; s = peer fd } }

-- `l.newConn <- &rc`
unfoldable pub deliver : Accepted → RingListener → RingListener
deliver c l =
    if ltb (length l.new_conn) conn_room
    then record l { new_conn = l.new_conn ++ c ∷ [] }
    else record l { sending = some c }

-- `l.errHandler(err)`
unfoldable pub handle : ℕ → RingListener → RingListener
handle e l = if l.has_handler then record l { handled = l.handled ++ e ∷ [] } else l

-- The debug output of `walkCq` takes the first nine entries of both queues, once there is something to
-- look for, and panics when there are fewer.
unfoldable pub out_of_range : Ring → Bool
out_of_range r =
    r.debug
    && (not (bit_and r.cq.head r.cq.mask == bit_and r.cq.tail r.cq.mask)
        && (ltb (length r.sq.entries) 9 || ltb (length r.cq.entries) 9))

-- How a turn of the loop ends.
pub data Turn : Type 0 where
  ended going waiting : Turn

-- What comes before the loop: the first poll, and the map with the socket under its id.
unfoldable pub start : ℕ → ℤ → M Ring Conns
start fuel fd r =
    (do id ← next_id; poll_for fuel fd id; (λ s. done (record { fd = fd; id = id } ∷ [], s))) r

-- `accept` is accept4(2), an error of which is `none`, and `peer` the address of who connected.
module _ (kernel : Kernel) (fuel : ℕ) (accept : ℤ → Option ℤ) (peer : ℤ → List ℕ) where
  unfoldable pub welcome : Conn → RingListener → Outcome (Turn × RingListener)
  unfolding deliver
  welcome c l = elim (on_listen accept fuel c l.r) [
    | done (fd, r') ↦ done (going, deliver (accepted peer l fd) (with_r l r'))
    | spin ↦ spin
    | panic ↦ panic
  ]

  -- `walkCq`; the listener's `debug` is that of the ring.
  unfoldable pub heard : Conns → RingListener → Outcome (Turn × RingListener)
  unfolding welcome out_of_range
  heard conns l = if out_of_range l.r then panic else elim (walk_cq l.r.cq conns) [
    | done (none, cq') ↦ done (going, with_r l (record (l.r) { cq = cq' }))
    | done (some c, cq') ↦ welcome c (with_r l (record (l.r) { cq = cq' }))
    | spin ↦ spin
    | panic ↦ panic
  ]

  unfoldable pub after_enter : Conns → Ring.Result ℤ → RingListener → Outcome (Turn × RingListener)
  unfolding heard handle
  after_enter conns (Ring.err e) l = done (going, handle e l)
  after_enter conns (Ring.ok n) l = heard conns l

  -- A turn of the loop of `run`, unless the goroutine waits at the send.
  unfoldable pub round : Conns → RingListener → Outcome (Turn × RingListener)
  unfolding after_enter
  round conns l = elim (l.sending) [
    | some c ↦ done (waiting, l)
    | none ↦
        if l.stopped
        then done (ended, l)
        else elim (enter kernel fuel 1024 1 enter_get_events l.r) [
          | done (res, r') ↦ after_enter conns res (with_r l r')
          | spin ↦ spin
          | panic ↦ panic
        ]
  ]

-- `Accept`: the next connection, or none while it waits; a goroutine that waits to send goes on.
unfoldable pub accept_next : RingListener → Option Accepted × RingListener
accept_next l = elim (l.new_conn) [
  | [] ↦ (none, l)
  | c ∷ cs ↦ elim (l.sending) [
    | none ↦ (some c, record l { new_conn = cs })
    | some d ↦ (some c, record l { new_conn = cs ++ d ∷ []; sending = none })
  ]
]

-- `Close`: closing the channel a second time panics. `close_file` is the error of `l.f.Close`.
unfoldable pub close : (Option ℤ → Option ℕ) → RingListener → Outcome (Option ℕ × RingListener)
close close_file l = if l.stopped then panic else done (close_file l.f, record l { stopped = true })

-- `Addr` and `Fd`
unfoldable pub addr : RingListener → Addr
addr l = l.a

unfoldable pub fd : RingListener → ℤ
fd l = elim (l.f) [ none ↦ negsuc 0 | some n ↦ n ]
