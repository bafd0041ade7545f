-- ===== src/Listener.antt =====
-- conn.go: the goroutine of a listener, which polls its socket through the ring and accepts.
pub mod Deaf
pub mod Polls
use iouring_go.Base.{
  ℕ, suc, ◌+◌, Bool, true, false, not, ◌&&◌, ◌||◌, List, [], ◌∷◌, Option, none, some, bit_and,
  bit_or, ◌==◌, ltb, if◌then◌else◌, length, get_elem?, set, take, drop,
}
use iouring_go.Base.Int.{ℤ, pos, to_i32, to_u64}
use iouring_go.Base.Outcome.{Outcome, M, done, spin, panic, pure, fail, ◌>>=◌, ◌>>◌}
use iouring_go.Entry.{SubmitEntry, CompletionEntry, Opcode}
use iouring_go.Queue.{CompletionQueue, cq_seen_flag}
use iouring_go.Submit.{Reservation, submit_entry, commit}
use iouring_go.Ring.{Ring, on_sq}
use iouring_go.Ops.{Fill, store}
use iouring_go.Lookup.{is_seen, marked}

-- `connInfo`, and `conns`, the map from ids.
pub record Conn : Type 0 where
  pub fd : ℤ
  pub id : ℕ

abbrev pub Conns : Type 0
Conns = List Conn

unfoldable pub conn_of : ℕ → Conns → Option Conn
conn_of id [] = none
conn_of id (c ∷ cs) = if c.id == id then some c else conn_of id cs

-- A loop of walkCq from index `i` on, with `seenIdx` and `seenEnd`: the index of the first entry for a
-- connection, and the connection.
unfoldable pub look : ℕ → List CompletionEntry → ℕ → Bool → Conns → Option (ℕ × ℕ × Conn)
unfolding conn_of
look i [] seen_idx seen_end conns = none
look i (cqe ∷ rest) seen_idx seen_end conns =
    let front : Bool = is_seen cqe && not seen_end in
    let idx : ℕ = if front then i else seen_idx in
    elim (conn_of cqe.user_data conns) [
      | none ↦ look (i + 1) rest idx (if front then seen_end else true) conns
      | some c ↦ some (i, idx, c)
    ]

-- The entry marked, and the head moved if `seenIdx` is more; `head` is not masked there.
unfoldable pub mark : ℕ → ℕ → Conn → CompletionQueue → Outcome (Option Conn × CompletionQueue)
mark i seen_idx conn cq = elim (get_elem? cq.entries i) [
  | none ↦ panic
  | some cqe ↦ done (
    some conn,
    record cq {
      entries = set cq.entries i (marked cqe);
      head = if ltb cq.head seen_idx then seen_idx else cq.head;
    },
  )
]

-- `walkCq`: the connection that onListen is called for.
unfoldable pub walk_cq : CompletionQueue → Conns → Outcome (Option Conn × CompletionQueue)
unfolding look mark
walk_cq cq conns =
    let head : ℕ = bit_and cq.head cq.mask in
    let tail : ℕ = bit_and cq.tail cq.mask in
    if head == tail
    then done (none, cq)
    else elim (look head (drop head (take (suc tail) cq.entries)) head false conns) [
      | some (i, seen_idx, conn) ↦ mark i seen_idx conn cq
      | none ↦
          if ltb tail head || ltb tail (length cq.entries)
          then elim (look 0 (take (suc tail) cq.entries) 0 false conns) [
            | some (i, seen_idx, conn) ↦ mark i seen_idx conn cq
            | none ↦ if ltb tail (length cq.entries) then done (none, cq) else panic
          ]
          else panic
    ]

-- `POLLIN`
abbrev pub pollin : ℤ
pollin = pos 1

abbrev pub poll_fill : ℤ → Fill
poll_fill fd user_data e =
    done (record e {
      opcode = Opcode.poll_add;
      fd = to_i32 fd;
      uflags = pollin;
      user_data = user_data;
    })

-- A poll of a descriptor, under a number that is not an id of the ring.
unfoldable pub arm : ℤ → ℕ → Option Reservation → M Ring (Unit {0})
unfolding store
arm fd user_data none = fail
arm fd user_data (some s) = do on_sq (store s (poll_fill fd) user_data); on_sq (commit s)

unfoldable pub poll_for : ℕ → ℤ → ℕ → M Ring (Unit {0})
unfolding arm
poll_for fuel fd user_data = do sqe ← on_sq (submit_entry fuel); arm fd user_data sqe

-- `onListen`, with the descriptor that accept(2) gives; an error of it is a panic. `newConnInfo` is
-- never filled, so its id is 0.
unfoldable pub on_listen : (ℤ → Option ℤ) → ℕ → Conn → M Ring ℤ
unfolding poll_for
on_listen accept fuel conn r = elim (accept conn.fd) [
  | none ↦ panic
  | some new_fd ↦ (do poll_for fuel new_fd 0; poll_for fuel conn.fd (to_u64 conn.fd); pure new_fd) r
]
