-- ===== src/Connection.antt =====
-- ring_conn.go: ringConn, a connection whose reads and writes go through the ring; addr of conn.go.
pub mod Answering
pub mod Polling
pub mod Transfers
pub mod Tokens
pub mod Lifetime
use iouring_go.Base.{
  ℕ, suc, ◌+◌, ◌%◌, ◌^◌, ◌-◌, Bool, false, ◌==◌, List, Option, none, some, ltb, if◌then◌else◌,
}
use iouring_go.Base.Int.{ℤ, pos, is_neg, ◌-ℤ◌, to_i32, to_u64}
use iouring_go.Base.Outcome.{Outcome, M, done, spin, panic, pure, ◌>>=◌, ◌>>◌}
use iouring_go.Entry.{SubmitEntry, CompletionEntry, Opcode}
use iouring_go.Queue.{CompletionQueue}
use iouring_go.Submit.{Reservation, submit_entry, commit}
use iouring_go.Ring
use iouring_go.Ring.{Ring, Kernel, on_sq, next_id, enter, enter_get_events}
use iouring_go.Ops.{Bytes, Fill, first, store}
use iouring_go.Lookup.{entry_by}
use iouring_go.Listener.{poll_for}

-- `addr`, with `Network` and `String` as its fields; a string is the list of its bytes.
pub record Addr : Type 0 where
  pub net : List ℕ
  pub s : List ℕ

-- `ringConn`: `stop` is the number of tokens in the channel of that name. What `poll`, `pollReady` and
-- `offset` point to is never used, and left out.
pub record RingConn : Type 0 where
  pub fd : ℤ
  pub laddr : Addr
  pub raddr : Addr
  pub r : Ring
  pub stop : ℕ
  pub deadline : ℕ
  pub read_deadline : ℕ
  pub write_deadline : ℕ

-- The capacity that onListen gives to the channel `stop`.
abbrev pub stop_room : ℕ
stop_room = 2

-- How a call ends: with a number of bytes, an errno, `ErrEntryNotFound`, or "ring unavailable"; it
-- does not end when it is blocked at the send into a full channel.
pub data Reply : Type 0 where
  returned : ℤ → Reply
  failed : ℕ → Reply
  not_found unavailable blocked : Reply

abbrev pub etimedout : ℕ
etimedout = 110

-- A function over the ring, run on a connection.
abbrev pub on_ring : {A : Type 0} → M Ring A → M RingConn A
on_ring m c = elim (m c.r) [
  | done (a, r') ↦ done (a, record c { r = r' })
  | spin ↦ spin
  | panic ↦ panic
]

abbrev pub with_cq : RingConn → CompletionQueue → RingConn
with_cq c cq = record c { r = record (c.r) { cq = cq } }

-- The result of a completion, an int32, as an int or an errno.
abbrev pub reply_of : ℤ → Reply
reply_of res = if is_neg res then failed (to_u64 (pos 0 -ℤ res)) else returned res

-- The loop of getCqe, which every case of it leaves in its first round: EntryBy has no error but
-- `ErrEntryNotFound`, and that one is returned.
unfoldable pub find : Bool → ℕ → M RingConn Reply
find timed_out req c =
    if timed_out then done (failed etimedout, c) else elim (entry_by c.r.cq req) [
      | done (none, cq') ↦ done (not_found, with_cq c cq')
      | done (some cqe, cq') ↦ done (reply_of cqe.res, with_cq c cq')
      | spin ↦ spin
      | panic ↦ panic
    ]

-- What follows Enter: the send, then the loop.
unfoldable pub after_enter : Bool → ℕ → Ring.Result ℤ → M RingConn Reply
unfolding find
after_enter timed_out req (Ring.err e) c = done (failed e, c)
after_enter timed_out req (Ring.ok n) c =
    if ltb c.stop stop_room
    then find timed_out req (record c { stop = suc c.stop })
    else done (blocked, c)

abbrev pub read_fill : ℤ → Bytes → Fill
read_fill fd b id e = first b λ addr. done (record e {
  opcode = Opcode.read_fixed;
  fd = to_i32 fd;
  len = b.len % 2 ^ 32;
  flags = 0;
  addr = addr;
})

abbrev pub write_fill : ℤ → Bytes → Fill
write_fill fd b id e = first b λ addr.
    done
      (record e { opcode = Opcode.write_fixed; fd = to_i32 fd; len = b.len % 2 ^ 32; addr = addr })

abbrev pub remove_fill : ℤ → Fill
remove_fill fd id e =
    done (record e { opcode = Opcode.poll_remove; fd = to_i32 fd; user_data = id })

-- `sqe.UserData = reqID`
abbrev pub name_fill : Fill
name_fill id e = done (record e { user_data = id })

module _ (kernel : Kernel) (fuel : ℕ) where
  -- `getCqe`; whether the context has ended is `timed_out`.
  unfoldable pub get_cqe : Bool → ℕ → M RingConn Reply
  unfolding after_enter
  get_cqe timed_out req = do
    res ← on_ring (enter kernel fuel 1024 1 enter_get_events)
    after_enter timed_out req res

  -- `rePoll`, which ignores what Enter returns.
  unfoldable pub re_poll : M RingConn (Unit {0})
  re_poll c =
      (do
        id ← on_ring next_id
        on_ring (poll_for fuel c.fd id)
        _ ← on_ring (enter kernel fuel 1024 1 enter_get_events)
        pure tt)
        c

  -- What Read and Write do with their entry: the id is taken after the other assignments.
  unfoldable pub transfer : Fill → Option Reservation → M RingConn Reply
  unfolding get_cqe
  transfer fill none = pure unavailable
  transfer fill (some s) = do
    on_ring (on_sq (store s fill 0))
    id ← on_ring next_id
    on_ring (on_sq (store s name_fill id))
    on_ring (on_sq (commit s))
    get_cqe false id

  -- `Read`
  unfoldable pub read : Bytes → M RingConn Reply
  unfolding re_poll transfer
  read b c =
      (do re_poll; sqe ← on_ring (on_sq (submit_entry fuel)); transfer (read_fill c.fd b) sqe) c

  -- `Write`
  unfoldable pub write : Bytes → M RingConn Reply
  unfolding transfer
  write b c = (do sqe ← on_ring (on_sq (submit_entry fuel)); transfer (write_fill c.fd b) sqe) c

  -- The case of `run` that ends it, once it has received from `stop`: `remove`.
  unfoldable pub remove_poll : ℕ → Option Reservation → M RingConn Reply
  unfolding get_cqe
  remove_poll id none c = panic
  remove_poll id (some s) c =
      (do
        on_ring (on_sq (store s (remove_fill c.fd) id))
        on_ring (on_sq (commit s))
        get_cqe false id)
        c

  unfoldable pub remove : M RingConn Reply
  unfolding remove_poll
  remove = do id ← on_ring next_id; sqe ← on_ring (on_sq (submit_entry fuel)); remove_poll id sqe

  -- `run`: it waits for a token, and `none` is that there is none.
  unfoldable pub run : M RingConn (Option Reply)
  unfolding remove
  run c =
      if c.stop == 0
      then done (none, c)
      else (do reply ← remove; pure (some reply)) (record c { stop = c.stop - 1 })

-- `Close`; `close_fd` gives the errno of close(2), 0 for success.
unfoldable pub close : (ℤ → ℕ) → RingConn → Reply × RingConn
close close_fd c =
    if ltb c.stop stop_room
    then (
      (if close_fd c.fd == 0 then returned (pos 0) else failed (close_fd c.fd)),
      record c { stop = suc c.stop },
    )
    else (blocked, c)

-- `SetDeadline`, `SetReadDeadline` and `SetWriteDeadline`, which always return nil.
unfoldable pub set_deadline : ℕ → RingConn → RingConn
set_deadline t c = record c { deadline = t }

unfoldable pub set_read_deadline : ℕ → RingConn → RingConn
set_read_deadline t c = record c { read_deadline = t }

unfoldable pub set_write_deadline : ℕ → RingConn → RingConn
set_write_deadline t c = record c { write_deadline = t }

-- `LocalAddr` and `RemoteAddr`
unfoldable pub local_addr : RingConn → Addr
local_addr c = c.laddr

unfoldable pub remote_addr : RingConn → Addr
remote_addr c = c.raddr
