-- ===== src/Listener/Polls.antt =====
-- conn.go, onListen: the entries that it publishes.
use iouring_go.Base.{
  ℕ, suc, ◌<◌, ◌≡◌, refl, List, Option, some, get_elem?, get_elem?-set_self, lt_of_get, set,
  set-set, length, arith,
}
use iouring_go.Base.Int.{ℤ, to_i32, to_u64}
use iouring_go.Base.Outcome.{done}
use iouring_go.Entry
use iouring_go.Entry.{SubmitEntry, Opcode}
use iouring_go.Submit.Publish.{commit-at}
use iouring_go.Submit.Slots.{
  submit_entry-at, reservation, reserved, mask-mod, mod-in, pow-lt, slot_present,
}
use iouring_go.Ring.{Ring}
use iouring_go.Ops.Prepare.{IsReady, slot_of, sq_with, store-at}
use iouring_go.Ops.Published.{after-IsReady}
use iouring_go.Listener.{Conn, poll_fill, arm, poll_for, on_listen, pollin}

-- A ring after an entry that takes no id.
abbrev pub polled : ℕ → Ring → SubmitEntry → Ring
polled k r e = record r { sq = sq_with k r e }

abbrev pub poll_entry : ℤ → ℕ → List ℕ → SubmitEntry
poll_entry fd user_data anon = record {
  opcode = Opcode.poll_add;
  flags = 0;
  ioprio = 0;
  fd = to_i32 fd;
  offset = 0;
  addr = 0;
  len = 0;
  uflags = pollin;
  user_data = user_data;
  anon0 = anon;
}

pub polled-IsReady : {k : ℕ} {r : Ring} (e : SubmitEntry) → IsReady k r → IsReady k (polled k r e)
polled-IsReady e h =
    let a = after-IsReady e h in record { valid = a.valid; free = a.free; room = a.room }

pub poll_for-polled :
    (k fuel : ℕ) (r : Ring) (fd : ℤ) (user_data : ℕ) {e : SubmitEntry}
    → IsReady k r
    → get_elem? r.sq.entries (slot_of k r) ≡ some e
    → poll_for (suc fuel) fd user_data r ≡ done (tt, polled k r (poll_entry fd user_data e.anon0))
unfolding poll_for arm Entry.reset
poll_for-polled k fuel r fd user_data {e} ready at =
    let e' : SubmitEntry = poll_entry fd user_data e.anon0 in
    let sq = reserved k r.sq e in
    let in_slot = lt_of_get r.sq.entries (slot_of k r) at in
    let stored = record sq { entries = set sq.entries (slot_of k r) e' } in
    let in_array : slot_of k r < length r.sq.array =
      omega (arith, mod-in ready.valid r.sq.tail, ready.valid.n_array) in
    let room = ready.room in
    ground (
      arith,
      submit_entry-at k fuel r.sq ready.valid ready.free at,
      store-at (reservation k r.sq) (poll_fill fd) user_data sq
          (get_elem?-set_self r.sq.entries (slot_of k r) (Entry.reset e) in_slot) refl,
      commit-at (reservation k r.sq) stored (omega (arith, room)) refl
          (omega (arith, mod-in ready.valid r.sq.tail, pow-lt k ready.valid.small)) in_array,
      set-set r.sq.entries (slot_of k r) (Entry.reset e) e',
      mask-mod ready.valid r.sq.head,
    )

-- onListen, on a ready ring, publishes two polls, neither of which carries an id of the ring: one of
-- the new connection under the number 0, and one of the listening socket under its descriptor.
pub on_listen-polled :
    (accept : ℤ → Option ℤ) (k fuel : ℕ) (conn : Conn) (new_fd : ℤ) (r : Ring)
    → IsReady k r
    → accept conn.fd ≡ some new_fd
    → (a b : SubmitEntry) × (on_listen accept (suc fuel) conn r
        ≡ done (
          new_fd,
          polled k
              (polled k r (poll_entry new_fd 0 a.anon0))
              (poll_entry conn.fd (to_u64 conn.fd) b.anon0),
        ))
unfolding on_listen
on_listen-polled accept k fuel conn new_fd r ready accepted =
    let (a, at) = slot_present ready.valid in
    let r₁ = polled k r (poll_entry new_fd 0 a.anon0) in
    let ready₁ = polled-IsReady (poll_entry new_fd 0 a.anon0) ready in
    let (b, at₁) = slot_present ready₁.valid in
    (
      a,
      b,
      ground (
        arith,
        accepted,
        poll_for-polled k fuel r new_fd 0 ready at,
        poll_for-polled k fuel r₁ conn.fd (to_u64 conn.fd) ready₁ at₁,
      ),
    )
