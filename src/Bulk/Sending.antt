-- ===== src/Bulk/Sending.antt =====
-- examples/bulk-socket/main.go, send: which entries the kernel finds when send enters the ring.
use iouring_go.Base.{
  ℕ, suc, ◌+◌, ◌%◌, ◌^◌, ◌<◌, ◌≤◌, ◌≡◌, refl, subst, ◌∙◌, List, [], ◌∷◌, Option, some, get_elem?,
  get_elem?-set_self, lt_of_get, set, set-set, length, arith,
}
use iouring_go.Base.Int.{ℤ, pos}
use iouring_go.Base.Outcome.{done}
use iouring_go.Entry
use iouring_go.Entry.{SubmitEntry, Opcode}
use iouring_go.Submit.Publish.{commit-at}
use iouring_go.Submit.Slots.{
  submit_entry-at, reservation, reserved, mask-mod, mod-in, pow-lt, slot_present,
}
use iouring_go.Ring
use iouring_go.Ring.{Ring, Kernel, enter_get_events}
use iouring_go.Ring.Entering.{answer_of, Returned, enter-Returned}
use iouring_go.Ops.Batch.{Batched, first-Batched, next-Batched, Batched-sqe_at}
use iouring_go.Ops.Prepare.{IsReady, slot_of, store-at}
use iouring_go.Ops.Published.{sqe_at}
use iouring_go.Listener.Polls.{polled, polled-IsReady}
use iouring_go.Bulk.{entered, write_fill, queue_entry, queue_all, send_raw, send, wire}

abbrev pub write_entry : ℕ → ℕ → ℤ → List ℕ → SubmitEntry
write_entry addr len fd anon = record {
  opcode = Opcode.write_fixed;
  flags = 0;
  ioprio = 0;
  fd = fd;
  offset = 0;
  addr = addr;
  len = len;
  uflags = pos 0;
  user_data = 0;
  anon0 = anon;
}

module _ (k fuel addr len : ℕ) where
  -- One entry of the loop.
  queue_all-next :
      (r : Ring) (fd : ℤ) (fds : List ℤ) {e : SubmitEntry}
      → IsReady k r
      → get_elem? r.sq.entries (slot_of k r) ≡ some e
      → queue_all (suc fuel) addr len (fd ∷ fds) r
        ≡ queue_all (suc fuel) addr len fds (polled k r (write_entry addr len fd e.anon0))
  unfolding queue_all queue_entry Entry.reset
  queue_all-next r fd fds {e} ready at =
      let e' : SubmitEntry = write_entry addr len fd e.anon0 in
      let sq = reserved k r.sq e in
      let in_slot = lt_of_get r.sq.entries (slot_of k r) at in
      let stored = record sq { entries = set sq.entries (slot_of k r) e' } in
      let in_array : slot_of k r < length r.sq.array =
        omega (arith, mod-in ready.valid r.sq.tail, ready.valid.n_array) in
      let room = ready.room in
      ground (
        arith,
        submit_entry-at k fuel r.sq ready.valid ready.free at,
        store-at (reservation k r.sq) (write_fill addr len fd) 0 sq
            (get_elem?-set_self r.sq.entries (slot_of k r) (Entry.reset e) in_slot) refl,
        commit-at (reservation k r.sq) stored (omega (arith, room)) refl
            (omega (arith, mod-in ready.valid r.sq.tail, pow-lt k ready.valid.small)) in_array,
        set-set r.sq.entries (slot_of k r) (Entry.reset e) e',
        mask-mod ready.valid r.sq.head,
      )

  queue_all-Batched :
      (h c : ℕ) (e : SubmitEntry) (fds : List ℤ) (r : Ring)
      → IsReady k r
      → 0 < c
      → c + length fds ≤ 2 ^ k
      → Batched k h c e r.sq
      → (r' : Ring) × (queue_all (suc fuel) addr len fds r ≡ done (tt, r'))
        × IsReady k r'
        × Batched k h (c + length fds) e r'.sq
  unfolding queue_all
  queue_all-Batched h c e [] r ready some_in room b =
      (r, refl, ready, subst (λ n. Batched k h n e r.sq) (omega arith) b)
  queue_all-Batched h c e (fd ∷ fds) r ready some_in room b =
      let (f, at) = slot_present ready.valid in
      let e' : SubmitEntry = write_entry addr len fd f.anon0 in
      let (r', ran, ready', b') =
        queue_all-Batched h (c + 1) e fds (polled k r e') (polled-IsReady e' ready) (omega arith)
          (omega (arith, room)) (next-Batched ready e' some_in (omega (arith, room)) b) in
      (
        r',
        queue_all-next r fd fds ready at ∙ ran,
        ready',
        subst (λ n. Batched k h n e r'.sq) (omega arith) b',
      )

-- On a ready ring that the kernel has emptied, and with at most as many sockets as the queue has
-- entries, send enters the ring once for them all and hands on what the kernel answers; but in every
-- position the kernel then finds the entry of the first socket.
pub send_repeats :
    (encode : List ℕ → Option (List ℕ)) (kernel : Kernel) (k fuel addr : ℕ) (fd : ℤ) (fds : List ℤ)
    (message sdata : List ℕ) (r : Ring)
    → encode message ≡ some sdata
    → IsReady k r
    → 1 + length fds ≤ 2 ^ k
    → r.sq.head % 2 ^ k ≡ r.sq.tail % 2 ^ k
    → (anon : List ℕ) × (r' : Ring) × (res : Ring.Result ℤ) × (send encode kernel
          (suc fuel)
          addr
          (fd ∷ fds)
          message
          r
        ≡ done (
          entered res,
          record r' {
            sq =
                record ((answer_of kernel
                  (1 + length fds)
                  (1 + length fds)
                  enter_get_events
                  r').sq) { entered = 0 };
            cq = (answer_of kernel (1 + length fds) (1 + length fds) enter_get_events r').cq;
          },
        ))
      × Returned (answer_of kernel (1 + length fds) (1 + length fds) enter_get_events r') res
      × ((j : ℕ)
          → j < 1 + length fds
          → sqe_at k r'.sq (r.sq.head + j)
            ≡ some (write_entry addr (length (wire sdata) % 2 ^ 32) fd anon))
unfolding send send_raw
send_repeats encode kernel k fuel addr fd fds message sdata r coded ready room drained =
    let n : ℕ = length (wire sdata) % 2 ^ 32 in
    let (f, at) = slot_present ready.valid in
    let e : SubmitEntry = write_entry addr n fd f.anon0 in
    let (r', ran, ready', b) =
      queue_all-Batched k fuel addr n r.sq.head 1 e fds (polled k r e) (polled-IsReady e ready)
        (omega arith) room (first-Batched ready e drained) in
    let (res, ret, back) =
      enter-Returned kernel fuel (1 + length fds) (1 + length fds) enter_get_events r'
        ready'.free in
    (
      f.anon0,
      r',
      res,
      ground (arith, coded, queue_all-next k fuel addr n r fd fds ready at, ran, ret),
      back,
      λ j lt. Batched-sqe_at j b lt,
    )
