-- ===== src/Connection/Transfers.antt =====
-- ring_conn.go: Read and Write, from the entries that they publish to what they return.
use iouring_go.Base.{
  ℕ, suc, ◌%◌, ◌^◌, ◌<◌, ◌≡◌, ◌≢◌, refl, List, some, get_elem?, set, set-set, length,
  get_elem?-set_self, lt_of_get, length-set, false, arith,
}
use iouring_go.Base.Int.{ℤ, pos, to_i32}
use iouring_go.Base.Outcome.{done}
use iouring_go.Entry
use iouring_go.Entry.{SubmitEntry, Opcode}
use iouring_go.Queue.{SubmitQueue}
use iouring_go.Submit.Publish.{commit-at}
use iouring_go.Submit.Slots.{
  submit_entry-at, reservation, reserved, mask-mod, mod-in, pow-lt, slot_present,
}
use iouring_go.Ring.{Ring, Kernel, next_id}
use iouring_go.Ops.{Bytes, Fill}
use iouring_go.Ops.Prepare.{IsReady, slot_of, after, store-at}
use iouring_go.Listener.Polls.{poll_entry, polled-IsReady}
use iouring_go.Connection.{
  RingConn, Reply, get_cqe, transfer, read, write, name_fill, read_fill, write_fill,
}
use iouring_go.Connection.Polling.{id_of, repolled, next-IsReady, entered-IsReady, re_poll-repolled}
use iouring_go.Connection.Answering.{Fits, IsHonest, Answered, get_cqe-Answered}

-- The entry that Read and Write fill, which differ in the opcode.
abbrev pub fixed_entry : Opcode → ℤ → Bytes → ℕ → List ℕ → SubmitEntry
fixed_entry opcode fd b id anon = record {
  opcode = opcode;
  flags = 0;
  ioprio = 0;
  fd = to_i32 fd;
  offset = 0;
  addr = b.addr;
  len = b.len % 2 ^ 32;
  uflags = pos 0;
  user_data = id;
  anon0 = anon;
}

abbrev named : ℕ → SubmitEntry → SubmitEntry
named id e = record e { user_data = id }

module _ (kernel : Kernel) {k : ℕ} where
  -- The rest of Read and Write, once they have the next entry.
  transfer-after :
      (fuel : ℕ) (fill : Fill) (c : RingConn) {e e' : SubmitEntry}
      → IsReady k c.r
      → get_elem? c.r.sq.entries (slot_of k c.r) ≡ some e
      → fill 0 (Entry.reset e) ≡ done e'
      → transfer kernel
          (suc fuel)
          fill
          (some (reservation k c.r.sq))
          (record c { r = record (c.r) { sq = reserved k c.r.sq e } })
        ≡ get_cqe kernel
            (suc fuel)
            false
            (id_of c.r)
            (record c { r = after k c.r (named (id_of c.r) e') })
  unfolding transfer next_id
  transfer-after fuel fill c {e} {e'} ready at filled =
      let s = reservation k c.r.sq in
      let id : ℕ = id_of c.r in
      let slot : ℕ = slot_of k c.r in
      let sq = reserved k c.r.sq e in
      let in_slot = lt_of_get c.r.sq.entries slot at in
      let filled_sq : SubmitQueue = record sq { entries = set sq.entries slot e' } in
      let named_sq : SubmitQueue = record sq { entries = set sq.entries slot (named id e') } in
      let in_array : slot < length c.r.sq.array =
        omega (arith, mod-in ready.valid c.r.sq.tail, ready.valid.n_array) in
      let room = ready.room in
      ground (
        arith,
        store-at s fill 0 sq (get_elem?-set_self c.r.sq.entries slot (Entry.reset e) in_slot)
            filled,
        store-at s name_fill id filled_sq {e = e'} {e' = named id e'}
            (get_elem?-set_self sq.entries slot e'
              (omega (arith, in_slot, length-set c.r.sq.entries slot (Entry.reset e))))
            refl,
        set-set sq.entries slot e' (named id e'),
        commit-at s named_sq (omega (arith, room)) refl
            (omega (arith, mod-in ready.valid c.r.sq.tail, pow-lt k ready.valid.small)) in_array,
        set-set c.r.sq.entries slot (Entry.reset e) (named id e'),
        mask-mod ready.valid c.r.sq.head,
      )

  -- Write, on a ready ring and with a kernel that keeps the shape of the queues, publishes an entry
  -- WriteFixed for its slice under the next id and enters the ring: it returns the kernel's errno, or
  -- blocks when the channel stop has no room for its token, or else sends one and returns what
  -- EntryBy finds for that id in the completion queue.
  pub write-Answered :
      (fuel : ℕ) (b : Bytes) (c : RingConn)
      → IsHonest k kernel
      → IsReady k c.r
      → Fits c.r.cq
      → b.len ≢ 0
      → (e : SubmitEntry) × (reply : Reply) × (c' : RingConn) × (write kernel (suc fuel) b c
          ≡ done (reply, c'))
        × Answered kernel
            (id_of c.r)
            (record c {
              r = after k c.r (fixed_entry Opcode.write_fixed c.fd b (id_of c.r) e.anon0);
            })
            reply
            c'
  unfolding write Entry.reset
  write-Answered fuel b c honest ready fits some_bytes =
      let (e, at) = slot_present ready.valid in
      let w : SubmitEntry = fixed_entry Opcode.write_fixed c.fd b (id_of c.r) e.anon0 in
      let (reply, c', h, answered) =
        get_cqe-Answered kernel fuel (id_of c.r) (record c { r = after k c.r w }) honest fits
          ready.free in
      (
        e,
        reply,
        c',
        ground (
          arith,
          submit_entry-at k fuel c.r.sq ready.valid ready.free at,
          transfer-after fuel (write_fill c.fd b) c {e' = named 0 w} ready at (ground arith),
          h,
        ),
        answered,
      )

  -- Read, under the conditions of Write, first polls its descriptor again and enters the ring, then
  -- publishes an entry ReadFixed for its slice under the id after that of the poll and enters it again:
  -- it returns the kernel's second errno, or blocks when the channel stop has no room for its token, or
  -- else sends one and returns what EntryBy finds for that id in the completion queue.
  pub read-Answered :
      (fuel : ℕ) (b : Bytes) (c : RingConn)
      → IsHonest k kernel
      → IsReady k c.r
      → Fits c.r.cq
      → b.len ≢ 0
      → (a e : SubmitEntry) × (reply : Reply) × (c' : RingConn) × (read kernel (suc fuel) b c
          ≡ done (reply, c'))
        × Answered kernel
            (id_of (repolled kernel k c.fd c.r a.anon0))
            (record c {
              r = after k (repolled kernel k c.fd c.r a.anon0) (
                  fixed_entry Opcode.read_fixed c.fd b
                    (id_of (repolled kernel k c.fd c.r a.anon0))
                    e.anon0);
            })
            reply
            c'
  unfolding read Entry.reset
  read-Answered fuel b c honest ready fits some_bytes =
      let (a, at) = slot_present ready.valid in
      let p = polled-IsReady (poll_entry c.fd (id_of c.r) a.anon0) (next-IsReady c.r ready) in
      let r₁ : Ring = repolled kernel k c.fd c.r a.anon0 in
      let ready₁ : IsReady k r₁ = entered-IsReady kernel _ honest p in
      let (e, at₁) = slot_present ready₁.valid in
      let w : SubmitEntry = fixed_entry Opcode.read_fixed c.fd b (id_of r₁) e.anon0 in
      let (reply, c', h, answered) =
        get_cqe-Answered kernel fuel (id_of r₁) (record c { r = after k r₁ w }) honest
          (honest.fits _ _ c.r.cq fits) ready₁.free in
      (
        a,
        e,
        reply,
        c',
        ground (
          arith,
          re_poll-repolled kernel fuel c ready at,
          submit_entry-at k fuel r₁.sq ready₁.valid ready₁.free at₁,
          transfer-after fuel (read_fill c.fd b) (record c { r = r₁ }) {e' = named 0 w} ready₁ at₁
              (ground arith),
          h,
        ),
        answered,
      )
