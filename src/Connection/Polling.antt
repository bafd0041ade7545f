-- ===== src/Connection/Polling.antt =====
-- ring_conn.go, rePoll: the ring that it leaves.
use iouring_go.Base.{ℕ, suc, ◌+◌, ◌%◌, ◌^◌, ◌≡◌, refl, List, some, get_elem?, arith}
use iouring_go.Base.Int.{ℤ}
use iouring_go.Base.Outcome.{done}
use iouring_go.Entry.{SubmitEntry}
use iouring_go.Ring.{Ring, Kernel, next_id, enter_get_events}
use iouring_go.Ring.Entering.{answer_of, call_of, enter-Returned}
use iouring_go.Ops.Prepare.{IsReady, slot_of}
use iouring_go.Listener.Polls.{polled, poll_entry, poll_for-polled}
use iouring_go.Connection.{RingConn, re_poll}
use iouring_go.Connection.Answering.{IsHonest, entered}

-- The id that comes next.
abbrev pub id_of : Ring → ℕ
id_of r = (r.idx + 1) % 2 ^ 64

pub next-IsReady : {k : ℕ} (r : Ring) → IsReady k r → IsReady k (record r { idx = id_of r })
next-IsReady r h = record { valid = h.valid; free = h.free; room = h.room }

-- The ring after rePoll: a poll of the descriptor under an id of its own, and Enter.
abbrev pub repolled : Kernel → ℕ → ℤ → Ring → List ℕ → Ring
repolled kernel k fd r anon =
    entered kernel (polled k (record r { idx = id_of r }) (poll_entry fd (id_of r) anon))

module _ (kernel : Kernel) {k : ℕ} where
  -- A ring stays ready when it is entered.
  pub enter-IsReady :
      (to_submit min_complete flags : ℕ) (r : Ring)
      → IsHonest k kernel
      → IsReady k r
      → IsReady k (record r {
        sq = record ((answer_of kernel to_submit min_complete flags r).sq) { entered = 0 };
        cq = (answer_of kernel to_submit min_complete flags r).cq;
      })
  enter-IsReady to_submit min_complete flags r honest h =
      let w =
        honest.writes (call_of to_submit min_complete flags r) (record (r.sq) { entered = 1 })
          r.cq in
      let room = h.room in
      record {
        valid =
            let v =
              honest.valid (call_of to_submit min_complete flags r) (record (r.sq) { entered = 1 })
                r.cq
                (record {
                  small = h.valid.small;
                  mask_ones = h.valid.mask_ones;
                  n_entries = h.valid.n_entries;
                  n_array = h.valid.n_array;
                }) in
            record {
              small = v.small;
              mask_ones = v.mask_ones;
              n_entries = v.n_entries;
              n_array = v.n_array;
            };
        free = refl;
        room = omega (arith, w, room);
      }

  pub entered-IsReady : (r : Ring) → IsHonest k kernel → IsReady k r → IsReady k (entered kernel r)
  entered-IsReady r = enter-IsReady 1024 1 enter_get_events r

  pub re_poll-repolled :
      (fuel : ℕ) (c : RingConn) {e : SubmitEntry}
      → IsReady k c.r
      → get_elem? c.r.sq.entries (slot_of k c.r) ≡ some e
      → re_poll kernel (suc fuel) c ≡ done (tt, record c { r = repolled kernel k c.fd c.r e.anon0 })
  unfolding re_poll next_id
  re_poll-repolled fuel c {e} ready at =
      let r₁ : Ring = record (c.r) { idx = id_of c.r } in
      let r₂ = polled k r₁ (poll_entry c.fd (id_of c.r) e.anon0) in
      let (res, h, ret) = enter-Returned kernel fuel 1024 1 enter_get_events r₂ ready.free in
      ground (arith, poll_for-polled k fuel r₁ c.fd (id_of c.r) (next-IsReady c.r ready) at, h)
