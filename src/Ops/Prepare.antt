-- ===== src/Ops/Prepare.antt =====
-- ops.go: what a Prepare function does to the ring, whatever it writes into its entry.
use iouring_go.Base.{
  ℕ, suc, ◌+◌, ◌-◌, ◌%◌, ◌^◌, ◌<◌, ◌≡◌, ◌≢◌, refl, some, get_elem?, set, length, get_elem?-set_self,
  set-set, lt_of_get, bit_and, arith,
}
use iouring_go.Base.Outcome.{done}
use iouring_go.Entry
use iouring_go.Entry.{SubmitEntry}
use iouring_go.Queue.{SubmitQueue}
use iouring_go.Submit.{Reservation, IsValid}
use iouring_go.Submit.Publish.{commit-at}
use iouring_go.Submit.Slots.{submit_entry-at, reservation, reserved, mask-mod, mod-in, pow-lt}
use iouring_go.Ring.{Ring, next_id}
use iouring_go.Ops.{ok, Fill, prepare, fill_in, store, user_data_at}

-- A ring that a Prepare function can use at once: nobody is entering it, and the counter of writers
-- has room.
pub record IsReady (k : ℕ) (r : Ring) : Type 0 where
  pub valid : IsValid k r.sq
  pub free : r.sq.entered ≡ 0
  pub room : r.sq.writes + 1 < 2 ^ 32

-- The slot that comes next.
abbrev pub slot_of : ℕ → Ring → ℕ
slot_of k r = r.sq.tail % 2 ^ k

-- The queue after an entry `e` has been prepared in the slot that comes next.
abbrev pub sq_with : ℕ → Ring → SubmitEntry → SubmitQueue
sq_with k r e = record (r.sq) {
  tail = r.sq.tail % 2 ^ k + 1;
  entries = set r.sq.entries (r.sq.tail % 2 ^ k) e;
  array = set r.sq.array (r.sq.tail % 2 ^ k) (r.sq.head % 2 ^ k);
}

abbrev pub after : ℕ → Ring → SubmitEntry → Ring
after k r e = record r { sq = sq_with k r e; idx = (r.idx + 1) % 2 ^ 64 }

pub store-at :
    (s : Reservation) (fill : Fill) (id : ℕ) (sq : SubmitQueue) {e e' : SubmitEntry}
    → get_elem? sq.entries s.slot ≡ some e
    → fill id e ≡ done e'
    → store s fill id sq ≡ done (tt, record sq { entries = set sq.entries s.slot e' })
unfolding store
store-at s fill id sq h f = ground arith

pub user_data-at :
    (s : Reservation) (sq : SubmitQueue) {e : SubmitEntry}
    → get_elem? sq.entries s.slot ≡ some e
    → user_data_at s sq ≡ done (e.user_data, sq)
unfolding user_data_at
user_data-at s sq h = ground arith

-- What stands between the reservation and the return.
fill_in-at :
    (s : Reservation) (fill : Fill) (r : Ring) {e e' : SubmitEntry}
    → get_elem? r.sq.entries s.slot ≡ some e
    → fill ((r.idx + 1) % 2 ^ 64) e ≡ done e'
    → r.sq.writes ≢ 0
    → s.next ≡ s.slot + 1
    → s.slot + 1 < 2 ^ 32
    → s.slot < length r.sq.array
    → fill_in fill (some s) r
      ≡ done (
        ok e'.user_data,
        record r {
          sq = record (r.sq) {
            entries = set r.sq.entries s.slot e';
            writes = r.sq.writes - 1;
            array = set r.sq.array s.slot (bit_and s.head s.mask);
          };
          idx = (r.idx + 1) % 2 ^ 64;
        },
      )
unfolding fill_in next_id
fill_in-at s fill r {e} {e'} at filled w n b h =
    let id : ℕ = (r.idx + 1) % 2 ^ 64 in
    let stored : SubmitQueue = record (r.sq) { entries = set r.sq.entries s.slot e' } in
    let published : SubmitQueue = record stored {
      writes = r.sq.writes - 1;
      array = set r.sq.array s.slot (bit_and s.head s.mask);
    } in
    ground (
      arith,
      store-at s fill id r.sq at filled,
      commit-at s stored w n b h,
      user_data-at s published
          (get_elem?-set_self r.sq.entries s.slot e' (lt_of_get r.sq.entries s.slot at)),
    )

module _ {k : ℕ} {r : Ring} (ready : IsReady k r) where
  -- A Prepare function whose assignments succeed on the reset entry of the next slot.
  pub prepare-after :
      (fuel : ℕ) (fill : Fill) {e e' : SubmitEntry}
      → get_elem? r.sq.entries (slot_of k r) ≡ some e
      → fill ((r.idx + 1) % 2 ^ 64) (Entry.reset e) ≡ done e'
      → prepare (suc fuel) fill r ≡ done (ok e'.user_data, after k r e')
  unfolding prepare
  prepare-after fuel fill {e} {e'} at filled =
      let set_up : Ring = record r { sq = reserved k r.sq e } in
      let in_array : r.sq.tail % 2 ^ k < length r.sq.array =
        omega (arith, mod-in ready.valid r.sq.tail, ready.valid.n_array) in
      ground (
        arith,
        submit_entry-at k fuel r.sq ready.valid ready.free at,
        fill_in-at (reservation k r.sq) fill set_up
            (get_elem?-set_self r.sq.entries (slot_of k r) (Entry.reset e)
              (lt_of_get r.sq.entries (slot_of k r) at))
            filled (omega (arith, ready.room)) refl
            (omega (arith, mod-in ready.valid r.sq.tail, pow-lt k ready.valid.small)) in_array,
        set-set r.sq.entries (slot_of k r) (Entry.reset e) e',
        mask-mod ready.valid r.sq.head,
      )
