-- ===== src/Submit.antt =====
-- ring.go: SubmitEntry and the callback that it returns, run with no other thread between their
-- atomic operations. Interleavings are in Locks.
pub mod Slots
pub mod Publish
use iouring_go.Base.{
  ℕ, zero, suc, ◌+◌, ◌-◌, ◌%◌, ◌^◌, ◌<◌, ◌≡◌, not, List, bit_and, ◌==◌, leb, ltb, if◌then◌else◌,
  length, get_elem?, set, Option, none, some,
}
use iouring_go.Base.Outcome.{Outcome, M, done, spin, panic, ◌>>=◌}
use iouring_go.Entry
use iouring_go.Entry.{SubmitEntry}
use iouring_go.Queue.{SubmitQueue, complete_write}

-- What SubmitEntry returns: the index of the entry, and the variables of the callback's closure.
pub record Reservation : Type 0 where
  pub slot : ℕ
  pub next : ℕ
  pub head : ℕ
  pub mask : ℕ

-- `r.sq.Tail` is exchanged, `r.sq.writes` goes up, and the entry is reset and handed out.
reserve : SubmitQueue → ℕ → Outcome (Option Reservation × SubmitQueue)
reserve s next = elim (get_elem? s.entries (bit_and s.tail s.mask)) [
  | none ↦ panic
  | some e ↦ done (
    some (record { slot = bit_and s.tail s.mask; next = next; head = s.head; mask = s.mask }),
    record s {
      tail = next;
      writes = (s.writes + 1) % 2 ^ 32;
      entries = set s.entries (bit_and s.tail s.mask) (Entry.reset e);
    },
  )
]

-- `SubmitEntry`: a round is one pass from `getNext`; `none` is the pointer nil. The exchange of the
-- tail comes before the test of `entered`, and a failed test does not take it back.
unfoldable pub submit_entry : ℕ → M SubmitQueue (Option Reservation)
unfolding reserve
submit_entry zero s = spin
submit_entry (suc fuel) s =
    let next : ℕ = (bit_and s.tail s.mask + 1) % 2 ^ 32 in
    let busy = submit_entry fuel (record s { tail = next }) in
    let restart = submit_entry fuel (record s { tail = 0 }) in
    if leb next (length s.entries % 2 ^ 32)
    then (if not (s.entered == 0) then busy else reserve s next)
    else restart

-- `next-1` on uint32, an index into `Array`.
abbrev array_slot : Reservation → ℕ
array_slot r = (r.next + 2 ^ 32 - 1) % 2 ^ 32

store_array : Reservation → M SubmitQueue (Unit {0})
store_array r s =
    if ltb (array_slot r) (length s.array)
    then done (tt, record s { array = set s.array (array_slot r) (bit_and r.head r.mask) })
    else panic

-- The returned callback: `completeWrite`, then `Array[next-1] = head & mask`.
unfoldable pub commit : Reservation → M SubmitQueue (Unit {0})
unfolding store_array
commit r s = elim (complete_write s) [ done s' ↦ store_array r s' | spin ↦ spin | panic ↦ panic ]

-- The sizes that the kernel sets up: `2 ^ k` entries, and a mask of `k` ones.
pub record IsValid (k : ℕ) (s : SubmitQueue) : Type 0 where
  pub small : k < 31
  pub mask_ones : s.mask ≡ 2 ^ k - 1
  pub n_entries : length s.entries ≡ 2 ^ k
  pub n_array : length s.array ≡ 2 ^ k
