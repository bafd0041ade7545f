-- ===== src/Ops.antt =====
-- ops.go: what the Prepare functions share.
pub mod Prepare
pub mod Files
pub mod Net
pub mod Misc
pub mod Requests
pub mod Encoding
pub mod Published
pub mod Batch
pub mod Calls
pub mod Waiting
pub mod Decoding
use iouring_go.Base.{
  ℕ, zero, suc, ◌+◌, ◌%◌, ◌^◌, List, [], ◌∷◌, ◌++◌, Option, none, some, ◌==◌, if◌then◌else◌,
  get_elem?, set, replicate, ◌/◌,
}
use iouring_go.Base.Int.{ℤ, pos, negsuc, to_u32, to_u64, to_i32}
use iouring_go.Base.Outcome.{Outcome, M, done, spin, panic, pure, ◌>>=◌, ◌>>◌}
use iouring_go.Entry.{SubmitEntry, Opcode}
use iouring_go.Queue.{SubmitQueue}
use iouring_go.Submit.{Reservation, submit_entry, commit}
use iouring_go.Ring.{Ring, on_sq, next_id}

-- What a Prepare function returns: the id, or `errRingUnavailable`.
pub data Prepared : Type 0 where
  ok : ℕ → Prepared
  ring_unavailable : Prepared

-- A slice or a string: the address of its first element and its length.
pub record Bytes : Type 0 where
  pub addr : ℕ
  pub len : ℕ

-- A pointer variable: its own address, and the address that it holds (0 for nil).
pub record PointerVar : Type 0 where
  pub at : ℕ
  pub value : ℕ

-- The assignments of a Prepare function to its entry, given the id; an index may panic.
abbrev pub Fill : Type 0
Fill = ℕ → SubmitEntry → Outcome SubmitEntry

-- `&b[0]` panics on an empty slice.
abbrev pub first : {A : Type 0} → Bytes → (ℕ → Outcome A) → Outcome A
first b k = if b.len == 0 then panic else k b.addr

-- The assignments through the pointer to the entry.
unfoldable pub store : Reservation → Fill → ℕ → M SubmitQueue (Unit {0})
store s fill id sq = elim (get_elem? sq.entries s.slot) [
  | none ↦ panic
  | some e ↦ elim (fill id e) [
    | done e' ↦ done (tt, record sq { entries = set sq.entries s.slot e' })
    | spin ↦ spin
    | panic ↦ panic
  ]
]

-- `return sqe.UserData, nil`
unfoldable pub user_data_at : Reservation → M SubmitQueue ℕ
user_data_at s sq = elim (get_elem? sq.entries s.slot) [
  | none ↦ panic
  | some e ↦ done (e.user_data, sq)
]

-- What every Prepare function does: an entry, an id, the assignments, the callback, the id again
-- from the entry.
fill_in : Fill → Option Reservation → M Ring Prepared
unfolding store user_data_at
fill_in fill none = pure ring_unavailable
fill_in fill (some s) = do
  id ← next_id
  on_sq (store s fill id)
  on_sq (commit s)
  got ← on_sq (user_data_at s)
  pure (ok got)

unfoldable pub prepare : ℕ → Fill → M Ring Prepared
unfolding fill_in
prepare fuel fill = do sqe ← on_sq (submit_entry fuel); fill_in fill sqe
