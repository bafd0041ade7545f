-- ===== src/Examples/Preparing.antt =====
-- ops.go and SubmitEntry of ring.go at the ring of Data.
use iouring_go.Base.{◌+◌, ◌<◌, ◌∷◌, ℕ, List, ◌≡◌, refl, [], some, arith}
use iouring_go.Base.Int.{pos}
use iouring_go.Base.Outcome.{done}
use iouring_go.Submit.{Reservation, submit_entry}
use iouring_go.Submit.{IsValid}
use iouring_go.Submit.Slots.{Reserves, submit_entry-Reserves}
use iouring_go.Queue.{SubmitQueue}
use iouring_go.Ring.{Ring}
use iouring_go.Ops.{ok, Bytes}
use iouring_go.Ops.Requests.{Request, call, entry_of}
use iouring_go.Ops.Prepare.{IsReady, after}
use iouring_go.Ops.Encoding.{call-after}
use iouring_go.Ops.Published.{sqe_at}
use iouring_go.Ops.Batch.{calls, ids_from, AllHaveBytes, calls_repeat}
use iouring_go.Examples.Data.{blank, small_sq, small_ring}

abbrev pub buffer : Bytes
buffer = record { addr = 4096; len = 16 }

pub small_sq-IsValid : IsValid 1 small_sq
small_sq-IsValid = record {
  small = omega arith;
  mask_ones = refl;
  n_entries = refl;
  n_array = refl;
}

pub small_ring-IsReady : IsReady 1 small_ring
small_ring-IsReady = record { valid = small_sq-IsValid; free = refl; room = omega arith }

submit_entry-Reserves_example :
    (r : Reservation) × (s' : SubmitQueue) × (submit_entry 3 small_sq ≡ done (some r, s'))
    × Reserves 1 small_sq r s'
submit_entry-Reserves_example = submit_entry-Reserves 1 2 small_sq small_sq-IsValid refl

call-after_example :
    call 1 (Request.write (pos 5) buffer 0 0) small_ring
    ≡ done (ok 1, after 1 small_ring (entry_of (Request.write (pos 5) buffer 0 0) 1 []))
call-after_example =
    call-after small_ring-IsReady 0 (Request.write (pos 5) buffer 0 0) {e = blank} (omega arith)
      refl

closed-AllHaveBytes : AllHaveBytes (Request.close (pos 5) ∷ [])
unfolding AllHaveBytes
closed-AllHaveBytes = (tt, tt)

calls_repeat_example :
    (anon : List ℕ) × (r' : Ring) × (calls 1 (Request.nop ∷ Request.close (pos 5) ∷ []) small_ring
      ≡ done (ids_from 0 (Request.nop ∷ Request.close (pos 5) ∷ []), r'))
    × ((j : ℕ) → j < 2 → sqe_at 1 r'.sq (0 + j) ≡ some (entry_of Request.nop 1 anon))
calls_repeat_example =
    calls_repeat 1 0 small_ring Request.nop (Request.close (pos 5) ∷ []) small_ring-IsReady tt
      closed-AllHaveBytes (omega arith) refl
