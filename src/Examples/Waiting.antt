-- ===== src/Examples/Waiting.antt =====
-- ops.go: calls that wait for their completion, at the ring of Data.
use iouring_go.Base.{ℕ, ◌≡◌, some, get_elem?, arith}
use iouring_go.Base.Int.{ℤ, pos, negsuc}
use iouring_go.Base.Outcome.{done}
use iouring_go.Entry.{SubmitEntry}
use iouring_go.Ops.Calls.{Finished}
use iouring_go.Ops.Requests.{Request, entry_of}
use iouring_go.Ops.Prepare.{after}
use iouring_go.Ops.Waiting.{Waited, perform, Reports, perform-Reports}
use iouring_go.Examples.Data.{small_ring, small_sq}
use iouring_go.Examples.Preparing.{small_ring-IsReady}

-- EBADF for the first request.
abbrev bad_file : ℕ → ℤ × ℕ
bad_file id = (negsuc 8, 0)

perform-Reports_example :
    (e : SubmitEntry) × (f : Finished) × (perform bad_file 1 (Waited.close (pos 5)) small_ring
      ≡ done (f, after 1 small_ring (entry_of (Request.close (pos 5)) 1 e.anon0)))
    × (get_elem? small_sq.entries 0 ≡ some e)
    × Reports (negsuc 8) f
perform-Reports_example =
    perform-Reports bad_file 1 0 small_ring (Waited.close (pos 5)) small_ring-IsReady tt
      (λ n e. ground arith)
