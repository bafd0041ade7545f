-- ===== src/Examples/Looping.antt =====
-- run of ring.go: requests that the kernel does not complete at once.
use iouring_go.Base.{◌≤◌, ℕ, ◌≡◌, refl, true, false, [], ◌∷◌, arith}
use iouring_go.Base.Int.{pos}
use iouring_go.Base.Outcome.{done}
use iouring_go.Queue.{enter_lock}
use iouring_go.Ring.{Ring, enter}
use iouring_go.Completion.{CompletionRequest, find, delete, put, visit, scan_to, on_entry}
use iouring_go.Completion.Delivery.{IsValid, window}
use iouring_go.Run.{
  Loop, start, request_for, hand_out, send_retry, enter_for, take_in, on_request, Reach, changed,
  requested, here, later,
}
use iouring_go.Run.Tokens.{Stuck, Reach-retry, request_blocks}
use iouring_go.Run.Served.{Serves, Signalled, call-Signalled}
use iouring_go.Ops.{ok}
use iouring_go.Ops.Requests.{Request, call}
use iouring_go.Examples.Preparing.{small_ring-IsReady}
use iouring_go.Examples.Connecting.{serving}
use iouring_go.Run.Pending.{Keeps, Known, request-Known}
use iouring_go.Examples.Data.{cqe, small_cq, small_ring}
use iouring_go.Examples.Entering.{taking}

abbrev at : ℕ → CompletionRequest
at id = record { id = id; res = pos 0; flags = 0 }

-- One, two and three requests in flight.
abbrev one_out : Loop
one_out = record {
  ring = small_ring;
  inflight = at 1 ∷ [];
  delivered = [];
  errors = [];
  retry = 1;
  blocked = false;
  running = true;
}

abbrev two_out : Loop
two_out = record one_out { inflight = at 2 ∷ at 1 ∷ []; retry = 2 }

abbrev three_out : Loop
three_out = record two_out { inflight = at 3 ∷ at 2 ∷ at 1 ∷ []; blocked = true }

first_request : on_request taking 1 (request_for 1) (start small_ring) ≡ done one_out
unfolding on_request take_in enter_for hand_out send_retry request_for start enter enter_lock
    on_entry put find delete visit scan_to
first_request = refl

second_request : on_request taking 1 (request_for 2) one_out ≡ done two_out
unfolding on_request take_in enter_for hand_out send_retry request_for start enter enter_lock
    on_entry put find delete visit scan_to
second_request = refl

third_request : on_request taking 1 (request_for 3) two_out ≡ done three_out
unfolding on_request take_in enter_for hand_out send_retry request_for start enter enter_lock
    on_entry put find delete visit scan_to
third_request = refl

small-IsValid : IsValid 2 small_ring.cq
small-IsValid = record { small = omega arith; mask_ones = refl; n_entries = refl }

taking-Keeps : Keeps 2 taking
taking-Keeps c sq cq v = v

-- The kernel has completed the first request.
abbrev completed_ring : Ring
completed_ring = record small_ring { cq = small_cq 0 1 (cqe 1 ∷ cqe 0 ∷ cqe 0 ∷ cqe 0 ∷ []) }

completed-IsValid : IsValid 2 completed_ring.cq
completed-IsValid = record { small = omega arith; mask_ones = refl; n_entries = refl }

to_two : Reach taking 1 2 (start small_ring) two_out
unfolding start
to_two =
    later (later here (requested (request_for 1) refl refl first_request))
      (requested (request_for 2) refl refl second_request)

Reach-retry_example : (1 ≤ two_out.retry) × (two_out.retry ≤ 2)
Reach-retry_example = Reach-retry taking 1 2 small_ring two_out to_two refl (omega arith)

request_blocks_example : Stuck three_out (record three_out { ring = completed_ring })
request_blocks_example =
    request_blocks taking 1 2 (request_for 3) two_out three_out
      (record three_out { ring = completed_ring }) refl third_request (omega arith)
      (later here (changed completed_ring completed-IsValid))

request-Known_example : Known 2 two_out
unfolding request_for
request-Known_example =
    request-Known taking 1 2 (request_for 2) one_out two_out two_out taking-Keeps small-IsValid
      second_request here

-- A kernel that completes the request 1 when it is entered.
served-Serves : Serves serving 1 2 (Request.fsync (pos 5) (pos 0)) 1 (cqe 1)
unfolding window
served-Serves e sq cq anon found =
    (record { small = omega arith; mask_ones = refl; n_entries = refl }, refl)

call-Signalled_example :
    (id : ℕ) × (r : Ring) × (l' : Loop) × (call 1 (Request.fsync (pos 5) (pos 0)) small_ring
      ≡ done (ok id, r))
    × (on_request serving 1 (request_for id) (record (start small_ring) { ring = r }) ≡ done l')
    × Signalled id (cqe 1) l'
unfolding start find
call-Signalled_example =
    call-Signalled serving 1 2 0 (start small_ring) (Request.fsync (pos 5) (pos 0)) (cqe 1)
      small_ring-IsReady tt refl refl served-Serves
