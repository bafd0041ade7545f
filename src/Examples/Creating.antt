-- ===== src/Examples/Creating.antt =====
-- ring.go, New with a debug flag, two ids and an eventfd, over empty queues of two entries.
use iouring_go.Base.{get_elem?, ℕ, ◌≡◌, refl, false, List, [], ◌∷◌, none, some}
use iouring_go.Base.Int.{ℤ, pos}
use iouring_go.Base.Outcome.{done}
use iouring_go.Entry.{SubmitEntry}
use iouring_go.Register.{Call, register_event_fd}
use iouring_go.Setup.{Params, Result, ok, setup, mmap_ring}
use iouring_go.Ring.{Ring}
use iouring_go.Ops
use iouring_go.Ops.Requests.{Request, call, entry_of}
use iouring_go.Ops.Prepare.{slot_of}
use iouring_go.New.{RingOption, with_debug, with_id, with_event_fd, NewRing, Memory, new}
use iouring_go.New.Opening.{last_of, Ends, new-Ends}
use iouring_go.New.First.{IsFresh, new-call}
use iouring_go.New.Use.{Reach, here, later, called, Reach-call}
use iouring_go.Examples.Connecting.{serving, serving-IsHonest}
use iouring_go.Examples.Data.{params, small_sq, small_cq, cqe}
use iouring_go.Examples.Preparing.{small_sq-IsValid}

abbrev accepting : Call → ℕ
accepting c = 0

abbrev nine : ℕ → ℤ → Result ℤ
nine initval flags = ok (pos 9)

abbrev three : ℕ → Params → ℕ × ℕ
three size p = (3, 0)

abbrev sized : ℕ → Params → Params
sized size p = params

abbrev region : ℕ → ℕ → ℕ × ℕ
region len offset = (65536, 0)

abbrev zeroed : Memory
zeroed sl cl = (small_sq, small_cq 0 0 (cqe 0 ∷ cqe 0 ∷ cqe 0 ∷ cqe 0 ∷ []))

zeroed-IsFresh : IsFresh 1 zeroed
zeroed-IsFresh = record { valid = λ sl cl. small_sq-IsValid; empty = λ sl cl. refl }

abbrev options : List RingOption
options = with_debug ∷ with_id 41 ∷ with_event_fd 0 (pos 0) false ∷ with_id 99 ∷ []

new-Ends_example :
    Ends accepting nine three sized region zeroed 2 none options
      (new accepting nine three sized region zeroed 2 none options)
new-Ends_example = new-Ends accepting nine three sized region zeroed 2 none options

created : (n : NewRing) × (new accepting nine three sized region zeroed 2 none options ≡ ok n)
unfolding new setup mmap_ring register_event_fd
created = (_, refl)

-- A first call, then Enter.
called_once : (r' : Ring) × (call 1 Request.nop created.0.ring ≡ done (Ops.ok 100, r'))
unfolding last_of
called_once =
    let (e, r', h, at, ready) =
      new-call accepting nine three sized region zeroed zeroed-IsFresh options 2 none created.0
        Request.nop created.1 tt in
    (r', h)

used : Reach serving created.0.ring 1 called_once.0
used = later here (called 0 Request.nop tt called_once.1)

Reach-call_example :
    (e : SubmitEntry) × (r' : Ring) × (call 1 (Request.close (pos 5)) called_once.0
      ≡ done (Ops.ok 101, r'))
    × (get_elem? r'.sq.entries (slot_of 1 called_once.0)
        ≡ some (entry_of (Request.close (pos 5)) 101 e.anon0))
unfolding last_of
Reach-call_example =
    Reach-call accepting nine three sized region zeroed serving zeroed-IsFresh serving-IsHonest
      options 2 none created.0 1 called_once.0 (Request.close (pos 5)) created.1 used tt
