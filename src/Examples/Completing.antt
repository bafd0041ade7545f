-- ===== src/Examples/Completing.antt =====
-- onEntry of ring.go at queues of four entries.
use iouring_go.Base.{ℕ, ◌+◌, ◌%◌, ◌^◌, ◌<◌, ◌≤◌, ◌≡◌, refl, [], ◌∷◌, none, false, arith}
use iouring_go.Base.Int.{pos}
use iouring_go.Base.Outcome.{done}
use iouring_go.Queue.{CompletionQueue}
use iouring_go.Completion.{CompletionRequest, Inflight, Scan, find, visit, on_entry}
use iouring_go.Completion.Delivery.{IsValid, Delivers, on_entry-Delivers}
use iouring_go.Completion.Head.{Moves, on_entry-Moves}
use iouring_go.Completion.Wrap.{on_entry_skips}
use iouring_go.Examples.Data.{cqe, small_cq}

abbrev waiting : ℕ → CompletionRequest
waiting id = record { id = id; res = pos 0; flags = 0 }

-- Completions 7 and 9, of which 9 is not waited for; 8 is.
abbrev two_in : CompletionQueue
two_in = small_cq 4 6 (cqe 7 ∷ cqe 9 ∷ cqe 0 ∷ cqe 0 ∷ [])

abbrev waits : Inflight
waits = waiting 7 ∷ waiting 8 ∷ []

-- The head stands in the last slot; behind the wrap stands completion 7.
abbrev wrapped_in : CompletionQueue
wrapped_in = small_cq 3 5 (cqe 7 ∷ cqe 0 ∷ cqe 0 ∷ cqe 9 ∷ [])

two_in-IsValid : IsValid 2 two_in
two_in-IsValid = record { small = omega arith; mask_ones = refl; n_entries = refl }

wrapped_in-IsValid : IsValid 2 wrapped_in
wrapped_in-IsValid = record { small = omega arith; mask_ones = refl; n_entries = refl }

on_entry_run :
    on_entry two_in waits
    ≡ done (
      record {
        inflight = waiting 8 ∷ [];
        delivered = record { id = 7; res = pos 8; flags = 0 } ∷ [];
        seen_idx = 1;
        seen = false;
      },
      record two_in { head = 5 },
    )
unfolding on_entry visit
on_entry_run = refl

on_entry-Delivers_example :
    (w : Scan) × (cq' : CompletionQueue) × (on_entry two_in waits ≡ done (w, cq'))
    × Delivers 2 two_in waits w cq'
on_entry-Delivers_example = on_entry-Delivers 2 two_in waits two_in-IsValid

on_entry-Moves_example :
    (w : Scan) × (cq' : CompletionQueue) × (on_entry two_in waits ≡ done (w, cq'))
    × Moves 2 two_in waits w cq'
on_entry-Moves_example = on_entry-Moves 2 two_in waits two_in-IsValid (omega arith)

on_entry_skips_example :
    (w : Scan) × (n : ℕ) × (on_entry wrapped_in waits
      ≡ done (w, record wrapped_in { head = (3 + n) % 2 ^ 32 }))
    × (0 < n)
    × (n ≤ 1)
    × (find 9 w.delivered ≡ none)
unfolding find
on_entry_skips_example =
    on_entry_skips 2 wrapped_in waits (cqe 9) (cqe 7) (waiting 7) wrapped_in-IsValid (omega arith)
      (omega arith) refl refl refl refl refl
