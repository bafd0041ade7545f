-- ===== src/Examples/Advancing.antt =====
-- completer.go: three entries, reported in another order and one of them twice.
use iouring_go.Base.{ℕ, ◌≤◌, ◌<◌, ◌≡◌, ◌+◌, ◌-◌, ◌%◌, ◌^◌, refl, [], ◌∷◌, true, List, arith}
use iouring_go.Queue.{CompletionQueue}
use iouring_go.Completer.{mem, run, new_completer}
use iouring_go.Completer.{on_seen}
use iouring_go.Completer.Channels.{Process, Reach, start, here, later, told, took}
use iouring_go.Completer.Catching.{Reach-passed, Reach-catches_up}
use iouring_go.Examples.Data.{cqe, small_cq}

abbrev three_in : CompletionQueue
three_in = small_cq 4 7 (cqe 1 ∷ cqe 2 ∷ cqe 3 ∷ cqe 0 ∷ [])

abbrev reported : List ℕ
reported = 2 ∷ 0 ∷ 2 ∷ 1 ∷ []

-- The same reports, of which run has taken the first three while the last waits, and the channel of 512.
halfway : Process
unfolding start
halfway = record (start three_in) {
  completer = record { unacked = 2 ∷ []; cq = record three_in { head = 5 } };
  seen = 1 ∷ [];
}

halfway_reached : Reach 512 (start three_in) reported halfway
unfolding start new_completer on_seen run mem halfway
halfway_reached =
    let three : Reach 512 (start three_in) (2 ∷ 0 ∷ 2 ∷ [])
        (record (start three_in) { seen = 2 ∷ 0 ∷ 2 ∷ [] }) =
      later (later (later here (told 2 (omega arith))) (told 0 (omega arith)))
        (told 2 (omega arith)) in
    later
      (later (later (later three (took refl refl refl)) (took refl refl refl))
        (took refl refl refl))
      (told 1 (omega arith))

reported-below : (j : ℕ) → mem j reported ≡ true → j < 3
unfolding mem
reported-below j h = ground arith

reported-to : (j : ℕ) → 0 ≤ j → j < 3 → mem j reported ≡ true
unfolding mem
reported-to j a b = ground arith

Reach-passed_example :
    (h : ℕ) × (0 ≤ h)
    × ((j : ℕ) → 0 ≤ j → j < h → mem j reported ≡ true)
    × (halfway.completer.cq.head ≡ (4 + (h - 0)) % 2 ^ 32)
Reach-passed_example =
    Reach-passed 512 2 3 three_in (omega arith) refl (omega arith) (omega arith) reported-below
      halfway_reached

Reach-catches_up_example :
    (q : Process) × Reach 512 halfway [] q × (q.seen ≡ []) × (q.completer.cq.head ≡ 7)
unfolding mem halfway
Reach-catches_up_example =
    Reach-catches_up 512 2 3 3 three_in (omega arith) refl (omega arith) (omega arith)
      reported-below (omega arith) reported-to refl halfway_reached refl
