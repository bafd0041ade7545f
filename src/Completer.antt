-- ===== src/Completer.antt =====
-- completer.go: the goroutine that moves the head of the completion queue over the entries that
-- have been read, in whatever order they are reported.
pub mod Advance
pub mod Order
pub mod Gap
pub mod Channels
pub mod Catching
use iouring_go.Base.{
  ℕ, zero, suc, ◌+◌, ◌%◌, ◌^◌, Bool, true, false, List, [], ◌∷◌, Option, none, some, bit_and, ◌==◌,
  if◌then◌else◌, length,
}
use iouring_go.Queue.{CompletionQueue}

-- `map[int]struct{}`: the indices that were reported and not passed yet.
unfoldable pub mem : ℕ → List ℕ → Bool
mem id [] = false
mem id (x ∷ xs) = if x == id then true else mem id xs

unfoldable pub delete : ℕ → List ℕ → List ℕ
delete id [] = []
delete id (x ∷ xs) = if x == id then delete id xs else x ∷ delete id xs

-- The map of `run`, and the queue, of which it moves the head.
pub record Completer : Type 0 where
  pub unacked : List ℕ
  pub cq : CompletionQueue

unfoldable pub new_completer : CompletionQueue → Completer
new_completer cq = record { unacked = []; cq = cq }

-- The inner loop, from `seen` on: how far it comes, and what stays in the map. A round is one
-- iteration; `none` means that the rounds ran out.
unfoldable pub move_head : ℕ → ℕ → ℕ → List ℕ → Option (ℕ × List ℕ)
unfolding mem delete
move_head zero cur_head seen unacked = none
move_head (suc rounds) cur_head seen unacked =
    let rest = move_head rounds cur_head (seen + 1) (delete (cur_head + seen) unacked) in
    if mem (cur_head + seen) unacked then rest else some (seen, unacked)

-- `unacked[id] = struct{}{}`, unless it is there.
unfoldable pub add : ℕ → List ℕ → List ℕ
unfolding mem
add id unacked = if mem id unacked then unacked else id ∷ unacked

-- One case `id := <-c.seen` of `run`. A loop over a map of `n` entries ends in `n + 1` rounds.
unfoldable pub on_seen : Completer → ℕ → Option Completer
unfolding move_head add
on_seen c id =
    let unacked : List ℕ = add id c.unacked in
    elim (move_head (length unacked + 1) (bit_and c.cq.head c.cq.mask) 0 unacked) [
      | none ↦ none
      | some (seen, unacked') ↦ some (record {
        unacked = unacked';
        cq = record (c.cq) { head = (c.cq.head + seen % 2 ^ 32) % 2 ^ 32 };
      })
    ]

-- `run` over the ids that arrive until it is stopped.
unfoldable pub run : Completer → List ℕ → Option Completer
unfolding on_seen
run c [] = some c
run c (id ∷ ids) = elim (on_seen c id) [ none ↦ none | some c' ↦ run c' ids ]
