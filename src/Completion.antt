-- ===== src/Completion.antt =====
-- ring.go: onEntry, which hands the completions in the queue to the requests that wait for them;
-- types.go: completionRequest.
pub mod Walk
pub mod Delivery
pub mod Head
pub mod Wrap
use iouring_go.Base.{
  ℕ, zero, suc, ◌+◌, ◌%◌, ◌^◌, Bool, true, false, List, [], ◌∷◌, ◌++◌, Option, none, some, bit_and,
  ◌==◌, ltb, if◌then◌else◌, length, take, drop,
}
use iouring_go.Base.Int.{ℤ}
use iouring_go.Base.Outcome.{Outcome, done, spin, panic}
use iouring_go.Entry.{CompletionEntry}
use iouring_go.Queue.{CompletionQueue}

-- `completionRequest`; what goes through its channel is in `Scan.delivered`.
pub record CompletionRequest : Type 0 where
  pub id : ℕ
  pub res : ℤ
  pub flags : ℕ

-- `map[uint64]*completionRequest`: each request stands under its id.
abbrev pub Inflight : Type 0
Inflight = List CompletionRequest

unfoldable pub find : ℕ → Inflight → Option CompletionRequest
find id [] = none
find id (cr ∷ m) = if cr.id == id then some cr else find id m

unfoldable pub delete : ℕ → Inflight → Inflight
delete id [] = []
delete id (cr ∷ m) = if cr.id == id then delete id m else cr ∷ delete id m

-- `inflight[cr.id] = cr`
unfoldable pub put : CompletionRequest → Inflight → Inflight
unfolding delete
put cr m = cr ∷ delete cr.id m

-- The variables of onEntry, with the requests that were signalled, oldest first.
pub record Scan : Type 0 where
  pub inflight : Inflight
  pub delivered : List CompletionRequest
  pub seen_idx : ℕ
  pub seen : Bool

abbrev pub answered : CompletionRequest → CompletionEntry → CompletionRequest
answered cr cqe = record cr { res = cqe.res; flags = cqe.flags }

-- The common part of both loops: `cqe` is handed to its request, if there is one.
unfoldable pub visit : Scan → CompletionEntry → Scan
unfolding find delete
visit w cqe = elim (find cqe.user_data w.inflight) [
  | none ↦ record w { seen = false }
  | some cr ↦ record {
    inflight = delete cr.id w.inflight;
    delivered = w.delivered ++ answered cr cqe ∷ [];
    seen_idx = if w.seen then (w.seen_idx + 1) % 2 ^ 32 else w.seen_idx;
    seen = w.seen;
  }
]

-- The first loop from index `i` on; the flag says that it returned at index `stop`.
unfoldable pub scan_to : ℕ → ℕ → List CompletionEntry → Scan → Scan × Bool
scan_to stop i [] w = (w, false)
scan_to stop i (cqe ∷ rest) w =
    if i == stop then (visit w cqe, true) else scan_to stop (suc i) rest (visit w cqe)

-- The second loop.
unfoldable pub scan_all : List CompletionEntry → Scan → Scan
scan_all [] w = w
scan_all (cqe ∷ rest) w = scan_all rest (visit w cqe)

-- `onEntry`: what is still in flight, what was delivered, and the queue with its new head.
unfoldable pub on_entry : CompletionQueue → Inflight → Outcome (Scan × CompletionQueue)
unfolding scan_to scan_all
on_entry cq inflight =
    let start : Scan = record { inflight = inflight; delivered = []; seen_idx = 0; seen = true } in
    let end : ℕ = bit_and cq.tail cq.mask in
    let (w, returned) =
      scan_to end (bit_and cq.head cq.mask) (drop (bit_and cq.head cq.mask) cq.entries) start in
    let w' : Scan = scan_all (take end cq.entries) (record w { seen = true }) in
    if returned
    then done (w, record cq { head = (cq.head + w.seen_idx) % 2 ^ 32 })
    else if ltb (length cq.entries) end
    then panic
    else done (w', record cq { head = (cq.head + w'.seen_idx) % 2 ^ 32 })
