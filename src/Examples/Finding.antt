-- ===== src/Examples/Finding.antt =====
-- types.go, EntryBy: two entries, of which the second one is asked for.
use iouring_go.Base.{[], ◌∷◌}
use iouring_go.Queue.{CompletionQueue}
use iouring_go.Lookup.Total.{Total}
use iouring_go.Examples.Data.{cqe, small_cq}

abbrev two_in : CompletionQueue
two_in = small_cq 0 2 (record (cqe 7) { flags = 1 } ∷ cqe 8 ∷ cqe 0 ∷ cqe 0 ∷ [])
