-- ===== src/Queue.antt =====
-- types.go: SubmitQueue and CompletionQueue with their methods. The memory that the program shares
-- with the kernel is held by value, and `*uint32` fields by the number that they point to.
use iouring_go.Base.{
  ℕ, zero, suc, ◌+◌, ◌-◌, ◌%◌, ◌^◌, Bool, not, ◌&&◌, List, [], ◌∷◌, bit_and, ◌==◌, if◌then◌else◌,
}
use iouring_go.Base.Outcome.{Outcome, done, spin, panic}
use iouring_go.Entry
use iouring_go.Entry.{SubmitEntry, CompletionEntry}

pub record SubmitQueue : Type 0 where
  pub size : ℕ
  pub head : ℕ
  pub tail : ℕ
  pub mask : ℕ
  pub flags : ℕ
  pub dropped : ℕ
  pub array : List ℕ
  pub entries : List SubmitEntry
  pub entered : ℕ
  pub writes : ℕ

pub record CompletionQueue : Type 0 where
  pub size : ℕ
  pub head : ℕ
  pub tail : ℕ
  pub mask : ℕ
  pub overflow : ℕ
  pub flags : ℕ
  pub entries : List CompletionEntry

abbrev pub sq_need_wakeup : ℕ
sq_need_wakeup = 1

abbrev pub sq_cq_overflow : ℕ
sq_cq_overflow = 2

abbrev pub cq_seen_flag : ℕ
cq_seen_flag = 1

-- `(*SubmitQueue).Reset`: the range variable is a copy of the entry, and only the copy is reset.
reset_from : List SubmitEntry → SubmitQueue → SubmitQueue
reset_from [] s = s
reset_from (entry ∷ rest) s = let entry' = Entry.reset entry in reset_from rest s

unfoldable pub reset : SubmitQueue → SubmitQueue
unfolding reset_from
reset s = reset_from s.entries s

unfoldable pub need_wakeup : SubmitQueue → Bool
need_wakeup s = not (bit_and s.flags sq_need_wakeup == 0)

-- `enterLock`: one round of the loop is a step, at most `fuel` of them are run.
unfoldable pub enter_lock : ℕ → SubmitQueue → Outcome SubmitQueue
enter_lock zero s = spin
enter_lock (suc fuel) s =
    let again = enter_lock fuel s in
    if not (s.writes == 0) && s.entered == 1
    then again
    else if s.entered == 0
    then done (record s { entered = 1 })
    else again

unfoldable pub enter_unlock : SubmitQueue → SubmitQueue
enter_unlock s = record s { entered = 0 }

-- `completeWrite`, with no other thread between the load and the exchange.
unfoldable pub complete_write : SubmitQueue → Outcome SubmitQueue
complete_write s = if s.writes == 0 then panic else done (record s { writes = s.writes - 1 })

-- `(*CompletionQueue).Advance`
unfoldable pub advance : CompletionQueue → ℕ → CompletionQueue
advance c count = record c { head = (c.head + count % 2 ^ 32) % 2 ^ 32 }
