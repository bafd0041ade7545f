-- ===== src/Lookup.antt =====
-- types.go: EntryBy of CompletionQueue, which looks for an entry and marks it as seen.
pub mod Found
pub mod Total
use iouring_go.Base.{
  ℕ, suc, ◌+◌, Bool, true, false, not, ◌&&◌, ◌||◌, List, [], ◌∷◌, Option, none, some, bit_and,
  bit_or, ◌==◌, ltb, if◌then◌else◌, length, get_elem?, set, take, drop,
}
use iouring_go.Base.Outcome.{Outcome, done, spin, panic}
use iouring_go.Entry.{CompletionEntry, is_zero}
use iouring_go.Queue.{CompletionQueue, cq_seen_flag}

-- `seenIdx`, `seen` and `seenEnd`.
pub record Walk : Type 0 where
  pub idx : ℕ
  pub seen : Bool
  pub seen_end : Bool

-- Read before, or never written.
unfoldable pub is_seen : CompletionEntry → Bool
unfolding is_zero
is_seen cqe = bit_and cqe.flags cq_seen_flag == cq_seen_flag || is_zero cqe

-- The first `if` of a round, and the second one.
abbrev pub noticed : CompletionEntry → Walk → Walk
noticed cqe w =
    if is_seen cqe
    then record w { seen = true }
    else if not w.seen_end
    then record w { seen = false; seen_end = true }
    else w

abbrev pub counted : ℕ → Walk → Walk
counted i w = if w.seen && not w.seen_end then record w { idx = i + 1 } else w

-- A loop from index `i` on: the index of the entry, and `seenIdx`.
unfoldable pub search : ℕ → ℕ → List CompletionEntry → Walk → Option (ℕ × ℕ)
unfolding is_seen
search user_data i [] w = none
search user_data i (cqe ∷ rest) w =
    let w' = counted i (noticed cqe w) in
    if cqe.user_data == user_data then some (i, w'.idx) else search user_data (i + 1) rest w'

abbrev pub marked : CompletionEntry → CompletionEntry
marked cqe = record cqe { flags = bit_or cqe.flags cq_seen_flag }

-- The entry marked, the head set, and the entry returned.
unfoldable pub take_entry :
    ℕ → ℕ → CompletionQueue → Outcome (Option CompletionEntry × CompletionQueue)
take_entry i seen_idx c = elim (get_elem? c.entries i) [
  | none ↦ panic
  | some cqe ↦ done (
    some (marked cqe),
    record c {
      entries = set c.entries i (marked cqe);
      head = if seen_idx == c.size then 0 else seen_idx;
    },
  )
]

-- `EntryBy`; `none` is `ErrEntryNotFound`.
unfoldable pub entry_by : CompletionQueue → ℕ → Outcome (Option CompletionEntry × CompletionQueue)
unfolding search take_entry
entry_by c user_data =
    let head : ℕ = bit_and c.head c.mask in
    let end : ℕ = bit_and c.tail c.mask in
    if head == end
    then done (none, c)
    else elim (search user_data head (drop head c.entries)
        (record { idx = head; seen = false; seen_end = false })) [
          | some (i, seen_idx) ↦ take_entry i seen_idx c
          | none ↦
              elim (search user_data 0 (take (suc end) c.entries)
                (record { idx = 0; seen = false; seen_end = false })) [
                  | some (i, seen_idx) ↦ take_entry i seen_idx c
                  | none ↦ if ltb end (length c.entries) then done (none, c) else panic
                ]
        ]
