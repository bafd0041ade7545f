-- ===== src/Completion/Wrap.antt =====
-- ring.go, onEntry on a queue that has wrapped: `seen` is set again before the second loop.
use iouring_go.Base.{
  ℕ, zero, suc, ◌+◌, ◌-◌, ◌%◌, ◌^◌, ◌<◌, ◌≤◌, ◌≡◌, ap, true, false, List, [], ◌∷◌, none, some, take,
  drop, get_elem?, arith, length-take,
}
use iouring_go.Base.Outcome.{done}
use iouring_go.Entry.{CompletionEntry}
use iouring_go.Queue.{CompletionQueue}
use iouring_go.Submit.Slots.{pow-lt}
use iouring_go.Completion.{CompletionRequest, Inflight, find, Scan, visit, scan_all, on_entry}
use iouring_go.Completion.Walk.{answer, scan_all-left, scan_all-given}
use iouring_go.Completion.Delivery.{
  IsValid, head_of, tail_of, Ends, within, around, on_entry-Ends, mod-in,
}
use iouring_go.Completion.Head.{claimed, claimed-le, seen_idx-unseen, seen_idx-claimed}

drop-get :
    (xs : List CompletionEntry) (n : ℕ) {c : CompletionEntry}
    → get_elem? xs n ≡ some c
    → drop n xs ≡ c ∷ drop (suc n) xs
drop-get [] n h = cc
drop-get (x ∷ xs) zero h = ground arith
drop-get (x ∷ xs) (suc n) h = drop-get xs n h

take-get :
    (xs : List CompletionEntry) (n : ℕ) {c : CompletionEntry}
    → 0 < n
    → get_elem? xs 0 ≡ some c
    → take n xs ≡ c ∷ take (n - 1) (drop 1 xs)
take-get [] n p h = cc
take-get (x ∷ xs) zero p h = absurd (omega arith)
take-get (x ∷ xs) (suc n) p h =
    let e : n ≡ suc n - 1 = omega arith in ground (arith, ap (λ (j : ℕ). take j xs) e)

-- A pass that starts with a completion nobody waits for counts nothing, and does not deliver it.
scan_all-gap :
    (cs : List CompletionEntry) (c : CompletionEntry) (w : Scan)
    → find c.user_data w.inflight ≡ none
    → (scan_all (c ∷ cs) w).seen_idx ≡ w.seen_idx
unfolding scan_all visit
scan_all-gap cs c w h = ground (arith, seen_idx-unseen cs (record w { seen = false }))

claimed_pos :
    (m : Inflight) (c : CompletionEntry) (cs : List CompletionEntry) {cr : CompletionRequest}
    → find c.user_data m ≡ some cr
    → 0 < claimed m (c ∷ cs)
unfolding claimed
claimed_pos m c cs h = ground arith

-- On a valid queue that has wrapped, with its tail behind slot 0, where the completion
-- at the head finds no request in flight, and the one in slot 0 does, which none before the wrap
-- answers: onEntry moves the head all the same, past the first one, which is not delivered.
pub on_entry_skips :
    (k : ℕ) (cq : CompletionQueue) (m : Inflight) (c d : CompletionEntry) (cr : CompletionRequest)
    → IsValid k cq
    → tail_of k cq < head_of k cq
    → 0 < tail_of k cq
    → get_elem? cq.entries (head_of k cq) ≡ some c
    → find c.user_data m ≡ none
    → get_elem? cq.entries 0 ≡ some d
    → find d.user_data m ≡ some cr
    → answer d.user_data (drop (head_of k cq) cq.entries) ≡ none
    → (w : Scan) × (n : ℕ) × (on_entry cq m ≡ done (w, record cq { head = (cq.head + n) % 2 ^ 32 }))
      × (0 < n)
      × (n ≤ tail_of k cq)
      × (find c.user_data w.delivered ≡ none)
unfolding find
on_entry_skips k cq m c d cr v wrapped pos at free at' waits later = go (on_entry-Ends v m)
  where
    start : Scan
    start = record { inflight = m; delivered = []; seen_idx = 0; seen = true }

    first : List CompletionEntry
    first = drop (head_of k cq) cq.entries

    second : List CompletionEntry
    second = take (tail_of k cq) cq.entries

    counted :
        (a w : Scan)
        → a ≡ scan_all first start
        → w ≡ scan_all second (record a { seen = true })
        → (0 < w.seen_idx) × (w.seen_idx ≤ tail_of k cq)
    counted a w e e' = ground (
      arith,
      drop-get cq.entries (head_of k cq) at,
      scan_all-gap (drop (suc (head_of k cq)) cq.entries) c start free,
      scan_all-left first start d.user_data,
      seen_idx-claimed second (record a { seen = true }),
      claimed-le a.inflight second,
      length-take (tail_of k cq) cq.entries,
      mod-in v m cq.tail,
      pow-lt k v.small,
      take-get cq.entries (tail_of k cq) pos at',
      claimed_pos a.inflight d (take (tail_of k cq - 1) (drop 1 cq.entries)) {cr = cr},
    )

    undelivered :
        (a w : Scan)
        → a ≡ scan_all first start
        → w ≡ scan_all second (record a { seen = true })
        → find c.user_data w.delivered ≡ none
    undelivered a w e e' = ground (
      arith,
      scan_all-given second (record a { seen = true }) c.user_data,
      scan_all-given first start c.user_data,
      scan_all-left first start c.user_data,
    )

    go :
        Ends k cq m
        → (w : Scan) × (n : ℕ) × (on_entry cq m
            ≡ done (w, record cq { head = (cq.head + n) % 2 ^ 32 }))
          × (0 < n)
          × (n ≤ tail_of k cq)
          × (find c.user_data w.delivered ≡ none)
    go (within w h e r) = absurd (omega arith)
    go (around a w h e e' r) =
        let (p, q) = counted a w e e' in (w, w.seen_idx, r, p, q, undelivered a w e e')
