-- ===== src/Completion/Delivery.antt =====
-- ring.go, onEntry: every request in flight whose completion is in the window is answered.
use iouring_go.Base.{
  ℕ, zero, suc, ◌+◌, ◌-◌, ◌%◌, ◌^◌, ◌<◌, ◌≤◌, ◌≡◌, refl, true, false, List, [], ◌∷◌, ◌++◌, Option,
  leb, if◌then◌else◌, length, take, drop, arith, Bool-cases, inl, inr, bit_and, length-drop,
}
use native.Mathlib.Nat.{mod-lt}
use iouring_go.Base.Bits.{bit_and_mask, pow-pos}
use iouring_go.Base.Outcome.{done}
use iouring_go.Entry.{CompletionEntry}
use iouring_go.Queue.{CompletionQueue}
use iouring_go.Completion.{
  CompletionRequest, Inflight, find, Scan, visit, scan_to, scan_all, on_entry,
}
use iouring_go.Completion.Walk.{answer, left, given, or_else, scan_all-left, scan_all-given}

-- The sizes that the kernel sets up: `2 ^ k` entries, and a mask of `k` ones.
pub record IsValid (k : ℕ) (cq : CompletionQueue) : Type 0 where
  pub small : k < 31
  pub mask_ones : cq.mask ≡ 2 ^ k - 1
  pub n_entries : length cq.entries ≡ 2 ^ k

abbrev pub head_of : ℕ → CompletionQueue → ℕ
head_of k cq = cq.head % 2 ^ k

abbrev pub tail_of : ℕ → CompletionQueue → ℕ
tail_of k cq = cq.tail % 2 ^ k

-- What onEntry looks at: from the head up to and with the slot of the tail; when the tail stands
-- below the head, to the end and then up to the tail.
unfoldable pub window : ℕ → CompletionQueue → List CompletionEntry
window k cq =
    if leb (head_of k cq) (tail_of k cq)
    then take (tail_of k cq + 1 - head_of k cq) (drop (head_of k cq) cq.entries)
    else drop (head_of k cq) cq.entries ++ take (tail_of k cq) cq.entries

-- The first loop returns at its last index if that is in the list, and else runs through.
scan_to-within :
    (stop i d : ℕ) (cs : List CompletionEntry) (w : Scan)
    → stop ≡ i + d
    → d < length cs
    → scan_to stop i cs w ≡ (scan_all (take (suc d) cs) w, true)
unfolding scan_to scan_all
scan_to-within stop i d [] w e h = absurd (omega arith)
scan_to-within stop i zero (c ∷ cs) w e h = ground arith
scan_to-within stop i (suc d) (c ∷ cs) w e h =
    ground (arith, scan_to-within stop (suc i) d cs (visit w c))

scan_to-through :
    (stop i : ℕ) (cs : List CompletionEntry) (w : Scan)
    → stop < i
    → scan_to stop i cs w ≡ (scan_all cs w, false)
unfolding scan_to scan_all
scan_to-through stop i [] w h = refl
scan_to-through stop i (c ∷ cs) w h = ground (arith, scan_to-through stop (suc i) cs (visit w c))

answer-append :
    (id : ℕ) (xs ys : List CompletionEntry) (o : Option CompletionRequest)
    → left (answer id (xs ++ ys)) o ≡ left (answer id ys) (left (answer id xs) o)
answer-append id [] ys o = refl
answer-append id (c ∷ xs) ys o = ground (arith, answer-append id xs ys o)

given-append :
    (id : ℕ) (xs ys : List CompletionEntry) (o : Option CompletionRequest)
    → given (answer id (xs ++ ys)) o
      ≡ or_else (given (answer id xs) o) (given (answer id ys) (left (answer id xs) o))
given-append id [] ys o = refl
given-append id (c ∷ xs) ys o = ground (arith, given-append id xs ys o)

sub_suc : (t h : ℕ) → h ≤ t → suc (t - h) ≡ t + 1 - h
sub_suc t h p = omega arith

-- How a call of onEntry ends, in terms of passes over lists.
pub data Ends (k : ℕ) (cq : CompletionQueue) (m : Inflight) : Type 0 where
  within :
      (w : Scan)
      → head_of k cq ≤ tail_of k cq
      → w
        ≡ scan_all
            (window k cq)
            (record { inflight = m; delivered = []; seen_idx = 0; seen = true })
      → on_entry cq m ≡ done (w, record cq { head = (cq.head + w.seen_idx) % 2 ^ 32 })
      → Ends k cq m
  around :
      (v w : Scan)
      → tail_of k cq < head_of k cq
      → v
        ≡ scan_all
            (drop (head_of k cq) cq.entries)
            (record { inflight = m; delivered = []; seen_idx = 0; seen = true })
      → w ≡ scan_all (take (tail_of k cq) cq.entries) (record v { seen = true })
      → on_entry cq m ≡ done (w, record cq { head = (cq.head + w.seen_idx) % 2 ^ 32 })
      → Ends k cq m

module _ {k : ℕ} {cq : CompletionQueue} (v : IsValid k cq) (m : Inflight) where
  start : Scan
  start = record { inflight = m; delivered = []; seen_idx = 0; seen = true }

  mask-mod : (a : ℕ) → bit_and a cq.mask ≡ a % 2 ^ k
  mask-mod a = rw (v.mask_ones) (bit_and_mask k a)

  pub mod-in : (a : ℕ) → a % 2 ^ k < 2 ^ k
  mod-in a = mod-lt a (pow-pos k)

  pub on_entry-Ends : Ends k cq m
  unfolding start on_entry window
  on_entry-Ends = elim (Bool-cases (leb (head_of k cq) (tail_of k cq))) [
    | inl e ↦ within _ (ground arith) refl (
        ground (
          arith,
          mask-mod cq.head,
          mask-mod cq.tail,
          scan_to-within (tail_of k cq) (head_of k cq) (tail_of k cq - head_of k cq)
              (drop (head_of k cq) cq.entries) start,
          v.n_entries,
          mod-in cq.tail,
          length-drop (head_of k cq) cq.entries,
          sub_suc (tail_of k cq) (head_of k cq),
        ))
    | inr e ↦ around _ _ (ground arith) refl refl (
        ground (
          arith,
          mask-mod cq.head,
          mask-mod cq.tail,
          scan_to-through (tail_of k cq) (head_of k cq) (drop (head_of k cq) cq.entries) start,
          v.n_entries,
          mod-in cq.tail,
        ))
  ]

-- What a call of onEntry does with the requests: each one in flight whose id a completion of the
-- window carries gets the result and the flags of the first such completion, and is not in flight
-- any more; each other one stays as it is; nothing else is delivered.
pub record Delivers (k : ℕ) (cq : CompletionQueue) (m : Inflight) (w : Scan) (cq' : CompletionQueue)
    : Type 0 where
  pub still : (id : ℕ) → find id w.inflight ≡ left (answer id (window k cq)) (find id m)
  pub got : (id : ℕ) → find id w.delivered ≡ given (answer id (window k cq)) (find id m)
  pub entries_kept : cq'.entries ≡ cq.entries
  pub tail_kept : cq'.tail ≡ cq.tail
  pub mask_kept : cq'.mask ≡ cq.mask

module _ {k : ℕ} {cq : CompletionQueue} (v : IsValid k cq) (m : Inflight) where
  window-around :
      tail_of k cq < head_of k cq
      → window k cq ≡ drop (head_of k cq) cq.entries ++ take (tail_of k cq) cq.entries
  unfolding window
  window-around h = ground arith

  around-still :
      (a : Scan) (w : Scan) (id : ℕ) (xs ys : List CompletionEntry)
      → a ≡ scan_all xs (record { inflight = m; delivered = []; seen_idx = 0; seen = true })
      → w ≡ scan_all ys (record a { seen = true })
      → (find id w.inflight ≡ left (answer id (xs ++ ys)) (find id m))
        × (find id w.delivered ≡ given (answer id (xs ++ ys)) (find id m))
  unfolding find
  around-still a w id xs ys e e' = ground (
    arith,
    answer-append id xs ys (find id m),
    given-append id xs ys (find id m),
    scan_all-left ys (record a { seen = true }) id,
    scan_all-given ys (record a { seen = true }) id,
    scan_all-left xs (record { inflight = m; delivered = []; seen_idx = 0; seen = true }) id,
    scan_all-given xs (record { inflight = m; delivered = []; seen_idx = 0; seen = true }) id,
  )

  Ends-Delivers :
      Ends k cq m
      → (w : Scan) × (cq' : CompletionQueue) × (on_entry cq m ≡ done (w, cq'))
        × Delivers k cq m w cq'
  unfolding find
  Ends-Delivers (within w h e r) = (
    w,
    _,
    r,
    record {
      still = λ id. ground (
        arith,
        scan_all-left (window k cq)
            (record { inflight = m; delivered = []; seen_idx = 0; seen = true }) id,
      );
      got = λ id. ground (
        arith,
        scan_all-given (window k cq)
            (record { inflight = m; delivered = []; seen_idx = 0; seen = true }) id,
      );
      entries_kept = refl;
      tail_kept = refl;
      mask_kept = refl;
    },
  )
  Ends-Delivers (around a w h e e' r) = (
    w,
    _,
    r,
    record {
      still = λ id. rw (window-around h) (
          (around-still a w id (drop (head_of k cq) cq.entries) (take (tail_of k cq) cq.entries) e
            e').0);
      got = λ id. rw (window-around h) (
          (around-still a w id (drop (head_of k cq) cq.entries) (take (tail_of k cq) cq.entries) e
            e').1);
      entries_kept = refl;
      tail_kept = refl;
      mask_kept = refl;
    },
  )

-- On a valid queue a call of onEntry ends, without a panic: each request in flight whose id a
-- completion of the window carries gets the result and the flags of the first such completion, and
-- is taken out of the map; every other request stays, and nothing else is delivered; the entries,
-- the tail and the mask of the queue stay as they are.
pub on_entry-Delivers :
    (k : ℕ) (cq : CompletionQueue) (m : Inflight)
    → IsValid k cq
    → (w : Scan) × (cq' : CompletionQueue) × (on_entry cq m ≡ done (w, cq')) × Delivers k cq m w cq'
on_entry-Delivers k cq m v = Ends-Delivers v m (on_entry-Ends v m)
