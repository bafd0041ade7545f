-- ===== src/Completion/Head.antt =====
-- ring.go, onEntry: how far the head of the queue moves.
use iouring_go.Base.{
  ℕ, zero, suc, ◌+◌, ◌-◌, ◌%◌, ◌^◌, ◌<◌, ◌≤◌, ◌≡◌, refl, ap, true, false, List, [], ◌∷◌, none, some,
  length, take, drop, get_elem?, arith, Option-cases, inl, inr, length-take,
}
use iouring_go.Base.Outcome.{done}
use iouring_go.Entry.{CompletionEntry}
use iouring_go.Queue.{CompletionQueue}
use iouring_go.Submit.Slots.{pow-lt}
use iouring_go.Completion.{
  CompletionRequest, Inflight, find, delete, Scan, answered, visit, scan_all, on_entry,
}
use iouring_go.Completion.Walk.{answer, left, find-delete, find-id, scan_all-given}
use iouring_go.Completion.Delivery.{
  IsValid, head_of, tail_of, window, Ends, within, around, on_entry-Ends, mod-in,
}

-- How many completions at the front of a list find their requests in flight.
unfoldable pub claimed : Inflight → List CompletionEntry → ℕ
claimed m [] = 0
claimed m (c ∷ cs) = elim (find c.user_data m) [
  | none ↦ 0
  | some cr ↦ suc (claimed (delete cr.id m) cs)
]

pub claimed-le : (m : Inflight) (cs : List CompletionEntry) → claimed m cs ≤ length cs
unfolding claimed
claimed-le m [] = omega arith
claimed-le m (c ∷ cs) = elim (Option-cases (find c.user_data m)) [
  | inl e ↦ ground arith
  | inr (cr, e) ↦ ground (arith, claimed-le (delete cr.id m) cs)
]

-- Once a completion was passed over, nothing is counted.
pub seen_idx-unseen :
    (cs : List CompletionEntry) (w : Scan) → w.seen ≡ false → (scan_all cs w).seen_idx ≡ w.seen_idx
unfolding scan_all visit
seen_idx-unseen [] w h = refl
seen_idx-unseen (c ∷ cs) w h = ground (arith, seen_idx-unseen cs (visit w c))

pub seen_idx-claimed :
    (cs : List CompletionEntry) (w : Scan)
    → w.seen ≡ true
    → w.seen_idx + length cs < 2 ^ 32
    → (scan_all cs w).seen_idx ≡ w.seen_idx + claimed w.inflight cs
unfolding scan_all visit claimed
seen_idx-claimed [] w h b = omega arith
seen_idx-claimed (c ∷ cs) w h b = elim (Option-cases (find c.user_data w.inflight)) [
  | inl e ↦ ground (arith, seen_idx-unseen cs (visit w c))
  | inr (cr, e) ↦ ground (arith, seen_idx-claimed cs (visit w c))
]

-- A completion that is counted is the first one with its id, and its request is in flight.
claimed-answer :
    (m : Inflight) (cs : List CompletionEntry) (i : ℕ) (c : CompletionEntry)
    → i < claimed m cs
    → get_elem? cs i ≡ some c
    → (cr : CompletionRequest) × (find c.user_data m ≡ some cr) × (answer c.user_data cs ≡ some c)
unfolding claimed
claimed-answer m [] i c h at = absurd (omega arith)
claimed-answer m (d ∷ cs) zero c h at = elim (Option-cases (find d.user_data m)) [
  | inl e ↦ absurd (ground arith)
  | inr (cr, e) ↦ (cr, ground arith, ground arith)
]
claimed-answer m (d ∷ cs) (suc i) c h at = elim (Option-cases (find d.user_data m)) [
  | inl e ↦ absurd (ground arith)
  | inr (cr, e) ↦
      let (cr', f, a) = claimed-answer (delete cr.id m) cs i c (ground arith) at in
      (
        cr',
        ground (arith, find-delete c.user_data cr.id m),
        ground (arith, find-delete c.user_data cr.id m, find-id d.user_data m e),
      )
]

-- The one behind the counted ones has no request in flight by then.
claimed-stops :
    (m : Inflight) (cs : List CompletionEntry) (c : CompletionEntry)
    → get_elem? cs (claimed m cs) ≡ some c
    → left (answer c.user_data (take (claimed m cs) cs)) (find c.user_data m) ≡ none
unfolding claimed
claimed-stops m [] c at = cc
claimed-stops m (d ∷ cs) c at = elim (Option-cases (find d.user_data m)) [
  | inl e ↦ ground arith
  | inr (cr, e) ↦
      let ih = claimed-stops (delete cr.id m) cs c (ground arith) in
      ground (arith, ih, find-delete c.user_data cr.id m, find-id d.user_data m e)
]

-- A call of onEntry on a queue whose tail has not wrapped below its head: the head moves on by the
-- number of completions at the front of the window that are delivered, and stops at the first
-- that waits for no request.
pub record Moves (k : ℕ) (cq : CompletionQueue) (m : Inflight) (w : Scan) (cq' : CompletionQueue)
    : Type 0 where
  pub moved : cq'.head ≡ (cq.head + claimed m (window k cq)) % 2 ^ 32
  pub bounded : claimed m (window k cq) ≤ tail_of k cq + 1 - head_of k cq
  pub passed :
      (i : ℕ) (c : CompletionEntry)
      → i < claimed m (window k cq)
      → get_elem? (window k cq) i ≡ some c
      → (cr : CompletionRequest) × (find c.user_data m ≡ some cr)
        × (find c.user_data w.delivered ≡ some (answered cr c))
  pub stops :
      (c : CompletionEntry)
      → get_elem? (window k cq) (claimed m (window k cq)) ≡ some c
      → left
          (answer c.user_data (take (claimed m (window k cq)) (window k cq)))
          (find c.user_data m)
        ≡ none

module _ {k : ℕ} {cq : CompletionQueue} (v : IsValid k cq) (m : Inflight)
    (flat : head_of k cq ≤ tail_of k cq) where
  window-flat :
      window k cq ≡ take (tail_of k cq + 1 - head_of k cq) (drop (head_of k cq) cq.entries)
  unfolding window
  window-flat = ground arith

  length-window : length (window k cq) ≤ tail_of k cq + 1 - head_of k cq
  length-window = rw window-flat (
      omega (arith, length-take (tail_of k cq + 1 - head_of k cq) (drop (head_of k cq) cq.entries)))

  scan_moved :
      (w : Scan)
      → w
        ≡ scan_all
            (window k cq)
            (record { inflight = m; delivered = []; seen_idx = 0; seen = true })
      → w.seen_idx ≡ claimed m (window k cq)
  scan_moved w e = ground (
    arith,
    seen_idx-claimed (window k cq)
        (record { inflight = m; delivered = []; seen_idx = 0; seen = true }),
    length-window,
    mod-in v m cq.tail,
    pow-lt k v.small,
  )

  Ends-Moves :
      Ends k cq m
      → (w : Scan) × (cq' : CompletionQueue) × (on_entry cq m ≡ done (w, cq')) × Moves k cq m w cq'
  unfolding find
  Ends-Moves (around a w h e e' r) = absurd (omega arith)
  Ends-Moves (within w h e r) = (
    w,
    record cq { head = (cq.head + w.seen_idx) % 2 ^ 32 },
    r,
    record {
      moved = ap (λ (n : ℕ). (cq.head + n) % 2 ^ 32) (scan_moved w e);
      bounded = omega (arith, claimed-le m (window k cq), length-window);
      passed = λ i c h at.
          let (cr, f, a) = claimed-answer m (window k cq) i c h at in
          (cr, f, rw e (scan_given cr f a));
      stops = claimed-stops m (window k cq);
    },
  )
    where
      scan_given :
          {c : CompletionEntry} (cr : CompletionRequest)
          → find c.user_data m ≡ some cr
          → answer c.user_data (window k cq) ≡ some c
          → find c.user_data
              (scan_all
                (window k cq)
                (record { inflight = m; delivered = []; seen_idx = 0; seen = true })).delivered
            ≡ some (answered cr c)
      scan_given {c} cr f a = ground (
        arith,
        scan_all-given (window k cq)
            (record { inflight = m; delivered = []; seen_idx = 0; seen = true }) c.user_data,
      )

-- On a valid queue whose tail has not wrapped below its head, onEntry moves the head over the
-- completions at the front of the window that it delivers, over all of them, and over no others.
pub on_entry-Moves :
    (k : ℕ) (cq : CompletionQueue) (m : Inflight)
    → IsValid k cq
    → head_of k cq ≤ tail_of k cq
    → (w : Scan) × (cq' : CompletionQueue) × (on_entry cq m ≡ done (w, cq')) × Moves k cq m w cq'
on_entry-Moves k cq m v flat = Ends-Moves v m flat (on_entry-Ends v m)
