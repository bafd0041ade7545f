-- ===== src/Completer/Gap.antt =====
-- completer.go: the head stops at the first entry that is not reported.
use iouring_go.Base.{
  ℕ, ◌+◌, ◌-◌, ◌%◌, ◌^◌, ◌<◌, ◌≤◌, ◌≡◌, ◌∙◌, sym, Bool, true, false, List, some, arith,
}
use native.Mathlib.Decide.{dec_lt}
use iouring_go.Queue.{CompletionQueue}
use iouring_go.Completer.{Completer, mem, run, new_completer}
use iouring_go.Completer.Order.{
  with_all, with_all-mem, run-Tracks, nobody, bool_eta, new_completer-Tracks,
}

-- The first place where `acked` fails is the only one.
first_gap :
    (s h x : ℕ) (acked : ℕ → Bool)
    → s ≤ h
    → s ≤ x
    → acked h ≡ false
    → acked x ≡ false
    → ((j : ℕ) → s ≤ j → j < h → acked j ≡ true)
    → ((j : ℕ) → s ≤ j → j < x → acked j ≡ true)
    → h ≡ x
first_gap s h x acked from from' gap gap' passed passed' = elim (dec_lt h x) [
  | yes p ↦ absurd (ground (arith, gap, passed' h from p))
  | no p ↦ elim (dec_lt x h) [
    | yes q ↦ absurd (ground (arith, gap', passed x from' q))
    | no q ↦ omega arith
  ]
]

-- On a queue with a mask of k ones, where the entries that are reported do not reach its end: the
-- completer, started with an empty map, ends with the head at the first entry that is not reported.
pub run-first_gap :
    (k limit x : ℕ) (ids : List ℕ) (cq : CompletionQueue)
    → k ≤ 32
    → cq.mask ≡ 2 ^ k - 1
    → cq.head < 2 ^ 32
    → limit < 2 ^ k
    → ((j : ℕ) → mem j ids ≡ true → j < limit)
    → cq.head % 2 ^ k ≤ x
    → ((j : ℕ) → cq.head % 2 ^ k ≤ j → j < x → mem j ids ≡ true)
    → mem x ids ≡ false
    → (c : Completer) × (run (new_completer cq) ids ≡ some c)
      × (c.cq.head ≡ (cq.head + (x - cq.head % 2 ^ k)) % 2 ^ 32)
unfolding nobody
run-first_gap k limit x ids cq small mask u32 room below from passed gap =
    let same : (j : ℕ) → with_all ids nobody j ≡ mem j ids =
      λ j. with_all-mem ids nobody j ∙ bool_eta (mem j ids) in
    let (c, e, t) =
      run-Tracks k (cq.head % 2 ^ k) cq.head limit ids nobody (new_completer cq) small room
        (λ j h. below j (sym (same j) ∙ h)) (new_completer-Tracks k cq mask u32) in
    let at : c.cq.head % 2 ^ k ≡ x =
      first_gap (cq.head % 2 ^ k) (c.cq.head % 2 ^ k) x (with_all ids nobody) t.from from t.next
        (same x ∙ gap) t.passed (λ j p q. same j ∙ passed j p q) in
    (c, e, ground (arith, t.total, at))
