-- ===== src/Completer/Catching.antt =====
-- completer.go: where the head is while the channels are in use.
use iouring_go.Base.{
  ℕ, ◌+◌, ◌-◌, ◌%◌, ◌^◌, ◌<◌, ◌≤◌, ◌≡◌, refl, sym, ap, subst, ◌∙◌, true, false, List, [], ◌∷◌, ◌++◌,
  some, arith,
}
use iouring_go.Queue.{CompletionQueue}
use iouring_go.Completer.{Completer, mem, on_seen, run, new_completer}
use iouring_go.Completer.Order.{
  with_all, with_all-mem, run-Tracks, nobody, bool_eta, new_completer-Tracks,
}
use iouring_go.Completer.Gap.{run-first_gap}
use iouring_go.Completer.Channels.{
  Process, start, took, Reach, here, later, Reach-Taken, run-append, first_part,
}

mem-prefix : (j : ℕ) (xs ys : List ℕ) → mem j xs ≡ true → mem j (xs ++ ys) ≡ true
unfolding mem
mem-prefix j [] ys h = absurd cc
mem-prefix j (x ∷ xs) ys h = ground (arith, h, mem-prefix j xs ys)

some-injective : {A : Type 0} {a b : A} → some a ≡ some b → a ≡ b
some-injective e = cc

-- While it runs, it can take all that is in the channel.
drains :
    (size : ℕ) (p q : Process) (ids : List ℕ) {c : Completer}
    → Reach size p [] q
    → q.running ≡ true
    → q.seen ≡ ids
    → run q.completer ids ≡ some c
    → Reach size p [] (record q { completer = c; seen = [] })
unfolding run
drains size p q [] {c} r on at e =
    let same : Path Process q (record q { completer = c; seen = [] }) =
      λ i. record q { completer = some-injective e i; seen = at i } in
    subst (Reach size p []) same r
drains size p q (id ∷ ids) {c} r on at e =
    let (d, e₀, e₁) = first_part (on_seen q.completer id) (λ d. run d ids) e in
    drains size p (record q { completer = d; seen = ids }) ids (later r (took on at e₀)) on refl e₁

-- In every interleaving of complete, stop and run, on a queue with a mask of k ones, k at most 32, where the
-- entries that are reported do not reach its end: the head has passed only entries that were reported.
pub Reach-passed :
    (size k limit : ℕ) (cq : CompletionQueue) {ids : List ℕ} {p : Process}
    → k ≤ 32
    → cq.mask ≡ 2 ^ k - 1
    → cq.head < 2 ^ 32
    → limit < 2 ^ k
    → ((j : ℕ) → mem j ids ≡ true → j < limit)
    → Reach size (start cq) ids p
    → (h : ℕ) × (cq.head % 2 ^ k ≤ h)
      × ((j : ℕ) → cq.head % 2 ^ k ≤ j → j < h → mem j ids ≡ true)
      × (p.completer.cq.head ≡ (cq.head + (h - cq.head % 2 ^ k)) % 2 ^ 32)
unfolding nobody
Reach-passed size k limit cq {ids} {p} small mask u32 room below r =
    let t = Reach-Taken size cq r in
    let same : (j : ℕ) → with_all t.taken nobody j ≡ mem j t.taken =
      λ j. with_all-mem t.taken nobody j ∙ bool_eta (mem j t.taken) in
    let given : (j : ℕ) → with_all t.taken nobody j ≡ true → mem j ids ≡ true =
      λ j m. ap (mem j) t.in_order ∙ mem-prefix j t.taken p.seen (sym (same j) ∙ m) in
    let (c, e, s) =
      run-Tracks k (cq.head % 2 ^ k) cq.head limit t.taken nobody (new_completer cq) small room
        (λ j m. below j (given j m)) (new_completer-Tracks k cq mask u32) in
    let at : c ≡ p.completer = some-injective (sym e ∙ t.ran) in
    (
      c.cq.head % 2 ^ k,
      s.from,
      λ j a b. given j (s.passed j a b),
      ap (λ d. d.cq.head) (sym at) ∙ s.total,
    )

-- On a queue with a mask of k ones, k at most 32, and when the indices that are reported do not reach its
-- end: from every state that an interleaving of complete, stop and run leads to and in which run has not
-- returned, run can take what the channel holds, and the head is then at the first entry that was not
-- reported.
pub Reach-catches_up :
    (size k limit x : ℕ) (cq : CompletionQueue) {ids : List ℕ} {p : Process}
    → k ≤ 32
    → cq.mask ≡ 2 ^ k - 1
    → cq.head < 2 ^ 32
    → limit < 2 ^ k
    → ((j : ℕ) → mem j ids ≡ true → j < limit)
    → cq.head % 2 ^ k ≤ x
    → ((j : ℕ) → cq.head % 2 ^ k ≤ j → j < x → mem j ids ≡ true)
    → mem x ids ≡ false
    → Reach size (start cq) ids p
    → p.running ≡ true
    → (q : Process) × Reach size p [] q
      × (q.seen ≡ [])
      × (q.completer.cq.head ≡ (cq.head + (x - cq.head % 2 ^ k)) % 2 ^ 32)
Reach-catches_up size k limit x cq {ids} {p} small mask u32 room below from passed gap r on =
    let t = Reach-Taken size cq r in
    let (c, e, head) = run-first_gap k limit x ids cq small mask u32 room below from passed gap in
    let rest : run p.completer p.seen ≡ some c =
      sym (run-append (new_completer cq) t.taken p.seen t.ran)
      ∙ ap (run (new_completer cq)) (sym t.in_order)
      ∙ e in
    (record p { completer = c; seen = [] }, drains size p p p.seen here on refl rest, refl, head)
