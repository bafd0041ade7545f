-- ===== src/Fio/Acknowledged.antt =====
-- read_writer.go with completer.go: the head of the completion queue after transfers on a file.
use iouring_go.Base.{
  ℕ, suc, ◌+◌, ◌-◌, ◌%◌, ◌^◌, ◌<◌, ◌≤◌, ◌≡◌, refl, ap, ◌∙◌, ◌⊎◌, inl, inr, true, false, List, [],
  ◌∷◌, ◌++◌, some, length, arith, Bool-cases,
}
use native.Mathlib.Decide.{ℕ_discrete}
use iouring_go.Base.Int.{ℤ, pos, negsuc}
use iouring_go.Base.Outcome.{done}
use iouring_go.Queue.{SubmitQueue, CompletionQueue}
use iouring_go.Ring.{Kernel, EnterCall}
use iouring_go.Ops.Prepare.{IsReady}
use iouring_go.Connection.Answering.{IsHonest}
use iouring_go.Completer.{Completer, mem, run, new_completer}
use iouring_go.Completer.Gap.{run-first_gap}
use iouring_go.Fio.{Fio}
use iouring_go.Fio.Jobs.{Job, results, total, seen_at, reported, AllComplete, run_ios}
use iouring_go.Fio.Sequence.{run_ios-Ran}

-- The completions of the transfers stand one behind the other, from the index `h` on.
unfoldable pub InOrder : ℕ → List Job → Type 0
InOrder h [] = Unit
InOrder h (j ∷ js) = (j.at ≡ h) × InOrder (h + 1) js

-- The number of transfers before the first that fails.
abbrev pub leads : ℤ → ℕ → ℕ
leads (pos n) m = suc m
leads (negsuc n) m = 0

unfoldable pub leading : List Job → ℕ
leading [] = 0
leading (j ∷ js) = leads j.cqe.res (leading js)

mem-seen_at :
    (x y : ℕ) (res : ℤ) (xs : List ℕ)
    → mem y (seen_at x res ++ xs) ≡ true
    → (x ≡ y) ⊎ (mem y xs ≡ true)
unfolding mem
mem-seen_at x y (pos n) xs h = elim (ℕ_discrete x y) [
  | yes e ↦ inl e
  | no e ↦ inr (ground (arith, e, h))
]
mem-seen_at x y (negsuc n) xs h = inr h

reported-in :
    (h y : ℕ) (js : List Job)
    → InOrder h js
    → mem y (reported js) ≡ true
    → (h ≤ y) × (y < h + length js)
unfolding InOrder reported mem
reported-in h y [] o m = cc
reported-in h y (j ∷ js) (at, o) m = elim (mem-seen_at j.at y j.cqe.res (reported js) m) [
  | inl e ↦ omega (arith, e, at)
  | inr e ↦ let (lo, hi) = reported-in (h + 1) y js o e in omega (arith, lo, hi)
]

-- A first transfer that succeeds or not, before those whose indices are `xs`.
leads-passed :
    (h y m : ℕ) (res : ℤ) (xs : List ℕ)
    → ((z : ℕ) → h + 1 ≤ z → z < h + 1 + m → mem z xs ≡ true)
    → h ≤ y
    → y < h + leads res m
    → mem y (seen_at h res ++ xs) ≡ true
unfolding mem
leads-passed h y m (pos n) xs rest lo hi = elim (ℕ_discrete h y) [
  | yes e ↦ ground (arith, e)
  | no e ↦ ground (arith, e, rest y (omega (arith, lo, e)) (omega (arith, hi)))
]
leads-passed h y m (negsuc n) xs rest lo hi = absurd (omega (arith, lo, hi))

leads-gap :
    (h m : ℕ) (res : ℤ) (xs : List ℕ)
    → mem h xs ≡ false
    → mem (h + 1 + m) xs ≡ false
    → mem (h + leads res m) (seen_at h res ++ xs) ≡ false
unfolding mem
leads-gap h m (pos n) xs a b =
    let c : mem (h + suc m) xs ≡ false = ap (λ z. mem z xs) (omega arith) ∙ b in ground (arith, c)
leads-gap h m (negsuc n) xs a b = ap (λ z. mem z xs) (omega arith) ∙ a

reported-out : (h y : ℕ) (js : List Job) → InOrder h js → y < h → mem y (reported js) ≡ false
reported-out h y js o lt = elim (Bool-cases (mem y (reported js))) [
  | inl p ↦ let (lo, hi) = reported-in h y js o p in absurd (omega (arith, lo, lt))
  | inr p ↦ p
]

reported-passed :
    (h y : ℕ) (js : List Job)
    → InOrder h js
    → h ≤ y
    → y < h + leading js
    → mem y (reported js) ≡ true
unfolding InOrder reported leading
reported-passed h y [] o lo hi = absurd (omega (arith, lo, hi))
reported-passed h y (j ∷ js) (at, o) lo hi =
    ap (λ x. mem y (seen_at x j.cqe.res ++ reported js)) at
    ∙ leads-passed h y (leading js) j.cqe.res (reported js)
        (λ z p q. reported-passed (h + 1) z js o p q) lo hi

reported-gap : (h : ℕ) (js : List Job) → InOrder h js → mem (h + leading js) (reported js) ≡ false
unfolding InOrder reported leading mem
reported-gap h [] o = refl
reported-gap h (j ∷ js) (at, o) =
    ap (λ x. mem (h + leads j.cqe.res (leading js)) (seen_at x j.cqe.res ++ reported js)) at
    ∙ leads-gap h (leading js) j.cqe.res (reported js) (reported-out (h + 1) h js o (omega arith))
        (reported-gap (h + 1) js o)

-- Transfers on a file as of run_ios-Ran, whose completions stand one behind the other from the head
-- of the completion queue on and do not reach its end: the completer, which is told their indices,
-- ends with the head moved over those before the first transfer that fails, and over no more.
pub run_ios-acknowledged :
    (kernel : Kernel) (k l fuel o : ℕ) (js : List Job) (i : Fio) (cq : CompletionQueue)
    → IsHonest k kernel
    → ((c : EnterCall) (sq : SubmitQueue) (cq' : CompletionQueue) → (kernel c sq cq').errno ≡ 0)
    → IsReady k i.ring
    → i.ring.idx < 2 ^ 64
    → i.offset ≡ pos o
    → o + total js < 2 ^ 63
    → AllComplete i.ring.idx js
    → i.seen ≡ []
    → l ≤ 32
    → cq.mask ≡ 2 ^ l - 1
    → cq.head < 2 ^ 32
    → cq.head % 2 ^ l + length js < 2 ^ l
    → InOrder (cq.head % 2 ^ l) js
    → (i' : Fio) × (c : Completer) × (run_ios kernel (suc fuel) js i ≡ done (results js, i'))
      × (run (new_completer cq) i'.seen ≡ some c)
      × (c.cq.head ≡ (cq.head + leading js) % 2 ^ 32)
run_ios-acknowledged kernel k l fuel o js i cq honest takes ready small at fits completes fresh
      narrow mask u32 room order =
    let h : ℕ = cq.head % 2 ^ l in
    let (i', ran, left) =
      run_ios-Ran kernel honest takes fuel o js i ready small at fits completes in
    let told : i'.seen ≡ reported js = left.seen ∙ ap (λ xs. xs ++ reported js) fresh in
    let (c, moved, head) =
      run-first_gap l (h + length js) (h + leading js) (reported js) cq narrow mask u32 room
        (λ y m. let (lo, hi) = reported-in h y js order m in hi) (omega arith)
        (λ y p q. reported-passed h y js order p q) (reported-gap h js order) in
    (
      i',
      c,
      ran,
      ap (run (new_completer cq)) told ∙ moved,
      head ∙ ap (λ n. (cq.head + n) % 2 ^ 32) (omega arith),
    )
