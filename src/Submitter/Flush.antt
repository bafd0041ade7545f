-- ===== src/Submitter/Flush.antt =====
-- submitter.go, run: the loop around Enter ends.
use iouring_go.Base.{
  ℕ, zero, suc, ◌+◌, ◌-◌, ◌%◌, ◌≤◌, ◌<◌, ◌^◌, ◌≡◌, ◌≢◌, refl, true, false, arith, Bool-cases, inl,
  inr,
}
use iouring_go.Base.Int.{ℤ, to_i64, pos, is_neg, ◌+ℤ◌, ◌-ℤ◌}
use iouring_go.Base.Outcome.{done}
use iouring_go.Queue.{SubmitQueue, CompletionQueue}
use iouring_go.Ring.{Ring, Kernel, EnterCall, ok, enter, enter_get_events}
use iouring_go.Ring.Entering.{enter-Returned, answer_of, call_of}
use iouring_go.Submitter.{Submitter, flush, tick}

-- The entries that were published and that the kernel has not taken.
abbrev pub pending : SubmitQueue → ℕ
pending sq = (sq.tail + (2 ^ 32 - sq.head)) % 2 ^ 32

-- A kernel that has no error, that returns how many entries it has taken from the queue, and that takes
-- one at least when it is asked to and there is one.
pub record IsTaking (kernel : Kernel) : Type 0 where
  pub fine : (c : EnterCall) (sq : SubmitQueue) (cq : CompletionQueue) → (kernel c sq cq).errno ≡ 0
  pub taken :
      (c : EnterCall) (sq : SubmitQueue) (cq : CompletionQueue)
      → pending (kernel c sq cq).sq + (kernel c sq cq).res ≡ pending sq
  pub some_taken :
      (c : EnterCall) (sq : SubmitQueue) (cq : CompletionQueue)
      → c.to_submit ≢ 0
      → pending sq ≢ 0
      → 1 ≤ (kernel c sq cq).res

-- Calls of Enter for `count` requests, one after the other, and how many entries they have taken.
pub data Entered (kernel : Kernel) (fuel count : ℕ) : Ring → ℕ → Ring → Type 0 where
  no_call : {r : Ring} → Entered kernel fuel count r 0 r
  call :
      {m n : ℕ} {r r' r'' : Ring}
      → enter kernel fuel count 0 enter_get_events r ≡ done (ok (pos m), r')
      → Entered kernel fuel count r' n r''
      → Entered kernel fuel count r (m + n) r''

-- With the `n` entries taken before, the kernel has taken as many as there were requests, and the timer
-- may be started again.
pub record IsFlushed (kernel : Kernel) (fuel n : ℕ) (s t : Submitter) : Type 0 where
  pub total : ℕ
  pub calls : Entered kernel fuel s.count s.ring total t.ring
  pub submitted : s.count ≤ n + total
  pub left : pending t.ring.sq + total ≡ pending s.ring.sq
  pub count : t.count ≡ 0
  pub seen : t.seen ≡ pos 0
  pub active : t.timer_active ≡ false
  pub stopped : t.armed ≡ false

pending-lt : (sq : SubmitQueue) → pending sq < 2 ^ 32
pending-lt sq = omega arith

module _ (n m count : ℕ) (seen : ℤ) (at : seen ≡ pos n) (small : n < 2 ^ 62)
    (few : m < 2 ^ 32) where
  seen_now : to_i64 (seen +ℤ pos m) ≡ pos (n + m)
  seen_now = ground arith

  seen_below : is_neg (to_i64 (seen +ℤ pos m) -ℤ pos count) ≡ true → n + m < count
  seen_below h = ground arith

  seen_enough : is_neg (to_i64 (seen +ℤ pos m) -ℤ pos count) ≡ false → count ≤ n + m
  seen_enough h = ground arith

module _ (kernel : Kernel) (fuel : ℕ) (taking : IsTaking kernel) where
  -- One call of Enter, for a ring that nobody is entering.
  entered_some :
      (r : Ring) (count : ℕ)
      → r.sq.entered ≡ 0
      → (m : ℕ) × (r' : Ring) × (enter kernel (suc fuel) count 0 enter_get_events r
          ≡ done (ok (pos m), r'))
        × (count ≢ 0 → pending r.sq ≢ 0 → 1 ≤ m)
        × (pending r'.sq + m ≡ pending r.sq)
        × (r'.sq.entered ≡ 0)
  entered_some r count free =
      let a = answer_of kernel count 0 enter_get_events r in
      let (res, e, ret) = enter-Returned kernel fuel count 0 enter_get_events r free in
      let c = call_of count 0 enter_get_events r in
      let sq : SubmitQueue = record (r.sq) { entered = 1 } in
      let taken = taking.taken c sq r.cq in
      elim ret [
        | inl p ↦ absurd (p.0 (taking.fine c sq r.cq))
        | inr p ↦ (
          a.res,
          record r { sq = record (a.sq) { entered = 0 }; cq = a.cq },
          ground (arith, e, p.1, taken),
          taking.some_taken c sq r.cq,
          taken,
          refl,
        )
      ]

  abbrev ended : Submitter → Ring → Submitter
  ended s r' = record s { ring = r'; count = 0; seen = pos 0; timer_active = false }

  last-IsFlushed :
      (n m : ℕ) (s : Submitter) (r' : Ring)
      → enter kernel (suc fuel) s.count 0 enter_get_events s.ring ≡ done (ok (pos m), r')
      → pending r'.sq + m ≡ pending s.ring.sq
      → s.armed ≡ false
      → s.count ≤ n + m
      → IsFlushed kernel (suc fuel) n s (ended s r')
  last-IsFlushed n m s r' e taken off enough = record {
    total = m + 0;
    calls = call {n = 0} e no_call;
    submitted = omega (arith, enough);
    left = omega (arith, taken);
    count = refl;
    seen = refl;
    active = refl;
    stopped = off;
  }

  more-IsFlushed :
      (n m : ℕ) (seen : ℤ) (s t : Submitter) (r' : Ring)
      → enter kernel (suc fuel) s.count 0 enter_get_events s.ring ≡ done (ok (pos m), r')
      → pending r'.sq + m ≡ pending s.ring.sq
      → IsFlushed kernel (suc fuel) (n + m) (record s { ring = r'; seen = seen }) t
      → IsFlushed kernel (suc fuel) n s t
  more-IsFlushed n m seen s t r' e taken g =
      let k : ℕ = g.total in
      let enough = g.submitted in
      let left = g.left in
      record {
        total = m + k;
        calls = call {n = g.total} e g.calls;
        submitted = omega (arith, enough);
        left = omega (arith, taken, left);
        count = g.count;
        seen = g.seen;
        active = g.active;
        stopped = g.stopped;
      }

  -- The loop, when `n` entries were taken before, and as many as are missing are in the queue.
  flush-IsFlushed :
      (rounds n : ℕ) (s : Submitter)
      → s.ring.sq.entered ≡ 0
      → s.armed ≡ false
      → s.seen ≡ pos n
      → s.count < 2 ^ 62
      → n ≤ s.count
      → s.count ≤ n + pending s.ring.sq
      → s.count ≤ n + rounds
      → (t : Submitter) × (flush kernel (suc fuel) (suc rounds) s ≡ done t)
        × IsFlushed kernel (suc fuel) n s t
  unfolding flush
  flush-IsFlushed zero n s free off seen bound few there enough =
      let (m, r', e, some, taken, free') = entered_some s.ring s.count free in
      (
        ended s r',
        ground (arith, e, taken),
        last-IsFlushed n m s r' e taken off (omega (arith, enough)),
      )
  flush-IsFlushed (suc rounds) n s free off seen bound few there enough =
      let (m, r', e, some, taken, free') = entered_some s.ring s.count free in
      let small : n < 2 ^ 62 = omega (arith, few, bound) in
      let few_taken : m < 2 ^ 32 = omega (arith, taken, pending-lt s.ring.sq) in
      elim (Bool-cases (is_neg (to_i64 (s.seen +ℤ pos m) -ℤ pos s.count))) [
        | inl p ↦
            let seen' : ℤ = to_i64 (s.seen +ℤ pos m) in
            let now : seen' ≡ pos (n + m) = seen_now n m s.count s.seen seen small few_taken in
            let lt : n + m < s.count = seen_below n m s.count s.seen seen small few_taken p in
            let one : 1 ≤ m = some (λ z. omega (arith, z, lt)) (λ z. omega (arith, z, lt, there)) in
            let (t, f, g) =
              flush-IsFlushed rounds (n + m) (record s { ring = r'; seen = seen' }) free' off now
                bound (omega (arith, lt)) (omega (arith, taken, there))
                (omega (arith, one, enough)) in
            (t, ground (arith, e, p, f), more-IsFlushed n m seen' s t r' e taken g)
        | inr p ↦ (
          ended s r',
          ground (arith, e, p, taken),
          last-IsFlushed n m s r' e taken off
              (seen_enough n m s.count s.seen seen small few_taken p),
        )
      ]

-- A tick with fewer than 2 ^ 62 requests, the entries of all of which are in the queue, on a ring that
-- nobody is entering and with a kernel that has no error and takes an entry at least when there is one:
-- it ends after at most as many calls of Enter as requests wait and one more, which have taken at least
-- as many entries as requests, each of them for the number of the requests; the counters are 0 again,
-- and the timer waits to be started by the next request.
pub tick-IsFlushed :
    (kernel : Kernel) (fuel : ℕ) (s : Submitter)
    → IsTaking kernel
    → s.ring.sq.entered ≡ 0
    → s.seen ≡ pos 0
    → s.count < 2 ^ 62
    → s.count ≤ pending s.ring.sq
    → (t : Submitter) × (tick kernel (suc fuel) (suc s.count) s ≡ done t)
      × IsFlushed kernel (suc fuel) 0 s t
unfolding tick
tick-IsFlushed kernel fuel s taking free seen bound there =
    let (t, e, g) =
      flush-IsFlushed kernel fuel taking s.count 0 (record s { armed = false }) free refl seen bound
        (omega arith) (omega arith) (omega arith) in
    (
      t,
      e,
      record {
        total = g.total;
        calls = g.calls;
        submitted = g.submitted;
        left = g.left;
        count = g.count;
        seen = g.seen;
        active = g.active;
        stopped = g.stopped;
      },
    )
