-- ===== src/Ring/Entering.antt =====
-- ring.go: Enter; uring_enter.go.
use iouring_go.Base.{
  ℕ, suc, ◌≡◌, ◌≢◌, bit_or, bit_and, if◌then◌else◌, ◌==◌, arith, Bool-cases, ◌⊎◌, inl, inr,
}
use iouring_go.Base.Int.{ℤ, of_bits}
use iouring_go.Base.Outcome.{Outcome-cases, done}
use iouring_go.Queue.{SubmitQueue, enter_lock, need_wakeup, enter_unlock, sq_need_wakeup}
use iouring_go.Ring.{
  Ring, Kernel, EnterCall, Answer, Result, ok, err, enter, enter_result, enter_flags, sys_enter,
  enter_sq_wakeup,
}

-- The system call that Enter makes: with the flag that wakes the kernel's thread if, and only if,
-- that thread asks for it.
abbrev pub call_of : ℕ → ℕ → ℕ → Ring → EnterCall
call_of to_submit min_complete flags r = record {
  fd = r.fd;
  to_submit = to_submit;
  min_complete = min_complete;
  flags = if bit_and r.sq.flags sq_need_wakeup == 0 then flags else bit_or flags enter_sq_wakeup;
}

-- The answer of the kernel, which sees the queue locked.
abbrev pub answer_of : Kernel → ℕ → ℕ → ℕ → Ring → Answer
answer_of kernel to_submit min_complete flags r =
    kernel (call_of to_submit min_complete flags r) (record (r.sq) { entered = 1 }) r.cq

-- What Enter returns for an answer.
abbrev pub Returned : Answer → Result ℤ → Type 0
Returned a res =
    ((a.errno ≢ 0) × (res ≡ err a.errno)) ⊎ ((a.errno ≡ 0) × (res ≡ ok (of_bits 64 a.res)))

enter_result-Returned : (a : Answer) → Returned a (enter_result a.res a.errno)
unfolding enter_result
enter_result-Returned a = elim (Bool-cases (a.errno == 0)) [
  | inl p ↦ inr (ground arith, ground arith)
  | inr p ↦ inl (ground arith, ground arith)
]

module _ (kernel : Kernel) (fuel to_submit min_complete flags : ℕ) (r : Ring) where
  -- Enter on a ring that nobody is entering makes one system call, with the queue locked, waking the
  -- kernel's thread exactly when the queue asks for it; it returns the errno if there is one and
  -- otherwise the result, and takes the queues as the kernel leaves them, with the lock given back.
  pub enter-Returned :
      r.sq.entered ≡ 0
      → (res : Result ℤ) × (enter kernel (suc fuel) to_submit min_complete flags r
          ≡ done (
            res,
            record r {
              sq = record ((answer_of kernel to_submit min_complete flags r).sq) { entered = 0 };
              cq = (answer_of kernel to_submit min_complete flags r).cq;
            },
          ))
        × Returned (answer_of kernel to_submit min_complete flags r) res
  unfolding enter enter_lock need_wakeup enter_flags sys_enter enter_unlock
  enter-Returned free =
      let a = answer_of kernel to_submit min_complete flags r in
      (enter_result a.res a.errno, ground arith, enter_result-Returned a)

  -- However Enter ends, it is the kernel that leaves the completion queue.
  pub enter-cq :
      (res : Result ℤ) (r' : Ring)
      → enter kernel fuel to_submit min_complete flags r ≡ done (res, r')
      → (c : EnterCall) × (sq : SubmitQueue) × (r'.cq ≡ (kernel c sq r.cq).cq)
  unfolding enter sys_enter enter_flags need_wakeup
  enter-cq res r' h = elim (Outcome-cases (enter_lock fuel r.sq)) [
    | inl (sq', e) ↦ (call_of to_submit min_complete flags r, sq', ground arith)
    | inr (inl e) ↦ absurd (ground arith)
    | inr (inr e) ↦ absurd (ground arith)
  ]
