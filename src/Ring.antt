-- ===== src/Ring.antt =====
-- ring.go: the state of a Ring, its ids, the positions of its queues and Enter; uring_enter.go.
pub mod Entering
use iouring_go.Base.{
  true, ℕ, ◌+◌, ◌-◌, ◌%◌, ◌^◌, not, Bool, Option, bit_and, bit_or, ◌==◌, ltb, if◌then◌else◌,
}
use iouring_go.Base.Int.{ℤ, of_bits}
use iouring_go.Base.Outcome.{M, done, spin, panic}
use iouring_go.Queue.{
  SubmitQueue, CompletionQueue, need_wakeup, enter_lock, enter_unlock, sq_need_wakeup,
  sq_cq_overflow,
}
use iouring_go.Registry.{FileRegistry}
use iouring_go.Setup.{Params}

-- The fields that hold state; channels, locks and pools are in Run and Locks.
pub record Ring : Type 0 where
  pub fd : ℤ
  pub p : Params
  pub cq : CompletionQueue
  pub sq : SubmitQueue
  pub idx : ℕ
  pub debug : Bool
  pub file_reg : Option FileRegistry
  pub deadline : ℕ
  pub event_fd : ℤ

-- A function over the submit queue, run on a ring.
abbrev pub on_sq : {A : Type 0} → M SubmitQueue A → M Ring A
on_sq m r = elim (m r.sq) [
  | done (a, sq') ↦ done (a, record r { sq = sq' })
  | spin ↦ spin
  | panic ↦ panic
]

-- `ID`: `atomic.AddUint64(r.idx, 1)`.
unfoldable pub next_id : M Ring ℕ
next_id r = let id : ℕ = (r.idx + 1) % 2 ^ 64 in done (id, record r { idx = id })

-- `CanEnter`
unfoldable pub can_enter : Ring → Bool
can_enter r = true

-- `ShouldFlush` and `NeedsEnter`
unfoldable pub should_flush : Ring → Bool
should_flush r = not (bit_and r.sq.flags sq_cq_overflow == 0)

unfoldable pub needs_enter : Ring → Bool
needs_enter r = not (bit_and r.sq.flags sq_need_wakeup == 0)

-- `SubmitHead`, `SubmitTail`, `CompleteHead` and `CompleteTail`
unfoldable pub submit_head : Ring → ℕ
submit_head r = bit_and r.sq.head r.sq.mask

unfoldable pub submit_tail : Ring → ℕ
submit_tail r = bit_and r.sq.tail r.sq.mask

unfoldable pub complete_head : Ring → ℕ
complete_head r = bit_and r.cq.head r.cq.mask

unfoldable pub complete_tail : Ring → ℕ
complete_tail r = bit_and r.cq.tail r.cq.mask

-- The arguments of io_uring_enter(2), and what the kernel answers: a result, an errno, and what
-- it made of the shared queues. The signal mask is handed on, and left out.
pub record EnterCall : Type 0 where
  pub fd : ℤ
  pub to_submit : ℕ
  pub min_complete : ℕ
  pub flags : ℕ

pub record Answer : Type 0 where
  pub res : ℕ
  pub errno : ℕ
  pub sq : SubmitQueue
  pub cq : CompletionQueue

abbrev pub Kernel : Type 0
Kernel = EnterCall → SubmitQueue → CompletionQueue → Answer

pub data Result {ℓ} (A : Type ℓ) : Type ℓ where
  ok : A → Result A
  err : ℕ → Result A

-- consts.go
abbrev pub enter_get_events : ℕ
enter_get_events = 1

abbrev pub enter_sq_wakeup : ℕ
enter_sq_wakeup = 2

-- `Enter` of uring_enter.go: what the result and the errno become. `res` is unsigned.
unfoldable pub enter_result : ℕ → ℕ → Result ℤ
enter_result res errno =
    if not (errno == 0)
    then err errno
    else if ltb res 0
    then err (2 ^ 64 - res)
    else ok (of_bits 64 res)

module _ (kernel : Kernel) where
  sys_enter : EnterCall → M Ring (Result ℤ)
  unfolding enter_result
  sys_enter c r =
      let a = kernel c r.sq r.cq in
      done (enter_result a.res a.errno, record r { sq = a.sq; cq = a.cq })

  -- The flags that `(*Ring).Enter` hands to the system call.
  enter_flags : ℕ → SubmitQueue → ℕ
  unfolding need_wakeup
  enter_flags flags sq = if need_wakeup sq then bit_or flags enter_sq_wakeup else flags

  -- `(*Ring).Enter`
  unfoldable pub enter : ℕ → ℕ → ℕ → ℕ → M Ring (Result ℤ)
  unfolding sys_enter enter_flags enter_unlock
  enter fuel to_submit min_complete flags r = elim (enter_lock fuel r.sq) [
    | spin ↦ spin
    | panic ↦ panic
    | done sq' ↦
        elim (sys_enter
          (record {
            fd = r.fd;
            to_submit = to_submit;
            min_complete = min_complete;
            flags = enter_flags flags r.sq;
          })
          (record r { sq = sq' })) [
            | done (res, r') ↦ done (res, record r' { sq = enter_unlock r'.sq })
            | spin ↦ spin
            | panic ↦ panic
          ]
  ]
