-- ===== src/Connection/Answering.antt =====
-- ring_conn.go, getCqe: what it returns.
use iouring_go.Base.{
  ℕ, suc, ◌<◌, ◌≤◌, ◌≡◌, ◌≢◌, Bool-cases, inl, inr, Option, none, some, bit_and, ltb, length, arith,
  false,
}
use iouring_go.Base.Outcome.{done}
use iouring_go.Entry.{CompletionEntry}
use iouring_go.Queue.{SubmitQueue, CompletionQueue}
use iouring_go.Submit.{IsValid}
use iouring_go.Ring.{Ring, Kernel, EnterCall, enter_get_events}
use iouring_go.Ring.Entering.{answer_of, enter-Returned}
use iouring_go.Lookup.{entry_by}
use iouring_go.Lookup.Total.{Looked, entry_by-Looked}
use iouring_go.Connection.{
  RingConn, Reply, failed, not_found, blocked, reply_of, find, after_enter, get_cqe, with_cq,
}

-- The tail is masked to an entry of the queue.
abbrev pub Fits : CompletionQueue → Type 0
Fits cq = bit_and cq.tail cq.mask < length cq.entries

-- A kernel that keeps the shape of the queues, and leaves the counter of writers alone.
pub record IsHonest (k : ℕ) (kernel : Kernel) : Type 0 where
  pub valid :
      (c : EnterCall) (sq : SubmitQueue) (cq : CompletionQueue)
      → IsValid k sq
      → IsValid k (kernel c sq cq).sq
  pub writes :
      (c : EnterCall) (sq : SubmitQueue) (cq : CompletionQueue)
      → (kernel c sq cq).sq.writes ≡ sq.writes
  pub fits :
      (c : EnterCall) (sq : SubmitQueue) (cq : CompletionQueue) → Fits cq → Fits (kernel c sq cq).cq

abbrev pub reply_for : Option CompletionEntry → Reply
reply_for none = not_found
reply_for (some cqe) = reply_of cqe.res

module _ (kernel : Kernel) where
  -- A ring after Enter has been called with 1024, 1 and the flag that asks for events.
  abbrev pub entered : Ring → Ring
  entered r =
      let a = answer_of kernel 1024 1 enter_get_events r in
      record r { sq = record (a.sq) { entered = 0 }; cq = a.cq }

  -- What getCqe makes of the kernel's answer for a ring: its errno; or else nothing, when the
  -- channel is full; or else a token is sent, and what EntryBy returns decides.
  pub data Answered (req : ℕ) (c : RingConn) : Reply → RingConn → Type 0 where
    refused :
        (answer_of kernel 1024 1 enter_get_events c.r).errno ≢ 0
        → Answered req c
            (failed (answer_of kernel 1024 1 enter_get_events c.r).errno)
            (record c { r = entered c.r })
    stuck :
        (answer_of kernel 1024 1 enter_get_events c.r).errno ≡ 0
        → 2 ≤ c.stop
        → Answered req c blocked (record c { r = entered c.r })
    looked :
        {got : Option CompletionEntry} {cq' : CompletionQueue}
        → (answer_of kernel 1024 1 enter_get_events c.r).errno ≡ 0
        → c.stop < 2
        → Looked req (answer_of kernel 1024 1 enter_get_events c.r).cq got cq'
        → Answered req c
            (reply_for got)
            (record c { r = record (entered c.r) { cq = cq' }; stop = suc c.stop })

  abbrev pub Answers : ℕ → ℕ → RingConn → Type 0
  Answers fuel req c =
      (reply : Reply) × (c' : RingConn) × (get_cqe kernel fuel false req c ≡ done (reply, c'))
      × Answered req c reply c'

  find-looked :
      (req : ℕ) (c : RingConn) {got : Option CompletionEntry} {cq' : CompletionQueue}
      → entry_by c.r.cq req ≡ done (got, cq')
      → find false req c ≡ done (reply_for got, with_cq c cq')
  unfolding find
  find-looked req c {got = none} h = ground (arith, h)
  find-looked req c {got = some cqe} h = ground (arith, h)

  -- getCqe ends, on a ring that nobody enters, and as the kernel's answer has it.
  pub get_cqe-Answered :
      {k : ℕ} (fuel req : ℕ) (c : RingConn)
      → IsHonest k kernel
      → Fits c.r.cq
      → c.r.sq.entered ≡ 0
      → Answers (suc fuel) req c
  unfolding get_cqe after_enter
  get_cqe-Answered fuel req c honest fits free =
      let a = answer_of kernel 1024 1 enter_get_events c.r in
      let (res, h, ret) = enter-Returned kernel fuel 1024 1 enter_get_events c.r free in
      elim ret [
        | inl (ne, e) ↦
            (failed a.errno, record c { r = entered c.r }, ground (arith, h, e), refused ne)
        | inr (eq, e) ↦ elim (Bool-cases (ltb c.stop 2)) [
          | inr p ↦ (
            blocked,
            record c { r = entered c.r },
            ground (arith, h, e, p),
            stuck eq (ground (arith, p)),
          )
          | inl p ↦
              let (got, cq', f, l) = entry_by-Looked req a.cq (honest.fits _ _ c.r.cq fits) in
              let sent : RingConn = record c { r = entered c.r; stop = suc c.stop } in
              (
                reply_for got,
                record c { r = record (entered c.r) { cq = cq' }; stop = suc c.stop },
                ground (arith, h, e, p, find-looked req sent f),
                looked eq (ground (arith, p)) l,
              )
        ]
      ]
