-- ===== src/Serving/Rounds.antt =====
-- conn.go: the turns of the loop run of a listener.
use iouring_go.Base.{ℕ, suc, ◌≡◌, ◌≢◌, true, List, Option, none, some, arith}
use iouring_go.Base.Int.{ℤ, to_u64}
use iouring_go.Base.Outcome.{Outcome, done, panic}
use iouring_go.Entry.{SubmitEntry}
use iouring_go.Queue.{CompletionQueue}
use iouring_go.Ring.{Ring, Kernel, enter_get_events}
use iouring_go.Ring.Entering.{answer_of}
use iouring_go.Ops.Prepare.{IsReady}
use iouring_go.Connection.Answering.{IsHonest, entered}
use iouring_go.Connection.Polling.{entered-IsReady}
use iouring_go.Listener.{Conn, Conns, walk_cq}
use iouring_go.Listener.Polls.{polled, poll_entry, on_listen-polled}
use iouring_go.Serving.{
  RingListener, Turn, ended, going, handle, deliver, accepted, with_r, welcome, round, out_of_range,
}

-- The ring with the queue that walkCq leaves.
abbrev pub with_walked : Ring → CompletionQueue → Ring
with_walked r cq = record r { cq = cq }

-- The ring after onListen.
abbrev pub welcomed_on : ℕ → Ring → Conn → ℤ → List ℕ → List ℕ → Ring
welcomed_on k r c fd a b =
    polled k (polled k r (poll_entry fd 0 a)) (poll_entry c.fd (to_u64 c.fd) b)

module _ (kernel : Kernel) (k : ℕ) (accept : ℤ → Option ℤ) (peer : ℤ → List ℕ) (conns : Conns) where
  -- What a turn makes of the kernel's answer.
  pub data Rounded (l : RingListener) : Outcome (Turn × RingListener) → Type 0 where
    stopped : l.stopped ≡ true → Rounded l (done (ended, l))
    refused :
        (answer_of kernel 1024 1 enter_get_events l.r).errno ≢ 0
        → Rounded l (
            done (
              going,
              handle
                  (answer_of kernel 1024 1 enter_get_events l.r).errno
                  (with_r l (entered kernel l.r)),
            ))
    not_printed :
        (answer_of kernel 1024 1 enter_get_events l.r).errno ≡ 0
        → out_of_range (entered kernel l.r) ≡ true
        → Rounded l panic
    quiet :
        {cq' : CompletionQueue}
        → (answer_of kernel 1024 1 enter_get_events l.r).errno ≡ 0
        → walk_cq (answer_of kernel 1024 1 enter_get_events l.r).cq conns ≡ done (none, cq')
        → Rounded l (done (going, with_r l (with_walked (entered kernel l.r) cq')))
    not_accepted :
        {c : Conn} {cq' : CompletionQueue}
        → (answer_of kernel 1024 1 enter_get_events l.r).errno ≡ 0
        → walk_cq (answer_of kernel 1024 1 enter_get_events l.r).cq conns ≡ done (some c, cq')
        → accept c.fd ≡ none
        → Rounded l panic
    welcomed :
        {c : Conn} {cq' : CompletionQueue} {fd : ℤ}
        → (answer_of kernel 1024 1 enter_get_events l.r).errno ≡ 0
        → walk_cq (answer_of kernel 1024 1 enter_get_events l.r).cq conns ≡ done (some c, cq')
        → accept c.fd ≡ some fd
        → (a b : SubmitEntry)
        → Rounded l (
            done (
              going,
              deliver (accepted peer l fd) (
                  with_r l
                    (welcomed_on k (with_walked (entered kernel l.r) cq') c fd a.anon0 b.anon0)),
            ))

  abbrev pub Rounds : ℕ → RingListener → Type 0
  Rounds fuel l = Rounded l (round kernel fuel accept peer conns l)

  pub walked-IsReady :
      {r : Ring} (cq : CompletionQueue) → IsReady k r → IsReady k (with_walked r cq)
  walked-IsReady cq h = record { valid = h.valid; free = h.free; room = h.room }

  pub welcome-welcomed :
      (fuel : ℕ) (l : RingListener) (c : Conn) (cq' : CompletionQueue) (fd : ℤ)
      → IsHonest k kernel
      → IsReady k l.r
      → accept c.fd ≡ some fd
      → (a b : SubmitEntry) × (welcome kernel
            (suc fuel)
            accept
            peer
            c
            (with_r l (with_walked (entered kernel l.r) cq'))
          ≡ done (
            going,
            deliver (accepted peer l fd) (
                with_r l
                  (welcomed_on k (with_walked (entered kernel l.r) cq') c fd a.anon0 b.anon0)),
          ))
  unfolding welcome
  welcome-welcomed fuel l c cq' fd honest ready e =
      let r : Ring = with_walked (entered kernel l.r) cq' in
      let (a, b, h) =
        on_listen-polled accept k fuel c fd r
          (walked-IsReady cq' (entered-IsReady kernel l.r honest ready)) e in
      (a, b, ground (arith, h))
