-- ===== src/New/Use.antt =====
-- ring.go, ops.go, conn.go: any use of a ring that New has returned, by one goroutine at a time.
use iouring_go.Base.{
  ℕ, suc, ◌+◌, ◌%◌, ◌^◌, ◌≡◌, ap, subst, ◌∙◌, List, Option, some, arith, get_elem?,
}
use iouring_go.Base.Int.{ℤ}
use iouring_go.Base.Outcome.{Outcome, done, ◌>>=◌}
use iouring_go.Entry.{SubmitEntry}
use iouring_go.Register.{Call}
use iouring_go.Setup.{Params, Result}
use iouring_go.Setup
use iouring_go.Ring
use iouring_go.Ring.{Ring, Kernel, enter, next_id}
use iouring_go.Ring.Entering.{enter-Returned}
use iouring_go.Ops
use iouring_go.Ops.{Prepared}
use iouring_go.Ops.Requests.{Request, call, entry_of, HasBytes}
use iouring_go.Ops.Prepare.{IsReady, slot_of, after}
use iouring_go.Ops.Encoding.{call-after}
use iouring_go.Ops.Published.{after-IsReady, entries-after}
use iouring_go.Submit.Slots.{slot_present}
use iouring_go.Listener.{poll_for}
use iouring_go.Listener.Polls.{poll_entry, poll_for-polled, polled-IsReady}
use iouring_go.Connection.Answering.{IsHonest}
use iouring_go.Connection.Polling.{enter-IsReady}
use iouring_go.New.{RingOption, NewRing, Memory, new}
use iouring_go.New.Opening.{last_of, id_of, new-Ends}
use iouring_go.New.First.{IsFresh, Ends-IsOpen}

module _ (kernel : Kernel) where
  -- A Prepare call, Enter, a poll under the next id (rePoll, and the start of a listener's run), or one
  -- under a number of its own (onListen), with the ids that it takes.
  pub data Step (r : Ring) : ℕ → Ring → Type 0 where
    called :
        (fuel : ℕ) (q : Request) {p : Prepared} {r' : Ring}
        → HasBytes q
        → call (suc fuel) q r ≡ done (p, r')
        → Step r 1 r'
    entered :
        (fuel to_submit min_complete flags : ℕ) {res : Ring.Result ℤ} {r' : Ring}
        → enter kernel (suc fuel) to_submit min_complete flags r ≡ done (res, r')
        → Step r 0 r'
    polls :
        (fuel : ℕ) (fd : ℤ) (user_data : ℕ) {r' : Ring}
        → poll_for (suc fuel) fd user_data r ≡ done (tt, r')
        → Step r 0 r'
    polls_next :
        (fuel : ℕ) (fd : ℤ) {r' : Ring}
        → (do id ← next_id; poll_for (suc fuel) fd id) r ≡ done (tt, r')
        → Step r 1 r'

  -- What a ring can become, and how many ids were taken.
  pub data Reach (r : Ring) : ℕ → Ring → Type 0 where
    here : Reach r 0 r
    later : {m i : ℕ} {r' r'' : Ring} → Reach r m r' → Step r' i r'' → Reach r (i + m) r''

-- The ring can be used, and the next id is that after the ids taken.
record Serves (k id m : ℕ) (r : Ring) : Type 0 where
  ready : IsReady k r
  next : (r.idx + 1) % 2 ^ 64 ≡ (id + m + 1) % 2 ^ 64

done-ring :
    {A : Type 0} {a b : A} {r r' : Ring} {o : Outcome (A × Ring)}
    → o ≡ done (a, r)
    → o ≡ done (b, r')
    → r ≡ r'
done-ring h h' = cc

module _ (kernel : Kernel) {k : ℕ} (honest : IsHonest k kernel) (id : ℕ) where
  called-Serves :
      (fuel m : ℕ) (q : Request) (r : Ring) {p : Prepared} {r' : Ring}
      → Serves k id m r
      → HasBytes q
      → call (suc fuel) q r ≡ done (p, r')
      → Serves k id (suc m) r'
  called-Serves fuel m q r {p} {r'} s bytes h =
      let (e, at) = slot_present s.ready.valid in
      let e' : SubmitEntry = entry_of q ((r.idx + 1) % 2 ^ 64) e.anon0 in
      let same : after k r e' ≡ r' = done-ring (call-after s.ready fuel q bytes at) h in
      let next = s.next in
      subst (Serves k id (suc m)) same
        (record { ready = after-IsReady e' s.ready; next = omega (arith, next) })

  entered-Serves :
      (fuel m to_submit min_complete flags : ℕ) (r : Ring) {res : Ring.Result ℤ} {r' : Ring}
      → Serves k id m r
      → enter kernel (suc fuel) to_submit min_complete flags r ≡ done (res, r')
      → Serves k id m r'
  entered-Serves fuel m to_submit min_complete flags r s h =
      let (res, e, ret) = enter-Returned kernel fuel to_submit min_complete flags r s.ready.free in
      subst (Serves k id m) (done-ring e h) (record {
        ready = enter-IsReady kernel to_submit min_complete flags r honest s.ready;
        next = s.next;
      })

  polls-Serves :
      (fuel m : ℕ) (fd : ℤ) (user_data : ℕ) (r : Ring) {r' : Ring}
      → Serves k id m r
      → poll_for (suc fuel) fd user_data r ≡ done (tt, r')
      → Serves k id m r'
  polls-Serves fuel m fd user_data r s h =
      let (e, at) = slot_present s.ready.valid in
      let e' : SubmitEntry = poll_entry fd user_data e.anon0 in
      subst (Serves k id m) (done-ring (poll_for-polled k fuel r fd user_data s.ready at) h)
        (record { ready = polled-IsReady e' s.ready; next = s.next })

  polls_next-Serves :
      (fuel m : ℕ) (fd : ℤ) (r : Ring) {r' : Ring}
      → Serves k id m r
      → (do id ← next_id; poll_for (suc fuel) fd id) r ≡ done (tt, r')
      → Serves k id (suc m) r'
  unfolding next_id
  polls_next-Serves fuel m fd r s h =
      let i : ℕ = (r.idx + 1) % 2 ^ 64 in
      let next = s.next in
      polls-Serves fuel (suc m) fd i (record r { idx = i })
        (record {
          ready = record { valid = s.ready.valid; free = s.ready.free; room = s.ready.room };
          next = omega (arith, next);
        })
        h

  Step-Serves :
      {m i : ℕ} (r : Ring) {r' : Ring}
      → Serves k id m r
      → Step kernel r i r'
      → Serves k id (i + m) r'
  Step-Serves {m} r {r'} s (called fuel q bytes h) =
      subst (λ x. Serves k id x r') (omega arith) (called-Serves fuel m q r s bytes h)
  Step-Serves {m} r {r'} s (entered fuel n min flags h) =
      subst (λ x. Serves k id x r') (omega arith) (entered-Serves fuel m n min flags r s h)
  Step-Serves {m} r {r'} s (polls fuel fd user_data h) =
      subst (λ x. Serves k id x r') (omega arith) (polls-Serves fuel m fd user_data r s h)
  Step-Serves {m} r {r'} s (polls_next fuel fd h) =
      subst (λ x. Serves k id x r') (omega arith) (polls_next-Serves fuel m fd r s h)

  Reach-Serves :
      (r : Ring) {m : ℕ} {r' : Ring} → Serves k id 0 r → Reach kernel r m r' → Serves k id m r'
  Reach-Serves r s here = s
  Reach-Serves r s (later {r'} h t) = Step-Serves r' (Reach-Serves r s h) t

  -- A ring that serves answers a call with the next id, and leaves the entry in the next slot.
  Serves-call :
      (m : ℕ) (r : Ring) (q : Request)
      → Serves k id m r
      → HasBytes q
      → (e : SubmitEntry) × (r' : Ring) × (call 1 q r ≡ done (Ops.ok ((id + m + 1) % 2 ^ 64), r'))
        × (get_elem? r'.sq.entries (slot_of k r)
            ≡ some (entry_of q ((id + m + 1) % 2 ^ 64) e.anon0))
        × Serves k id (suc m) r'
  Serves-call m r q s bytes =
      let (e, at) = slot_present s.ready.valid in
      let i : ℕ = (r.idx + 1) % 2 ^ 64 in
      let e' : SubmitEntry = entry_of q i e.anon0 in
      (
        e,
        after k r e',
        call-after s.ready 0 q bytes at ∙ ap (λ x. done (Ops.ok x, after k r e')) s.next,
        entries-after s.ready e' ∙ ap (λ x. some (entry_of q x e.anon0)) s.next,
        called-Serves 0 m q r s bytes (call-after s.ready 0 q bytes at),
      )

module _ (syscall : Call → ℕ) (eventfd : ℕ → ℤ → Setup.Result ℤ) (setup_call : ℕ → Params → ℕ × ℕ)
    (filled : ℕ → Params → Params) (mmap : ℕ → ℕ → ℕ × ℕ) (memory : Memory) (kernel : Kernel)
    {k : ℕ} (fresh : IsFresh k memory) (honest : IsHonest k kernel) (opts : List RingOption) where
  -- On a ring that New has returned, over queues as the kernel sets them up, and after any number of
  -- Prepare calls, polls under the next id or under a number of their own, and entries into a kernel that
  -- keeps the shape of the queues, of which `m` took an id, a Prepare call with slices that are not empty returns the id of the last WithID, or 0, plus
  -- `m + 1`, and leaves its entry in the next slot.
  pub Reach-call :
      (size : ℕ) (given : Option Params) (n : NewRing) (m : ℕ) (r : Ring) (q : Request)
      → new syscall eventfd setup_call filled mmap memory size given opts ≡ Setup.ok n
      → Reach kernel n.ring m r
      → HasBytes q
      → (e : SubmitEntry) × (r' : Ring) × (call 1 q r
          ≡ done (Ops.ok ((last_of id_of opts 0 + m + 1) % 2 ^ 64), r'))
        × (get_elem? r'.sq.entries (slot_of k r)
            ≡ some (entry_of q ((last_of id_of opts 0 + m + 1) % 2 ^ 64) e.anon0))
  Reach-call size given n m r q h reached bytes =
      let id : ℕ = last_of id_of opts 0 in
      let o =
        Ends-IsOpen syscall eventfd setup_call filled mmap memory fresh opts
          (new-Ends syscall eventfd setup_call filled mmap memory size given opts) h in
      let i = o.idx in
      let s =
        Reach-Serves kernel honest id n.ring (record { ready = o.ready; next = omega (arith, i) })
          reached in
      let (e, r', c, at, s') = Serves-call kernel honest id m r q s bytes in (e, r', c, at)
