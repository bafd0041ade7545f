-- ===== src/New/First.antt =====
-- ring.go, New, followed by a first call of ops.go.
use iouring_go.Base.{ℕ, ◌+◌, ◌%◌, ◌^◌, ◌≡◌, List, Option, some, sym, ap, ◌∙◌, subst, arith, length}
use iouring_go.Base.Int.{ℤ, pos}
use iouring_go.Base.Outcome.{done}
use iouring_go.Entry.{SubmitEntry}
use iouring_go.Queue.{SubmitQueue}
use iouring_go.Submit.{IsValid}
use iouring_go.Register.{Call}
use iouring_go.Setup.{Params, SqLayout, CqLayout, Result, ok}
use iouring_go.Ring.{Ring}
use iouring_go.Ops
use iouring_go.Ops.Requests.{Request, call, entry_of, HasBytes}
use iouring_go.Ops.Prepare.{IsReady}
use iouring_go.Ops.Published.{sqe_at, call-sqe_at}
use iouring_go.New.{RingOption, NewRing, Memory, plain, new}
use iouring_go.New.Opening.{
  last_of, id_of, Applies, failed, configured, Ends, no_ring, no_mapping, opened, new-Ends,
}

-- The kernel hands over queues of `2 ^ k` entries that are empty.
pub record IsFresh (k : ℕ) (memory : Memory) : Type 0 where
  pub valid : (sl : SqLayout) (cl : CqLayout) → IsValid k (memory sl cl).0
  pub empty : (sl : SqLayout) (cl : CqLayout) → (memory sl cl).0.head ≡ (memory sl cl).0.tail

ok-eq : {A : Type 0} {a b : A} → ok a ≡ ok b → a ≡ b
ok-eq h = cc

-- What is used of a ring that New has returned: its next id is that after `id`.
pub record IsOpen (k id : ℕ) (r : Ring) : Type 0 where
  pub idx : r.idx ≡ id
  pub ready : IsReady k r
  pub empty : r.sq.head ≡ r.sq.tail

sq-IsOpen :
    {k id size : ℕ} {r : Ring} (m : SubmitQueue)
    → r.idx ≡ id
    → r.sq ≡ record m { size = size; entered = 0; writes = 0 }
    → IsValid k m
    → m.head ≡ m.tail
    → IsOpen k id r
sq-IsOpen {k} {size} m i same v e =
    let n_entries = ap (λ s. length s.entries) same in
    record {
      idx = i;
      ready = record {
        valid = record {
          small = v.small;
          mask_ones = ap (λ s. s.mask) same ∙ v.mask_ones;
          n_entries = n_entries ∙ v.n_entries;
          n_array = ap (λ s. length s.array) same ∙ v.n_array;
        };
        free = ap (λ s. s.entered) same;
        room = omega (arith, ap (λ s. s.writes) same);
      };
      empty = ap (λ s. s.head) same ∙ e ∙ sym (ap (λ s. s.tail) same);
    }

IsOpen-call :
    {k id : ℕ} (r : Ring) (q : Request)
    → IsOpen k id r
    → HasBytes q
    → (e : SubmitEntry) × (r' : Ring) × (call 1 q r ≡ done (Ops.ok ((id + 1) % 2 ^ 64), r'))
      × (sqe_at k r'.sq r.sq.head ≡ some (entry_of q ((id + 1) % 2 ^ 64) e.anon0))
      × IsReady k r'
IsOpen-call {k} {id} r q o bytes =
    let (e, r', called, at, found, w, ready) =
      call-sqe_at k 0 r q o.ready bytes (ap (λ a. a % 2 ^ k) o.empty) in
    let next : (r.idx + 1) % 2 ^ 64 ≡ (id + 1) % 2 ^ 64 = ap (λ i. (i + 1) % 2 ^ 64) (o.idx) in
    (
      e,
      r',
      called ∙ ap (λ i. done (Ops.ok i, r')) next,
      found ∙ ap (λ i. some (entry_of q i e.anon0)) next,
      ready,
    )

module _ (syscall : Call → ℕ) (eventfd : ℕ → ℤ → Result ℤ) (memory : Memory) {k : ℕ}
    (fresh : IsFresh k memory) (opts : List RingOption) where
  Applies-IsOpen :
      (fd : ℕ) (p : Params) (sl : SqLayout) (cl : CqLayout) {res : Result NewRing} {n : NewRing}
      → Applies syscall eventfd opts (plain (pos fd) p sl cl (memory sl cl)) res
      → res ≡ ok n
      → IsOpen k (last_of id_of opts 0) n.ring
  unfolding plain
  Applies-IsOpen fd p sl cl (failed f) e = absurd cc
  Applies-IsOpen fd p sl cl (configured {n'} f c) e =
      subst (λ m. IsOpen k (last_of id_of opts 0) m.ring) (ok-eq e)
        (sq-IsOpen (memory sl cl).0 c.idx c.sq (fresh.valid sl cl) (fresh.empty sl cl))

module _ (syscall : Call → ℕ) (eventfd : ℕ → ℤ → Result ℤ) (setup_call : ℕ → Params → ℕ × ℕ)
    (filled : ℕ → Params → Params) (mmap : ℕ → ℕ → ℕ × ℕ) (memory : Memory) {k : ℕ}
    (fresh : IsFresh k memory) (opts : List RingOption) where
  pub Ends-IsOpen :
      {size : ℕ} {given : Option Params} {res : Result NewRing} {n : NewRing}
      → Ends syscall eventfd setup_call filled mmap memory size given opts res
      → res ≡ ok n
      → IsOpen k (last_of id_of opts 0) n.ring
  Ends-IsOpen (no_ring h) e = absurd cc
  Ends-IsOpen (no_mapping h h') e = absurd cc
  Ends-IsOpen (opened {sl} {cl} h h' a) e =
      Applies-IsOpen syscall eventfd memory fresh opts _ _ sl cl a e

  -- On a ring that New has returned, over empty queues as the kernel sets them up, a first Prepare call
  -- with slices that are not empty returns the id after that of the last WithID, or after 0, and the
  -- kernel finds the entry of the call; the ring can then be used on.
  pub new-call :
      (size : ℕ) (given : Option Params) (n : NewRing) (q : Request)
      → new syscall eventfd setup_call filled mmap memory size given opts ≡ ok n
      → HasBytes q
      → (e : SubmitEntry) × (r' : Ring) × (call 1 q n.ring
          ≡ done (Ops.ok ((last_of id_of opts 0 + 1) % 2 ^ 64), r'))
        × (sqe_at k r'.sq n.ring.sq.head
            ≡ some (entry_of q ((last_of id_of opts 0 + 1) % 2 ^ 64) e.anon0))
        × IsReady k r'
  new-call size given n q h bytes =
      IsOpen-call n.ring q
        (Ends-IsOpen (new-Ends syscall eventfd setup_call filled mmap memory size given opts) h)
        bytes
