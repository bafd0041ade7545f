-- ===== src/Standalone/Ends.antt =====
-- examples/standalone/main.go: how main ends.
use iouring_go.Base.{
  ℕ, zero, suc, ◌+◌, ◌-◌, ◌/◌, ◌≡◌, refl, List, [], true, false, length, ◌≢◌, arith, none, some,
  Option, get_elem?, bit_and,
}
use iouring_go.Base.Int.{ℤ}
use iouring_go.Base.Outcome.{Outcome, done, spin, panic}
use iouring_go.Ring.{Result, ok, err}
use iouring_go.Setup
use iouring_go.Standalone.{CqLayout, mmap_ring}
use iouring_go.Standalone.Program.{
  Queues, Reading, Answer, Exit, goes, added, fatal, queue_up, collect, completed, round,
  then_round, read_twice,
}
use iouring_go.Standalone.Whole.{
  System, End, Collected, content, compared, mapped_ring, set_up, written, created, deferred, main,
  written-returns,
}

-- How main ends: with the file collected, by log.Fatal before there is a file or with the file left, or
-- in a panic, whose deferred call removes the file.
pub data Ends (s : System) : End → Type 0 where
  returned :
      {fd : ℤ}
      → s.created ≡ ok fd
      → Collected s fd
      → Ends s (record { outcome = done (goes tt); file_left = false })
  not_created :
      {e : ℕ} → s.created ≡ err e → Ends s (record { outcome = done fatal; file_left = false })
  left : {fd : ℤ} → s.created ≡ ok fd → Ends s (record { outcome = done fatal; file_left = true })
  panicked : {fd : ℤ} → s.created ≡ ok fd → Ends s (record { outcome = panic; file_left = false })

-- A run of two parts that do not spin does not.
parts-ends :
    {A B : Type 0} (o : Outcome A) (f : A → Outcome B)
    → o ≢ spin
    → ((a : A) → f a ≢ spin)
    → (elim o [ done a ↦ f a | spin ↦ spin | panic ↦ panic ]) ≢ spin
parts-ends (done a) f n m e = m a e
parts-ends spin f n m e = n refl
parts-ends panic f n m e = absurd cc

found-ends :
    {A B : Type 0} (o : Option A) (f : A → Outcome B)
    → ((a : A) → f a ≢ spin)
    → (elim o [ none ↦ panic | some a ↦ f a ]) ≢ spin
found-ends none f n e = absurd cc
found-ends (some a) f n e = n a e

collect-ends :
    (steps idx i : ℕ) (buffer : List ℕ) (r : Reading) → collect steps idx i buffer r ≢ spin
unfolding collect
collect-ends zero idx i buffer r e = absurd cc
collect-ends (suc steps) idx i buffer r e =
    found-ends (get_elem? r.queues.cq_entries idx)
      (λ c. collect steps (idx + 1) i buffer (added i buffer r c))
      (λ c. collect-ends steps (idx + 1) i buffer (added i buffer r c)) e

completed-ends : (i : ℕ) (a : Answer) (r : Reading) → completed i a r ≢ spin
unfolding completed
completed-ends i a r e =
    let q = a.queues in
    let from : ℕ = bit_and q.cq_head q.cq_mask in
    let n = collect-ends (q.cq_tail - from) from i a.buffer (record r { queues = q }) in
    ground (arith, n)

queue_up-ends :
    (i : ℕ) (fd : ℤ) (offset addr n : ℕ) (q : Queues) → queue_up i fd offset addr n q ≢ spin
unfolding queue_up
queue_up-ends i fd offset addr n q e = ground arith

module _ (kernel : Queues → Answer) (fd : ℤ) (addr : ℕ → ℕ) (content : List ℕ) where
  round-ends : (i : ℕ) (r : Reading) → round kernel fd addr content i r ≢ spin
  unfolding round
  round-ends i r =
      parts-ends (queue_up i fd r.offset (addr i) (length content / 2) r.queues)
        (λ q. completed i (kernel q) r)
        (queue_up-ends i fd r.offset (addr i) (length content / 2) r.queues)
        (λ q. completed-ends i (kernel q) r)

  then_round-ends : (i : ℕ) (x : Exit Reading) → then_round kernel fd addr content i x ≢ spin
  unfolding then_round
  then_round-ends i (goes r) e = round-ends i r e
  then_round-ends i fatal e = absurd cc

  read_twice-ends : (q : Queues) → read_twice kernel fd addr content q ≢ spin
  unfolding read_twice
  read_twice-ends q =
      let r : Reading = record { queues = q; offset = 0; ex_content = [] } in
      parts-ends (round kernel fd addr content 0 r) (then_round kernel fd addr content 1)
        (round-ends 0 r) (then_round-ends 1)

compared-ends : (o : Outcome (Exit Reading)) → o ≢ spin → compared o ≢ spin
unfolding compared
compared-ends (done (goes r)) n e = absurd cc
compared-ends (done fatal) n e = absurd cc
compared-ends spin n e = n refl
compared-ends panic n e = absurd cc

module _ (s : System) (fd : ℤ) where
  mapped_ring-ends : (m : Setup.Result (Setup.SqLayout × CqLayout)) → mapped_ring s fd m ≢ spin
  unfolding mapped_ring
  mapped_ring-ends (Setup.err x) e = absurd cc
  mapped_ring-ends (Setup.ok l) e =
      compared-ends (read_twice s.kernel fd s.addr content (s.view l))
        (read_twice-ends s.kernel fd s.addr content (s.view l)) e

  written-ends : (o o' : Result ℤ) → written s fd o o' ≢ spin
  unfolding written set_up
  written-ends (err x) o' e = absurd cc
  written-ends (ok n) (err x) e = absurd cc
  written-ends (ok n) (ok m) e = ground (arith, mapped_ring-ends (mmap_ring s.mmap s.params))

created-Ends :
    (s : System) {fd : ℤ} (o : Outcome (Exit (Unit {0})))
    → s.created ≡ ok fd
    → written s fd s.written s.sought ≡ o
    → o ≢ spin
    → Ends s (deferred o)
unfolding deferred
created-Ends s {fd} (done (goes tt)) c e n = returned c (written-returns s fd s.written s.sought e)
created-Ends s (done fatal) c e n = left c
created-Ends s spin c e n = absurd (n refl)
created-Ends s panic c e n = panicked c

-- Main always ends: with both reads collected and equal to what was written, when its file is removed;
-- by log.Fatal, which leaves the file if there is one; or in a panic, when the file is removed.
pub main-Ends : (s : System) → Ends s (main s)
unfolding main created
main-Ends s = of s.created refl
  where
    of : (o : Result ℤ) → s.created ≡ o → Ends s (created s o)
    of (err x) c = not_created c
    of (ok fd) c =
        let w = written s fd s.written s.sought in
        created-Ends s w c refl (written-ends s fd s.written s.sought)
