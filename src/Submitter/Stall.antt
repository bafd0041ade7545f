-- ===== src/Submitter/Stall.antt =====
-- submitter.go, run: what an error of Enter leaves.
use iouring_go.Base.{ℕ, suc, ◌≤◌, ◌≡◌, true, false, arith}
use iouring_go.Base.Outcome.{done}
use iouring_go.Ring.{Ring, Kernel, err, enter, enter_get_events}
use iouring_go.Submitter.{
  Submitter, work, returns, flush, tick, Step, Reach, worked, ticked, changed, here, later,
}

-- The timer does not run and is not started again, and `n` requests wait.
pub record IsStalled (n : ℕ) (s : Submitter) : Type 0 where
  pub stopped : s.armed ≡ false
  pub active : s.timer_active ≡ true
  pub waiting : n ≤ s.count
  pub no_return : returns s ≡ false

Step-IsStalled :
    {kernel : Kernel} {fuel n : ℕ} {s t : Submitter}
    → Step kernel fuel s t
    → IsStalled n s
    → IsStalled n t
unfolding work returns
Step-IsStalled {s = s} worked i = record {
  stopped = ground (arith, i.stopped, i.active);
  active = ground (arith, i.active);
  waiting = ground (arith, i.waiting, i.active);
  no_return = ground (arith, i.stopped, i.active);
}
Step-IsStalled (ticked rounds a h) i = absurd (ground (arith, i.stopped))
Step-IsStalled (changed r) i = record {
  stopped = i.stopped;
  active = i.active;
  waiting = i.waiting;
  no_return = i.no_return;
}

Reach-IsStalled :
    {kernel : Kernel} {fuel n : ℕ} {s t : Submitter}
    → IsStalled n s
    → Reach kernel fuel s t
    → IsStalled n t
Reach-IsStalled i here = i
Reach-IsStalled i (later r st) = Step-IsStalled st (Reach-IsStalled i r)

-- When Enter fails in the first round after a tick, the requests counted until then are never
-- submitted: in every later state they still wait, the timer does not run, so that no tick
-- follows, and a stop does not make `run` return.
pub failed_tick-IsStalled :
    (kernel : Kernel) (fuel rounds e : ℕ) (s t u : Submitter) (r : Ring)
    → s.timer_active ≡ true
    → enter kernel fuel s.count 0 enter_get_events s.ring ≡ done (err e, r)
    → tick kernel fuel (suc rounds) s ≡ done t
    → Reach kernel fuel t u
    → IsStalled s.count u
unfolding tick flush returns
failed_tick-IsStalled kernel fuel rounds e s t u r active failed h reach =
    let same : t ≡ record s { armed = false; ring = r } = ground arith in
    Reach-IsStalled
      (record {
        stopped = ground arith;
        active = ground arith;
        waiting = ground arith;
        no_return = ground arith;
      })
      reach
