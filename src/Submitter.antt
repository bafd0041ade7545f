-- ===== src/Submitter.antt =====
-- submitter.go: the goroutine that enters the ring once a deadline after the first request, for all the
-- requests since.
pub mod Flush
pub mod Stall
use iouring_go.Base.{ℕ, zero, suc, ◌+◌, ◌≡◌, Bool, true, false, if◌then◌else◌}
use iouring_go.Base.Int.{ℤ, pos, is_neg, ◌+ℤ◌, ◌-ℤ◌, to_i64}
use iouring_go.Base.Outcome.{Outcome, done, spin, panic}
use iouring_go.Ring.{Ring, Kernel, Result, ok, err, enter, enter_get_events}

-- The variables of run; `armed` says that the timer is running. `count`, which goes up by one a request,
-- is not followed to 2 ^ 63.
pub record Submitter : Type 0 where
  pub ring : Ring
  pub count : ℕ
  pub seen : ℤ
  pub timer_active : Bool
  pub armed : Bool

-- `newRingSubmitter` and the start of `run`, which stops the new timer.
unfoldable pub new_ring_submitter : Ring → Submitter
new_ring_submitter r = record {
  ring = r;
  count = 0;
  seen = pos 0;
  timer_active = false;
  armed = false;
}

-- `case <-s.work`, for one call of `submit`.
unfoldable pub work : Submitter → Submitter
work s =
    if s.timer_active
    then record s { count = s.count + 1 }
    else record s { count = s.count + 1; timer_active = true; armed = true }

-- `case <-s.done`: whether `run` returns; when the timer is not running it waits for a tick that
-- does not come.
unfoldable pub returns : Submitter → Bool
returns s = s.armed

module _ (kernel : Kernel) (fuel : ℕ) where
  -- From `enter:` on, a round for each time that Enter is called. An error leaves the rest as it is.
  unfoldable pub flush : ℕ → Submitter → Outcome Submitter
  unfolding enter
  flush zero s = spin
  flush (suc rounds) s = elim (enter kernel fuel s.count 0 enter_get_events s.ring) [
    | done (err e, r) ↦ done (record s { ring = r })
    | done (ok n, r) ↦
        let seen = to_i64 (s.seen +ℤ n) in
        let rest = flush rounds (record s { ring = r; seen = seen }) in
        if is_neg (seen -ℤ pos s.count)
        then rest
        else done (record s { ring = r; count = 0; seen = pos 0; timer_active = false })
    | spin ↦ spin
    | panic ↦ panic
  ]

  -- `case <-timer.C`
  unfoldable pub tick : ℕ → Submitter → Outcome Submitter
  unfolding flush
  tick rounds s = flush rounds (record s { armed = false })

  pub data Step (s : Submitter) : Submitter → Type 0 where
    worked : Step s (work s)
    ticked : (rounds : ℕ) {t : Submitter} → s.armed ≡ true → tick rounds s ≡ done t → Step s t
    changed : (r : Ring) → Step s (record s { ring = r })

  pub data Reach (s : Submitter) : Submitter → Type 0 where
    here : Reach s s
    later : {t u : Submitter} → Reach s t → Step t u → Reach s u
