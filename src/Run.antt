-- ===== src/Run.antt =====
-- ring.go: run, the loop that enters the ring for each request and hands out the completions, and
-- complete, which sends it a request and waits.
pub mod Tokens
pub mod Pending
pub mod Served
use iouring_go.Base.{
  ℕ, ◌+◌, ◌-◌, ◌≡◌, ◌≢◌, Bool, true, false, List, [], ◌∷◌, ◌++◌, Option, none, some, ◌==◌, ltb,
  if◌then◌else◌, length,
}
use iouring_go.Base.Int.{ℤ, pos}
use iouring_go.Base.Outcome.{Outcome, done, spin, panic}
use iouring_go.Ring.{Ring, Kernel, Result, ok, err, enter, enter_get_events}
use iouring_go.Completion.{CompletionRequest, Inflight, find, put, on_entry}
use iouring_go.Completion.Delivery.{IsValid}

-- The variables of run, with the requests that were signalled, oldest first, and the errors that the
-- handler was told. `retry` counts the tokens in the channel of that name, `blocked` says that the
-- loop waits for ever to put in another; `running` until run returns.
pub record Loop : Type 0 where
  pub ring : Ring
  pub inflight : Inflight
  pub delivered : List CompletionRequest
  pub errors : List ℕ
  pub retry : ℕ
  pub blocked : Bool
  pub running : Bool

unfoldable pub start : Ring → Loop
start r = record {
  ring = r;
  inflight = [];
  delivered = [];
  errors = [];
  retry = 0;
  blocked = false;
  running = true;
}

-- The capacity of the channel `retry`.
abbrev pub retry_room : ℕ
retry_room = 2

-- `complete`: the request that it sends, and what it returns once it is signalled.
unfoldable pub request_for : ℕ → CompletionRequest
request_for id = record { id = id; res = pos 0; flags = 0 }

unfoldable pub completed : ℕ → Loop → Option (ℤ × ℕ)
unfolding find
completed id l = elim (find id l.delivered) [ none ↦ none | some cr ↦ some (cr.res, cr.flags) ]

-- `r.onEntry(inflight, …)`
unfoldable pub hand_out : Loop → Outcome Loop
unfolding on_entry
hand_out l = elim (on_entry l.ring.cq l.inflight) [
  | done (w, cq') ↦ done (record l {
    ring = record (l.ring) { cq = cq' };
    inflight = w.inflight;
    delivered = l.delivered ++ w.delivered;
  })
  | spin ↦ spin
  | panic ↦ panic
]

-- `if len(inflight) > 0 { retry <- struct{}{} }`, where only the loop itself takes tokens out.
unfoldable pub send_retry : Loop → Loop
send_retry l =
    if length l.inflight == 0
    then l
    else if ltb l.retry retry_room
    then record l { retry = l.retry + 1 }
    else record l { blocked = true }

-- After Enter: an error goes to the handler.
abbrev pub heard : Loop → Result ℤ → Ring → Loop
heard l (ok n) r = record l { ring = r }
heard l (err e) r = record l { ring = r; errors = l.errors ++ e ∷ [] }

module _ (kernel : Kernel) (fuel : ℕ) where
  -- `r.Enter(uint(len(inflight)), 0, EnterGetEvents, nil)`
  unfoldable pub enter_for : Loop → Outcome Loop
  unfolding enter
  enter_for l = elim (enter kernel fuel (length l.inflight) 0 enter_get_events l.ring) [
    | done (res, r) ↦ done (heard l res r)
    | spin ↦ spin
    | panic ↦ panic
  ]

  -- The request in the map, and the ring entered.
  unfoldable pub take_in : CompletionRequest → Loop → Outcome Loop
  unfolding enter_for put
  take_in cr l = enter_for (record l { inflight = put cr l.inflight })

  -- `case cr := <-r.completions`
  unfoldable pub on_request : CompletionRequest → Loop → Outcome Loop
  unfolding take_in hand_out send_retry
  on_request cr l = elim (take_in cr l) [
    | done l' ↦ elim (hand_out l') [
      | done l'' ↦ done (send_retry l'')
      | spin ↦ spin
      | panic ↦ panic
    ]
    | spin ↦ spin
    | panic ↦ panic
  ]

  -- The inner select: a request, if one is waiting.
  unfoldable pub take_waiting : Option CompletionRequest → Loop → Outcome Loop
  unfolding take_in
  take_waiting none l = done l
  take_waiting (some cr) l = take_in cr l

  -- `case <-retry`, with the token taken.
  unfoldable pub on_retry : Option CompletionRequest → Loop → Outcome Loop
  unfolding take_waiting hand_out send_retry
  on_retry waiting l = elim (take_waiting waiting (record l { retry = l.retry - 1 })) [
    | done l' ↦ elim (hand_out l') [
      | done l'' ↦ done (send_retry l'')
      | spin ↦ spin
      | panic ↦ panic
    ]
    | spin ↦ spin
    | panic ↦ panic
  ]

  -- A turn of the loop, or a change of the ring by the kernel and the other goroutines, which keeps
  -- the sizes of the completion queue. `stopped` is `case <-r.stop`.
  pub data Step (k : ℕ) (l : Loop) : Loop → Type 0 where
    changed : (r : Ring) → IsValid k r.cq → Step k l (record l { ring = r })
    requested :
        (cr : CompletionRequest) {l' : Loop}
        → l.running ≡ true
        → l.blocked ≡ false
        → on_request cr l ≡ done l'
        → Step k l l'
    retried :
        (waiting : Option CompletionRequest) {l' : Loop}
        → l.running ≡ true
        → l.blocked ≡ false
        → l.retry ≢ 0
        → on_retry waiting l ≡ done l'
        → Step k l l'
    stopped : l.running ≡ true → l.blocked ≡ false → Step k l (record l { running = false })

  pub data Reach (k : ℕ) (l : Loop) : Loop → Type 0 where
    here : Reach k l l
    later : {l' l'' : Loop} → Reach k l l' → Step k l' l'' → Reach k l l''
