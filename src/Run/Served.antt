-- ===== src/Run/Served.antt =====
-- ring.go, run and complete, after a Prepare function of ops.go: a request from its entry to its result.
use iouring_go.Base.{
  ℕ, suc, ◌+◌, ◌%◌, ◌^◌, ◌≡◌, refl, ap, sym, ◌∙◌, ◌++◌, List, none, some, length, arith, subst,
}
use iouring_go.Base.Int.{ℤ}
use iouring_go.Base.Outcome.{done}
use iouring_go.Entry.{SubmitEntry, CompletionEntry}
use iouring_go.Queue.{SubmitQueue, CompletionQueue}
use iouring_go.Ring
use iouring_go.Ring.{Ring, Kernel, EnterCall, Result, enter_get_events}
use iouring_go.Ring.Entering.{answer_of, call_of, enter-Returned}
use iouring_go.Completion.{Inflight, find, put}
use iouring_go.Completion.Walk.{find-append, answer}
use iouring_go.Completion.Delivery.{IsValid, window, on_entry-Delivers}
use iouring_go.Ops.{ok}
use iouring_go.Ops.Requests.{Request, call, entry_of, HasBytes}
use iouring_go.Ops.Prepare.{IsReady, after}
use iouring_go.Ops.Published.{sqe_at, sqe_at-after}
use iouring_go.Ops.Encoding.{call-after}
use iouring_go.Submit.Slots.{slot_present}
use iouring_go.Run.{
  Loop, heard, request_for, completed, hand_out, send_retry, enter_for, take_in, on_request,
}

-- A kernel that, once it is entered with the entry of a request next in the queue, has a completion `c`
-- for its id in the window.
abbrev pub Serves : Kernel → ℕ → ℕ → Request → ℕ → CompletionEntry → Type 0
Serves kernel k kc q id c =
    (e : EnterCall) (sq : SubmitQueue) (cq : CompletionQueue) (anon : List ℕ)
    → sqe_at k sq sq.head ≡ some (entry_of q id anon)
    → IsValid kc (kernel e sq cq).cq × (answer id (window kc (kernel e sq cq).cq) ≡ some c)

-- What a turn of the loop has signalled for an id, and that it is not in flight any more.
pub record Signalled (id : ℕ) (c : CompletionEntry) (l : Loop) : Type 0 where
  pub result : completed id l ≡ some (c.res, c.flags)
  pub settled : find id l.inflight ≡ none

find-put : (id : ℕ) (m : Inflight) → find id (put (request_for id) m) ≡ some (request_for id)
unfolding find put request_for
find-put id m = ground arith

-- The end of a turn, for a request that is in flight and whose completion is in the window.
hand_out-Signalled :
    {kc id : ℕ} {c : CompletionEntry} (l : Loop)
    → IsValid kc l.ring.cq
    → answer id (window kc l.ring.cq) ≡ some c
    → find id l.inflight ≡ some (request_for id)
    → find id l.delivered ≡ none
    → (l' : Loop) × (hand_out l ≡ done l') × Signalled id c (send_retry l')
unfolding hand_out send_retry completed request_for
hand_out-Signalled {kc} {id} {c} l v a waits fresh =
    let (w, cq', h, d) = on_entry-Delivers kc l.ring.cq l.inflight v in
    let l' : Loop = record l {
      ring = record (l.ring) { cq = cq' };
      inflight = w.inflight;
      delivered = l.delivered ++ w.delivered;
    } in
    (
      l',
      ground (arith, h),
      record {
        result = ground (arith, find-append id l.delivered w.delivered, d.got id, a, waits, fresh);
        settled = ground (arith, d.still id, a, waits);
      },
    )

-- The ring after Enter, for a number of requests.
abbrev entered_with : Kernel → ℕ → Ring → Ring
entered_with kernel n r =
    let a = answer_of kernel n 0 enter_get_events r in
    record r { sq = record (a.sq) { entered = 0 }; cq = a.cq }

module _ (kernel : Kernel) where
  -- The loop takes the request in: the ring is entered, with an error or without.
  take_in-at :
      (fuel id : ℕ) (l : Loop)
      → l.ring.sq.entered ≡ 0
      → (res : Result ℤ) × (take_in kernel (suc fuel) (request_for id) l
          ≡ done (
              heard
                (record l { inflight = put (request_for id) l.inflight })
                res
                (entered_with kernel (length (put (request_for id) l.inflight)) l.ring)))
  unfolding take_in enter_for
  take_in-at fuel id l free =
      let n : ℕ = length (put (request_for id) l.inflight) in
      let (res, h, ret) = enter-Returned kernel fuel n 0 enter_get_events l.ring free in
      (res, ground (arith, h))

heard-parts :
    (l : Loop) (res : Result ℤ) (r : Ring)
    → ((heard l res r).ring ≡ r)
      × ((heard l res r).inflight ≡ l.inflight)
      × ((heard l res r).delivered ≡ l.delivered)
heard-parts l (Ring.ok n) r = (refl, refl, refl)
heard-parts l (Ring.err e) r = (refl, refl, refl)

module _ (kernel : Kernel) (k : ℕ) {kc : ℕ} (q : Request) {c : CompletionEntry} where
  on_request-Signalled :
      (fuel id : ℕ) (l : Loop) (anon : List ℕ)
      → Serves kernel k kc q id c
      → l.ring.sq.entered ≡ 0
      → sqe_at k l.ring.sq l.ring.sq.head ≡ some (entry_of q id anon)
      → find id l.delivered ≡ none
      → (l' : Loop) × (on_request kernel (suc fuel) (request_for id) l ≡ done l')
        × Signalled id c l'
  unfolding on_request
  on_request-Signalled fuel id l anon serves free found fresh =
      let (res, h) = take_in-at kernel fuel id l free in
      let n : ℕ = length (put (request_for id) l.inflight) in
      let r : Ring = entered_with kernel n l.ring in
      let m : Loop = heard (record l { inflight = put (request_for id) l.inflight }) res r in
      let (same, flying, told) =
        heard-parts (record l { inflight = put (request_for id) l.inflight }) res r in
      let (v, a) =
        serves (call_of n 0 enter_get_events l.ring) (record (l.ring.sq) { entered = 1 }) l.ring.cq
          anon found in
      let (l', h', s) =
        hand_out-Signalled {kc = kc} {id = id} {c = c} m
          (subst (λ x. IsValid kc (Ring.cq x)) (sym same) v)
          (ap (λ x. answer id (window kc (Ring.cq x))) same ∙ a)
          (ap (find id) flying ∙ find-put id l.inflight) (ap (find id) told ∙ fresh) in
      (send_retry l', ground (arith, h, h'), s)

-- A Prepare call, with slices that are not empty, on the ready and emptied ring of a loop, followed by
-- `complete` for the id that it returns, which was not signalled before: the first turn of the loop
-- enters the ring, and with a kernel that then has a completion for the request, `complete` returns the
-- result and the flags of that completion, and the request is settled.
pub call-Signalled :
    (kernel : Kernel) (k kc fuel : ℕ) (l : Loop) (q : Request) (c : CompletionEntry)
    → IsReady k l.ring
    → HasBytes q
    → l.ring.sq.head % 2 ^ k ≡ l.ring.sq.tail % 2 ^ k
    → find ((l.ring.idx + 1) % 2 ^ 64) l.delivered ≡ none
    → Serves kernel k kc q ((l.ring.idx + 1) % 2 ^ 64) c
    → (id : ℕ) × (r : Ring) × (l' : Loop) × (call (suc fuel) q l.ring ≡ done (ok id, r))
      × (on_request kernel (suc fuel) (request_for id) (record l { ring = r }) ≡ done l')
      × Signalled id c l'
call-Signalled kernel k kc fuel l q c ready bytes drained fresh serves =
    let id : ℕ = (l.ring.idx + 1) % 2 ^ 64 in
    let (e, at) = slot_present ready.valid in
    let e' : SubmitEntry = entry_of q id e.anon0 in
    let r : Ring = after k l.ring e' in
    let (l', h, s) =
      on_request-Signalled kernel k q fuel id (record l { ring = r }) e.anon0 serves ready.free
        (sqe_at-after ready e' drained) fresh in
    (id, r, l', call-after ready fuel q bytes at, h, s)
