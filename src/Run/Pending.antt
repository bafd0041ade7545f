-- ===== src/Run/Pending.antt =====
-- ring.go, run: a request that was taken in stays in flight until it is signalled.
use iouring_go.Base.{
  ℕ, ◌-◌, ◌≡◌, refl, ap, sym, ◌∙◌, subst, ◌++◌, Option, none, some, ◌==◌, length, arith, inl, inr,
  Option-cases, Bool-cases,
}
use iouring_go.Base.Int.{ℤ}
use iouring_go.Base.Outcome.{parts, done}
use iouring_go.Entry.{CompletionEntry}
use iouring_go.Queue.{SubmitQueue, CompletionQueue}
use iouring_go.Ring.{Ring, Kernel, EnterCall, Result, ok, err, enter, enter_get_events}
use iouring_go.Ring.Entering.{enter-cq}
use iouring_go.Completion.{CompletionRequest, answered, find, put}
use iouring_go.Completion.Walk.{find-append, find-delete, or_else, left, given, answer}
use iouring_go.Completion.Delivery.{IsValid, window, on_entry-Delivers}
use iouring_go.Run.{
  Loop, heard, hand_out, send_retry, enter_for, take_in, on_request, take_waiting, on_retry, Step,
  Reach, changed, requested, retried, stopped, here, later,
}
use iouring_go.Run.Tokens.{finish_turn, done-eq}

-- A request is in flight, or it was signalled.
pub data Known (id : ℕ) (l : Loop) : Type 0 where
  waiting : (cr : CompletionRequest) → find id l.inflight ≡ some cr → Known id l
  signalled : (cr : CompletionRequest) → find id l.delivered ≡ some cr → Known id l

-- The kernel keeps the sizes of the completion queue.
abbrev pub Keeps : ℕ → Kernel → Type 0
Keeps k kernel =
    (c : EnterCall) (sq : SubmitQueue) (cq : CompletionQueue)
    → IsValid k cq
    → IsValid k (kernel c sq cq).cq

pub record Good (k id : ℕ) (l : Loop) : Type 0 where
  pub valid : IsValid k l.ring.cq
  pub known : Known id l

still-Known :
    (id : ℕ) (l l' : Loop) (a : Option CompletionEntry)
    → find id l'.inflight ≡ left a (find id l.inflight)
    → find id l'.delivered ≡ or_else (find id l.delivered) (given a (find id l.inflight))
    → Known id l
    → Known id l'
still-Known id l l' none i d (waiting cr e) = waiting cr (ground arith)
still-Known id l l' (some c) i d (waiting cr e) = elim (Option-cases (find id l.delivered)) [
  | inl n ↦ signalled (answered cr c) (ground arith)
  | inr (x, n) ↦ signalled x (ground arith)
]
still-Known id l l' a i d (signalled cr e) = signalled cr (ground arith)

hand_out-Good :
    {k id : ℕ} (l : Loop) {l' : Loop} → Good k id l → hand_out l ≡ done l' → Good k id l'
unfolding hand_out
hand_out-Good {k} {id} l {l'} g h =
    let (w, cq', e, d) = on_entry-Delivers k l.ring.cq l.inflight g.valid in
    let m : Loop = record l {
      ring = record (l.ring) { cq = cq' };
      inflight = w.inflight;
      delivered = l.delivered ++ w.delivered;
    } in
    let same : m ≡ l' = ground arith in
    subst (Good k id) same (record {
      valid = record {
        small = g.valid.small;
        mask_ones = d.mask_kept ∙ g.valid.mask_ones;
        n_entries = ap length d.entries_kept ∙ g.valid.n_entries;
      };
      known =
          still-Known id l m (answer id (window k l.ring.cq)) (d.still id)
            (find-append id l.delivered w.delivered ∙ ap (or_else (find id l.delivered)) (d.got id))
            g.known;
    })

-- A part of a turn that does not look at the completions.
pub record Same (l l' : Loop) : Type 0 where
  pub inflight : l'.inflight ≡ l.inflight
  pub delivered : l'.delivered ≡ l.delivered

Same-Known : {id : ℕ} {l l' : Loop} → Same l l' → Known id l → Known id l'
Same-Known {id} s (waiting cr e) = waiting cr (ap (find id) s.inflight ∙ e)
Same-Known {id} s (signalled cr e) = signalled cr (ap (find id) s.delivered ∙ e)

send_retry-Good : {k id : ℕ} (l : Loop) → Good k id l → Good k id (send_retry l)
unfolding send_retry
send_retry-Good {k} l g = record {
  valid = subst (IsValid k) ring g.valid;
  known = Same-Known (record { inflight = ground arith; delivered = ground arith }) g.known;
}
  where
    ring : l.ring.cq ≡ (send_retry l).ring.cq
    ring = ground arith

finish_turn-Good :
    {k id : ℕ} (l : Loop) {l' : Loop} → Good k id l → finish_turn l ≡ done l' → Good k id l'
finish_turn-Good {k} {id} l g h =
    let (m, e, ended) = parts (hand_out l) (λ l'. done (send_retry l')) h in
    subst (Good k id) (done-eq ended) (send_retry-Good m (hand_out-Good l g e))

heard-Same : (l : Loop) (res : Result ℤ) (r : Ring) → Same l (heard l res r)
heard-Same l (ok n) r = record { inflight = refl; delivered = refl }
heard-Same l (err e) r = record { inflight = refl; delivered = refl }

heard-ring : (l : Loop) (res : Result ℤ) (r : Ring) → (heard l res r).ring ≡ r
heard-ring l (ok n) r = refl
heard-ring l (err e) r = refl

module _ (kernel : Kernel) (fuel : ℕ) {k : ℕ} (keeps : Keeps k kernel) where
  enter_for-Good :
      {id : ℕ} (l : Loop) {l' : Loop}
      → Good k id l
      → enter_for kernel fuel l ≡ done l'
      → Good k id l'
  unfolding enter_for
  enter_for-Good {id} l {l'} g h =
      let ((res, r), e, ended) =
        parts (enter kernel fuel (length l.inflight) 0 enter_get_events l.ring)
          (λ x. done (heard l x.0 x.1)) h in
      let (c, sq, from) =
        enter-cq kernel fuel (length l.inflight) 0 enter_get_events l.ring res r e in
      subst (Good k id) (done-eq ended) (record {
        valid =
            subst (IsValid k) (sym (ap (λ x. Ring.cq x) (heard-ring l res r) ∙ from))
              (keeps c sq l.ring.cq g.valid);
        known = Same-Known (heard-Same l res r) g.known;
      })

  put-Known :
      (id : ℕ) (cr : CompletionRequest) (l : Loop)
      → Known id l
      → Known id (record l { inflight = put cr l.inflight })
  unfolding put find
  put-Known id cr l (signalled c e) = signalled c e
  put-Known id cr l (waiting c e) = elim (Bool-cases (cr.id == id)) [
    | inl p ↦ waiting cr (ground arith)
    | inr p ↦ waiting c (ground (arith, find-delete id cr.id l.inflight))
  ]

  take_in-Good :
      {id : ℕ} (cr : CompletionRequest) (l : Loop) {l' : Loop}
      → Good k id l
      → take_in kernel fuel cr l ≡ done l'
      → Good k id l'
  unfolding take_in
  take_in-Good {id} cr l g h =
      enter_for-Good (record l { inflight = put cr l.inflight })
        (record { valid = g.valid; known = put-Known id cr l g.known }) h

  -- A request that is taken in is known, whatever was known before.
  take_in-new :
      (cr : CompletionRequest) (l : Loop) {l' : Loop}
      → IsValid k l.ring.cq
      → take_in kernel fuel cr l ≡ done l'
      → Good k cr.id l'
  unfolding take_in put find
  take_in-new cr l v h =
      enter_for-Good (record l { inflight = put cr l.inflight })
        (record { valid = v; known = waiting cr (ground arith) }) h

  take_waiting-Good :
      {id : ℕ} (o : Option CompletionRequest) (l : Loop) {l' : Loop}
      → Good k id l
      → take_waiting kernel fuel o l ≡ done l'
      → Good k id l'
  unfolding take_waiting
  take_waiting-Good {id} none l g h = subst (Good k id) (done-eq h) g
  take_waiting-Good (some cr) l g h = take_in-Good cr l g h

  Step-Good : {id : ℕ} {l l' : Loop} → Step kernel fuel k l l' → Good k id l → Good k id l'
  unfolding on_request on_retry
  Step-Good (changed r v) g = record {
    valid = v;
    known = Same-Known (record { inflight = refl; delivered = refl }) g.known;
  }
  Step-Good {l = l} (requested cr on b h) g =
      let (m, e, ended) = parts (take_in kernel fuel cr l) finish_turn h in
      finish_turn-Good m (take_in-Good cr l g e) ended
  Step-Good {l = l} (retried o on b has h) g =
      let less : Loop = record l { retry = l.retry - 1 } in
      let (m, e, ended) = parts (take_waiting kernel fuel o less) finish_turn h in
      finish_turn-Good m
        (take_waiting-Good o less
          (record {
            valid = g.valid;
            known = Same-Known (record { inflight = refl; delivered = refl }) g.known;
          })
          e)
        ended
  Step-Good (stopped on b) g = record {
    valid = g.valid;
    known = Same-Known (record { inflight = refl; delivered = refl }) g.known;
  }

  Reach-Good : {id : ℕ} {l l' : Loop} → Good k id l → Reach kernel fuel k l l' → Good k id l'
  Reach-Good g here = g
  Reach-Good g (later r st) = Step-Good st (Reach-Good g r)

-- Once the loop has taken in a request, on a valid completion queue whose sizes the kernel keeps, its
-- id is in flight or was signalled in every state that follows.
pub request-Known :
    (kernel : Kernel) (fuel k : ℕ) (cr : CompletionRequest) (l m n : Loop)
    → Keeps k kernel
    → IsValid k l.ring.cq
    → on_request kernel fuel cr l ≡ done m
    → Reach kernel fuel k m n
    → Known cr.id n
unfolding on_request
request-Known kernel fuel k cr l m n keeps v h reach =
    let (a, e, ended) = parts (take_in kernel fuel cr l) finish_turn h in
    (Reach-Good kernel fuel keeps
      (finish_turn-Good a (take_in-new kernel fuel keeps cr l v e) ended) reach).known
