-- ===== src/Run/Tokens.antt =====
-- ring.go, run: the tokens that make the loop look again.
use iouring_go.Base.{
  ℕ, ◌-◌, ◌≤◌, ◌≡◌, ◌≢◌, refl, true, false, Option, none, some, length, arith, sym, ◌∙◌, subst, ap,
}
use iouring_go.Base.Outcome.{Outcome, parts, done, spin, panic}
use iouring_go.Ring.{Ring, Kernel}
use iouring_go.Completion.{CompletionRequest}
use iouring_go.Run.{
  Loop, start, hand_out, send_retry, enter_for, take_in, on_request, take_waiting, on_retry, Step,
  Reach, changed, requested, retried, stopped, here, later,
}

-- Unless the loop is blocked, what is in flight has a token, and the channel holds at most two.
pub record HasToken (l : Loop) : Type 0 where
  pub room : l.retry ≤ 2
  pub token : l.blocked ≡ false → length l.inflight ≢ 0 → 1 ≤ l.retry

-- A part of a turn that leaves the tokens alone.
pub record Keeps (l l' : Loop) : Type 0 where
  pub retry : l'.retry ≡ l.retry
  pub blocked : l'.blocked ≡ l.blocked

hand_out-Keeps : (l : Loop) {l' : Loop} → hand_out l ≡ done l' → Keeps l l'
unfolding hand_out
hand_out-Keeps l h = record { retry = ground arith; blocked = ground arith }

send_retry-HasToken : (l : Loop) → l.retry ≤ 2 → HasToken (send_retry l)
unfolding send_retry
send_retry-HasToken l h = ground arith

module _ (kernel : Kernel) (fuel : ℕ) where
  take_in-Keeps :
      (cr : CompletionRequest) (l : Loop) {l' : Loop}
      → take_in kernel fuel cr l ≡ done l'
      → Keeps l l'
  unfolding take_in enter_for
  take_in-Keeps cr l h = record { retry = ground arith; blocked = ground arith }

  take_waiting-Keeps :
      (o : Option CompletionRequest) (l : Loop) {l' : Loop}
      → take_waiting kernel fuel o l ≡ done l'
      → Keeps l l'
  unfolding take_waiting
  take_waiting-Keeps none l h = record { retry = ground arith; blocked = ground arith }
  take_waiting-Keeps (some cr) l h = take_in-Keeps cr l h

pub done-eq : {A : Type 0} {a b : A} → done a ≡ done b → a ≡ b
done-eq h = cc

-- The end of a turn: what is handed out, then the token.
abbrev pub finish_turn : Loop → Outcome Loop
finish_turn l = elim (hand_out l) [ done l' ↦ done (send_retry l') | spin ↦ spin | panic ↦ panic ]

finish_turn-HasToken : (l : Loop) {l' : Loop} → finish_turn l ≡ done l' → l.retry ≤ 2 → HasToken l'
finish_turn-HasToken l h b =
    let (m, e, ended) = parts (hand_out l) (λ l'. done (send_retry l')) h in
    let kept = hand_out-Keeps l e in
    subst HasToken (done-eq ended) (send_retry-HasToken m (omega (arith, kept.retry)))

module _ (kernel : Kernel) (fuel : ℕ) where
  on_request-HasToken :
      (cr : CompletionRequest) (l : Loop) {l' : Loop}
      → HasToken l
      → on_request kernel fuel cr l ≡ done l'
      → HasToken l'
  unfolding on_request
  on_request-HasToken cr l inv h =
      let (m, e, ended) = parts (take_in kernel fuel cr l) finish_turn h in
      let kept = take_in-Keeps kernel fuel cr l e in
      finish_turn-HasToken m ended (omega (arith, kept.retry, inv.room))

  on_retry-HasToken :
      (o : Option CompletionRequest) (l : Loop) {l' : Loop}
      → HasToken l
      → on_retry kernel fuel o l ≡ done l'
      → HasToken l'
  unfolding on_retry
  on_retry-HasToken o l inv h =
      let less : Loop = record l { retry = l.retry - 1 } in
      let (m, e, ended) = parts (take_waiting kernel fuel o less) finish_turn h in
      let kept = take_waiting-Keeps kernel fuel o less e in
      finish_turn-HasToken m ended (omega (arith, kept.retry, inv.room))

  Step-HasToken : {k : ℕ} {l l' : Loop} → Step kernel fuel k l l' → HasToken l → HasToken l'
  Step-HasToken (changed r v) inv = record { room = inv.room; token = inv.token }
  Step-HasToken {l = l} (requested cr on b h) inv = on_request-HasToken cr l inv h
  Step-HasToken {l = l} (retried o on b has h) inv = on_retry-HasToken o l inv h
  Step-HasToken (stopped on b) inv = record { room = inv.room; token = inv.token }

start-HasToken : (r : Ring) → HasToken (start r)
unfolding start
start-HasToken r = record { room = omega arith; token = λ b n. absurd (n refl) }

Reach-HasToken :
    {kernel : Kernel} {fuel k : ℕ} {l l' : Loop}
    → HasToken l
    → Reach kernel fuel k l l'
    → HasToken l'
Reach-HasToken inv here = inv
Reach-HasToken {kernel} {fuel} inv (later reach st) =
    Step-HasToken kernel fuel st (Reach-HasToken inv reach)

-- In every state that the loop comes to from its start, if it is not blocked and a request is in
-- flight, one token or two wait in the channel, which make a loop that runs look again.
pub Reach-retry :
    (kernel : Kernel) (fuel k : ℕ) (r : Ring) (l : Loop)
    → Reach kernel fuel k (start r) l
    → l.blocked ≡ false
    → length l.inflight ≢ 0
    → (1 ≤ l.retry) × (l.retry ≤ 2)
Reach-retry kernel fuel k r l reach free waiting =
    let inv = Reach-HasToken (start-HasToken r) reach in (inv.token free waiting, inv.room)

-- What a blocked loop never changes again.
pub record Stuck (m n : Loop) : Type 0 where
  pub blocked : n.blocked ≡ true
  pub delivered : n.delivered ≡ m.delivered
  pub inflight : n.inflight ≡ m.inflight

Reach-Stuck :
    {kernel : Kernel} {fuel k : ℕ} {m n : Loop}
    → m.blocked ≡ true
    → Reach kernel fuel k m n
    → Stuck m n
Reach-Stuck b here = record { blocked = b; delivered = refl; inflight = refl }
Reach-Stuck b (later r st) = let s = Reach-Stuck b r in go st s
  where
    go :
        {kernel : Kernel} {fuel k : ℕ} {m l n : Loop}
        → Step kernel fuel k l n
        → Stuck m l
        → Stuck m n
    go (changed r v) s = record {
      blocked = s.blocked;
      delivered = s.delivered;
      inflight = s.inflight;
    }
    go (requested cr on free h) s = absurd (ground (arith, s.blocked))
    go (retried o on free has h) s = absurd (ground (arith, s.blocked))
    go (stopped on free) s = absurd (ground (arith, s.blocked))

send_retry-full : (l : Loop) → l.retry ≡ 2 → length l.inflight ≢ 0 → (send_retry l).blocked ≡ true
unfolding send_retry
send_retry-full l full left = ground arith

send_retry-inflight : (l : Loop) → (send_retry l).inflight ≡ l.inflight
unfolding send_retry
send_retry-inflight l = ground arith

-- A request that is taken in while two tokens wait, and leaves something in flight, blocks the loop:
-- from then on, whatever the kernel completes, nothing is handed out any more.
pub request_blocks :
    (kernel : Kernel) (fuel k : ℕ) (cr : CompletionRequest) (l m n : Loop)
    → l.retry ≡ 2
    → on_request kernel fuel cr l ≡ done m
    → length m.inflight ≢ 0
    → Reach kernel fuel k m n
    → Stuck m n
unfolding on_request
request_blocks kernel fuel k cr l m n full h left reach =
    let (a, e, ended) = parts (take_in kernel fuel cr l) finish_turn h in
    let (b, e', ended') = parts (hand_out a) (λ l'. done (send_retry l')) ended in
    let kept = take_in-Keeps kernel fuel cr l e in
    let kept' = hand_out-Keeps a e' in
    let same : send_retry b ≡ m = done-eq ended' in
    Reach-Stuck
      (ap Loop.blocked (sym same)
        ∙ send_retry-full b (omega (arith, kept.retry, kept'.retry)) (λ z.
          left (
            ap (λ l. length (Loop.inflight l)) (sym same) ∙ ap length (send_retry-inflight b) ∙ z)))
      reach
