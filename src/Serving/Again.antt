-- ===== src/Serving/Again.antt =====
-- conn.go: a completion for the listening socket at the head of the queue, turn after turn.
use iouring_go.Base.{
  ℕ, zero, suc, ◌+◌, ◌-◌, ◌^◌, ◌<◌, ◌≤◌, ◌≡◌, refl, ap, ◌∙◌, false, List, [], ◌∷◌, ◌++◌, Option,
  none, some, bit_and, length, get_elem?, set, take, drop, arith, length-append, length-set,
  get_elem?-set_self, lt_of_get,
}
use native.Mathlib.Nat.{mod-le}
use iouring_go.Base.Bits.{bit_and_mask}
use iouring_go.Base.Int.{ℤ}
use iouring_go.Base.Outcome.{Outcome, done, spin, panic}
use iouring_go.Entry.{CompletionEntry}
use iouring_go.Queue.{SubmitQueue, CompletionQueue}
use iouring_go.Lookup.{marked}
use iouring_go.Ring.{Ring, Kernel, EnterCall, enter_get_events}
use iouring_go.Ring.Entering.{answer_of, call_of, enter-Returned}
use iouring_go.Ops.Prepare.{IsReady}
use iouring_go.Connection.Answering.{IsHonest, entered}
use iouring_go.Connection.Polling.{entered-IsReady}
use iouring_go.Listener.{Conn, Conns, conn_of, look, mark, walk_cq}
use iouring_go.Listener.Polls.{polled-IsReady}
use iouring_go.Serving.{
  RingListener, out_of_range, Accepted, Turn, ended, going, waiting, deliver, accepted, with_r,
  heard, after_enter, round,
}
use iouring_go.Serving.Rounds.{walked-IsReady, with_walked, welcomed_on, welcome-welcomed}

-- The entry at the head `h` is for a connection of the map, and the tail stands behind it.
pub record Standing (k h : ℕ) (conns : Conns) (conn : Conn) (cq : CompletionQueue) : Type 0 where
  pub entry : CompletionEntry
  pub head : cq.head ≡ h
  pub mask_ones : cq.mask ≡ 2 ^ k - 1
  pub at : get_elem? cq.entries (bit_and cq.head cq.mask) ≡ some entry
  pub named : conn_of entry.user_data conns ≡ some conn
  pub behind : bit_and cq.head cq.mask < bit_and cq.tail cq.mask
  pub fits : bit_and cq.tail cq.mask < length cq.entries

get_elem?-take_lt :
    (n i : ℕ) (xs : List CompletionEntry) {c : CompletionEntry}
    → i < n
    → get_elem? xs i ≡ some c
    → get_elem? (take n xs) i ≡ some c
get_elem?-take_lt zero i xs lt h = absurd (omega (arith, lt))
get_elem?-take_lt (suc n) i [] lt h = cc
get_elem?-take_lt (suc n) zero (x ∷ xs) lt h = h
get_elem?-take_lt (suc n) (suc i) (x ∷ xs) lt h = get_elem?-take_lt n i xs (omega (arith, lt)) h

drop-at :
    (i : ℕ) (xs : List CompletionEntry) {c : CompletionEntry}
    → get_elem? xs i ≡ some c
    → drop i xs ≡ c ∷ drop (suc i) xs
drop-at i [] h = cc
drop-at zero (x ∷ xs) h = ground arith
drop-at (suc i) (x ∷ xs) h = drop-at i xs h

look-first :
    (i : ℕ) (c : CompletionEntry) (rest : List CompletionEntry) (conns : Conns) (conn : Conn)
    → conn_of c.user_data conns ≡ some conn
    → look i (c ∷ rest) i false conns ≡ some (i, i, conn)
unfolding look
look-first i c rest conns conn h = ground (arith, h)

-- The queue after a walk that finds it.
abbrev pub marked_at : CompletionQueue → CompletionEntry → CompletionQueue
marked_at cq c = record cq { entries = set cq.entries (bit_and cq.head cq.mask) (marked c) }

module _ {k h : ℕ} {conns : Conns} {conn : Conn} where
  pub walk_cq-again :
      (cq : CompletionQueue) (s : Standing k h conns conn cq)
      → walk_cq cq conns ≡ done (some conn, marked_at cq s.entry)
  unfolding walk_cq mark
  walk_cq-again cq s =
      let i : ℕ = bit_and cq.head cq.mask in
      let t : ℕ = bit_and cq.tail cq.mask in
      let low : i ≤ cq.head =
        omega (
          arith,
          ap (bit_and cq.head) s.mask_ones,
          bit_and_mask k cq.head,
          mod-le cq.head (2 ^ k),
        ) in
      let found : look i (drop i (take (suc t) cq.entries)) i false conns ≡ some (i, i, conn) =
        ap (λ es. look i es i false conns)
          (drop-at i (take (suc t) cq.entries)
            (get_elem?-take_lt (suc t) i cq.entries (omega (arith, s.behind)) s.at))
        ∙ look-first i s.entry (drop (suc i) (take (suc t) cq.entries)) conns conn s.named in
      ground (arith, s.behind, found, s.at, low)

  marked-Standing :
      (cq : CompletionQueue) (s : Standing k h conns conn cq)
      → Standing k h conns conn (marked_at cq s.entry)
  marked-Standing cq s =
      let i : ℕ = bit_and cq.head cq.mask in
      record {
        entry = marked s.entry;
        head = s.head;
        mask_ones = s.mask_ones;
        at = get_elem?-set_self cq.entries i (marked s.entry) (lt_of_get cq.entries i s.at);
        named = s.named;
        behind = s.behind;
        fits = omega (arith, s.fits, length-set cq.entries i (marked s.entry));
      }

deliver_room :
    (c : Accepted) (l : RingListener)
    → length l.new_conn < 1024
    → deliver c l ≡ record l { new_conn = l.new_conn ++ c ∷ [] }
unfolding deliver
deliver_room c l room = ground (arith, room)

debug_off : (r : Ring) → r.debug ≡ false → out_of_range r ≡ false
unfolding out_of_range
debug_off r e = ground (arith, e)

module _ (kernel : Kernel) (accept : ℤ → Option ℤ) (peer : ℤ → List ℕ) (conns : Conns) where
  -- Turns of the loop, until one does not go on.
  unfoldable pub turns : ℕ → ℕ → RingListener → Outcome (Turn × RingListener)
  turns fuel zero l = done (going, l)
  turns fuel (suc n) l = elim (round kernel fuel accept peer conns l) [
    | done (going, l') ↦ turns fuel n l'
    | done (ended, l') ↦ done (ended, l')
    | done (waiting, l') ↦ done (waiting, l')
    | spin ↦ spin
    | panic ↦ panic
  ]

  -- A listener in the middle of its work.
  record Works (k m h : ℕ) (conn : Conn) (l : RingListener) : Type 0 where
    ready : IsReady k l.r
    standing : Standing m h conns conn l.r.cq
    running : l.stopped ≡ false
    free : l.sending ≡ none
    silent : l.r.debug ≡ false

  module _ {k m h : ℕ} {conn : Conn} {fd : ℤ} (honest : IsHonest k kernel)
      (takes : (c : EnterCall) (sq : SubmitQueue) (cq : CompletionQueue)
        → (kernel c sq cq).errno ≡ 0)
      (keeps : (c : EnterCall) (sq : SubmitQueue) (cq : CompletionQueue)
        → Standing m h conns conn cq
        → Standing m h conns conn (kernel c sq cq).cq)
      (accepts : accept conn.fd ≡ some fd) where
    one_turn :
        (fuel : ℕ) (l : RingListener)
        → Works k m h conn l
        → length l.new_conn < 1024
        → (l' : RingListener) × (round kernel (suc fuel) accept peer conns l ≡ done (going, l'))
          × Works k m h conn l'
          × (length l'.new_conn ≡ length l.new_conn + 1)
    unfolding round after_enter heard
    one_turn fuel l w room =
        let a = answer_of kernel 1024 1 enter_get_events l.r in
        let s : Standing m h conns conn a.cq = keeps _ _ l.r.cq w.standing in
        let cq' : CompletionQueue = marked_at a.cq s.entry in
        let (res, ran, ret) = enter-Returned kernel fuel 1024 1 enter_get_events l.r w.ready.free in
        let (x, y, v) =
          welcome-welcomed kernel k accept peer conns fuel l conn cq' fd honest w.ready accepts in
        let r' : Ring =
          welcomed_on k (with_walked (entered kernel l.r) cq') conn fd x.anon0 y.anon0 in
        let walked = walk_cq-again a.cq s in
        let told = deliver_room (accepted peer l fd) (with_r l r') room in
        (
          record l { r = r'; new_conn = l.new_conn ++ accepted peer l fd ∷ [] },
          ground (
            arith,
            w.free,
            w.running,
            ran,
            takes (call_of 1024 1 enter_get_events l.r) (record (l.r.sq) { entered = 1 }) l.r.cq,
            ret,
            debug_off (entered kernel l.r) w.silent,
            walked,
            v,
            told,
          ),
          record {
            ready = polled-IsReady _ (
                polled-IsReady _ (
                  walked-IsReady kernel k accept peer conns cq'
                    (entered-IsReady kernel l.r honest w.ready)));
            standing = marked-Standing a.cq s;
            running = w.running;
            free = w.free;
            silent = w.silent;
          },
          length-append l.new_conn (accepted peer l fd ∷ []),
        )

    -- A listener that is running without debug output, on a ready ring, and with room in its channel; a
    -- kernel that takes every entry, keeps the shape of the queues, and does not take the completion for
    -- the listening socket from the head of the queue, nor wraps around it; and an accept4 that gives a
    -- descriptor for that socket whenever it is called, the same one: every turn finds that completion again,
    -- accepts one more connection and delivers it, and the head stays where it is.
    pub turns-accept :
        (fuel n : ℕ) (l : RingListener)
        → IsReady k l.r
        → Standing m h conns conn l.r.cq
        → l.stopped ≡ false
        → l.sending ≡ none
        → l.r.debug ≡ false
        → length l.new_conn + n ≤ 1024
        → (l' : RingListener) × (turns (suc fuel) n l ≡ done (going, l'))
          × (length l'.new_conn ≡ length l.new_conn + n)
          × (l'.r.cq.head ≡ h)
    unfolding turns
    turns-accept fuel zero l ready standing running free silent room =
        (l, refl, omega arith, standing.head)
    turns-accept fuel (suc n) l ready standing running free silent room =
        let (l₁, ran, w, longer) =
          one_turn fuel l
            (record {
              ready = ready;
              standing = standing;
              running = running;
              free = free;
              silent = silent;
            })
            (omega (arith, room)) in
        let (l₂, rest, long, head) =
          turns-accept fuel n l₁ w.ready w.standing w.running w.free w.silent
            (omega (arith, room, longer)) in
        (l₂, ground (arith, ran, rest), omega (arith, long, longer), head)
