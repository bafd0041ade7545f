-- ===== src/Connection/Lifetime.antt =====
-- ring_conn.go: the calls on one connection, with its goroutine run and the other users of the ring.
use iouring_go.Base.{
  ℕ, suc, ◌≤◌, ◌≡◌, ◌≢◌, refl, ◌⊎◌, inl, inr, Bool, true, false, some, ltb, arith, Bool-cases,
}
use iouring_go.Base.Int.{ℤ, pos}
use iouring_go.Base.Outcome.{Outcome, done}
use iouring_go.Ring
use iouring_go.Ring.{Ring, Kernel}
use iouring_go.Ops.{Bytes}
use iouring_go.Connection.{
  RingConn, Reply, returned, failed, not_found, unavailable, blocked, read, write, close, run,
  after_enter, set_deadline, set_read_deadline, set_write_deadline,
}
use iouring_go.Connection.Tokens.{
  Sends, kept, sent, after_enter-AreSends, write-AreSends, read-AreSends, run-Sends,
}

-- A connection in use: whether its goroutine still waits for a token, and how many calls of Read, Write
-- and Close have returned without an error.
pub record Life : Type 0 where
  pub conn : RingConn
  pub waiting : Bool
  pub returns : ℕ

unfoldable pub count : Reply → ℕ → ℕ
count (returned n) k = suc k
count _ k = k

abbrev pub with_ring : Life → Ring → Life
with_ring l r = record l { conn = record (l.conn) { r = r } }

pub data Call : Type 0 where
  reads writes : Bytes → Call
  closes : Call

count-kept : (reply : Reply) (k : ℕ) → ((n : ℤ) → reply ≢ returned n) → count reply k ≡ k
unfolding count
count-kept (returned n) k back = absurd (back n refl)
count-kept (failed e) k back = refl
count-kept not_found k back = refl
count-kept unavailable k back = refl
count-kept blocked k back = refl

count-le : (reply : Reply) (k : ℕ) → count reply k ≤ suc k
unfolding count
count-le (returned n) k = omega arith
count-le (failed e) k = omega arith
count-le not_found k = omega arith
count-le unavailable k = omega arith
count-le blocked k = omega arith

module _ (kernel : Kernel) (fuel : ℕ) (close_fd : ℤ → ℕ) where
  unfoldable pub perform : Call → RingConn → Outcome (Reply × RingConn)
  perform (Call.reads b) c = read kernel fuel b c
  perform (Call.writes b) c = write kernel fuel b c
  perform Call.closes c = done (close close_fd c)

  -- A call, a call that was blocked and goes on, the removal of the poll by run, a deadline set, and what the kernel and the other users of
  -- the ring do to it in between.
  pub data Step (l : Life) : Life → Type 0 where
    called :
        (o : Call) {reply : Reply} {c' : RingConn}
        → perform o l.conn ≡ done (reply, c')
        → Step l (record l { conn = c'; returns = count reply l.returns })
    resumed :
        (req : ℕ) {reply : Reply} {c' : RingConn}
        → after_enter false req (Ring.ok (pos 0)) l.conn ≡ done (reply, c')
        → Step l (record l { conn = c'; returns = count reply l.returns })
    removed :
        {reply : Reply} {c' : RingConn}
        → l.waiting ≡ true
        → run kernel fuel l.conn ≡ done (some reply, c')
        → Step l (record l { conn = c'; waiting = false })
    dated : (t : ℕ) → Step l (record l { conn = set_deadline t l.conn })
    read_dated : (t : ℕ) → Step l (record l { conn = set_read_deadline t l.conn })
    write_dated : (t : ℕ) → Step l (record l { conn = set_write_deadline t l.conn })
    elsewhere : (r : Ring) → Step l (with_ring l r)

  -- A connection that onListen has made, with run started, and what can become of it.
  pub data Reach : Life → Type 0 where
    fresh : (c : RingConn) → c.stop ≡ 0 → Reach (record { conn = c; waiting = true; returns = 0 })
    later : {l l' : Life} → Reach l → Step l l' → Reach l'

  -- The calls that returned are in the channel, or in what run has received from it.
  record Counts (l : Life) : Type 0 where
    room : l.conn.stop ≤ 2
    before : l.waiting ≡ true → l.returns ≤ l.conn.stop
    behind : l.returns ≤ suc l.conn.stop

  called-Counts :
      (l : Life) {reply : Reply} {c' : RingConn}
      → Counts l
      → Sends l.conn reply c'
      → Counts (record l { conn = c'; returns = count reply l.returns })
  called-Counts l {reply} h (kept s back) = record {
    room = omega (arith, h.room, s);
    before = λ w. omega (arith, h.before w, s, count-kept reply l.returns back);
    behind = omega (arith, h.behind, s, count-kept reply l.returns back);
  }
  called-Counts l {reply} h (sent lt s) = record {
    room = omega (arith, lt, s);
    before = λ w. omega (arith, h.before w, s, count-le reply l.returns);
    behind = omega (arith, h.behind, s, count-le reply l.returns);
  }

  removed-Counts :
      (l : Life) {reply : Reply} {c' : RingConn}
      → Counts l
      → l.waiting ≡ true
      → run kernel fuel l.conn ≡ done (some reply, c')
      → Counts (record l { conn = c'; waiting = false })
  removed-Counts l h w e =
      let (d, taken, sends) = run-Sends kernel fuel l.conn e in
      elim sends [
        | kept s back ↦ record {
          room = omega (arith, h.room, taken, s);
          before = λ f. absurd cc;
          behind = omega (arith, h.before w, taken, s);
        }
        | sent lt s ↦ record {
          room = omega (arith, lt, s);
          before = λ f. absurd cc;
          behind = omega (arith, h.before w, taken, s);
        }
      ]

  perform-Sends :
      (o : Call) (c : RingConn) {reply : Reply} {c' : RingConn}
      → perform o c ≡ done (reply, c')
      → Sends c reply c'
  unfolding perform close
  perform-Sends (Call.reads b) c h = read-AreSends kernel fuel b c _ _ h
  perform-Sends (Call.writes b) c h = write-AreSends kernel fuel b c _ _ h
  perform-Sends Call.closes c h = elim (Bool-cases (ltb c.stop 2)) [
    | inl p ↦ sent (ground (arith, p)) (ground (arith, p))
    | inr p ↦ kept (ground (arith, p)) (λ n q. ground (arith, p))
  ]

  same-Counts :
      (l : Life) (c : RingConn) → c.stop ≡ l.conn.stop → Counts l → Counts (record l { conn = c })
  same-Counts l c e h = record {
    room = omega (arith, h.room, e);
    before = λ w. omega (arith, h.before w, e);
    behind = omega (arith, h.behind, e);
  }

  Step-Counts : {l l' : Life} → Counts l → Step l l' → Counts l'
  unfolding set_deadline set_read_deadline set_write_deadline
  Step-Counts {l} h (called o e) = called-Counts l h (perform-Sends o l.conn e)
  Step-Counts {l} h (resumed req e) =
      called-Counts l h (after_enter-AreSends false req (Ring.ok (pos 0)) l.conn _ _ e)
  Step-Counts {l} h (removed w e) = removed-Counts l h w e
  Step-Counts {l} h (dated t) = same-Counts l _ refl h
  Step-Counts {l} h (read_dated t) = same-Counts l _ refl h
  Step-Counts {l} h (write_dated t) = same-Counts l _ refl h
  Step-Counts {l} h (elsewhere r) = same-Counts l _ refl h

  Reach-Counts : {l : Life} → Reach l → Counts l
  Reach-Counts (fresh c e) = record {
    room = omega (arith, e);
    before = λ w. omega arith;
    behind = omega arith;
  }
  Reach-Counts (later h s) = Step-Counts (Reach-Counts h) s

  -- Whatever is called on a connection and whatever else happens to its ring, no more than three calls
  -- of Read, Write and Close ever return without an error, and no more than two unless the goroutine
  -- of the connection has ended.
  pub Reach-returns :
      {l : Life} → Reach l → (l.returns ≤ 3) × ((l.waiting ≡ false) ⊎ (l.returns ≤ 2))
  Reach-returns {l} h =
      let c = Reach-Counts h in
      (
        omega (arith, c.room, c.behind),
        elim (Bool-cases l.waiting) [
          | inl w ↦ inr (omega (arith, c.room, c.before w))
          | inr w ↦ inl w
        ],
      )

  -- Once the channel is full and the goroutine has ended, no further call returns without an error.
  pub full-Stuck :
      (o : Call) (c : RingConn) {reply : Reply} {c' : RingConn}
      → 2 ≤ c.stop
      → perform o c ≡ done (reply, c')
      → ((n : ℤ) → reply ≢ returned n) × (c'.stop ≡ c.stop)
  full-Stuck o c full h = elim (perform-Sends o c h) [
    | kept s back ↦ (back, s)
    | sent lt s ↦ absurd (omega (arith, full, lt))
  ]
