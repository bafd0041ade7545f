-- ===== src/Connection/Tokens.antt =====
-- ring_conn.go: the channel stop, into which every call sends and from which run receives once.
use iouring_go.Base.{
  ℕ, suc, ◌<◌, ◌≡◌, ◌≢◌, inl, inr, Bool, false, Option, some, none, ltb, arith, Bool-cases, ◌∙◌, ap,
  ◌-◌,
}
use iouring_go.Base.Int.{ℤ}
use iouring_go.Base.Outcome.{M, parts, Outcome-cases, done, ◌>>=◌, ◌>>◌}
use iouring_go.Submit.{Reservation, submit_entry, commit}
use iouring_go.Ring
use iouring_go.Ring.{Ring, Kernel, enter, enter_get_events, on_sq, next_id}
use iouring_go.Ops.{Bytes, Fill, store}
use iouring_go.Connection.{
  RingConn, Reply, returned, on_ring, find, after_enter, get_cqe, name_fill, read_fill, write_fill,
  remove_fill, re_poll, transfer, read, write, remove_poll, remove, run,
}

-- A call either leaves the tokens and does not return a number of bytes, or has put a token into
-- the channel, where there was room.
pub data Sends (c : RingConn) (reply : Reply) (c' : RingConn) : Type 0 where
  kept : c'.stop ≡ c.stop → ((n : ℤ) → reply ≢ returned n) → Sends c reply c'
  sent : c.stop < 2 → c'.stop ≡ suc c.stop → Sends c reply c'

abbrev pub AreSends : M RingConn Reply → Type 0
AreSends f =
    (c : RingConn) (reply : Reply) (c' : RingConn) → f c ≡ done (reply, c') → Sends c reply c'

on_ring-stop :
    {A : Type 0} (m : M Ring A) (c : RingConn) {a : A} {c' : RingConn}
    → on_ring m c ≡ done (a, c')
    → c'.stop ≡ c.stop
on_ring-stop m c h = ground arith

Sends-after :
    {c d c' : RingConn} {reply : Reply} → d.stop ≡ c.stop → Sends d reply c' → Sends c reply c'
Sends-after e (kept k n) = kept (k ∙ e) n
Sends-after e (sent lt s) = sent (omega (arith, lt, e)) (s ∙ ap suc e)

-- A function over the ring first, then a function that sends.
bind-AreSends :
    {A : Type 0} (m : M Ring A) (f : A → M RingConn Reply)
    → ((a : A) → AreSends (f a))
    → AreSends (on_ring m >>= f)
bind-AreSends m f sends c reply c' h =
    let ((a, d), e, rest) = parts (on_ring m c) (λ x. f x.0 x.1) h in
    Sends-after (on_ring-stop m c e) (sends a d reply c' rest)

then-AreSends :
    (m : M Ring (Unit {0})) (f : M RingConn Reply) → AreSends f → AreSends (on_ring m >> f)
then-AreSends m f sends c reply c' h =
    let ((a, d), e, rest) = parts (on_ring m c) (λ x. f x.1) h in
    Sends-after (on_ring-stop m c e) (sends d reply c' rest)

find-stop :
    (timed_out : Bool) (req : ℕ) (c : RingConn) {reply : Reply} {c' : RingConn}
    → find timed_out req c ≡ done (reply, c')
    → c'.stop ≡ c.stop
unfolding find
find-stop timed_out req c h = ground arith

pub after_enter-AreSends :
    (timed_out : Bool) (req : ℕ) (res : Ring.Result ℤ) → AreSends (after_enter timed_out req res)
unfolding after_enter
after_enter-AreSends timed_out req (Ring.err e) c reply c' h =
    kept (ground arith) (λ n p. ground arith)
after_enter-AreSends timed_out req (Ring.ok v) c reply c' h = elim (Bool-cases (ltb c.stop 2)) [
  | inl p ↦
      sent (ground (arith, p))
        (ground (arith, p, find-stop timed_out req (record c { stop = suc c.stop })))
  | inr p ↦ kept (ground (arith, p)) (λ n q. ground (arith, p))
]

module _ (kernel : Kernel) (fuel : ℕ) where
  get_cqe-AreSends : (timed_out : Bool) (req : ℕ) → AreSends (get_cqe kernel fuel timed_out req)
  unfolding get_cqe
  get_cqe-AreSends timed_out req =
      bind-AreSends (enter kernel fuel 1024 1 enter_get_events) (after_enter timed_out req)
        (after_enter-AreSends timed_out req)

  transfer-AreSends :
      (fill : Fill) (s : Option Reservation) → AreSends (transfer kernel fuel fill s)
  unfolding transfer
  transfer-AreSends fill none = λ c reply c' h. kept (ground arith) (λ n p. ground arith)
  transfer-AreSends fill (some s) = then-AreSends (on_sq (store s fill 0)) _ (
      bind-AreSends next_id _ λ id.
        then-AreSends (on_sq (store s name_fill id)) _
          (then-AreSends (on_sq (commit s)) _ (get_cqe-AreSends false id)))

  pub write-AreSends : (b : Bytes) → AreSends (write kernel fuel b)
  unfolding write
  write-AreSends b c =
      bind-AreSends (on_sq (submit_entry fuel)) _ (transfer-AreSends (write_fill c.fd b)) c

  re_poll-stop :
      (c : RingConn) {d : RingConn} → re_poll kernel fuel c ≡ done (tt, d) → d.stop ≡ c.stop
  unfolding re_poll
  re_poll-stop c h = ground arith

  pub read-AreSends : (b : Bytes) → AreSends (read kernel fuel b)
  unfolding read
  read-AreSends b c reply c' h =
      let rest : M RingConn Reply =
        on_ring (on_sq (submit_entry fuel)) >>= transfer kernel fuel (read_fill c.fd b) in
      let ((a, d), e, h') = parts (re_poll kernel fuel c) (λ x. rest x.1) h in
      Sends-after (re_poll-stop c e) (
        bind-AreSends (on_sq (submit_entry fuel)) _ (transfer-AreSends (read_fill c.fd b)) d reply
          c' h')

  remove_poll-AreSends : (id : ℕ) (s : Option Reservation) → AreSends (remove_poll kernel fuel id s)
  unfolding remove_poll
  remove_poll-AreSends id none c = λ reply c' h. absurd (ground arith)
  remove_poll-AreSends id (some s) c =
      then-AreSends (on_sq (store s (remove_fill c.fd) id)) _
        (then-AreSends (on_sq (commit s)) _ (get_cqe-AreSends false id)) c

  remove-AreSends : AreSends (remove kernel fuel)
  unfolding remove
  remove-AreSends =
      bind-AreSends next_id _
        λ id. bind-AreSends (on_sq (submit_entry fuel)) _ (remove_poll-AreSends id)

  -- run receives a token, and what it does then sends at most one.
  pub run-Sends :
      (c : RingConn) {reply : Reply} {c' : RingConn}
      → run kernel fuel c ≡ done (some reply, c')
      → (d : RingConn) × (c.stop ≡ suc d.stop) × Sends d reply c'
  unfolding run
  run-Sends c {reply} {c'} h =
      let d : RingConn = record c { stop = c.stop - 1 } in
      elim (Outcome-cases (remove kernel fuel d)) [
        | inl ((got, c''), e) ↦
            (d, ground (arith, e), remove-AreSends d reply c' (ground (arith, e)))
        | inr (inl e) ↦ absurd (ground (arith, e))
        | inr (inr e) ↦ absurd (ground (arith, e))
      ]
