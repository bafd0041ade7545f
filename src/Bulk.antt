-- ===== src/Bulk.antt =====
-- examples/bulk-socket/main.go: send, which writes one message to every connected socket.
pub mod Wire
pub mod Sending
use iouring_go.Base.{
  ℕ, zero, suc, Bool, true, false, ◌+◌, ◌/◌, ◌%◌, ◌^◌, List, [], ◌∷◌, ◌++◌, Option, none, some, ltb,
  if◌then◌else◌, length,
}
use iouring_go.Base.Int.{ℤ}
use iouring_go.Base.Outcome.{M, done, pure, fail, ◌>>=◌, ◌>>◌}
use iouring_go.Entry.{Opcode}
use iouring_go.Submit.{Reservation, submit_entry, commit}
use iouring_go.Ring
use iouring_go.Ring.{Ring, Kernel, Result, on_sq, enter, enter_get_events}
use iouring_go.Ops.{Fill, store}

-- The digit for `d` below 16, in lower case.
abbrev pub hex_digit : ℕ → ℕ
hex_digit d = if ltb d 10 then 48 + d else 87 + d

-- The verb %x for a number below 16 ^ `digits`.
unfoldable pub hex : ℕ → ℕ → List ℕ
hex zero n = []
hex (suc digits) n =
    let rest = hex digits (n / 16) in
    if ltb n 16 then hex_digit n ∷ [] else rest ++ hex_digit (n % 16) ∷ []

abbrev pub crlf : List ℕ
crlf = 13 ∷ 10 ∷ []

-- The chunk of the HTTP wire format; a length is an int, of at most 16 digits.
unfoldable pub wire : List ℕ → List ℕ
wire sdata = hex 16 (length sdata) ++ crlf ++ sdata ++ crlf

-- How `send` ends: with the error of the encoder, or as Enter does, whose number send does not return.
pub data Sent : Type 0 where
  not_encoded : Sent
  entered : Result ℤ → Sent

-- The entry of a socket for the message of `len` bytes at `addr`.
abbrev pub write_fill : ℕ → ℕ → ℤ → Fill
write_fill addr len fd id e =
    done (record e { opcode = Opcode.write_fixed; fd = fd; addr = addr; len = len })

unfoldable pub queue_entry : Fill → Option Reservation → M Ring (Unit {0})
unfolding store
queue_entry fill none = fail
queue_entry fill (some s) = do on_sq (store s fill 0); on_sq (commit s)

-- The loop over the sockets.
unfoldable pub queue_all : ℕ → ℕ → ℕ → List ℤ → M Ring (Unit {0})
unfolding queue_entry
queue_all fuel addr len [] = pure tt
queue_all fuel addr len (fd ∷ fds) = do
  e ← on_sq (submit_entry fuel)
  queue_entry (write_fill addr len fd) e
  queue_all fuel addr len fds

-- `encode` is the encoder of gin-contrib/sse, and `addr` where the message stands.
module _ (encode : List ℕ → Option (List ℕ)) (kernel : Kernel) (fuel addr : ℕ) where
  unfoldable pub send_raw : List ℤ → List ℕ → M Ring Sent
  unfolding queue_all
  send_raw fds raw = do
    queue_all fuel addr (length raw % 2 ^ 32) fds
    res ← enter kernel fuel (length fds) (length fds) enter_get_events
    pure (entered res)

  unfoldable pub send : List ℤ → List ℕ → M Ring Sent
  unfolding send_raw wire
  send fds message = elim (encode message) [
    | none ↦ pure not_encoded
    | some sdata ↦ send_raw fds (wire sdata)
  ]

  -- A turn of the loop of sendMessage: it goes on, or ends by log.Fatal.
  unfoldable pub send_message : List ℤ → List ℕ → M Ring Bool
  unfolding send
  send_message fds message = do
    sent ← send fds message
    pure (elim sent [
      | not_encoded ↦ false
      | entered (Ring.err e) ↦ false
      | entered (Ring.ok n) ↦ true
    ])
