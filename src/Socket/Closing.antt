-- ===== src/Socket/Closing.antt =====
-- conn.go, SockoptListener: what becomes of the socket.
use iouring_go.Base.{
  ℕ, ◌≡◌, ◌≢◌, Bool, true, false, List, [], ◌∷◌, Option, none, some, ◌==◌, if◌then◌else◌,
}
use iouring_go.Base.Int.{ℤ}
use iouring_go.Ring.{Ring}
use iouring_go.Connection.{Addr}
use iouring_go.Serving.{RingListener}
use iouring_go.Socket.{
  SockAddr, NetAddr, Network, tcp, tcp4, tcp6, unix, udp, udp4, udp6, other, FastOpenError,
  ListenError, could_not_open, unknown_network, errno, fast_open, Sys, fast_open_allowed, Opening,
  refused, listening, inet4, inet6, copy_ip, bind_and_listen, so_reuseport, tcp_fastopen, word_of,
  sol_socket, sol_tcp,
}

-- What an address is looked up as; unix and the words that are not known have no lookup.
abbrev pub found_at : Sys → Network → List ℕ → Option NetAddr
found_at sys tcp address = sys.resolve_tcp (word_of tcp) address
found_at sys tcp4 address = sys.resolve_tcp (word_of tcp4) address
found_at sys tcp6 address = sys.resolve_tcp (word_of tcp6) address
found_at sys udp address = sys.resolve_udp (word_of udp) address
found_at sys udp4 address = sys.resolve_udp (word_of udp4) address
found_at sys udp6 address = sys.resolve_udp (word_of udp6) address
found_at sys unix address = none
found_at sys (other w) address = none

-- The networks whose addresses have four bytes, and those with sixteen.
pub data HasLength : Network → ℕ → Type 0 where
  four_tcp : HasLength tcp 4
  four_tcp4 : HasLength tcp4 4
  four_udp : HasLength udp 4
  four_udp4 : HasLength udp4 4
  sixteen_tcp6 : HasLength tcp6 16
  sixteen_udp6 : HasLength udp6 16

abbrev pub sock_of : ℕ → NetAddr → SockAddr
sock_of n a = if n == 4 then inet4 a.port (copy_ip 4 a.ip) else inet6 a.port (copy_ip 16 a.ip)

-- The address that a socket for `network` and `address` is bound to.
pub data Target (sys : Sys) (network : Network) (address : List ℕ) : SockAddr → Type 0 where
  by_path : network ≡ unix → Target sys network address (SockAddr.unix address)
  by_lookup :
      {n : ℕ} {a : NetAddr}
      → HasLength network n
      → found_at sys network address ≡ some a
      → Target sys network address (sock_of n a)

-- An option that was given.
pub data Given (x : ℤ) : List ℤ → Type 0 where
  at_front : {o : ℤ} {os : List ℤ} → o ≡ x → Given x (o ∷ os)
  behind : {o : ℤ} {os : List ℤ} → Given x os → Given x (o ∷ os)

module _ (sys : Sys) (fd : ℤ) where
  -- setsockopt for an option that was given gives `e`.
  pub data OptionFailed (opts : List ℤ) (e : ℕ) : Type 0 where
    by_reuseport :
        Given so_reuseport opts
        → sys.setsockopt fd sol_socket so_reuseport ≡ e
        → OptionFailed opts e
    by_fastopen :
        Given tcp_fastopen opts → sys.setsockopt fd sol_tcp tcp_fastopen ≡ e → OptionFailed opts e

  -- The loop over the options fails with an errno and closes, or by FastOpenAllowed, and does not.
  data Fails (opts : List ℤ) : Option (ListenError × Bool) → Type 0 where
    passes : Fails opts none
    errs : (e : ℕ) → e ≢ 0 → OptionFailed opts e → Fails opts (some (errno e, true))
    denies :
        {e : FastOpenError}
        → Given tcp_fastopen opts
        → fast_open_allowed sys.tcp_fack ≡ some e
        → Fails opts (some (fast_open e, false))

module _ (sys : Sys) (r : Ring) (fd : ℤ) (network : Network) (address : List ℕ)
    (opts : List ℤ) where
  -- The call on `fd` that has failed with `e`: setsockopt for an option that was given, bind or listen.
  pub data Failed (e : ℕ) : Type 0 where
    by_option : OptionFailed sys fd opts e → Failed e
    by_bind :
        {sock_addr : SockAddr}
        → Target sys network address sock_addr
        → sys.bind fd sock_addr ≡ e
        → Failed e
    by_listen : sys.listen fd ≡ e → Failed e

  -- How SockoptListener leaves the socket `fd`: listening; closed, with the errno of a call; or open,
  -- though it has failed.
  pub data Left : Opening → Type 0 where
    listens :
        (l : RingListener) (sock_addr : SockAddr)
        → l.r ≡ r
        → l.f ≡ some fd
        → Target sys network address sock_addr
        → sys.bind fd sock_addr ≡ 0
        → sys.listen fd ≡ 0
        → Left (listening l [])
    closed : (e : ℕ) → e ≢ 0 → Failed e → Left (refused (errno e) (fd ∷ []))
    unresolved :
        {n : ℕ}
        → HasLength network n
        → found_at sys network address ≡ none
        → Left (refused could_not_open [])
    not_allowed :
        {e : FastOpenError}
        → Given tcp_fastopen opts
        → fast_open_allowed sys.tcp_fack ≡ some e
        → Left (refused (fast_open e) [])
    unknown : {w : List ℕ} → network ≡ other w → Left (refused (unknown_network w) [])

  after_options : Option (ListenError × Bool) → SockAddr → Addr → Bool → Opening
  after_options none sock_addr a has_handler = bind_and_listen sys r fd sock_addr a has_handler
  after_options (some (e, true)) sock_addr a has_handler = refused e (fd ∷ [])
  after_options (some (e, false)) sock_addr a has_handler = refused e []
