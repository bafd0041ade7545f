-- ===== src/Socket.antt =====
-- conn.go: SockoptListener, which opens the socket of a listener, and FastOpenAllowed.
pub mod Closing
use iouring_go.Base.{
  ℕ, ◌+◌, ◌-◌, ◌*◌, ◌<◌, Bool, true, false, not, ◌&&◌, ◌||◌, List, [], ◌∷◌, ◌++◌, Option, none,
  some, ◌==◌, leb, ltb, if◌then◌else◌, take, replicate,
}
use iouring_go.Base.Int.{ℤ, pos, negsuc, eqb}
use iouring_go.Ring.{Ring, Result, ok, err}
use iouring_go.Connection.{Addr}
use iouring_go.Serving.{RingListener}

-- The constants of package syscall that the code hands on.
pub data Family : Type 0 where
  af_inet af_inet6 af_unix : Family

pub data SockType : Type 0 where
  sock_stream sock_dgram : SockType

pub data Level : Type 0 where
  sol_socket sol_tcp : Level

-- net.TCPAddr and net.UDPAddr, with what `Network` and `String` give.
pub record NetAddr : Type 0 where
  pub network : List ℕ
  pub string : List ℕ
  pub ip : List ℕ
  pub port : ℕ

-- SockaddrInet4, SockaddrInet6 and SockaddrUnix
pub data SockAddr : Type 0 where
  inet4 inet6 : ℕ → List ℕ → SockAddr
  unix : List ℕ → SockAddr

-- The words that the switch on `network` knows, and any other.
pub data Network : Type 0 where
  tcp tcp4 tcp6 unix udp udp4 udp6 : Network
  other : List ℕ → Network

abbrev pub word_of : Network → List ℕ
word_of tcp = 116 ∷ 99 ∷ 112 ∷ []
word_of tcp4 = 116 ∷ 99 ∷ 112 ∷ 52 ∷ []
word_of tcp6 = 116 ∷ 99 ∷ 112 ∷ 54 ∷ []
word_of unix = 117 ∷ 110 ∷ 105 ∷ 120 ∷ []
word_of udp = 117 ∷ 100 ∷ 112 ∷ []
word_of udp4 = 117 ∷ 100 ∷ 112 ∷ 52 ∷ []
word_of udp6 = 117 ∷ 100 ∷ 112 ∷ 54 ∷ []
word_of (other w) = w

-- The errors of FastOpenAllowed: of reading the file, of its contents, and that it is not 3.
pub data FastOpenError : Type 0 where
  unreadable not_a_number not_three : FastOpenError

pub data ListenError : Type 0 where
  could_not_open : ListenError
  unknown_network : List ℕ → ListenError
  errno : ℕ → ListenError
  fast_open : FastOpenError → ListenError

-- The calls of packages syscall, net and ioutil; an errno of 0 is success.
pub record Sys : Type 0 where
  pub socket : Family → SockType → Result ℤ
  pub resolve_tcp : List ℕ → List ℕ → Option NetAddr
  pub resolve_udp : List ℕ → List ℕ → Option NetAddr
  pub setsockopt : ℤ → Level → ℤ → ℕ
  pub bind : ℤ → SockAddr → ℕ
  pub listen : ℤ → ℕ
  pub tcp_fack : Option (List ℕ)

abbrev pub so_reuseport : ℤ
so_reuseport = pos 0x0f

abbrev pub tcp_fastopen : ℤ
tcp_fastopen = pos 0x17

-- `strings.Replace(s, "\n", "", -1)`
unfoldable pub without_newlines : List ℕ → List ℕ
without_newlines [] = []
without_newlines (c ∷ cs) = let rest = without_newlines cs in if c == 10 then rest else c ∷ rest

-- `strconv.Atoi`: the digits behind an optional sign, at least one of them. The range error of numbers
-- beyond an int is left out: these are not 3 either.
unfoldable pub digits : ℕ → List ℕ → Option ℕ
digits n [] = some n
digits n (c ∷ cs) =
    let rest = digits (10 * n + (c - 48)) cs in if leb 48 c && leb c 57 then rest else none

unfoldable pub magnitude : List ℕ → Option ℕ
unfolding digits
magnitude [] = none
magnitude (c ∷ cs) = digits 0 (c ∷ cs)

abbrev negated : ℕ → ℤ
negated n = if n == 0 then pos 0 else negsuc (n - 1)

unfoldable pub atoi : List ℕ → Option ℤ
unfolding magnitude
atoi [] = none
atoi (c ∷ cs) =
    if c == 45
    then elim (magnitude cs) [ none ↦ none | some n ↦ some (negated n) ]
    else elim (magnitude (if c == 43 then cs else c ∷ cs)) [ none ↦ none | some n ↦ some (pos n) ]

-- `FastOpenAllowed`, for the contents of the file; `none` is nil.
unfoldable pub fast_open_allowed : Option (List ℕ) → Option FastOpenError
unfolding without_newlines atoi
fast_open_allowed none = some unreadable
fast_open_allowed (some b) = elim (atoi (without_newlines b)) [
  | none ↦ some not_a_number
  | some allowed ↦ if eqb allowed (pos 3) then none else some not_three
]

-- `copy(ipAddr[:], netAddr.IP)`, into an array of `n` zeros.
unfoldable pub copy_ip : ℕ → List ℕ → List ℕ
copy_ip n ip = take n (ip ++ replicate n 0)

-- How SockoptListener ends, with the descriptors that it has closed.
pub data Opening : Type 0 where
  refused : ListenError → List ℤ → Opening
  listening : RingListener → List ℤ → Opening

-- What the switch on the network comes to: an error, or the socket with its address.
pub data Opened : Type 0 where
  failed : ListenError → Opened
  opened : Result ℤ → SockAddr → Addr → Opened

module _ (sys : Sys) where
  -- The cases of the switch: `resolved` takes the address of the listener from the network address,
  -- as only udp and udp4 do not.
  unfoldable pub resolve :
      Result ℤ → Option NetAddr → (NetAddr → SockAddr) → (NetAddr → Addr) → Opened
  resolve (err e) found to_sock to_addr = failed could_not_open
  resolve (ok fd) none to_sock to_addr = failed could_not_open
  resolve (ok fd) (some n) to_sock to_addr = opened (ok fd) (to_sock n) (to_addr n)

  abbrev pub sock4 : NetAddr → SockAddr
  sock4 n = inet4 n.port (copy_ip 4 n.ip)

  abbrev pub sock6 : NetAddr → SockAddr
  sock6 n = inet6 n.port (copy_ip 16 n.ip)

  abbrev pub named : NetAddr → Addr
  named n = record { net = n.network; s = n.string }

  unfoldable pub open_socket : Network → List ℕ → Opened
  unfolding resolve copy_ip
  open_socket (other w) address = failed (unknown_network w)
  open_socket unix address =
      opened (sys.socket af_unix sock_stream) (SockAddr.unix address)
        (record { net = word_of unix; s = [] })
  open_socket tcp6 address =
      resolve (sys.socket af_inet6 sock_stream) (sys.resolve_tcp (word_of tcp6) address) sock6 named
  open_socket udp6 address =
      resolve (sys.socket af_inet sock_dgram) (sys.resolve_udp (word_of udp6) address) sock6 named
  open_socket tcp address =
      resolve (sys.socket af_inet sock_stream) (sys.resolve_tcp (word_of tcp) address) sock4 named
  open_socket tcp4 address =
      resolve (sys.socket af_inet sock_stream) (sys.resolve_tcp (word_of tcp4) address) sock4 named
  open_socket udp address =
      resolve (sys.socket af_inet sock_dgram) (sys.resolve_udp (word_of udp) address) sock4
        (λ n. record { net = word_of udp; s = [] })
  open_socket udp4 address =
      resolve (sys.socket af_inet sock_dgram) (sys.resolve_udp (word_of udp4) address) sock4
        (λ n. record { net = word_of udp4; s = [] })

  -- The loop over the socket options: the error with which it returns, and whether it has closed the
  -- descriptor then.
  unfoldable pub set_options : ℤ → List ℤ → Option (ListenError × Bool)
  unfolding fast_open_allowed
  set_options fd [] = none
  set_options fd (o ∷ os) =
      let rest = set_options fd os in
      if eqb o so_reuseport
      then (if sys.setsockopt fd sol_socket o == 0
          then rest
          else some (errno (sys.setsockopt fd sol_socket o), true))
      else if eqb o tcp_fastopen
      then elim (fast_open_allowed sys.tcp_fack) [
        | some e ↦ some (fast_open e, false)
        | none ↦
            if sys.setsockopt fd sol_tcp o == 0
            then rest
            else some (errno (sys.setsockopt fd sol_tcp o), true)
      ]
      else rest

  -- From `syscall.Bind` on.
  unfoldable pub bind_and_listen : Ring → ℤ → SockAddr → Addr → Bool → Opening
  bind_and_listen r fd sock_addr a has_handler =
      if not (sys.bind fd sock_addr == 0)
      then refused (errno (sys.bind fd sock_addr)) (fd ∷ [])
      else if not (sys.listen fd == 0)
      then refused (errno (sys.listen fd)) (fd ∷ [])
      else listening
          (record {
            r = r;
            f = some fd;
            a = a;
            stopped = false;
            new_conn = [];
            sending = none;
            has_handler = has_handler;
            handled = [];
          })
          []

  unfoldable pub configure : Ring → List ℤ → Bool → ℤ → SockAddr → Addr → Opening
  unfolding set_options bind_and_listen
  configure r sockopts has_handler fd sock_addr a = elim (set_options fd sockopts) [
    | some (e, true) ↦ refused e (fd ∷ [])
    | some (e, false) ↦ refused e []
    | none ↦ bind_and_listen r fd sock_addr a has_handler
  ]

  -- What follows the switch; a failed socket(2) has the descriptor -1.
  unfoldable pub finish : Ring → Bool → List ℤ → Opened → Opening
  unfolding configure
  finish r has_handler sockopts (failed e) = refused e []
  finish r has_handler sockopts (opened (err e) sock_addr a) = refused (errno e) (negsuc 0 ∷ [])
  finish r has_handler sockopts (opened (ok fd) sock_addr a) =
      configure r sockopts has_handler fd sock_addr a

  -- `SockoptListener`
  unfoldable pub sockopt_listener : Ring → Network → List ℕ → Bool → List ℤ → Opening
  unfolding open_socket finish
  sockopt_listener r network address has_handler sockopts =
      finish r has_handler sockopts (open_socket network address)
