-- ===== src/Examples/Serving.antt =====
-- conn.go: a listener on descriptor 5, whose first poll, under the id 1, has completed.
use iouring_go.Base.{◌+◌, length, ◌≡◌, refl, none, some, false, true, [], ◌∷◌, List, ℕ, arith}
use iouring_go.Base.Int.{ℤ, pos}
use iouring_go.Ring.{ok}
use iouring_go.Serving.{RingListener, going}
use iouring_go.Serving.Rounds.{Rounds}
use iouring_go.Serving.Again.{Standing, turns, turns-accept}
use iouring_go.Ops.Prepare.{IsReady}
use iouring_go.Listener.{conn_of}
use iouring_go.Base.Outcome.{done}
use iouring_go.Socket.{Sys, copy_ip, fast_open_allowed}
use iouring_go.Examples.Data.{small_ring, small_cq, cqe}
use iouring_go.Examples.Preparing.{small_ring-IsReady}
use iouring_go.Examples.Connecting.{serving, serving-IsHonest, somewhere}
use iouring_go.Examples.Listening.{socket, seven}

abbrev listener : RingListener
listener = record {
  r = small_ring;
  f = some (pos 5);
  a = somewhere;
  stopped = false;
  new_conn = [];
  sending = none;
  has_handler = true;
  handled = [];
}

abbrev nowhere : ℤ → List ℕ
nowhere fd = []

-- The first poll has completed, and another request behind it.
abbrev woken : RingListener
woken = record listener {
  r = record small_ring { cq = small_cq 0 2 (cqe 1 ∷ cqe 2 ∷ cqe 0 ∷ cqe 0 ∷ []) };
}

woken-Standing :
    Standing 2 0 (socket ∷ []) socket (small_cq 0 2 (cqe 1 ∷ cqe 2 ∷ cqe 0 ∷ cqe 0 ∷ []))
unfolding conn_of
woken-Standing = record {
  entry = cqe 1;
  head = refl;
  mask_ones = refl;
  at = refl;
  named = refl;
  behind = omega arith;
  fits = omega arith;
}

woken-IsReady : IsReady 1 woken.r
woken-IsReady = record {
  valid = small_ring-IsReady.valid;
  free = refl;
  room = small_ring-IsReady.room;
}

turns-accept_example :
    (l' : RingListener) × (turns serving seven nowhere (socket ∷ []) 1 3 woken ≡ done (going, l'))
    × (length l'.new_conn ≡ 0 + 3)
    × (l'.r.cq.head ≡ 0)
turns-accept_example =
    turns-accept serving seven nowhere (socket ∷ []) serving-IsHonest (λ c sq cq. refl)
      (λ c sq cq s. woken-Standing) refl 0 3 woken woken-IsReady woken-Standing refl refl refl
      (omega arith)

-- 127.0.0.1 the way package net has it, in sixteen bytes.
abbrev local_ip : List ℕ
local_ip = 0 ∷ 0 ∷ 0 ∷ 0 ∷ 0 ∷ 0 ∷ 0 ∷ 0 ∷ 0 ∷ 0 ∷ 255 ∷ 255 ∷ 127 ∷ 0 ∷ 0 ∷ 1 ∷ []

abbrev host : Sys
host = record {
  socket = λ f t. ok (pos 5);
  resolve_tcp = λ w a. some (record { network = w; string = a; ip = local_ip; port = 80 });
  resolve_udp = λ w a. none;
  setsockopt = λ fd l o. 0;
  bind = λ fd a. 0;
  listen = λ fd. 0;
  tcp_fack = some (51 ∷ 10 ∷ []);
}

-- Four bytes of it are those of any address.
local_is_any : copy_ip 4 local_ip ≡ 0 ∷ 0 ∷ 0 ∷ 0 ∷ []
unfolding copy_ip
local_is_any = refl

three_allows : fast_open_allowed (some (51 ∷ 10 ∷ [])) ≡ none
unfolding fast_open_allowed
three_allows = refl
