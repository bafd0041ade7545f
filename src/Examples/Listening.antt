-- ===== src/Examples/Listening.antt =====
-- conn.go: a listener on descriptor 5, whose first poll had the id 1.
use iouring_go.Base.{Option, some}
use iouring_go.Base.Int.{ℤ, pos}
use iouring_go.Listener.{Conn}

abbrev pub socket : Conn
socket = record { fd = pos 5; id = 1 }

abbrev pub seven : ℤ → Option ℤ
seven fd = some (pos 7)
