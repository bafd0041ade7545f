-- ===== src/Ops/Net.antt =====
-- ops.go: the Prepare functions for sockets.
use iouring_go.Base.{ℕ, ◌%◌, ◌^◌}
use iouring_go.Base.Int.{ℤ, to_i32}
use iouring_go.Base.Outcome.{M, done}
use iouring_go.Entry.{Opcode}
use iouring_go.Ring.{Ring}
use iouring_go.Ops.{Prepared, prepare, Bytes, first}

-- `PrepareAccept`; `addr_of` is the address of the parameter `addr`.
unfoldable pub prepare_accept : ℕ → ℤ → ℕ → ℕ → ℤ → M Ring Prepared
prepare_accept fuel fd addr_of socklen flags = prepare fuel λ id e. done (record e {
  opcode = Opcode.accept;
  user_data = id;
  fd = to_i32 fd;
  addr = addr_of;
  offset = socklen;
  uflags = to_i32 flags;
})

-- `PrepareConnect`
unfoldable pub prepare_connect : ℕ → ℤ → ℕ → ℕ → M Ring Prepared
prepare_connect fuel fd addr_of socklen = prepare fuel λ id e. done (record e {
  opcode = Opcode.connect;
  user_data = id;
  fd = to_i32 fd;
  addr = addr_of;
  len = socklen;
})

-- `PrepareRecvmsg`
unfoldable pub prepare_recvmsg : ℕ → ℤ → ℕ → ℤ → M Ring Prepared
prepare_recvmsg fuel fd msg flags = prepare fuel λ id e. done (record e {
  opcode = Opcode.recv_msg;
  user_data = id;
  fd = to_i32 fd;
  addr = msg;
  len = 1;
  offset = 0;
  uflags = to_i32 flags;
})

-- `PrepareSend`
unfoldable pub prepare_send : ℕ → ℤ → Bytes → ℕ → M Ring Prepared
prepare_send fuel fd b flags = prepare fuel λ id e. first b λ a. done (record e {
  opcode = Opcode.send;
  user_data = id;
  fd = to_i32 fd;
  len = b.len % 2 ^ 32;
  flags = flags;
  addr = a;
})

-- `PrepareRecv`
unfoldable pub prepare_recv : ℕ → ℤ → Bytes → ℕ → M Ring Prepared
prepare_recv fuel fd b flags = prepare fuel λ id e. first b λ a. done (record e {
  opcode = Opcode.recv;
  user_data = id;
  fd = to_i32 fd;
  len = b.len % 2 ^ 32;
  flags = flags;
  addr = a;
})
