-- ===== src/Ops/Files.antt =====
-- ops.go: the Prepare functions for files.
use iouring_go.Base.{ℕ, ◌%◌, ◌^◌}
use iouring_go.Base.Int.{ℤ, to_u64, to_i32}
use iouring_go.Base.Outcome.{M, done}
use iouring_go.Entry.{Opcode}
use iouring_go.Ring.{Ring}
use iouring_go.Ops.{Prepared, prepare, Bytes, first}

-- `PrepareClose`
unfoldable pub prepare_close : ℕ → ℤ → M Ring Prepared
prepare_close fuel fd =
    prepare fuel λ id e. done (record e { opcode = Opcode.close; user_data = id; fd = to_i32 fd })

-- `PrepareFadvise`
unfoldable pub prepare_fadvise : ℕ → ℤ → ℕ → ℕ → ℤ → M Ring Prepared
prepare_fadvise fuel fd offset n advise = prepare fuel λ id e. done (record e {
  opcode = Opcode.fadvise;
  user_data = id;
  fd = to_i32 fd;
  len = n;
  offset = offset;
  uflags = to_i32 advise;
})

-- `PrepareFallocate`
unfoldable pub prepare_fallocate : ℕ → ℤ → ℕ → ℤ → ℤ → M Ring Prepared
prepare_fallocate fuel fd mode offset n = prepare fuel λ id e. done (record e {
  opcode = Opcode.fallocate;
  user_data = id;
  fd = to_i32 fd;
  addr = to_u64 n;
  len = mode;
  offset = to_u64 offset;
})

-- `PrepareFsync`
unfoldable pub prepare_fsync : ℕ → ℤ → ℤ → M Ring Prepared
prepare_fsync fuel fd flags = prepare fuel λ id e.
    done (record e { opcode = Opcode.fsync; user_data = id; fd = to_i32 fd; uflags = to_i32 flags })

-- `PrepareReadv`
unfoldable pub prepare_readv : ℕ → ℤ → Bytes → ℤ → M Ring Prepared
prepare_readv fuel fd iovecs offset = prepare fuel λ id e. first iovecs λ a. done (record e {
  opcode = Opcode.readv;
  user_data = id;
  fd = to_i32 fd;
  addr = a;
  len = iovecs.len % 2 ^ 32;
  offset = to_u64 offset;
})

-- `PrepareWritev`
unfoldable pub prepare_writev : ℕ → ℤ → Bytes → ℤ → M Ring Prepared
prepare_writev fuel fd iovecs offset = prepare fuel λ id e. first iovecs λ a. done (record e {
  opcode = Opcode.writev;
  user_data = id;
  fd = to_i32 fd;
  addr = a;
  len = iovecs.len % 2 ^ 32;
  offset = to_u64 offset;
})

-- `PrepareRead`
unfoldable pub prepare_read : ℕ → ℤ → Bytes → ℕ → ℕ → M Ring Prepared
prepare_read fuel fd b offset flags = prepare fuel λ id e. first b λ a. done (record e {
  opcode = Opcode.read;
  user_data = id;
  fd = to_i32 fd;
  len = b.len % 2 ^ 32;
  flags = flags;
  offset = offset;
  addr = a;
})

-- `PrepareReadFixed`
unfoldable pub prepare_read_fixed : ℕ → ℤ → Bytes → ℕ → M Ring Prepared
prepare_read_fixed fuel fd b flags = prepare fuel λ id e. first b λ a. done (record e {
  opcode = Opcode.read_fixed;
  user_data = id;
  fd = to_i32 fd;
  len = b.len % 2 ^ 32;
  flags = flags;
  addr = a;
})

-- `PrepareWrite`
unfoldable pub prepare_write : ℕ → ℤ → Bytes → ℕ → ℕ → M Ring Prepared
prepare_write fuel fd b offset flags = prepare fuel λ id e. first b λ a. done (record e {
  opcode = Opcode.write;
  user_data = id;
  fd = to_i32 fd;
  len = b.len % 2 ^ 32;
  flags = flags;
  offset = offset;
  addr = a;
})

-- `PrepareWriteFixed`
unfoldable pub prepare_write_fixed : ℕ → ℤ → Bytes → ℕ → M Ring Prepared
prepare_write_fixed fuel fd b flags = prepare fuel λ id e. first b λ a. done (record e {
  opcode = Opcode.write_fixed;
  user_data = id;
  fd = to_i32 fd;
  len = b.len % 2 ^ 32;
  flags = flags;
  addr = a;
})
