-- ===== src/Ops/Misc.antt =====
-- ops.go: the other Prepare functions.
use iouring_go.Base.{ℕ, ◌%◌, ◌/◌, List, ◌∷◌, ◌++◌, ◌==◌, if◌then◌else◌, replicate}
use iouring_go.Base.Int.{ℤ, negsuc, to_u32, to_u64, to_i32}
use iouring_go.Base.Outcome.{M, done}
use iouring_go.Entry.{Opcode}
use iouring_go.Ring.{Ring}
use iouring_go.Ops.{Prepared, prepare, Bytes, PointerVar}

-- `PrepareNop`
unfoldable pub prepare_nop : ℕ → M Ring Prepared
prepare_nop fuel =
    prepare fuel λ id e. done (record e { opcode = Opcode.nop; user_data = id; fd = negsuc 0 })

-- `PreparePollAdd`
unfoldable pub prepare_poll_add : ℕ → ℤ → ℤ → M Ring Prepared
prepare_poll_add fuel fd mask = prepare fuel λ id e.
    done
      (record e { opcode = Opcode.poll_add; fd = to_i32 fd; uflags = to_i32 mask; user_data = id })

-- `PrepareTimeout`; `ts` is the address of the time.
unfoldable pub prepare_timeout : ℕ → ℕ → ℤ → ℤ → M Ring Prepared
prepare_timeout fuel ts count flags = prepare fuel λ id e. done (record e {
  opcode = Opcode.timeout;
  user_data = id;
  uflags = to_i32 flags;
  fd = negsuc 0;
  addr = ts;
  len = 1;
  offset = to_u64 count;
})

-- `PrepareTimeoutRemove`
unfoldable pub prepare_timeout_remove : ℕ → ℕ → ℤ → M Ring Prepared
prepare_timeout_remove fuel request flags = prepare fuel λ id e. done (record e {
  opcode = Opcode.timeout_remove;
  user_data = id;
  uflags = to_i32 flags;
  fd = negsuc 0;
  addr = request;
  len = 0;
  offset = 0;
})

-- `binary.LittleEndian.PutUint32(anon[4:], v)` on 24 bytes of zeros.
unfoldable pub anon_with : ℕ → List ℕ
anon_with v =
    replicate 4 0
    ++ (v % 256 ∷ v / 256 % 256 ∷ v / 65536 % 256 ∷ v / 16777216 % 256 ∷ replicate 16 0)

-- `&inOff` and `&outOff` in PrepareSplice: the address of the parameter, unless that is nil.
abbrev pub offset_of : PointerVar → ℕ
offset_of v = if v.value == 0 then 0 else v.at

-- `PrepareSplice`
unfoldable pub prepare_splice : ℕ → ℤ → PointerVar → ℤ → PointerVar → ℤ → ℤ → M Ring Prepared
unfolding anon_with
prepare_splice fuel in_fd in_off out_fd out_off n flags = prepare fuel λ id e. done (record e {
  opcode = Opcode.splice;
  fd = to_i32 out_fd;
  addr = offset_of in_off;
  len = to_u32 n;
  offset = offset_of out_off;
  uflags = to_i32 flags;
  anon0 = anon_with (to_u32 in_fd);
  user_data = id;
})

-- `PrepareStatx`; the path is an address and a length, `statx` an address.
unfoldable pub prepare_statx : ℕ → ℤ → Bytes → ℤ → ℤ → ℕ → M Ring Prepared
prepare_statx fuel dirfd path flags mask statx = prepare fuel λ id e. done (record e {
  opcode = Opcode.statx;
  fd = to_i32 dirfd;
  addr = if path.len == 0 then e.addr else path.addr;
  len = to_u32 mask;
  offset = statx;
  uflags = to_i32 flags;
  user_data = id;
})
