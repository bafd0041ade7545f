-- ===== src/Ops/Requests.antt =====
-- ops.go: all Prepare functions as one interface, and the entry that each is to write.
use iouring_go.Base.{ℕ, ◌%◌, ◌^◌, ◌≢◌, List, ◌==◌, if◌then◌else◌}
use iouring_go.Base.Int.{ℤ, pos, negsuc, to_u32, to_u64, to_i32}
use iouring_go.Base.Outcome.{M}
use iouring_go.Entry.{SubmitEntry, Opcode}
use iouring_go.Ring.{Ring}
use iouring_go.Ops.{Prepared, Bytes, PointerVar}
use iouring_go.Ops.Files.{
  prepare_close, prepare_fadvise, prepare_fallocate, prepare_fsync, prepare_readv, prepare_writev,
  prepare_read, prepare_read_fixed, prepare_write, prepare_write_fixed,
}
use iouring_go.Ops.Net.{
  prepare_accept, prepare_connect, prepare_recvmsg, prepare_send, prepare_recv,
}
use iouring_go.Ops.Misc.{
  prepare_nop, prepare_poll_add, prepare_timeout, prepare_timeout_remove, prepare_splice,
  prepare_statx, anon_with, offset_of,
}

-- A call of a Prepare function.
pub data Request : Type 0 where
  accept : ℤ → ℕ → ℕ → ℤ → Request
  close : ℤ → Request
  connect : ℤ → ℕ → ℕ → Request
  fadvise : ℤ → ℕ → ℕ → ℤ → Request
  fallocate : ℤ → ℕ → ℤ → ℤ → Request
  fsync : ℤ → ℤ → Request
  nop : Request
  poll_add : ℤ → ℤ → Request
  readv writev : ℤ → Bytes → ℤ → Request
  recvmsg : ℤ → ℕ → ℤ → Request
  splice : ℤ → PointerVar → ℤ → PointerVar → ℤ → ℤ → Request
  statx : ℤ → Bytes → ℤ → ℤ → ℕ → Request
  timeout : ℕ → ℤ → ℤ → Request
  timeout_remove : ℕ → ℤ → Request
  read write : ℤ → Bytes → ℕ → ℕ → Request
  read_fixed write_fixed send recv : ℤ → Bytes → ℕ → Request

unfoldable pub call : ℕ → Request → M Ring Prepared
call n (accept fd addr socklen flags) = prepare_accept n fd addr socklen flags
call n (close fd) = prepare_close n fd
call n (connect fd addr socklen) = prepare_connect n fd addr socklen
call n (fadvise fd offset len advise) = prepare_fadvise n fd offset len advise
call n (fallocate fd mode offset len) = prepare_fallocate n fd mode offset len
call n (fsync fd flags) = prepare_fsync n fd flags
call n nop = prepare_nop n
call n (poll_add fd mask) = prepare_poll_add n fd mask
call n (readv fd iovecs offset) = prepare_readv n fd iovecs offset
call n (writev fd iovecs offset) = prepare_writev n fd iovecs offset
call n (recvmsg fd msg flags) = prepare_recvmsg n fd msg flags
call n (splice in_fd in_off out_fd out_off len flags) =
    prepare_splice n in_fd in_off out_fd out_off len flags
call n (statx dirfd path flags mask stat) = prepare_statx n dirfd path flags mask stat
call n (timeout ts count flags) = prepare_timeout n ts count flags
call n (timeout_remove request flags) = prepare_timeout_remove n request flags
call n (read fd b offset flags) = prepare_read n fd b offset flags
call n (write fd b offset flags) = prepare_write n fd b offset flags
call n (read_fixed fd b flags) = prepare_read_fixed n fd b flags
call n (write_fixed fd b flags) = prepare_write_fixed n fd b flags
call n (send fd b flags) = prepare_send n fd b flags
call n (recv fd b flags) = prepare_recv n fd b flags

-- The members of the entry that ops.go sets for each operation; the others are zero, and -1 for the
-- descriptor. For accept and connect these are not the members that io_uring_enter(2) documents.
entry : Opcode → ℕ → ℕ → ℤ → ℕ → ℕ → ℕ → ℤ → List ℕ → SubmitEntry
entry op id flags fd offset addr len uflags anon = record {
  opcode = op;
  flags = flags;
  ioprio = 0;
  fd = fd;
  offset = offset;
  addr = addr;
  len = len;
  uflags = uflags;
  user_data = id;
  anon0 = anon;
}

unfoldable pub entry_of : Request → ℕ → List ℕ → SubmitEntry
unfolding entry
entry_of (accept fd addr socklen flags) id z =
    entry Opcode.accept id 0 (to_i32 fd) socklen addr 0 (to_i32 flags) z
entry_of (close fd) id z = entry Opcode.close id 0 (to_i32 fd) 0 0 0 (pos 0) z
entry_of (connect fd addr socklen) id z =
    entry Opcode.connect id 0 (to_i32 fd) 0 addr socklen (pos 0) z
entry_of (fadvise fd offset len advise) id z =
    entry Opcode.fadvise id 0 (to_i32 fd) offset 0 len (to_i32 advise) z
entry_of (fallocate fd mode offset len) id z =
    entry Opcode.fallocate id 0 (to_i32 fd) (to_u64 offset) (to_u64 len) mode (pos 0) z
entry_of (fsync fd flags) id z = entry Opcode.fsync id 0 (to_i32 fd) 0 0 0 (to_i32 flags) z
entry_of nop id z = entry Opcode.nop id 0 (negsuc 0) 0 0 0 (pos 0) z
entry_of (poll_add fd mask) id z = entry Opcode.poll_add id 0 (to_i32 fd) 0 0 0 (to_i32 mask) z
entry_of (readv fd v offset) id z =
    entry Opcode.readv id 0 (to_i32 fd) (to_u64 offset) v.addr (v.len % 2 ^ 32) (pos 0) z
entry_of (writev fd v offset) id z =
    entry Opcode.writev id 0 (to_i32 fd) (to_u64 offset) v.addr (v.len % 2 ^ 32) (pos 0) z
entry_of (recvmsg fd msg flags) id z =
    entry Opcode.recv_msg id 0 (to_i32 fd) 0 msg 1 (to_i32 flags) z
entry_of (splice in_fd in_off out_fd out_off len flags) id z =
    entry Opcode.splice id 0 (to_i32 out_fd) (offset_of out_off) (offset_of in_off) (to_u32 len)
      (to_i32 flags) (anon_with (to_u32 in_fd))
entry_of (statx dirfd path flags mask stat) id z =
    entry Opcode.statx id 0 (to_i32 dirfd) stat (if path.len == 0 then 0 else path.addr)
      (to_u32 mask) (to_i32 flags) z
entry_of (timeout ts count flags) id z =
    entry Opcode.timeout id 0 (negsuc 0) (to_u64 count) ts 1 (to_i32 flags) z
entry_of (timeout_remove request flags) id z =
    entry Opcode.timeout_remove id 0 (negsuc 0) 0 request 0 (to_i32 flags) z
entry_of (read fd b offset flags) id z =
    entry Opcode.read id flags (to_i32 fd) offset b.addr (b.len % 2 ^ 32) (pos 0) z
entry_of (write fd b offset flags) id z =
    entry Opcode.write id flags (to_i32 fd) offset b.addr (b.len % 2 ^ 32) (pos 0) z
entry_of (read_fixed fd b flags) id z =
    entry Opcode.read_fixed id flags (to_i32 fd) 0 b.addr (b.len % 2 ^ 32) (pos 0) z
entry_of (write_fixed fd b flags) id z =
    entry Opcode.write_fixed id flags (to_i32 fd) 0 b.addr (b.len % 2 ^ 32) (pos 0) z
entry_of (send fd b flags) id z =
    entry Opcode.send id flags (to_i32 fd) 0 b.addr (b.len % 2 ^ 32) (pos 0) z
entry_of (recv fd b flags) id z =
    entry Opcode.recv id flags (to_i32 fd) 0 b.addr (b.len % 2 ^ 32) (pos 0) z

-- The slices whose first element a call takes are not empty.
abbrev pub HasBytes : Request → Type 0
HasBytes (readv fd b offset) = b.len ≢ 0
HasBytes (writev fd b offset) = b.len ≢ 0
HasBytes (read fd b offset flags) = b.len ≢ 0
HasBytes (write fd b offset flags) = b.len ≢ 0
HasBytes (read_fixed fd b flags) = b.len ≢ 0
HasBytes (write_fixed fd b flags) = b.len ≢ 0
HasBytes (send fd b flags) = b.len ≢ 0
HasBytes (recv fd b flags) = b.len ≢ 0
HasBytes _ = Unit
