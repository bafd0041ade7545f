-- ===== src/Entry.antt =====
-- consts.go: the opcodes; types.go: SubmitEntry and CompletionEntry with their methods.
use iouring_go.Base.{ℕ, Bool, ◌&&◌, List, ◌==◌}
use iouring_go.Base.Int.{ℤ, pos, negsuc}

-- `type Opcode uint8` with its constants, in the order of their values.
pub data Opcode : Type 0 where
  nop readv writev fsync read_fixed write_fixed poll_add poll_remove : Opcode
  sync_file_range send_msg recv_msg timeout timeout_remove accept : Opcode
  async_cancel link_timeout connect fallocate open_at close files_update : Opcode
  statx read write fadvise madvise send recv openat2 epoll_ctl splice : Opcode
  provide_buffers remove_buffers : Opcode

-- A submission queue entry. `fd` and `uflags` are int32, the others unsigned; `anon0` is the
-- padding of 24 bytes.
pub record SubmitEntry : Type 0 where
  pub opcode : Opcode
  pub flags : ℕ
  pub ioprio : ℕ
  pub fd : ℤ
  pub offset : ℕ
  pub addr : ℕ
  pub len : ℕ
  pub uflags : ℤ
  pub user_data : ℕ
  pub anon0 : List ℕ

-- `(*SubmitEntry).Reset`: the padding is left as it is.
unfoldable pub reset : SubmitEntry → SubmitEntry
reset e = record e {
  opcode = Opcode.nop;
  flags = 0;
  ioprio = 0;
  fd = negsuc 0;
  offset = 0;
  addr = 0;
  len = 0;
  uflags = pos 0;
  user_data = 0;
}

-- A completion queue entry; `res` is an int32.
pub record CompletionEntry : Type 0 where
  pub user_data : ℕ
  pub res : ℤ
  pub flags : ℕ

abbrev pub is_zero_ℤ : ℤ → Bool
is_zero_ℤ (pos n) = n == 0
is_zero_ℤ (negsuc n) = Bool.false

-- `(*CompletionEntry).IsZero`
unfoldable pub is_zero : CompletionEntry → Bool
is_zero c = c.user_data == 0 && is_zero_ℤ c.res && c.flags == 0
