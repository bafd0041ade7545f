-- ===== src/Standalone.antt =====
-- examples/standalone/main.go: Setup, MmapRing and Enter of a program that does not use the library.
pub mod Agreement
pub mod Program
pub mod Copied
pub mod Whole
pub mod Ends
use iouring_go.Base.{ℕ, ◌+◌, ◌*◌, ◌%◌, ◌^◌, not, ◌==◌, if◌then◌else◌}
use iouring_go.Base.Int.{ℤ, of_bits}
use iouring_go.Setup
use iouring_go.Setup.{SqRingOffset, SqLayout, Slice, at}
use iouring_go.Ring

-- CqOffset has no flags; the reserved fields are left out, and SqOffset is that of the library.
pub record CqOffset : Type 0 where
  pub head : ℕ
  pub tail : ℕ
  pub mask : ℕ
  pub entries : ℕ
  pub overflow : ℕ
  pub cqes : ℕ

pub record Params : Type 0 where
  pub sq_entries : ℕ
  pub cq_entries : ℕ
  pub flags : ℕ
  pub sq_thread_cpu : ℕ
  pub sq_thread_idle : ℕ
  pub features : ℕ
  pub wq_fd : ℕ
  pub sq_off : SqRingOffset
  pub cq_off : CqOffset

-- The offsets to map at, and the sizes of the elements.
abbrev pub sq_ring_offset : ℕ
sq_ring_offset = 0

abbrev pub cq_ring_offset : ℕ
cq_ring_offset = 0x8000000

abbrev pub sqe_ring_offset : ℕ
sqe_ring_offset = 0x10000000

abbrev pub uint32_size : ℕ
uint32_size = 4

abbrev pub cqe_size : ℕ
cqe_size = 16

abbrev pub sqe_size : ℕ
sqe_size = 64

-- Where the parts of the completion queue are; `Setup.SqLayout` serves for the other.
pub record CqLayout : Type 0 where
  pub size : ℕ
  pub head : ℕ
  pub tail : ℕ
  pub mask : ℕ
  pub overflow : ℕ
  pub entries : Slice

-- `Setup`
unfoldable pub setup : (ℕ → Params → ℕ × ℕ) → ℕ → Params → Setup.Result ℕ
setup syscall entries params =
    let (fd, errno) = syscall entries params in
    if not (errno == 0) then Setup.err errno else Setup.ok fd

-- `MmapRing`, which maps the two rings apart and tests each errno.
module _ (mmap : ℕ → ℕ → ℕ × ℕ) (p : Params) where
  cq_mapped : ℕ → ℕ → CqLayout
  cq_mapped size ptr = record {
    size = size;
    head = at ptr p.cq_off.head;
    tail = at ptr p.cq_off.tail;
    mask = at ptr p.cq_off.mask;
    overflow = at ptr p.cq_off.overflow;
    entries = record { base = at ptr p.cq_off.cqes; len = p.cq_entries };
  }

  map_cq : SqLayout → Setup.Result (SqLayout × CqLayout)
  unfolding cq_mapped
  map_cq sq =
      let size : ℕ = (p.cq_off.cqes + p.cq_entries * cqe_size) % 2 ^ 32 in
      let (cq_ptr, errno) = mmap size cq_ring_offset in
      if not (errno == 0) then Setup.err errno else Setup.ok (sq, cq_mapped size cq_ptr)

  unfoldable pub mmap_ring : Setup.Result (SqLayout × CqLayout)
  unfolding map_cq
  mmap_ring =
      let size : ℕ = (p.sq_off.array + p.sq_entries * uint32_size) % 2 ^ 32 in
      let (sq_ptr, errno) = mmap size sq_ring_offset in
      let (sqe_ptr, errno') = mmap ((p.sq_entries * sqe_size) % 2 ^ 64) sqe_ring_offset in
      if not (errno == 0)
      then Setup.err errno
      else if not (errno' == 0)
      then Setup.err errno'
      else map_cq (record {
        size = size;
        ptr = sq_ptr;
        head = at sq_ptr p.sq_off.head;
        tail = at sq_ptr p.sq_off.tail;
        mask = at sq_ptr p.sq_off.ring_mask;
        flags = at sq_ptr p.sq_off.flags;
        dropped = at sq_ptr p.sq_off.dropped;
        entries = record { base = sqe_ptr; len = p.sq_entries };
        array = record { base = at sq_ptr p.sq_off.array; len = p.sq_entries };
      })

-- `Enter`: what the result and the errno become.
unfoldable pub enter_result : ℕ → ℕ → Ring.Result ℤ
enter_result res errno = if not (errno == 0) then Ring.err errno else Ring.ok (of_bits 64 res)
