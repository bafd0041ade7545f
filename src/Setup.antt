-- ===== src/Setup.antt =====
-- uring_setup.go: Setup and MmapRing; types.go: Params and the ring offsets.
pub mod Layout
use iouring_go.Base.{
  ℕ, ◌+◌, ◌-◌, ◌*◌, ◌%◌, ◌^◌, ◌≡◌, not, Bool, true, Option, none, some, bit_and, ◌==◌, ltb,
  if◌then◌else◌,
}

pub record SqRingOffset : Type 0 where
  pub head : ℕ
  pub tail : ℕ
  pub ring_mask : ℕ
  pub entries : ℕ
  pub flags : ℕ
  pub dropped : ℕ
  pub array : ℕ

pub record CqRingOffset : Type 0 where
  pub head : ℕ
  pub tail : ℕ
  pub ring_mask : ℕ
  pub entries : ℕ
  pub overflow : ℕ
  pub cqes : ℕ
  pub flags : ℕ

-- Reserved fields are left out; every field is a uint32.
pub record Params : Type 0 where
  pub sq_entries : ℕ
  pub cq_entries : ℕ
  pub flags : ℕ
  pub sq_thread_cpu : ℕ
  pub sq_thread_idle : ℕ
  pub features : ℕ
  pub wq_fd : ℕ
  pub sq_offset : SqRingOffset
  pub cq_offset : CqRingOffset

abbrev pub feat_single_mmap : ℕ
feat_single_mmap = 1

abbrev pub feat_no_drop : ℕ
feat_no_drop = 2

-- The offsets to map the three regions at.
abbrev pub sq_ring_offset : ℕ
sq_ring_offset = 0

abbrev pub cq_ring_offset : ℕ
cq_ring_offset = 0x8000000

abbrev pub sqe_ring_offset : ℕ
sqe_ring_offset = 0x10000000

-- `unsafe.Sizeof` of uint32, CompletionEntry and SubmitEntry.
abbrev pub uint32_size : ℕ
uint32_size = 4

abbrev pub cqe_size : ℕ
cqe_size = 16

abbrev pub sqe_size : ℕ
sqe_size = 64

-- A slice made over mapped memory.
pub record Slice : Type 0 where
  pub base : ℕ
  pub len : ℕ

-- Where MmapRing puts the parts of the submission queue, and of the completion queue.
pub record SqLayout : Type 0 where
  pub size : ℕ
  pub ptr : ℕ
  pub head : ℕ
  pub tail : ℕ
  pub mask : ℕ
  pub flags : ℕ
  pub dropped : ℕ
  pub entries : Slice
  pub array : Slice

pub record CqLayout : Type 0 where
  pub size : ℕ
  pub ptr : ℕ
  pub head : ℕ
  pub tail : ℕ
  pub mask : ℕ
  pub overflow : ℕ
  pub flags : ℕ
  pub entries : Slice

-- `CompletionQueue{}`, which New hands to MmapRing.
abbrev pub zero_cq : CqLayout
zero_cq = record {
  size = 0;
  ptr = 0;
  head = 0;
  tail = 0;
  mask = 0;
  overflow = 0;
  flags = 0;
  entries = record { base = 0; len = 0 };
}

pub data Result {ℓ} (A : Type ℓ) : Type ℓ where
  ok : A → Result A
  err : ℕ → Result A

-- `Setup`; the system call gives a descriptor and an errno.
unfoldable pub setup : (ℕ → Params → ℕ × ℕ) → ℕ → Params → Result ℕ
setup syscall entries p =
    let (fd, errno) = syscall entries p in if not (errno == 0) then err errno else ok fd

-- The sizes of the two rings, on uint32.
unfoldable pub ring_sizes : Params → ℕ × ℕ
ring_sizes p =
    let sq : ℕ = (p.sq_offset.array + p.sq_entries * uint32_size) % 2 ^ 32 in
    let cq : ℕ = (p.cq_offset.cqes + p.cq_entries * cqe_size) % 2 ^ 32 in
    if not (bit_and p.flags feat_single_mmap == 0)
    then (if ltb sq cq then (cq, cq) else (sq, sq))
    else (sq, cq)

-- A pointer into the mapping at `base`, on 64 bits.
abbrev pub at : ℕ → ℕ → ℕ
at base offset = (base + offset) % 2 ^ 64

-- `MmapRing`. `mmap` gives the address and the errno for a length and an offset. The errno of the
-- second and the third mapping is tested by `errno < 0`, and it is an unsigned number.
module _ (mmap : ℕ → ℕ → ℕ × ℕ) (p : Params) where
  sq_layout : ℕ → ℕ → ℕ → SqLayout
  sq_layout size ptr sqe_ptr = record {
    size = size;
    ptr = ptr;
    head = at ptr p.sq_offset.head;
    tail = at ptr p.sq_offset.tail;
    mask = at ptr p.sq_offset.ring_mask;
    flags = at ptr p.sq_offset.flags;
    dropped = at ptr p.sq_offset.dropped;
    entries = record { base = sqe_ptr; len = p.sq_entries };
    array = record { base = at ptr p.sq_offset.array; len = p.sq_entries };
  }

  -- The fields that are assigned; `ptr` is not one of them.
  cq_layout : ℕ → ℕ → CqLayout
  cq_layout size ptr = record zero_cq {
    size = size;
    head = at ptr p.cq_offset.head;
    tail = at ptr p.cq_offset.tail;
    mask = at ptr p.cq_offset.ring_mask;
    overflow = at ptr p.cq_offset.overflow;
    flags = at ptr p.cq_offset.flags;
    entries = record { base = at ptr p.cq_offset.cqes; len = p.cq_entries };
  }

  map_cq : ℕ → ℕ → SqLayout → Result (SqLayout × CqLayout)
  unfolding cq_layout
  map_cq sq_ptr cq_size sq =
      let (cq_ptr, errno) = mmap cq_size cq_ring_offset in
      if not (bit_and p.flags feat_single_mmap == 0)
      then ok (sq, cq_layout cq_size sq_ptr)
      else if ltb errno 0
      then err (2 ^ 64 - errno)
      else ok (sq, cq_layout cq_size cq_ptr)

  unfoldable pub mmap_ring : Result (SqLayout × CqLayout)
  unfolding ring_sizes sq_layout map_cq
  mmap_ring =
      let (sq_size, cq_size) = ring_sizes p in
      let (sq_ptr, errno) = mmap sq_size sq_ring_offset in
      let (sqe_ptr, errno') = mmap ((p.sq_entries * sqe_size) % 2 ^ 64) sqe_ring_offset in
      if not (errno == 0)
      then err errno
      else if ltb errno' 0
      then err (2 ^ 64 - errno')
      else map_cq sq_ptr cq_size (sq_layout sq_size sq_ptr sqe_ptr)
