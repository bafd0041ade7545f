-- ===== src/Standalone/Agreement.antt =====
-- examples/standalone/main.go against uring_setup.go.
use iouring_go.Base.{ℕ, ◌*◌, ◌%◌, ◌^◌, ◌≡◌, bit_and, arith}
use iouring_go.Setup
use iouring_go.Setup.{SqLayout, ring_sizes}
use iouring_go.Standalone.{Params, CqLayout, mmap_ring, sqe_ring_offset, cq_ring_offset, sqe_size}

-- The library's parameters, and its layout of a completion queue, without the flags of the queue.
abbrev pub bare : Setup.Params → Params
bare p = record {
  sq_entries = p.sq_entries;
  cq_entries = p.cq_entries;
  flags = p.flags;
  sq_thread_cpu = p.sq_thread_cpu;
  sq_thread_idle = p.sq_thread_idle;
  features = p.features;
  wq_fd = p.wq_fd;
  sq_off = p.sq_offset;
  cq_off = record {
    head = p.cq_offset.head;
    tail = p.cq_offset.tail;
    mask = p.cq_offset.ring_mask;
    entries = p.cq_offset.entries;
    overflow = p.cq_offset.overflow;
    cqes = p.cq_offset.cqes;
  };
}

abbrev pub bare_cq : Setup.CqLayout → CqLayout
bare_cq c = record {
  size = c.size;
  head = c.head;
  tail = c.tail;
  mask = c.mask;
  overflow = c.overflow;
  entries = c.entries;
}

abbrev pub bare_mapped :
    Setup.Result (SqLayout × Setup.CqLayout) → Setup.Result (SqLayout × CqLayout)
bare_mapped (Setup.ok (sq, cq)) = Setup.ok (sq, bare_cq cq)
bare_mapped (Setup.err e) = Setup.err e

-- When the parameters do not have the flag for a single mapping, and the second and the third mapping do
-- not fail, the MmapRing of the example lays out the queues where that of the library does, or fails
-- with it.
pub mmap_ring-agrees :
    (mmap : ℕ → ℕ → ℕ × ℕ) (p : Setup.Params)
    → bit_and p.flags 1 ≡ 0
    → (mmap ((p.sq_entries * sqe_size) % 2 ^ 64) sqe_ring_offset).1 ≡ 0
    → (mmap (ring_sizes p).1 cq_ring_offset).1 ≡ 0
    → mmap_ring mmap (bare p) ≡ bare_mapped (Setup.mmap_ring mmap p)
unfolding mmap_ring Setup.mmap_ring ring_sizes
mmap_ring-agrees mmap p two e e' = ground arith
