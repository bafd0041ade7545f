-- ===== src/Setup/Layout.antt =====
-- uring_setup.go, MmapRing: the parts that it lays out lie inside the mappings.
use iouring_go.Base.{
  ℕ, ◌+◌, ◌*◌, ◌%◌, ◌^◌, ◌<◌, ◌≤◌, ◌≡◌, ◌≢◌, not, bit_and, ◌==◌, if◌then◌else◌, arith,
}
use iouring_go.Setup.{
  Params, SqLayout, CqLayout, ok, ring_sizes, mmap_ring, sq_ring_offset, sqe_ring_offset,
  cq_ring_offset, sqe_size, sq_layout, cq_layout,
}

-- The region that the kernel's sizes need fits into 32 bits, and addresses do not wrap.
pub record IsSmall (p : Params) : Type 0 where
  pub sq_fits : p.sq_offset.array + p.sq_entries * 4 < 2 ^ 32
  pub cq_fits : p.cq_offset.cqes + p.cq_entries * 16 < 2 ^ 32

-- The part of `n` elements of `w` bytes at `start` lies in the mapping of `size` bytes at `base`.
abbrev pub Inside : ℕ → ℕ → ℕ → ℕ → ℕ → Type 0
Inside base size start n w = (base ≤ start) × (start + n * w ≤ base + size)

pub record Fits (sq_ptr sqe_ptr cq_ptr : ℕ) (p : Params) (sq : SqLayout) (cq : CqLayout)
    : Type 0 where
  pub array_in : Inside sq_ptr sq.size sq.array.base p.sq_entries 4
  pub entries_in :
      Inside sqe_ptr ((p.sq_entries * sqe_size) % 2 ^ 64) sq.entries.base p.sq_entries sqe_size
  pub cqes_in : Inside cq_ptr cq.size cq.entries.base p.cq_entries 16
  pub array_len : sq.array.len ≡ p.sq_entries
  pub entries_len : sq.entries.len ≡ p.sq_entries
  pub cqes_len : cq.entries.len ≡ p.cq_entries
  pub shared : bit_and p.flags 1 ≢ 0 → sq.size ≡ cq.size

-- With one mapping for both rings the completion queue stands in the submission queue's.
abbrev pub cq_base : Params → ℕ → ℕ → ℕ
cq_base p sq_ptr cq_ptr = if not (bit_and p.flags 1 == 0) then sq_ptr else cq_ptr

ring_sizes-fit :
    (p : Params)
    → IsSmall p
    → (p.sq_offset.array + p.sq_entries * 4 ≤ (ring_sizes p).0)
      × (p.cq_offset.cqes + p.cq_entries * 16 ≤ (ring_sizes p).1)
      × ((ring_sizes p).0 < 2 ^ 32)
      × ((ring_sizes p).1 < 2 ^ 32)
      × (bit_and p.flags 1 ≢ 0 → (ring_sizes p).0 ≡ (ring_sizes p).1)
unfolding ring_sizes
ring_sizes-fit p h = ground arith

-- When the first mapping succeeds, the rings fit into 32 bits and no address wraps, MmapRing returns
-- no error, and the three arrays that it lays out, of submission entries, of indices and of completions,
-- have the lengths of the parameters and lie inside their mappings.
pub mmap_ring-Fits :
    (mmap : ℕ → ℕ → ℕ × ℕ) (p : Params) (sq_ptr sqe_ptr cq_ptr : ℕ)
    → IsSmall p
    → mmap (ring_sizes p).0 sq_ring_offset ≡ (sq_ptr, 0)
    → (mmap ((p.sq_entries * sqe_size) % 2 ^ 64) sqe_ring_offset).0 ≡ sqe_ptr
    → (mmap (ring_sizes p).1 cq_ring_offset).0 ≡ cq_ptr
    → sq_ptr < 2 ^ 63
    → cq_ptr < 2 ^ 63
    → (sq : SqLayout) × (cq : CqLayout) × (mmap_ring mmap p ≡ ok (sq, cq))
      × Fits sq_ptr sqe_ptr (cq_base p sq_ptr cq_ptr) p sq cq
unfolding mmap_ring
mmap_ring-Fits mmap p sq_ptr sqe_ptr cq_ptr small e e'' e' a b = (
  sq_layout mmap p (ring_sizes p).0 sq_ptr
      (mmap ((p.sq_entries * sqe_size) % 2 ^ 64) sqe_ring_offset).0,
  cq_layout mmap p (ring_sizes p).1 (cq_base p sq_ptr cq_ptr),
  ground arith,
  ground (arith, ring_sizes-fit p small),
)

-- The regions that were mapped, where MmapRing returns no error.
pub mmap_ring-regions :
    (mmap : ℕ → ℕ → ℕ × ℕ) (p : Params) (sq : SqLayout) (cq : CqLayout)
    → mmap_ring mmap p ≡ ok (sq, cq)
    → (sq.ptr ≡ (mmap (ring_sizes p).0 sq_ring_offset).0)
      × (sq.size ≡ (ring_sizes p).0)
      × (cq.size ≡ (ring_sizes p).1)
      × (cq.ptr ≡ 0)
unfolding mmap_ring
mmap_ring-regions mmap p sq cq h = ground arith
