-- ===== src/Stop/Unmapped.antt =====
-- ring.go: which regions Stop gives back.
use iouring_go.Base.{ℕ, ◌≡◌, Bool, [], ◌∷◌, none, bit_and, arith}
use iouring_go.Setup.{
  Params, SqLayout, CqLayout, ok, mmap_ring, ring_sizes, sq_ring_offset, feat_single_mmap,
}
use iouring_go.Stop.{
  Open, opened, nil, stop, close_sq, close_cq, close_ring, maybe_close_cq, and_then,
}
use iouring_go.Setup.Layout.{mmap_ring-regions}

-- Once Stop has returned nil, a further Stop gives back no region again, whatever the kernel answers
-- to it.
pub stop_twice :
    (munmap munmap' : ℕ → ℕ → ℕ) (close close' : ℕ) (o o' : Open)
    → stop munmap close o ≡ (nil, o')
    → (stop munmap' close' o').1.unmapped ≡ o'.unmapped
unfolding stop and_then close_sq close_cq close_ring maybe_close_cq
stop_twice munmap munmap' close close' o o' h = ground arith

-- With a mapping for each ring, and a kernel that refuses nothing, New and Stop give back the
-- region of the submission queue, and for that of the completion queue the region at
-- address 0, since MmapRing leaves the field ptr of that queue as it finds it.
pub stop_leaks :
    (mmap : ℕ → ℕ → ℕ × ℕ) (p : Params) (sq : SqLayout) (cq : CqLayout) (submitter : Bool)
    → mmap_ring mmap p ≡ ok (sq, cq)
    → bit_and p.flags feat_single_mmap ≡ 0
    → (o : Open) × (stop (λ ptr size. 0) 0 (opened p sq cq submitter) ≡ (nil, o))
      × (o.unmapped
          ≡ ((mmap (ring_sizes p).0 sq_ring_offset).0, (ring_sizes p).0)
            ∷ (0, (ring_sizes p).1)
            ∷ [])
unfolding stop and_then close_sq close_cq close_ring maybe_close_cq opened
stop_leaks mmap p sq cq submitter h separate = (
  (record (opened p sq cq submitter) {
    sq = none;
    cq = none;
    submitter_stopped = submitter;
    unmapped = (sq.ptr, sq.size) ∷ (cq.ptr, cq.size) ∷ [];
  }),
  ground arith,
  ground (arith, mmap_ring-regions mmap p sq cq h),
)
