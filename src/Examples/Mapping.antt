-- ===== src/Examples/Mapping.antt =====
-- MmapRing of uring_setup.go at the parameters of Data.
use iouring_go.Base.{ℕ, ◌≡◌, refl, arith}
use iouring_go.Setup.{SqLayout, CqLayout, ok, mmap_ring}
use iouring_go.Setup.Layout.{Fits, mmap_ring-Fits}
use iouring_go.Examples.Data.{params}

abbrev pub mapping : ℕ → ℕ → ℕ × ℕ
mapping len offset = (65536, 0)

mmap_ring-Fits_example :
    (sq : SqLayout) × (cq : CqLayout) × (mmap_ring mapping params ≡ ok (sq, cq))
    × Fits 65536 65536 65536 params sq cq
mmap_ring-Fits_example =
    mmap_ring-Fits mapping params 65536 65536 65536 (omega arith) refl refl refl (omega arith)
      (omega arith)
