-- ===== src/Examples/Stopping.antt =====
-- Stop of ring.go after a mapping for each ring.
use iouring_go.Base.{◌+◌, ℕ, ◌≡◌, refl, [], ◌∷◌, false}
use iouring_go.Setup.{Params, SqLayout, CqLayout, ok, mmap_ring, ring_sizes, sq_ring_offset}
use iouring_go.Stop.{Open, opened, nil, stop}
use iouring_go.Stop.Unmapped.{stop_leaks}
use iouring_go.Examples.Data.{params}

abbrev separate : Params
separate = record params { flags = 0 }

abbrev mapping : ℕ → ℕ → ℕ × ℕ
mapping len offset = (65536 + offset, 0)

abbrev sq : SqLayout
sq = record {
  size = 72;
  ptr = 65536;
  head = 65536;
  tail = 65540;
  mask = 65544;
  flags = 65552;
  dropped = 65556;
  entries = record { base = 65536 + 0x10000000; len = 2 };
  array = record { base = 65600; len = 2 };
}

abbrev cq : CqLayout
cq = record {
  size = 192;
  ptr = 0;
  head = 65560 + 0x8000000;
  tail = 65564 + 0x8000000;
  mask = 65568 + 0x8000000;
  overflow = 65576 + 0x8000000;
  flags = 65580 + 0x8000000;
  entries = record { base = 65664 + 0x8000000; len = 4 };
}

both_mapped : mmap_ring mapping separate ≡ ok (sq, cq)
unfolding mmap_ring ring_sizes
both_mapped = refl

stop_leaks_example :
    (o : Open) × (stop (λ ptr size. 0) 0 (opened separate sq cq false) ≡ (nil, o))
    × (o.unmapped
        ≡ ((mapping (ring_sizes separate).0 sq_ring_offset).0, (ring_sizes separate).0)
          ∷ (0, (ring_sizes separate).1)
          ∷ [])
stop_leaks_example = stop_leaks mapping separate sq cq false both_mapped refl
