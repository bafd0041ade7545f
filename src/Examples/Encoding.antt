-- ===== src/Examples/Encoding.antt =====
-- ops.go: entries read back; examples/standalone/main.go: the same mappings.
use iouring_go.Base.{ℕ, ◌≡◌, refl, arith}
use iouring_go.Base.Int.{pos}
use iouring_go.Setup
use iouring_go.Setup.{Params}
use iouring_go.Ops.Requests.{Request}
use iouring_go.Ops.Published.{call-sqe_at}
use iouring_go.Ops.Decoding.{call-injective}
use iouring_go.Standalone.{mmap_ring}
use iouring_go.Standalone.Agreement.{bare, bare_mapped, mmap_ring-agrees}
use iouring_go.Examples.Data.{params, small_ring}
use iouring_go.Examples.Preparing.{small_ring-IsReady, buffer}
use iouring_go.Examples.Mapping.{mapping}

abbrev readv_of : Request
readv_of = Request.readv (pos 5) buffer (pos 512)

call-injective_example : (readv_of ≡ readv_of) × (◌≡◌ {A = ℕ} 1 1)
call-injective_example =
    let (e, r', called, at, taken, kept, ready) =
      call-sqe_at 1 0 small_ring readv_of small_ring-IsReady (omega arith) refl in
    call-injective 1 0 small_ring small_ring readv_of readv_of small_ring-IsReady small_ring-IsReady
      (omega arith) (omega arith) (omega arith, omega arith, omega arith)
      (omega arith, omega arith, omega arith) refl refl called called refl

abbrev apart : Params
apart = record params { flags = 0 }

mmap_ring-agrees_example :
    mmap_ring mapping (bare apart) ≡ bare_mapped (Setup.mmap_ring mapping apart)
mmap_ring-agrees_example = mmap_ring-agrees mapping apart refl refl refl
