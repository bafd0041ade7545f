-- ===== src/Ops/Encoding.antt =====
-- ops.go: every Prepare function writes the entry of its operation.
use iouring_go.Base.{ℕ, suc, ◌+◌, ◌%◌, ◌^◌, ◌≡◌, refl, some, get_elem?, arith}
use iouring_go.Base.Outcome.{done}
use iouring_go.Entry
use iouring_go.Entry.{SubmitEntry}
use iouring_go.Ring.{Ring}
use iouring_go.Ops.{ok}
use iouring_go.Ops.Files.{
  prepare_close, prepare_fadvise, prepare_fallocate, prepare_fsync, prepare_readv, prepare_writev,
  prepare_read, prepare_read_fixed, prepare_write, prepare_write_fixed,
}
use iouring_go.Ops.Net.{
  prepare_accept, prepare_connect, prepare_recvmsg, prepare_send, prepare_recv,
}
use iouring_go.Ops.Misc.{
  prepare_nop, prepare_poll_add, prepare_timeout, prepare_timeout_remove, prepare_splice,
  prepare_statx,
}
use iouring_go.Ops.Requests.{Request, call, entry_of, HasBytes}
use iouring_go.Ops.Prepare.{IsReady, slot_of, after, prepare-after}

module _ {k : ℕ} {r : Ring} (ready : IsReady k r) where
  -- Each Prepare function, called on a ready ring with slices that are not empty, returns the next id
  -- and leaves the entry that ops.go fills for its operation, with that id, in the next slot, with the
  -- tail one past the slot, the masked head at that slot of the array, and as many writers as before.
  pub call-after :
      (fuel : ℕ) (q : Request) {e : SubmitEntry}
      → HasBytes q
      → get_elem? r.sq.entries (slot_of k r) ≡ some e
      → call (suc fuel) q r
        ≡ done (ok ((r.idx + 1) % 2 ^ 64), after k r (entry_of q ((r.idx + 1) % 2 ^ 64) e.anon0))
  unfolding call entry_of Entry.reset prepare_accept prepare_close prepare_connect prepare_fadvise
      prepare_fallocate prepare_fsync prepare_nop prepare_poll_add prepare_recvmsg prepare_splice
      prepare_statx prepare_timeout prepare_timeout_remove prepare_readv prepare_writev prepare_read
      prepare_write prepare_read_fixed prepare_write_fixed prepare_send prepare_recv
  call-after fuel (Request.accept fd addr socklen flags) h at = prepare-after ready fuel _ at refl
  call-after fuel (Request.close fd) h at = prepare-after ready fuel _ at refl
  call-after fuel (Request.connect fd addr socklen) h at = prepare-after ready fuel _ at refl
  call-after fuel (Request.fadvise fd offset len advise) h at = prepare-after ready fuel _ at refl
  call-after fuel (Request.fallocate fd mode offset len) h at = prepare-after ready fuel _ at refl
  call-after fuel (Request.fsync fd flags) h at = prepare-after ready fuel _ at refl
  call-after fuel (Request.nop) h at = prepare-after ready fuel _ at refl
  call-after fuel (Request.poll_add fd mask) h at = prepare-after ready fuel _ at refl
  call-after fuel (Request.recvmsg fd msg flags) h at = prepare-after ready fuel _ at refl
  call-after fuel (Request.splice in_fd in_off out_fd out_off len flags) h at =
      prepare-after ready fuel _ at refl
  call-after fuel (Request.statx dirfd path flags mask stat) h at =
      prepare-after ready fuel _ at refl
  call-after fuel (Request.timeout ts count flags) h at = prepare-after ready fuel _ at refl
  call-after fuel (Request.timeout_remove request flags) h at = prepare-after ready fuel _ at refl
  call-after fuel (Request.readv fd b offset) h at = prepare-after ready fuel _ at (ground arith)
  call-after fuel (Request.writev fd b offset) h at = prepare-after ready fuel _ at (ground arith)
  call-after fuel (Request.read fd b offset flags) h at =
      prepare-after ready fuel _ at (ground arith)
  call-after fuel (Request.write fd b offset flags) h at =
      prepare-after ready fuel _ at (ground arith)
  call-after fuel (Request.read_fixed fd b flags) h at =
      prepare-after ready fuel _ at (ground arith)
  call-after fuel (Request.write_fixed fd b flags) h at =
      prepare-after ready fuel _ at (ground arith)
  call-after fuel (Request.send fd b flags) h at = prepare-after ready fuel _ at (ground arith)
  call-after fuel (Request.recv fd b flags) h at = prepare-after ready fuel _ at (ground arith)
