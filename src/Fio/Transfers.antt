-- ===== src/Fio/Transfers.antt =====
-- read_writer.go: a transfer from its entry to its completion.
use iouring_go.Base.{ℕ, suc, ◌+◌, ◌%◌, ◌^◌, ◌≡◌, ◌≢◌, refl, List, arith}
use iouring_go.Base.Int.{ℤ, pos, to_u64}
use iouring_go.Base.Outcome.{M, done}
use iouring_go.Entry
use iouring_go.Entry.{SubmitEntry, CompletionEntry, Opcode}
use iouring_go.Submit.Slots.{submit_entry-at, slot_present}
use iouring_go.Ring.{Kernel, enter_get_events}
use iouring_go.Ring.Entering.{answer_of}
use iouring_go.Ops.{Bytes}
use iouring_go.Ops.Prepare.{IsReady, after}
use iouring_go.Fio.{Fio, IoResult, View}
use iouring_go.Fio.Finding.{Took}
use iouring_go.Fio.Reading
use iouring_go.Fio.Staging.{entered, Completes, transfer-staged, publish-Took, transfer_at-Took}

-- The four transfers.
pub data Io : Type 0 where
  read write : Bytes → Io
  read_at write_at : Bytes → ℤ → Io

abbrev pub run_io : Kernel → ℕ → List View → Io → M Fio IoResult
run_io kernel fuel views (read b) = Reading.read kernel fuel views b
run_io kernel fuel views (write b) = Reading.write kernel fuel views b
run_io kernel fuel views (read_at b o) = Reading.read_at kernel fuel views b o
run_io kernel fuel views (write_at b o) = Reading.write_at kernel fuel views b o

abbrev pub bytes_of : Io → Bytes
bytes_of (read b) = b
bytes_of (write b) = b
bytes_of (read_at b o) = b
bytes_of (write_at b o) = b

-- The entry of a transfer: at the given offset, or at the one of the file.
abbrev pub transfer_entry : Opcode → ℤ → Bytes → ℕ → ℕ → List ℕ → SubmitEntry
transfer_entry opcode fd b offset id anon = record {
  opcode = opcode;
  flags = 0;
  ioprio = 0;
  fd = fd;
  offset = offset;
  addr = b.addr;
  len = b.len % 2 ^ 32;
  uflags = pos 0;
  user_data = id;
  anon0 = anon;
}

abbrev pub io_entry : Io → Fio → List ℕ → SubmitEntry
io_entry (read b) i anon =
    transfer_entry Opcode.read i.fd b (to_u64 i.offset) ((i.ring.idx + 1) % 2 ^ 64) anon
io_entry (write b) i anon =
    transfer_entry Opcode.write i.fd b (to_u64 i.offset) ((i.ring.idx + 1) % 2 ^ 64) anon
io_entry (read_at b o) i anon =
    transfer_entry Opcode.read i.fd b (to_u64 o) ((i.ring.idx + 1) % 2 ^ 64) anon
io_entry (write_at b o) i anon =
    transfer_entry Opcode.write i.fd b (to_u64 o) ((i.ring.idx + 1) % 2 ^ 64) anon

-- What a transfer makes of the result of getCqe.
abbrev pub io_result : Io → IoResult → IoResult
io_result (read b) r = Reading.or_eof r
io_result (write b) r = r
io_result (read_at b o) r = Reading.or_eof r
io_result (write_at b o) r = r

-- Read, Write, ReadAt and WriteAt, on a ring that is ready and with a slice that is not empty, when
-- the kernel takes the entry and its completion appears: they publish one entry, at the offset of
-- the file or at the one given, enter the ring once, and return as getCqe does, with io.EOF
-- for a read of nothing. The offset of the file moves by the result in all four.
pub run_io-Took :
    (kernel : Kernel) (k fuel x : ℕ) (i : Fio) (q : Io) (cqe : CompletionEntry) (views : List View)
    → IsReady k i.ring
    → (bytes_of q).len ≢ 0
    → Completes ((i.ring.idx + 1) % 2 ^ 64) x cqe views
    → ((anon : List ℕ)
        → (answer_of kernel 1 1 enter_get_events (after k i.ring (io_entry q i anon))).errno ≡ 0)
    → (e : SubmitEntry) × (r : IoResult) × (i' : Fio) × (run_io kernel (suc fuel) views q i
        ≡ done (io_result q r, i'))
      × Took
          (record i { ring = entered kernel (after k i.ring (io_entry q i e.anon0)) })
          x
          cqe.res
          r
          i'
unfolding Reading.read Reading.write Reading.read_at Reading.write_at Reading.prepare_read
    Reading.prepare_write Entry.reset
run_io-Took kernel k fuel x i (write b) cqe views ready h c good =
    let (e, at) = slot_present ready.valid in
    let e' = io_entry (write b) i e.anon0 in
    let (r, i', f, t) = publish-Took i ready kernel c fuel e e' refl (good e.anon0) in
    (
      e,
      r,
      i',
      ground (
        arith,
        transfer-staged {i = i} ready fuel
            (Reading.transfer_fill Opcode.write i.fd b 0 (to_u64 i.offset)) {e = e} {e' = e'} at
            (ground arith),
        f,
      ),
      t,
    )
run_io-Took kernel k fuel x i (read b) cqe views ready h c good =
    let (e, at) = slot_present ready.valid in
    let e' = io_entry (read b) i e.anon0 in
    let (r, i', f, t) = publish-Took i ready kernel c fuel e e' refl (good e.anon0) in
    (
      e,
      r,
      i',
      ground (
        arith,
        transfer-staged {i = i} ready fuel
            (Reading.transfer_fill Opcode.read i.fd b 0 (to_u64 i.offset)) {e = e} {e' = e'} at
            (ground arith),
        f,
      ),
      t,
    )
run_io-Took kernel k fuel x i (write_at b o) cqe views ready h c good =
    let (e, at) = slot_present ready.valid in
    let e' = io_entry (write_at b o) i e.anon0 in
    let (r, i', f, t) =
      transfer_at-Took i ready kernel c fuel
        (Reading.transfer_fill Opcode.write i.fd b 0 (to_u64 o)) e e' at (ground arith) refl
        (good e.anon0) in
    (e, r, i', ground (arith, submit_entry-at k fuel i.ring.sq ready.valid ready.free at, f), t)
run_io-Took kernel k fuel x i (read_at b o) cqe views ready h c good =
    let (e, at) = slot_present ready.valid in
    let e' = io_entry (read_at b o) i e.anon0 in
    let (r, i', f, t) =
      transfer_at-Took i ready kernel c fuel (Reading.transfer_fill Opcode.read i.fd b 0 (to_u64 o))
        e e' at (ground arith) refl (good e.anon0) in
    (e, r, i', ground (arith, submit_entry-at k fuel i.ring.sq ready.valid ready.free at, f), t)
