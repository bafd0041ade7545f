-- ===== src/Fio/Reading.antt =====
-- read_writer.go: Read, Write, ReadAt, WriteAt and Close.
use iouring_go.Base.{ℕ, ◌%◌, ◌^◌, List, Option, some, none, if◌then◌else◌}
use iouring_go.Base.Int.{ℤ, pos, to_u64, eqb}
use iouring_go.Base.Outcome.{M, done, pure, ◌>>=◌, ◌>>◌}
use iouring_go.Entry.{Opcode}
use iouring_go.Submit.{Reservation, submit_entry, commit}
use iouring_go.Ring.{Kernel, on_sq, next_id}
use iouring_go.Ops
use iouring_go.Ops.{Prepared, Bytes, Fill, first, store, user_data_at}
use iouring_go.Ops.Files.{prepare_close}
use iouring_go.Fio.{Fio, IoError, IoResult, nil, eof, ring_unavailable, View, on_ring, get_cqe}

-- What PrepareWrite and PrepareRead return: the id and the callback, or `errRingUnavailable`.
abbrev pub Transfer : Type 0
Transfer = Option (ℕ × Reservation)

-- The assignments of the four functions, which differ in the opcode, the flags and the offset.
abbrev pub transfer_fill : Opcode → ℤ → Bytes → ℕ → ℕ → Fill
transfer_fill opcode fd b flags offset id e = first b λ addr. done (record e {
  opcode = opcode;
  user_data = id;
  fd = fd;
  len = b.len % 2 ^ 32;
  flags = flags;
  offset = offset;
  addr = addr;
})

-- The entry filled, and the id read back from it.
unfoldable pub transfer_in : Fill → Option Reservation → M Fio Transfer
transfer_in fill none = pure none
transfer_in fill (some s) = do
  id ← on_ring next_id
  on_ring (on_sq (store s fill id))
  got ← on_ring (on_sq (user_data_at s))
  pure (some (got, s))

unfoldable pub transfer : ℕ → Fill → M Fio Transfer
unfolding transfer_in
transfer fuel fill = do sqe ← on_ring (on_sq (submit_entry fuel)); transfer_in fill sqe

-- `PrepareWrite` and `PrepareRead`
unfoldable pub prepare_write : ℕ → Bytes → ℕ → M Fio Transfer
unfolding transfer
prepare_write fuel b flags i =
    transfer fuel (transfer_fill Opcode.write i.fd b flags (to_u64 i.offset)) i

unfoldable pub prepare_read : ℕ → Bytes → ℕ → M Fio Transfer
unfolding transfer
prepare_read fuel b flags i =
    transfer fuel (transfer_fill Opcode.read i.fd b flags (to_u64 i.offset)) i

-- The checks of Read and ReadAt on what getCqe returns.
unfoldable pub or_eof : IoResult → IoResult
or_eof (n, nil) = if eqb n (pos 0) then (n, eof) else (n, nil)
or_eof (n, e) = (pos 0, e)

module _ (kernel : Kernel) (fuel : ℕ) (views : List View) where
  -- `ready()`, then getCqe.
  unfoldable pub publish : Transfer → M Fio IoResult
  unfolding get_cqe
  publish none = pure (pos 0, ring_unavailable)
  publish (some (id, s)) = do on_ring (on_sq (commit s)); get_cqe kernel fuel views id 1 1

  -- `Write`
  unfoldable pub write : Bytes → M Fio IoResult
  unfolding prepare_write publish
  write b = do t ← prepare_write fuel b 0; publish t

  -- `Read`
  unfoldable pub read : Bytes → M Fio IoResult
  unfolding prepare_read publish or_eof
  read b = do t ← prepare_read fuel b 0; got ← publish t; pure (or_eof got)

  -- An entry filled and published, and its id read from it when that is done.
  unfoldable pub transfer_at : Fill → Option Reservation → M Fio IoResult
  unfolding get_cqe
  transfer_at fill none = pure (pos 0, ring_unavailable)
  transfer_at fill (some s) = do
    id ← on_ring next_id
    on_ring (on_sq (store s fill id))
    on_ring (on_sq (commit s))
    got ← on_ring (on_sq (user_data_at s))
    get_cqe kernel fuel views got 1 1

  -- `WriteAt`
  unfoldable pub write_at : Bytes → ℤ → M Fio IoResult
  unfolding transfer_at
  write_at b o i =
      (do
        sqe ← on_ring (on_sq (submit_entry fuel))
        transfer_at (transfer_fill Opcode.write i.fd b 0 (to_u64 o)) sqe)
        i

  -- `ReadAt`
  unfoldable pub read_at : Bytes → ℤ → M Fio IoResult
  unfolding transfer_at or_eof
  read_at b o i =
      (do
        sqe ← on_ring (on_sq (submit_entry fuel))
        got ← transfer_at (transfer_fill Opcode.read i.fd b 0 (to_u64 o)) sqe
        pure (or_eof got))
        i

  -- The result of `Close` is the error alone.
  closed : Prepared → M Fio IoError
  unfolding get_cqe
  closed Ops.ring_unavailable = pure ring_unavailable
  closed (Ops.ok id) = do got ← get_cqe kernel fuel views id 1 1; pure got.1

  -- `Close`
  unfoldable pub close : M Fio IoError
  unfolding closed
  close i = (do id ← on_ring (prepare_close fuel i.fd); closed id) i
