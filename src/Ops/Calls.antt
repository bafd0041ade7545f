-- ===== src/Ops/Calls.antt =====
-- ops.go: the calls that prepare an entry and wait for its completion.
use iouring_go.Base.{ℕ, if◌then◌else◌}
use iouring_go.Base.Int.{ℤ, pos, is_neg, ◌-ℤ◌, to_i32, to_u64}
use iouring_go.Base.Outcome.{M, pure, ◌>>=◌}
use iouring_go.Ring.{Ring}
use iouring_go.Ops.{Prepared, ok, ring_unavailable, Bytes, PointerVar}
use iouring_go.Ops.Files.{prepare_close, prepare_fadvise, prepare_fallocate, prepare_fsync}
use iouring_go.Ops.Net.{prepare_send, prepare_recv}
use iouring_go.Ops.Misc.{prepare_nop, prepare_poll_add, prepare_splice, prepare_statx}

-- What a call returns: nil, `errRingUnavailable`, or an errno.
pub data Finished : Type 0 where
  nil : Finished
  unavailable : Finished
  errno : ℕ → Finished

-- `syscall.Errno(-res)` for an int32.
abbrev pub errno_of : ℤ → ℕ
errno_of res = to_u64 (to_i32 (pos 0 -ℤ res))

-- What `Splice` returns: a number of bytes, or an error.
abbrev pub Spliced : Type 0
Spliced = ℤ × Finished

-- `complete(id)` gives the result and the flags with which the run loop signals the request `id`.
module _ (complete : ℕ → ℤ × ℕ) where
  finish : ℤ → Finished
  finish res = if is_neg res then errno (errno_of res) else nil

  -- `id, err := …; errno, _ := r.complete(id); if errno < 0 …`
  wait : Prepared → M Ring Finished
  unfolding finish
  wait ring_unavailable = pure unavailable
  wait (ok id) = pure (finish (complete id).0)

  -- `Close`
  unfoldable pub close : ℕ → ℤ → M Ring Finished
  unfolding wait
  close fuel fd = do id ← prepare_close fuel fd; wait id

  -- `Fadvise`
  unfoldable pub fadvise : ℕ → ℤ → ℕ → ℕ → ℤ → M Ring Finished
  unfolding wait
  fadvise fuel fd offset n advise = do id ← prepare_fadvise fuel fd offset n advise; wait id

  -- `Fallocate`
  unfoldable pub fallocate : ℕ → ℤ → ℕ → ℤ → ℤ → M Ring Finished
  unfolding wait
  fallocate fuel fd mode offset n = do id ← prepare_fallocate fuel fd mode offset n; wait id

  -- `Fsync`
  unfoldable pub fsync : ℕ → ℤ → ℤ → M Ring Finished
  unfolding wait
  fsync fuel fd flags = do id ← prepare_fsync fuel fd flags; wait id

  -- `Nop`
  unfoldable pub nop : ℕ → M Ring Finished
  unfolding wait
  nop fuel = do id ← prepare_nop fuel; wait id

  -- `PollAdd`
  unfoldable pub poll_add : ℕ → ℤ → ℤ → M Ring Finished
  unfolding wait
  poll_add fuel fd mask = do id ← prepare_poll_add fuel fd mask; wait id

  -- `Statx`
  unfoldable pub statx : ℕ → ℤ → Bytes → ℤ → ℤ → ℕ → M Ring Finished
  unfolding wait
  statx fuel dirfd path flags mask stat = do
    id ← prepare_statx fuel dirfd path flags mask stat
    wait id

  -- `Send`
  unfoldable pub send : ℕ → ℤ → Bytes → ℕ → M Ring Finished
  unfolding wait
  send fuel fd b flags = do id ← prepare_send fuel fd b flags; wait id

  -- `Recv`
  unfoldable pub recv : ℕ → ℤ → Bytes → ℕ → M Ring Finished
  unfolding wait
  recv fuel fd b flags = do id ← prepare_recv fuel fd b flags; wait id

  -- `errno, res := r.complete(id)`: the second value is that of the flags.
  finish_splice : Prepared → M Ring Spliced
  finish_splice ring_unavailable = pure (pos 0, unavailable)
  finish_splice (ok id) = pure (
      let (err, res) = complete id in
      if is_neg err then (pos 0, errno (errno_of err)) else (pos res, nil))

  unfoldable pub splice : ℕ → ℤ → PointerVar → ℤ → PointerVar → ℤ → ℤ → M Ring Spliced
  unfolding finish_splice
  splice fuel in_fd in_off out_fd out_off n flags = do
    id ← prepare_splice fuel in_fd in_off out_fd out_off n flags
    finish_splice id
